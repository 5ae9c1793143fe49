-- ===== src/Lib.antt =====
-- autonomous-llm-bot is a Discord bot that runs one language model agent per channel: the agent
-- calls tools step by step, keeps an authoritative record of what it holds true, and ends in one
-- terminal state. This library models the parts that decide: who may act, what is true, what is
-- refused, what is kept, and how a run ends.
--
-- Parts, and how they meet:
--   * Authz (authz.py, and `authorize_caller` of bot.py): the decision that every command passes.
--   * Steering (steering.py): the mailbox through which a user steers a running agent; the loop
--     of bot.py drains it between two steps and closes it when the run settles.
--   * Outcome (outcome.py): the terminal state of a run, written once.
--   * Ledger (ledger.py): hypotheses, evidence and conclusions. The tool `record_state` and the
--     checkpoints of bot.py send it batches. State has the data, AddEvidence, Hypotheses and
--     Premises the methods, Duplicates the tests for texts that say the same (and
--     Duplicates.Blocks that they end), Batch and Apply the batch `apply_updates_with_status`,
--     Markers the markers and the snapshot, Restore what `from_dict` makes of one. Rules,
--     Reopening, History, Validity, Retraction and Registering prove what the methods keep, Calls
--     what any sequence of calls keeps, Refinement that a batch is such a sequence, Batches what
--     follows for batches, Loopholes where the code does less than its rules; Keyed, Snapshot and
--     Restoring that snapshots are read back.
--   * Payload (bot.py): the messages of a request to the model. Announce, Answers and Rebuild are
--     the three passes of `validate_chat_payload`, Groups says what a deliverable payload is,
--     Collected, Answering, Repaired, System and Repair that the passes make one, Early where no
--     defect is seen. Bound has `bound_agent_payload`, with Bounded and Shortened about it, and
--     Tail `snapshot_tail`, the messages that a durable record keeps, with Settled, Snapshot and
--     Resumable about it.
--   * RunState (run_state.py): the durable record of a run, which the loop saves between two
--     steps with the ledger and the tail, and loads to go on. The module itself and Manifest have
--     the normalisers, Record `save`, Load `load`, Terminate `terminate`; Contract, Failures,
--     Items and ItemLoop are about the normalisers, Saved about saving and loading.
--   * Trajectory (trajectory.py): the hash-chained log of tool calls. The module itself has the
--     reader, Append the writer, Source and Lookup what the agent is shown of the log; Chain,
--     Resume, RoundTrip, Storing and Separators are about reader and writer, Budget about the
--     source.
--   * Observation (observation.py): the guard that refuses a shell command which only fetches
--     again what the trajectory has often enough.
--   * Grounding (grounding.py): the warnings for new evidence that recent observations
--     contradict. `record_state` asks it after a batch. Warnings has the laws of the loop,
--     Contradicted says what contradicts an item, Steps is about the steps that were taken, and
--     First about which items are warned of.
--   * Resume (bot.py): the goal that a run works on, `resolve_task_contract`. Goals shows that
--     the stored contract of RunState keeps it.
--   * Stagnation (stagnation.py): the index of repeated observations in a checkpoint's report.
--     Window says what the numbers count, Ranking is about the sorted counts, Index about the
--     whole.
--   * Deadlines (deadlines.py): the cancel token of a run, and what a stage under a deadline ends
--     in.
--   * Guards (bot.py): the memory of calls that failed for good, the guards for a stale record
--     and for owed thinking, and the streak of blocked steps that forces thinking, with the end of
--     a step in the loop, which takes it back to zero. Memory and Streak are about the two.
--   * Prelude, Text, Dict and Json: tests, lists, results, and Python's str, dict and json
--     values. Prelude.Selected says which elements of a list a filter keeps.
--
-- How the code is carried over:
--   * A method that changes `self` is a function from the old state to the new one beside its
--     result; one that raises returns the state that it leaves behind beside a `raise`.
--     Exceptions and messages are data with the values that the message shows.
--   * A dict is a list of items in insertion order, a text its sequence of code points, a number
--     of steps, revisions or seconds a natural number. Clocks are arguments.
--   * A payload's entries have the type that the code reads them at, or are absent; an entry of
--     another type, and a null in place of a text, are modelled only where a Json value is taken.
--     A stored ledger with such an entry, which the code loads as it is, counts as unusable.
--   * Parameters, with no law unless a theorem names one: `str.lower` and the class `\w` (Unicode
--     in Ledger.Duplicates), regular expressions and `urlsplit` (Library in Observation, Patterns
--     in Grounding), JSON texts and sha256 (Codec in Trajectory), `int` and `str` of a JSON value
--     (Library in Guards, Convert in Ledger.Restore, Texts in Payload), `len` of a content that
--     is no text (Payload.Bound), Unicode categories and the equality of a fractional number with
--     a whole one (Platform in RunState, Codec in Trajectory), case folding and a word pattern
--     (Wording in Resume), and the rounding of a percentage (Stagnation).
--   * `difflib.SequenceMatcher` is written out; its blocks take at least one element of the first
--     text each, so the length of that text is enough fuel. A similarity is compared with its
--     threshold as a fraction. `str(n)` has one digit at least and at most n + 1, which is its
--     fuel. Every other loop is structural.
--
-- Not modelled: Discord, the model's API, asyncio, processes, files and locks; the rendering of
-- the ledger; `_bounded_value` of trajectory.py; `format_stagnation_lines`; the rest of bot.py;
-- `stream_chunks` of deadlines.py; `discard` of run_state.py, which only deletes a file;
-- config.py, session_log.py, workspace_io.py, run_workspace.py, tool_sandbox.py and
-- tool_worker.py.

pub mod Prelude
pub mod Text
pub mod Dict
pub mod Outcome
pub mod Authz
pub mod Steering
pub mod Ledger
pub mod Json
pub mod Observation
pub mod Trajectory
pub mod Resume
pub mod Guards
pub mod Grounding
pub mod Stagnation
pub mod Deadlines
pub mod Payload
pub mod RunState
