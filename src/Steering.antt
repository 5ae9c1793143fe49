-- ===== src/Steering.antt =====
-- steering.py: the bounded mailbox of one run. The clock of a call is an argument.
pub mod Accounting
pub mod Delivery
pub mod Stats
mod Tests
use autonomous_llm_bot.Prelude.{
  ℕ, ◌+◌, max, String, Bool, true, false, not, ◌&&◌, ◌||◌, Option, none, some, List, [], ◌∷◌, ◌++◌,
  map, leb, if◌then◌else◌, ◌==◌, string_eq, length, any,
}
use autonomous_llm_bot.Dict.{Dict, lookup, insert}

abbrev pub applied : String
applied = "applied"

abbrev pub superseded : String
superseded = "superseded"

abbrev pub rejected : String
rejected = "rejected"

abbrev pub cancelled : String
cancelled = "cancelled"

abbrev pub queued : String
queued = "queued"

abbrev pub coalesced : String
coalesced = "coalesced"

abbrev pub reason_queue_full : String
reason_queue_full = "queue_full"

abbrev pub reason_no_loop : String
reason_no_loop = "no_loop"

abbrev pub reason_terminal : String
reason_terminal = "terminal"

pub record SteeringItem : Type 0 where
  pub author : String
  pub text : String
  pub received_at : ℕ
  pub applied_at : Option ℕ
  pub state : String

pub record SteeringReceipt : Type 0 where
  pub state : String
  pub depth : ℕ
  pub received_at : ℕ
  pub reason : String

-- `SteeringReceipt.accepted`
abbrev pub accepted : SteeringReceipt → Bool
accepted r = r.state == queued || r.state == coalesced

pub record SteeringMailbox : Type 0 where
  pub run_id : String
  pub max_depth : ℕ
  pub pending : List SteeringItem
  pub is_open : Bool
  pub closed_reason : String
  pub counts : Dict String ℕ
  pub received : ℕ
  pub last_received_at : Option ℕ
  pub last_applied_at : Option ℕ

-- `__init__`
unfoldable pub new : String → ℕ → SteeringMailbox
new run_id max_depth = record {
  run_id = run_id;
  max_depth = max 1 max_depth;
  pending = [];
  is_open = false;
  closed_reason = reason_no_loop;
  counts = (applied, 0) ∷ (superseded, 0) ∷ (rejected, 0) ∷ (cancelled, 0) ∷ [];
  received = 0;
  last_received_at = none;
  last_applied_at = none;
}

abbrev pub depth : SteeringMailbox → ℕ
depth m = length m.pending

count_or_zero : Option ℕ → ℕ
count_or_zero none = 0
count_or_zero (some n) = n

-- counts[state] = counts.get(state, 0) + n
pub add_count : String → ℕ → Dict String ℕ → Dict String ℕ
unfolding count_or_zero
add_count state n counts = insert state (count_or_zero (lookup state counts) + n) counts

abbrev pub same_instruction : String → String → SteeringItem → Bool
same_instruction author text item = item.author == author && item.text == text

unfoldable pub open_mailbox : SteeringMailbox → SteeringMailbox
open_mailbox m = record m { is_open = true }

-- An offer after the arrival is noted. `offer` is this behind the two writes at its top.
settle_offer : String → String → ℕ → SteeringMailbox → SteeringMailbox × SteeringReceipt
settle_offer author text now m =
    if not m.is_open
    then (
      record m { counts = add_count rejected 1 m.counts },
      record { state = rejected; depth = depth m; received_at = now; reason = m.closed_reason },
    )
    else if any (same_instruction author text) m.pending
    then (
      record m { counts = add_count superseded 1 m.counts },
      record { state = coalesced; depth = depth m; received_at = now; reason = "" },
    )
    else if leb m.max_depth (depth m)
    then (
      record m { counts = add_count rejected 1 m.counts },
      record { state = rejected; depth = depth m; received_at = now; reason = reason_queue_full },
    )
    else (let item : SteeringItem = record {
      author = author;
      text = text;
      received_at = now;
      applied_at = none;
      state = queued;
    } in
        (
          record m { pending = m.pending ++ item ∷ [] },
          record {
            state = queued;
            depth = length (m.pending ++ item ∷ []);
            received_at = now;
            reason = "";
          },
        ))

unfoldable pub offer : String → String → ℕ → SteeringMailbox → SteeringMailbox × SteeringReceipt
unfolding settle_offer
offer author text now m =
    settle_offer author text now
      (record m { received = m.received + 1; last_received_at = some now })

abbrev pub mark_applied : ℕ → SteeringItem → SteeringItem
mark_applied now item = record item { state = applied; applied_at = some now }

drain_pending : List SteeringItem → ℕ → SteeringMailbox → SteeringMailbox × List SteeringItem
drain_pending [] now m = (m, [])
drain_pending (i ∷ is) now m =
    let taken = map (mark_applied now) (i ∷ is) in
    (
      record m {
        pending = [];
        counts = add_count applied (length taken) m.counts;
        last_applied_at = some now;
      },
      taken,
    )

unfoldable pub drain : ℕ → SteeringMailbox → SteeringMailbox × List SteeringItem
unfolding drain_pending
drain now m = drain_pending m.pending now m

abbrev pub mark : String → SteeringItem → SteeringItem
mark state item = record item { state = state }

unfoldable pub close : String → String → SteeringMailbox → SteeringMailbox × List SteeringItem
close state reason m =
    let unapplied = map (mark state) m.pending in
    (
      record m {
        is_open = false;
        closed_reason = reason;
        pending = [];
        counts = add_count state (length unapplied) m.counts;
      },
      unapplied,
    )
