-- ===== src/Deadlines.antt =====
-- deadlines.py: the cancel token of a run, and what `with_deadline` ends in. asyncio is outside: what
-- `asyncio.wait` wakes up to is an argument, and closing or reaping the work is not shown. A budget of
-- zero seconds stands for every budget that is not positive.
use autonomous_llm_bot.Prelude.{
  ℕ, String, Bool, true, false, Option, none, some, if◌then◌else◌, ◌==◌, nat_eq, string_eq,
}
use autonomous_llm_bot.Ledger.State.{or_text}
pub mod Stopping
mod Tests

pub record CancelToken : Type 0 where
  pub cancelled : Bool
  pub reason : String

-- `__init__`
abbrev pub new : CancelToken
new = record { cancelled = false; reason = "" }

unfoldable pub cancel : String → CancelToken → CancelToken × Bool
cancel reason t =
    if t.cancelled
    then (t, false)
    else (record { cancelled = true; reason = or_text reason "취소됨" }, true)

-- What a stage ends in. The message of a timeout shows the stage and the seconds.
pub data Ended {ℓ} (A : Type ℓ) : Type ℓ where
  returned : A → Ended A
  failed : String → Ended A
  run_cancelled : String → Ended A
  stage_timeout : String → ℕ → Ended A
  interrupted : Ended A

-- The work when `asyncio.wait` is over: its result, its exception, or not done.
pub data Work {ℓ} (A : Type ℓ) : Type ℓ where
  done : A → Work A
  raised : String → Work A
  running : Work A

-- What `asyncio.wait` wakes up to: an exception of the caller, or the token and the work as they are
-- by then, with the token as it is when the waiter has been reaped.
pub data Wake {ℓ} (A : Type ℓ) : Type ℓ where
  caller_cancelled : Wake A
  woke : Option CancelToken → Work A → Option CancelToken → Wake A

abbrev pub seconds_or_zero : Option ℕ → ℕ
seconds_or_zero none = 0
seconds_or_zero (some n) = n

abbrev pub is_spent : Option ℕ → Bool
is_spent none = false
is_spent (some n) = n == 0

-- `RunCancelled`
abbrev pub cancelled_for {ℓ} : {A : Type ℓ} → String → Ended A
cancelled_for reason = run_cancelled (or_text reason "취소됨")

module _ {ℓ} {A : Type ℓ} where
  -- A cancelled token, or else what follows.
  abbrev pub unless_cancelled : Option CancelToken → Ended A → Ended A
  unless_cancelled none next = next
  unless_cancelled (some t) next = if t.cancelled then cancelled_for t.reason else next

  -- The work, where no cancellation came first. Work that is done counts only if no cancellation has
  -- come by the time the waiter is reaped.
  abbrev pub of_work : Option ℕ → String → Work A → Option CancelToken → Ended A
  of_work seconds stage (done a) reaped = unless_cancelled reaped (returned a)
  of_work seconds stage (raised e) reaped = unless_cancelled reaped (failed e)
  of_work seconds stage running reaped = stage_timeout stage (seconds_or_zero seconds)

  abbrev pub on_wake : Option ℕ → String → Wake A → Ended A
  on_wake seconds stage caller_cancelled = interrupted
  on_wake seconds stage (woke token work reaped) =
      unless_cancelled token (of_work seconds stage work reaped)

  unfoldable pub with_deadline : Option ℕ → Option CancelToken → String → Wake A → Ended A
  with_deadline seconds token stage wake = unless_cancelled token (
      if is_spent seconds
      then stage_timeout stage (seconds_or_zero seconds)
      else on_wake seconds stage wake)
