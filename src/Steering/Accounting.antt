-- ===== src/Steering/Accounting.antt =====
-- What holds of a mailbox after any calls: the counters add up, the queue is bounded, and no two
-- waiting items are the same instruction.
use autonomous_llm_bot.Prelude.{
  ℕ, ◌+◌, ◌≤◌, String, ◌≡◌, refl, false, ◌&&◌, ◌||◌, none, List, [], ◌∷◌, ◌++◌, map, arith, ◌==◌,
  string_eq, length, length-append, any, eq_iff, length-map,
}
use autonomous_llm_bot.Dict.{Dict, lookup, insert}
use autonomous_llm_bot.Steering.{
  SteeringMailbox, SteeringItem, depth, add_count, open_mailbox, offer, drain, close, new,
  same_instruction, applied, superseded, rejected, queued, mark_applied, mark, drain_pending,
}

pub data Call : Type 0 where
  opens : Call
  offers : String → String → ℕ → Call
  drains : ℕ → Call
  closes : String → String → Call

unfoldable pub step : SteeringMailbox → Call → SteeringMailbox
step m opens = open_mailbox m
step m (offers author text now) = (offer author text now m).0
step m (drains now) = (drain now m).0
step m (closes state reason) = (close state reason m).0

unfoldable pub run : SteeringMailbox → List Call → SteeringMailbox
run m [] = m
run m (c ∷ cs) = run (step m c) cs

-- The sum of all counters.
pub total : Dict String ℕ → ℕ
total [] = 0
total ((state, n) ∷ counts) = n + total counts

total-add_count :
    (state : String) (n : ℕ) (counts : Dict String ℕ)
    → total (add_count state n counts) ≡ total counts + n
unfolding total add_count lookup insert
total-add_count state n [] = omega arith
total-add_count state n ((s, k) ∷ counts) = ground (arith, total-add_count state n counts)

-- Every item differs from the later ones in its author or its text.
abbrev pub Distinct : List SteeringItem → Type 0
Distinct [] = Unit
Distinct (i ∷ is) = (any (same_instruction i.author i.text) is ≡ false) × Distinct is

pub record IsValid (m : SteeringMailbox) : Type 0 where
  pub room : 1 ≤ m.max_depth
  pub bounded : depth m ≤ m.max_depth
  pub accounted : m.received ≡ depth m + total m.counts
  pub distinct : Distinct m.pending

new-IsValid : (run_id : String) (max_depth : ℕ) → IsValid (new run_id max_depth)
unfolding new total
new-IsValid run_id max_depth = ground arith

-- A new last item that no waiting item equals leaves the items distinct.
same_comm :
    (i : SteeringItem) (a t : String)
    → same_instruction a t i ≡ false
    → ((a == i.author) && (t == i.text)) ≡ false
same_comm i a t h =
    ground (arith, eq_iff i.author a, eq_iff a i.author, eq_iff i.text t, eq_iff t i.text)

any-append :
    (a t : String) (is : List SteeringItem) (i : SteeringItem)
    → any (same_instruction a t) (is ++ i ∷ [])
      ≡ (any (same_instruction a t) is || same_instruction a t i)
unfolding any
any-append a t [] i = ground arith
any-append a t (j ∷ is) i = ground (arith, any-append a t is i)

Distinct-append :
    (is : List SteeringItem) (i : SteeringItem)
    → Distinct is
    → any (same_instruction i.author i.text) is ≡ false
    → Distinct (is ++ i ∷ [])
unfolding any
Distinct-append [] i d h = (refl, tt)
Distinct-append (j ∷ is) i d h = (
  ground (arith, any-append j.author j.text is i, same_comm j i.author i.text),
  Distinct-append is i d.1 (ground arith),
)

abbrev pub waiting : String → String → ℕ → SteeringItem
waiting author text now = record {
  author = author;
  text = text;
  received_at = now;
  applied_at = none;
  state = queued;
}

offer-IsValid :
    (author text : String) (now : ℕ) (m : SteeringMailbox)
    → IsValid m
    → IsValid (offer author text now m).0
unfolding offer
offer-IsValid author text now m v = record {
  room = ground arith;
  bounded = ground (arith, length-append m.pending (waiting author text now ∷ []));
  accounted = ground (
    arith,
    length-append m.pending (waiting author text now ∷ []),
    total-add_count rejected 1 m.counts,
    total-add_count superseded 1 m.counts,
  );
  distinct = ground (arith, Distinct-append m.pending (waiting author text now));
}

drain-IsValid : (now : ℕ) (m : SteeringMailbox) → IsValid m → IsValid (drain now m).0
unfolding drain
drain-IsValid now m v = drained m.pending refl
  where
    drained : (is : List SteeringItem) → is ≡ m.pending → IsValid (drain_pending is now m).0
    drained [] e = v
    drained (i ∷ is) e = ground (
      arith,
      total-add_count applied (length (map (mark_applied now) (i ∷ is))) m.counts,
      length-map (mark_applied now) is,
    )

close-IsValid :
    (state reason : String) (m : SteeringMailbox) → IsValid m → IsValid (close state reason m).0
unfolding close
close-IsValid state reason m v = ground (
  arith,
  total-add_count state (length (map (mark state) m.pending)) m.counts,
  length-map (mark state) m.pending,
)

step-IsValid : (c : Call) (m : SteeringMailbox) → IsValid m → IsValid (step m c)
unfolding step open_mailbox
step-IsValid opens m v = ground arith
step-IsValid (offers author text now) m v = offer-IsValid author text now m v
step-IsValid (drains now) m v = drain-IsValid now m v
step-IsValid (closes state reason) m v = close-IsValid state reason m v

run-IsValid : (m : SteeringMailbox) (cs : List Call) → IsValid m → IsValid (run m cs)
unfolding run
run-IsValid m [] v = v
run-IsValid m (c ∷ cs) v = run-IsValid (step m c) cs (step-IsValid c m v)

-- After any calls on a new mailbox, every instruction received is either waiting or counted under
-- exactly one state, the queue is within its bound (of at least one), and no two waiting items have
-- the same author and text.
pub run-new-IsValid :
    (run_id : String) (max_depth : ℕ) (cs : List Call) → IsValid (run (new run_id max_depth) cs)
run-new-IsValid run_id max_depth cs =
    run-IsValid (new run_id max_depth) cs (new-IsValid run_id max_depth)
