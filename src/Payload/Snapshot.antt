-- ===== src/Payload/Snapshot.antt =====
-- The tail that a durable record keeps: bounded, and made of whole groups.
use autonomous_llm_bot.Prelude.{
  String, ◌≡◌, refl, ap, ◌∙◌, inl, inr, true, false, Option, none, some, List, [], ◌∷◌, map, arith,
  ◌==◌, nat_eq, string_eq, Bool-cases, Option-cases, all, contains, is_nil,
}
use autonomous_llm_bot.Json.{
  Value, text, text_of, nonempty_text, nonempty_text-eq, nonempty_text-text, fields_of, get, truthy,
}
use autonomous_llm_bot.Payload.{Message, Texts, call_parts}
use autonomous_llm_bot.Payload.Tail.{
  shown_default, snapshot_call, snapshot_entry, is_settled, snapshot_message, add_settled,
}
use autonomous_llm_bot.Payload.Settled.{near_ids, GroupsSettled}

shown_or-text :
    (t : Texts) (v : Option Value) (s default : String)
    → nonempty_text v ≡ some s
    → shown_default t v default ≡ s
unfolding truthy text_of
shown_or-text t v s default h = let (e, n) = nonempty_text-eq v s h in rw e (rw n refl)

snapshot_entry-text :
    (t : Texts) (v : Option Value) (s : String)
    → nonempty_text v ≡ some s
    → snapshot_entry t v ≡ some (text s)
unfolding truthy text_of snapshot_entry
snapshot_entry-text t v s h = let (e, n) = nonempty_text-eq v s h in rw e (rw n refl)

abbrev Includes : List String → List String → Type 0
Includes ids more = (s : String) → contains ids s ≡ true → contains more s ≡ true

is_settled_at :
    (ids : List String) (s : String) (v : Option Value)
    → v ≡ some (text s)
    → (s == "") ≡ false
    → contains ids s ≡ true
    → elim (nonempty_text v) [ some id ↦ contains ids id | none ↦ false ] ≡ true
is_settled_at ids s v e n h =
    let found = ap nonempty_text e ∙ nonempty_text-text s n in ground arith

snapshot_call-is_settled :
    (t : Texts) (ids more : List String) (v : Value)
    → Includes ids more
    → is_settled ids v ≡ true
    → is_settled more (snapshot_call t v) ≡ true
unfolding snapshot_call fields_of get
snapshot_call-is_settled t ids more v i h = elim (Option-cases (nonempty_text (call_parts v).0)) [
  | inl other ↦ absurd (ground arith)
  | inr (s, found) ↦
      is_settled_at more s _
        (ap (λ (r : String). some (text r)) (shown_or-text t (call_parts v).0 s "" found))
        (nonempty_text-eq (call_parts v).0 s found).1 (i s (ground arith))
]

calls_settled :
    (t : Texts) (ids more : List String) (vs : List Value)
    → Includes ids more
    → all (is_settled ids) vs ≡ true
    → all (is_settled more) (map (snapshot_call t) vs) ≡ true
unfolding all
calls_settled t ids more [] i h = refl
calls_settled t ids more (v ∷ vs) i h =
    ground (arith, snapshot_call-is_settled t ids more v i, calls_settled t ids more vs i)

Includes-cons : (ids more : List String) (x : String) → Includes ids more → Includes ids (x ∷ more)
unfolding contains
Includes-cons ids more x i s h = ground (arith, i s)

Includes-both :
    (ids more : List String) (x : String) → Includes ids more → Includes (x ∷ ids) (x ∷ more)
unfolding contains
Includes-both ids more x i s h = ground (arith, i s)

add_settled-Includes :
    (t : Texts) (m : Message) (ids more : List String)
    → Includes ids more
    → Includes (add_settled m ids) (add_settled (snapshot_message t m) more)
unfolding add_settled snapshot_message
add_settled-Includes t m ids more i = elim (Bool-cases (m.role == "tool")) [
  | inr other ↦ rw other i
  | inl tool ↦ rw tool (elim (Option-cases (nonempty_text m.tool_call_id)) [
    | inr (s, found) ↦
        let kept =
          ap nonempty_text (snapshot_entry-text t m.tool_call_id s found)
          ∙ nonempty_text-text s (nonempty_text-eq m.tool_call_id s found).1 in
        rw found (rw kept (Includes-both ids more s i))
    | inl none_here ↦
        rw none_here (elim (Option-cases (nonempty_text (snapshot_entry t m.tool_call_id))) [
          | inl still ↦ rw still i
          | inr (s, new) ↦ rw new (Includes-cons ids more s i)
        ])
  ])
]

is_nil-map {ℓ} : {A B : Type ℓ} (f : A → B) (xs : List A) → is_nil (map f xs) ≡ is_nil xs
is_nil-map f [] = refl
is_nil-map f (x ∷ xs) = refl

contains_nil : (s : String) → contains [] s ≡ false
unfolding contains
contains_nil s = refl

near_ids-snapshot :
    (t : Texts) (ms : List Message)
    → Includes (near_ids ms) (near_ids (map (snapshot_message t) ms))
unfolding snapshot_message
near_ids-snapshot t [] s h = h
near_ids-snapshot t (m ∷ ms) s h = elim (Bool-cases (is_nil m.tool_calls)) [
  | inl quiet ↦
      rw (is_nil-map (snapshot_call t) m.tool_calls, quiet)
        (add_settled-Includes t m (near_ids ms) (near_ids (map (snapshot_message t) ms))
          (near_ids-snapshot t ms) s (rw quiet at h))
  | inr calls ↦ absurd (ground (arith, contains_nil s))
]

pub snapshot-GroupsSettled :
    (t : Texts) (ms : List Message) → GroupsSettled ms → GroupsSettled (map (snapshot_message t) ms)
unfolding snapshot_message
snapshot-GroupsSettled t [] g = tt
snapshot-GroupsSettled t (m ∷ ms) g = (
  calls_settled t (near_ids ms) (near_ids (map (snapshot_message t) ms)) m.tool_calls
      (near_ids-snapshot t ms) g.0,
  snapshot-GroupsSettled t ms g.1,
)
