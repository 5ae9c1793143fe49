-- ===== src/Payload/Answering.antt =====
-- What the second pass of `validate_chat_payload` has found: results that take_result announced calls.
use mathlib.Core.Option.{some-injective}
use autonomous_llm_bot.Prelude.{
  ℕ, ◌+◌, String, ◌≡◌, refl, subst, inl, inr, Option, none, some, List, [], ◌∷◌, arith, Eq, ◌==◌,
  ==_iff, nat_eq, string_eq, Bool-cases, Option-cases, eq_iff, if_induction,
}
use autonomous_llm_bot.Dict.{Dict, lookup, insert, lookup-insert}
use autonomous_llm_bot.Json.{Value, text, text_of, text_of-eq}
use autonomous_llm_bot.Payload.{Message, Texts}
use autonomous_llm_bot.Payload.Answers.{
  FoundResults, demoted, announced_id, repaired_result, take_result, collect_answers,
}
use autonomous_llm_bot.Payload.Groups.{HasText}

-- Every result that the second pass keeps answers the call under whose id it is kept.
pub record IsAnswering (a : FoundResults) : Type 0 where
  pub answering :
      (id : String) (m : Message)
      → lookup id a.answers ≡ some m
      → (m.role ≡ "tool") × (m.tool_call_id ≡ some (text id)) × HasText m
  pub orphaned :
      (position : ℕ) (m : Message)
      → lookup position a.demoted_orphans ≡ some m
      → (m.role ≡ "user") × (m.tool_calls ≡ [])

announced_id-text :
    (ids : List String) (v : Option Value) (id : String)
    → announced_id ids v ≡ some id
    → v ≡ some (text id)
announced_id-text ids v id h =
    text_of-eq v id (ground (arith, λ (o : Option String). Option-cases o))

-- The kept result is the message itself, with a text for its content.
repaired_result_lem :
    (m : Message) (id : String)
    → m.role ≡ "tool"
    → m.tool_call_id ≡ some (text id)
    → ((repaired_result m).0.role ≡ "tool")
      × ((repaired_result m).0.tool_call_id ≡ some (text id))
      × HasText (repaired_result m).0
unfolding repaired_result
repaired_result_lem m id r i = elim (Option-cases (text_of m.content)) [
  | inl other ↦ rw (other, repaired_result) (r, i, (_, refl))
  | inr (s, found) ↦ rw (found, repaired_result) (r, i, (s, text_of-eq m.content s found))
]

abbrev IsReplyTo : String → Message → Type 0
IsReplyTo id m = (m.role ≡ "tool") × (m.tool_call_id ≡ some (text id)) × HasText m

-- A write into a dict keeps a property of its values.
insert_keeps {ℓ} :
    {K V : Type ℓ} ⦃e : Eq K⦄ (P : K → V → Type ℓ) (k : K) (v : V) (d : Dict K V)
    → P k v
    → ((j : K) (w : V) → lookup j d ≡ some w → P j w)
    → (j : K) (w : V) → lookup j (insert k v d) ≡ some w
    → P j w
insert_keeps ⦃e⦄ P k v d p h j w found = elim (Bool-cases (k == j)) [
  | inl same ↦
      let now : v ≡ w = some-injective v w (ground (arith, lookup-insert k j v d)) in
      subst (λ i. P i w) ((==_iff k j).0 same) (subst (P k) now p)
  | inr other ↦ h j w (ground (arith, lookup-insert k j v d))
]

answer-IsAnswering :
    (t : Texts) (position : ℕ) (m : Message) (id : Option String) (a : FoundResults)
    → m.role ≡ "tool"
    → ((s : String) → id ≡ some s → m.tool_call_id ≡ some (text s))
    → IsAnswering a
    → IsAnswering (take_result t position m id a)
unfolding take_result
answer-IsAnswering t position m none a r i v = record {
  answering = v.answering;
  orphaned =
      insert_keeps (λ _ n. (n.role ≡ "user") × (n.tool_calls ≡ [])) position (demoted t m)
        a.demoted_orphans (refl, refl) v.orphaned;
}
answer-IsAnswering t position m (some id) a r i v = elim (Option-cases (lookup id a.answers)) [
  | inl new ↦
      rw (new, take_result)
        (record {
          answering =
              insert_keeps IsReplyTo id (repaired_result m).0 a.answers
                (repaired_result_lem m id r (i id refl)) v.answering;
          orphaned = v.orphaned;
        })
  | inr (old, found) ↦
      rw (found, take_result) (record { answering = v.answering; orphaned = v.orphaned })
]

pub collect_answers-IsAnswering :
    (t : Texts) (ids : List String) (position : ℕ) (ms : List Message) (a : FoundResults)
    → IsAnswering a
    → IsAnswering (collect_answers t ids position ms a)
unfolding collect_answers
collect_answers-IsAnswering t ids position [] a v = v
collect_answers-IsAnswering t ids position (m ∷ ms) a v =
    collect_answers-IsAnswering t ids (position + 1) ms _ (
      if_induction IsAnswering (m.role == "tool")
        (λ r.
          answer-IsAnswering t position m (announced_id ids m.tool_call_id) a
            ((eq_iff m.role "tool").0 r) (announced_id-text ids m.tool_call_id) v)
        (λ _. v))
