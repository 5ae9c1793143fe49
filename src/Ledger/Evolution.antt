-- ===== src/Ledger/Evolution.antt =====
-- What one call does to the hypotheses that were there: a relation between the old and the new
-- record under each key, from what the writes of the call keep.
use autonomous_llm_bot.Prelude.{
  String, ◌≡◌, subst, inl, inr, true, none, some, arith, ◌==◌, string_eq, Bool-cases, eq_iff,
}
use autonomous_llm_bot.Dict.{Dict, lookup, insert, lookup-insert}
use autonomous_llm_bot.Ledger.State.{Hypothesis}

abbrev pub Hypotheses : Type 0
Hypotheses = Dict String Hypothesis

-- Every key keeps a hypothesis, related by `R` to the one that it had.
abbrev pub Evolves : (Hypothesis → Hypothesis → Type 0) → Hypotheses → Hypotheses → Type 0
Evolves R hs hs' =
    (k : String) (h : Hypothesis)
    → lookup k hs ≡ some h
    → (h' : Hypothesis) × (lookup k hs' ≡ some h') × R h h'

pub Evolves-join :
    (P Q R : Hypothesis → Hypothesis → Type 0)
    → ((a b c : Hypothesis) → P a b → Q b c → R a c)
    → (x y z : Hypotheses) → Evolves P x y
    → Evolves Q y z
    → Evolves R x z
Evolves-join P Q R join x y z p q k h there =
    let (h', there', r) = p k h there in
    let (h'', there'', r') = q k h' there' in (h'', there'', join h h' h'' r r')

module _ (R : Hypothesis → Hypothesis → Type 0) (same : (h : Hypothesis) → R h h) where
  pub Evolves-refl : (hs : Hypotheses) → Evolves R hs hs
  Evolves-refl hs k h there = (h, there, same h)

  -- A write in place of a hypothesis.
  pub Evolves-insert :
      (k : String) (h h' : Hypothesis) (hs : Hypotheses)
      → lookup k hs ≡ some h
      → R h h'
      → Evolves R hs (insert k h' hs)
  Evolves-insert k h h' hs there r j g here = elim (Bool-cases (k == j)) [
    | inl eq ↦ (h', ground (arith, lookup-insert k j h' hs), subst (λ x. R x h') (item_of eq) r)
    | inr ne ↦ (g, ground (arith, lookup-insert k j h' hs), same g)
  ]
    where
      item_of : (k == j) ≡ true → h ≡ g
      item_of eq = ground (arith, eq_iff k j)

  -- A write under a new key.
  pub Evolves-insert_new :
      (k : String) (h' : Hypothesis) (hs : Hypotheses)
      → lookup k hs ≡ none
      → Evolves R hs (insert k h' hs)
  Evolves-insert_new k h' hs absent j g here =
      (g, ground (arith, lookup-insert k j h' hs, eq_iff k j), same g)
