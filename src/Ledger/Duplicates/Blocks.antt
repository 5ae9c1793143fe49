-- ===== src/Ledger/Duplicates/Blocks.antt =====
-- ledger.py, the duplicate tests: the recursion on matching blocks needs no more fuel than the first
-- text has elements.
use autonomous_llm_bot.Prelude.{
  ℕ, zero, suc, ◌+◌, ◌≤◌, ◌≡◌, refl, sym, ◌∙◌, subst, inl, inr, Bool, List, [], ◌∷◌, map, arith,
  ltb, ◌==◌, nat_eq, Bool-cases, length, take, drop, length-take, All, if_induction, length-drop,
}
use mathlib.Core.List.{reverse, reverse_aux}
use autonomous_llm_bot.Ledger.Duplicates.{
  Match, next_row, best_in_row, scan, common_prefix, extend, find_longest_match, matched,
}

-- The entries of a row are at most `n`.
abbrev RowBelow : ℕ → List ℕ → Type 0
RowBelow n row = All (λ (k : ℕ). k ≤ n) row

next_row-RowBelow :
    (is_popular : ℕ → Bool) (x diagonal n : ℕ) (ys row : List ℕ)
    → diagonal ≤ n
    → RowBelow n row
    → RowBelow (n + 1) (next_row is_popular x diagonal ys row)
unfolding next_row
next_row-RowBelow is_popular x diagonal n [] row d r = tt
next_row-RowBelow is_popular x diagonal n (y ∷ ys) [] d r = tt
next_row-RowBelow is_popular x diagonal n (y ∷ ys) (k ∷ row) d r =
    (ground arith, next_row-RowBelow is_popular x k n ys row r.0 r.1)

-- A match that ends within the first n elements of the first sequence.
abbrev EndsBy : ℕ → Match → Type 0
EndsBy n m = m.a_start + m.size ≤ n

best_in_row-EndsBy :
    (i j : ℕ) (row : List ℕ) (best : Match)
    → RowBelow (i + 1) row
    → EndsBy (i + 1) best
    → EndsBy (i + 1) (best_in_row i j row best)
unfolding best_in_row
best_in_row-EndsBy i j [] best r e = e
best_in_row-EndsBy i j (k ∷ row) best r e =
    best_in_row-EndsBy i (j + 1) row _ r.1
      (if_induction (EndsBy (i + 1)) (ltb best.size k) (λ _. omega (arith, r.0)) (λ _. e))

scan-EndsBy :
    (is_popular : ℕ → Bool) (i : ℕ) (xs ys row : List ℕ) (best : Match)
    → RowBelow i row
    → EndsBy i best
    → EndsBy (i + length xs) (scan is_popular i xs ys row best)
unfolding scan
scan-EndsBy is_popular i [] ys row best r e = omega (arith, e)
scan-EndsBy is_popular i (x ∷ xs) ys row best r e =
    let row' = next_row-RowBelow is_popular x 0 i ys row (omega arith) r in
    let best' = best_in_row-EndsBy i 0 _ best row' (omega (arith, e)) in
    subst (λ k. EndsBy k (scan is_popular i (x ∷ xs) ys row best)) (omega arith)
      (scan-EndsBy is_popular (i + 1) xs ys _ _ row' best')

common_prefix-le : (xs ys : List ℕ) → common_prefix xs ys ≤ length xs
unfolding common_prefix
common_prefix-le [] ys = omega arith
common_prefix-le (x ∷ xs) [] = omega arith
common_prefix-le (x ∷ xs) (y ∷ ys) = ground (arith, common_prefix-le xs ys)

length-reverse_aux : (xs ys : List ℕ) → length (reverse_aux xs ys) ≡ length xs + length ys
length-reverse_aux [] ys = omega arith
length-reverse_aux (x ∷ xs) ys = omega (arith, length-reverse_aux xs (x ∷ ys))

extend-EndsBy :
    (xs ys : List ℕ) (m : Match) → EndsBy (length xs) m → EndsBy (length xs) (extend xs ys m)
unfolding extend
extend-EndsBy xs ys m e = omega (
  arith,
  e,
  common_prefix-le (reverse (take m.a_start xs)) (reverse (take m.b_start ys)),
  length-reverse_aux (take m.a_start xs) [],
  length-take m.a_start xs,
  common_prefix-le (drop (m.a_start + m.size) xs) (drop (m.b_start + m.size) ys),
  length-drop (m.a_start + m.size) xs,
)

zeros-RowBelow : (n : ℕ) (ys : List ℕ) → RowBelow n (map (λ _. 0) ys)
zeros-RowBelow n [] = tt
zeros-RowBelow n (y ∷ ys) = (omega arith, zeros-RowBelow n ys)

find_longest_match-EndsBy :
    (is_popular : ℕ → Bool) (xs ys : List ℕ)
    → EndsBy (length xs) (find_longest_match is_popular xs ys)
unfolding find_longest_match
find_longest_match-EndsBy is_popular xs ys =
    let start : Match = record { a_start = 0; b_start = 0; size = 0 } in
    let found = scan is_popular 0 xs ys (map (λ _. 0) ys) start in
    let ends : EndsBy (0 + length xs) found =
      scan-EndsBy is_popular 0 xs ys (map (λ _. 0) ys) start (zeros-RowBelow 0 ys) (omega arith) in
    extend-EndsBy xs ys found (omega (arith, ends))

nothing_matched : (n : ℕ) (is_popular : ℕ → Bool) (ys : List ℕ) → matched n is_popular [] ys ≡ 0
unfolding matched
nothing_matched zero is_popular ys = refl
nothing_matched (suc n) is_popular ys = refl

-- Whatever the fuel, as long as it is at least the length of the first text, the matching blocks have
-- the same total size: the recursion ends by itself, not because the fuel is used up.
matched_fuel_lem :
    (n m : ℕ) (is_popular : ℕ → Bool) (xs ys : List ℕ)
    → length xs ≤ n
    → length xs ≤ m
    → matched n is_popular xs ys ≡ matched m is_popular xs ys
unfolding matched
matched_fuel_lem n m is_popular [] ys h k =
    nothing_matched n is_popular ys ∙ sym (nothing_matched m is_popular ys)
matched_fuel_lem zero m is_popular (x ∷ xs) ys h k = absurd (omega arith)
matched_fuel_lem (suc n) zero is_popular (x ∷ xs) ys h k = absurd (omega arith)
matched_fuel_lem (suc n) (suc m) is_popular (x ∷ xs) ys h k =
    let b = find_longest_match is_popular (x ∷ xs) ys in
    let ends = find_longest_match-EndsBy is_popular (x ∷ xs) ys in
    elim (Bool-cases (b.size == 0)) [
      | inl none_left ↦ rw none_left refl
      | inr found ↦
          let some_left : 1 ≤ b.size = ground arith in
          let left =
            matched_fuel_lem n m is_popular (take b.a_start (x ∷ xs)) (take b.b_start ys)
              (omega (arith, length-take b.a_start (x ∷ xs), ends, some_left))
              (omega (arith, length-take b.a_start (x ∷ xs), ends, some_left)) in
          let right =
            matched_fuel_lem n m is_popular (drop (b.a_start + b.size) (x ∷ xs))
              (drop (b.b_start + b.size) ys)
              (omega (arith, length-drop (b.a_start + b.size) (x ∷ xs), some_left))
              (omega (arith, length-drop (b.a_start + b.size) (x ∷ xs), some_left)) in
          rw (found, left, right) refl
    ]
