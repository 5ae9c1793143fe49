-- ===== src/Ledger/Duplicates.antt =====
-- ledger.py: the tests for texts that say the same. `difflib.SequenceMatcher` is written out over the
-- code points; its ratio is compared with a threshold as a fraction. What needs the Unicode database
-- is a parameter.
pub mod Blocks
use autonomous_llm_bot.Prelude.{
  ℕ, zero, suc, ◌+◌, ◌-◌, ◌*◌, ◌/◌, min, Char, code, String, Bool, true, false, not, ◌&&◌, ◌||◌,
  List, [], ◌∷◌, map, ltb, leb, if◌then◌else◌, ◌==◌, nat_eq, string_eq, length, take, drop,
  contains,
}
use autonomous_llm_bot.Text
use Prim.Native.Char.{char}
use mathlib.Core.List.{reverse}

pub record Unicode : Type 0 where
  -- str.lower
  pub lower : String → String
  -- whether `\w` matches
  pub is_word : Char → Bool

abbrev pub codes : String → List ℕ
codes String.[] = []
codes (String.◌∷◌ c s) = code c ∷ codes s

-- re.sub(r"[^\w\s]", " ", s)
unfoldable pub spaced : Unicode → String → String
spaced u String.[] = String.[]
spaced u (String.◌∷◌ c s) =
    String.◌∷◌ (if u.is_word c || Text.is_space c then c else char 32 tt) (spaced u s)

-- `_normalize_text(...).split()`; the normalised text is these tokens joined by blanks
unfoldable pub tokens : Unicode → String → List String
unfolding spaced
tokens u text = Text.split (spaced u (u.lower text))

unfoldable pub normalize_text : Unicode → String → String
normalize_text u text = Text.join " " (tokens u text)

abbrev is_id_char : ℕ → Bool
is_id_char n = (leb 48 n && leb n 57) || ((leb 65 n && leb n 90) || (leb 97 n && leb n 122))

keep_id_chars : String → String
keep_id_chars String.[] = String.[]
keep_id_chars (String.◌∷◌ c s) =
    let rest = keep_id_chars s in if is_id_char (code c) then String.◌∷◌ c rest else rest

unfoldable pub normalize_id : Unicode → String → String
unfolding keep_id_chars
normalize_id u eid = u.lower (keep_id_chars eid)

-- The blocks of `SequenceMatcher`: where a match starts in the two sequences, and its size.
pub record Match : Type 0 where
  pub a_start : ℕ
  pub b_start : ℕ
  pub size : ℕ

-- The row of `j2len` for the element `x`, from the row before it: `diagonal` is the entry of that row
-- to the upper left.
next_row : (ℕ → Bool) → ℕ → ℕ → List ℕ → List ℕ → List ℕ
next_row is_popular x diagonal [] row = []
next_row is_popular x diagonal (y ∷ ys) [] = []
next_row is_popular x diagonal (y ∷ ys) (r ∷ row) =
    (if x == y && not (is_popular y) then diagonal + 1 else 0) ∷ next_row is_popular x r ys row

-- The first strictly longer match of a row, if there is one. `i` and `j` are the positions read.
best_in_row : ℕ → ℕ → List ℕ → Match → Match
best_in_row i j [] best = best
best_in_row i j (k ∷ row) best = best_in_row i (j + 1) row (
    if ltb best.size k then record { a_start = i + 1 - k; b_start = j + 1 - k; size = k } else best)

scan : (ℕ → Bool) → ℕ → List ℕ → List ℕ → List ℕ → Match → Match
scan is_popular i [] bs row best = best
scan is_popular i (x ∷ as') bs row best =
    let row' = next_row is_popular x 0 bs row in
    scan is_popular (i + 1) as' bs row' (best_in_row i 0 row' best)

common_prefix : List ℕ → List ℕ → ℕ
common_prefix [] ys = 0
common_prefix (x ∷ xs) [] = 0
common_prefix (x ∷ xs) (y ∷ ys) = let rest = common_prefix xs ys in if x == y then suc rest else 0

-- The match, grown to both sides while the elements are equal.
extend : List ℕ → List ℕ → Match → Match
extend xs ys m =
    let before = common_prefix (reverse (take m.a_start xs)) (reverse (take m.b_start ys)) in
    let behind = common_prefix (drop (m.a_start + m.size) xs) (drop (m.b_start + m.size) ys) in
    record {
      a_start = m.a_start - before;
      b_start = m.b_start - before;
      size = before + m.size + behind;
    }

unfoldable pub find_longest_match : (ℕ → Bool) → List ℕ → List ℕ → Match
unfolding next_row best_in_row scan common_prefix extend take drop
find_longest_match is_popular xs ys =
    extend xs ys
      (scan is_popular 0 xs ys (map (λ _. 0) ys) (record { a_start = 0; b_start = 0; size = 0 }))

-- The sum of the sizes of the matching blocks. Each block uses up an element of `xs`, so the length
-- of `xs` is enough fuel.
unfoldable pub matched : ℕ → (ℕ → Bool) → List ℕ → List ℕ → ℕ
unfolding find_longest_match
matched zero is_popular xs ys = 0
matched (suc fuel) is_popular xs ys =
    let m = find_longest_match is_popular xs ys in
    let left = matched fuel is_popular (take m.a_start xs) (take m.b_start ys) in
    let right =
      matched fuel is_popular (drop (m.a_start + m.size) xs) (drop (m.b_start + m.size) ys) in
    if m.size == 0 then 0 else left + m.size + right

count_of : ℕ → List ℕ → ℕ
count_of x [] = 0
count_of x (y ∷ ys) = (if x == y then 1 else 0) + count_of x ys

-- `autojunk`: in a second sequence of at least 200 elements, those that make up more than a hundredth.
popular_in : List ℕ → ℕ → Bool
unfolding count_of
popular_in ys x = leb 200 (length ys) && ltb (length ys / 100 + 1) (count_of x ys)

-- SequenceMatcher(None, left, right).ratio() >= percent / 100
unfoldable pub similar : ℕ → String → String → Bool
unfolding matched popular_in
similar percent left right =
    let xs = codes left in
    let ys = codes right in
    leb (percent * (length xs + length ys)) (200 * matched (length xs) (popular_in ys) xs ys)

unfoldable pub is_near_duplicate_text : Unicode → ℕ → String → String → Bool
is_near_duplicate_text u percent left right =
    let norm_left = normalize_text u left in
    let norm_right = normalize_text u right in
    if norm_left == "" || norm_right == ""
    then false
    else if norm_left == norm_right
    then true
    else similar percent norm_left norm_right

-- set(xs), without order
unfoldable pub unique : List String → List String
unique [] = []
unique (x ∷ xs) = let rest = unique xs in if contains rest x then rest else x ∷ rest

common : List String → List String → ℕ
common [] ys = 0
common (x ∷ xs) ys = (if contains ys x then 1 else 0) + common xs ys

-- _token_containment(left, right) >= percent / 100
unfoldable pub contained : Unicode → ℕ → String → String → Bool
unfolding unique common
contained u percent left right =
    let ls = unique (tokens u left) in
    let rs = unique (tokens u right) in
    if length ls == 0 || length rs == 0
    then false
    else leb (percent * min (length ls) (length rs)) (100 * common ls rs)

starts : List ℕ → List ℕ → Bool
starts [] ys = true
starts (x ∷ xs) [] = false
starts (x ∷ xs) (y ∷ ys) = x == y && starts xs ys

-- left in right, on texts
unfoldable pub is_part : List ℕ → List ℕ → Bool
unfolding starts
is_part xs [] = starts xs []
is_part xs (y ∷ ys) = starts xs (y ∷ ys) || is_part xs ys

abbrev pub id_prefix_chars : ℕ
id_prefix_chars = 8

-- The same prefix of eight characters, on ids that have as many.
same_head : String → String → Bool
same_head left right =
    leb id_prefix_chars (Text.length left)
    && (leb id_prefix_chars (Text.length right)
        && Text.prefix id_prefix_chars left == Text.prefix id_prefix_chars right)

unfoldable pub is_duplicate_evidence : Unicode → String → String → String → String → Bool
unfolding same_head
is_duplicate_evidence u new_id new_summary existing_id existing_summary =
    let norm_new = normalize_id u new_id in
    let norm_ext = normalize_id u existing_id in
    if is_near_duplicate_text u 85 new_summary existing_summary
    then true
    else if norm_new == "" || norm_ext == ""
    then false
    else if norm_new == norm_ext
    then true
    else if is_part (codes norm_new) (codes norm_ext) || is_part (codes norm_ext) (codes norm_new)
    then is_near_duplicate_text u 70 new_summary existing_summary
    else same_head norm_new norm_ext && contained u 50 new_summary existing_summary
