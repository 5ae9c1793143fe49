-- ===== src/Text.antt =====
-- The parts of Python's `str` that the components use. A text is its sequence of code points.
pub mod Strip
pub mod Lines
pub mod Length
use Prim.Native.String.{[], ◌∷◌, ◌++◌ as append}
use autonomous_llm_bot.Prelude.{
  ℕ, zero, suc, ◌/◌, ◌%◌, Char, code, String, Bool, true, false, ◌&&◌, ◌||◌, ltb, leb,
  if◌then◌else◌, ◌==◌, nat_eq,
}
use mathlib.Core.List.{List}

-- len(s)
abbrev pub length : String → ℕ
length [] = 0
length (c ∷ s) = suc (length s)

-- `str.isspace` of one code point: the 29 white space characters of Unicode that `strip` and
-- `split` remove.
unfoldable pub is_space : Char → Bool
is_space c =
    let n = code c in
    (leb 9 n && leb n 13)
    || (leb 28 n && leb n 32)
    || n == 133
    || n == 160
    || n == 5760
    || (leb 8192 n && leb n 8202)
    || n == 8232
    || n == 8233
    || n == 8239
    || n == 8287
    || n == 12288

-- bool(s)
unfoldable pub truthy : String → Bool
truthy [] = false
truthy (c ∷ s) = true

unfoldable pub lstrip : String → String
lstrip [] = []
lstrip (c ∷ s) = let rest = lstrip s in if is_space c then rest else c ∷ s

cons_trimmed : Char → String → String
cons_trimmed c [] = if is_space c then [] else c ∷ []
cons_trimmed c (d ∷ s) = c ∷ (d ∷ s)

unfoldable pub rstrip : String → String
unfolding cons_trimmed
rstrip [] = []
rstrip (c ∷ s) = cons_trimmed c (rstrip s)

unfoldable pub strip : String → String
unfolding lstrip rstrip
strip s = lstrip (rstrip s)

-- s[:n]
unfoldable pub prefix : ℕ → String → String
prefix zero s = []
prefix (suc n) [] = []
prefix (suc n) (c ∷ s) = c ∷ prefix n s

-- s.split(): the runs of characters that are not white space. The first argument is the word that
-- is being read.
push_word : String → List String → List String
push_word [] ws = ws
push_word (c ∷ w) ws = List.◌∷◌ (c ∷ w) ws

split_from : String → String → List String
split_from w [] = push_word w List.[]
split_from w (c ∷ s) = elim (is_space c) [
  | true ↦ push_word w (split_from [] s)
  | false ↦ split_from (append w (c ∷ [])) s
]

unfoldable pub split : String → List String
unfolding split_from push_word
split s = split_from [] s

-- sep.join(words)
unfoldable pub join : String → List String → String
join sep List.[] = []
join sep (List.◌∷◌ w List.[]) = w
join sep (List.◌∷◌ w (List.◌∷◌ v vs)) = append w (append sep (join sep (List.◌∷◌ v vs)))

abbrev digit_text : ℕ → String
digit_text n =
    if n == 0
    then "0"
    else if n == 1
    then "1"
    else if n == 2
    then "2"
    else if n == 3
    then "3"
    else if n == 4
    then "4"
    else if n == 5
    then "5"
    else if n == 6
    then "6"
    else if n == 7
    then "7"
    else if n == 8
    then "8"
    else "9"

-- The decimal digits of a number, in front of `behind`.
digits_from : ℕ → ℕ → String → String
digits_from zero n behind = behind
digits_from (suc fuel) n behind = elim (ltb n 10) [
  | true ↦ append (digit_text n) behind
  | false ↦ digits_from fuel (n / 10) (append (digit_text (n % 10)) behind)
]

-- str(n). A number has at most as many digits as its value and one.
unfoldable pub decimal : ℕ → String
unfolding digits_from
decimal n = digits_from (suc n) n ""

-- s[n:]
unfoldable pub drop : ℕ → String → String
drop zero s = s
drop (suc n) [] = []
drop (suc n) (c ∷ s) = drop n s
