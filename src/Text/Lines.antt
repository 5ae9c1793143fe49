-- ===== src/Text/Lines.antt =====
-- `str.splitlines`, and the lines that are not blank.
use autonomous_llm_bot.Prelude.{
  ℕ, Char, code, String, ◌≡◌, refl, ap, ◌≢◌, inl, inr, Bool, true, false, ◌&&◌, ◌||◌, List, [], ◌∷◌,
  ◌++◌, arith, leb, if◌then◌else◌, ◌==◌, nat_eq, string_eq, ==_false, Bool-cases, All, eq_iff,
  if_induction,
}
use autonomous_llm_bot.Text
use Prim.Native.String.{◌++◌ as append}
use Prim.Native.Char.{char}
use text.Mathlib.TextLemmas.{nil-append, cons-append, append-nil, append_assoc}

-- The code points that end a line.
unfoldable pub is_break : ℕ → Bool
is_break n = (leb 10 n && leb n 13) || (leb 28 n && leb n 30) || n == 133 || n == 8232 || n == 8233

abbrev pub last_line : String → List String
last_line w = if w == "" then [] else w ∷ []

-- The first argument says that a carriage return was just read, the second is the line so far.
unfoldable pub lines_from : Bool → String → String → List String
lines_from after_return w String.[] = last_line w
lines_from after_return w (String.◌∷◌ c s) = elim (after_return && code c == 10) [
  | true ↦ lines_from false "" s
  | false ↦ elim (is_break (code c)) [
    | true ↦ w ∷ lines_from (code c == 13) "" s
    | false ↦ lines_from false (append w (String.◌∷◌ c String.[])) s
  ]
]

unfoldable pub splitlines : String → List String
unfolding lines_from
splitlines s = lines_from false "" s

-- if not line.strip(): continue
unfoldable pub nonblank : List String → List String
nonblank [] = []
nonblank (w ∷ ws) = let rest = nonblank ws in if Text.strip w == "" then rest else w ∷ rest

nonblank-append : (vs ws : List String) → nonblank (vs ++ ws) ≡ nonblank vs ++ nonblank ws
unfolding nonblank
nonblank-append [] ws = refl
nonblank-append (v ∷ vs) ws = ground (arith, nonblank-append vs ws)

nonblank-last_line :
    (w : String) (ws : List String) → nonblank (w ∷ ws) ≡ nonblank (last_line w) ++ nonblank ws
unfolding nonblank Text.strip
nonblank-last_line w ws = elim (Bool-cases (w == "")) [
  | inl empty ↦ rw ((eq_iff w "").0 empty) refl
  | inr full ↦ rw full (
      if_induction (λ r. r ≡ (if Text.strip w == "" then [] else w ∷ []) ++ nonblank ws)
        (Text.strip w == "") (λ e. rw e refl) (λ e. rw e refl))
]

abbrev pub newline : Char
newline = char 10 tt

-- A newline ends a line: what is in front of it and what is behind it are read apart. Where a
-- carriage return was just read, the line so far is empty.
lines_from-newline :
    (a b w : String) (after_return : Bool)
    → (after_return ≡ true → w ≡ "")
    → nonblank (lines_from after_return w (append a (String.◌∷◌ newline b)))
      ≡ nonblank (lines_from after_return w a) ++ nonblank (lines_from false "" b)
unfolding lines_from is_break nonblank
lines_from-newline String.[] b w true v = rw (nil-append, v refl) refl
lines_from-newline String.[] b w false v =
    rw nil-append (nonblank-last_line w (lines_from false "" b))
lines_from-newline (String.◌∷◌ c a) b w after_return v = rw cons-append (
    ground (
      arith,
      lines_from-newline a b "" false (λ _. refl),
      lines_from-newline a b "" (code c == 13) (λ _. refl),
      lines_from-newline a b (append w (String.◌∷◌ c String.[])) false (λ e. ground arith),
    ))

unfoldable pub has_break : String → Bool
has_break String.[] = false
has_break (String.◌∷◌ c s) = is_break (code c) || has_break s

-- A break ends the line in front of it, and what is behind it is read apart.
pub lines_from-break :
    (l b w : String) (d : Char)
    → has_break l ≡ false
    → is_break (code d) ≡ true
    → lines_from false w (append l (String.◌∷◌ d b)) ≡ append w l ∷ lines_from (code d == 13) "" b
unfolding lines_from has_break
lines_from-break String.[] b w d h breaks = rw (nil-append, append-nil) (ground arith)
lines_from-break (String.◌∷◌ c l) b w d h breaks = rw cons-append (
    ground (
      arith,
      lines_from-break l b (append w (String.◌∷◌ c String.[])) d,
      append_assoc w (String.◌∷◌ c String.[]) l,
      cons-append c String.[] l,
      nil-append l,
    ))

-- s.endswith("\n")
unfoldable pub ends_with_newline : String → Bool
ends_with_newline String.[] = false
ends_with_newline (String.◌∷◌ c String.[]) = code c == 10
ends_with_newline (String.◌∷◌ c (String.◌∷◌ d s)) = ends_with_newline (String.◌∷◌ d s)

lines_from-ended :
    (a b w : String) (after_return : Bool)
    → (after_return ≡ true → w ≡ "")
    → ends_with_newline a ≡ true
    → nonblank (lines_from after_return w (append a b))
      ≡ nonblank (lines_from after_return w a) ++ nonblank (lines_from false "" b)
unfolding lines_from is_break nonblank ends_with_newline
lines_from-ended String.[] b w after_return v h = ground arith
lines_from-ended (String.◌∷◌ c String.[]) b w after_return v h =
    rw (cons-append, nil-append) (ground arith)
lines_from-ended (String.◌∷◌ c (String.◌∷◌ d a)) b w after_return v h = rw cons-append (
    ground (
      arith,
      lines_from-ended (String.◌∷◌ d a) b "" false (λ _. refl) h,
      lines_from-ended (String.◌∷◌ d a) b "" (code c == 13) (λ _. refl) h,
      lines_from-ended (String.◌∷◌ d a) b (append w (String.◌∷◌ c String.[])) false
          (λ e. ground arith) h,
    ))

-- What a reader of the file takes: the lines that are not blank.
unfoldable pub entries : String → List String
entries s = nonblank (splitlines s)

-- b"\n" if existing and not existing.endswith(b"\n") else b""
unfoldable pub separator : String → String
separator s = if s == "" || ends_with_newline s then "" else String.◌∷◌ newline ""

-- The file that has each line with a newline behind it.
unfoldable pub written : List String → String
written [] = ""
written (l ∷ ls) = append l (String.◌∷◌ newline (written ls))

-- What is appended behind a separator is read behind what was there.
pub entries-append :
    (s b : String) → entries (append s (append (separator s) b)) ≡ entries s ++ entries b
unfolding entries separator splitlines lines_from nonblank
entries-append s b = elim (Bool-cases (s == "")) [
  | inl empty ↦ rw ((eq_iff s "").0 empty, nil-append, nil-append) refl
  | inr full ↦ elim (Bool-cases (ends_with_newline s)) [
    | inl ended ↦ rw (full, ended, nil-append) (lines_from-ended s b "" false (λ _. refl) ended)
    | inr open_end ↦
        rw (full, open_end, cons-append, nil-append) (lines_from-newline s b "" false (λ _. refl))
  ]
]

-- A line that a file can give back.
abbrev pub IsLine : String → Type 0
IsLine l = (has_break l ≡ false) × (Text.strip l ≢ "")

pub entries-written : (ls : List String) → All IsLine ls → entries (written ls) ≡ ls
unfolding entries written splitlines lines_from is_break nonblank
entries-written [] h = refl
entries-written (l ∷ ls) h =
    rw
      (
        lines_from-break l (written ls) "" newline h.0.0 refl,
        nil-append,
        ==_false (Text.strip l) "" h.0.1,
      )
      (ap (◌∷◌ l) (entries-written ls h.1))

-- Up to the first break of a text, its entries begin with what stands in front of it.
pub entries-break :
    (l b : String) (d : Char)
    → IsLine l
    → is_break (code d) ≡ true
    → (rest : List String) × (entries (append l (String.◌∷◌ d b)) ≡ l ∷ rest)
unfolding entries splitlines nonblank
entries-break l b d h breaks = (
  nonblank (lines_from (code d == 13) "" b),
  rw (lines_from-break l b "" d h.0 breaks, nil-append, ==_false (Text.strip l) "" h.1) refl,
)
