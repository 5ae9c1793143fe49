-- ===== src/Text/Length.antt =====
-- skip: [] ◌∷◌ length drop
-- How long texts are.
use Prim.Native.String.{◌++◌ as append}
use autonomous_llm_bot.Prelude.{
  ℕ, zero, suc, ◌+◌, ◌-◌, ◌≤◌, Char, String, ◌≡◌, refl, ap, false, arith, ◌==◌, string_eq, ==_false,
  if_induction,
}
use autonomous_llm_bot.Text
use text.Mathlib.TextLemmas.{nil-append, cons-append}

pub length-append_text : (s t : String) → Text.length (append s t) ≡ Text.length s + Text.length t
length-append_text String.[] t = rw nil-append (omega arith)
length-append_text (String.◌∷◌ c s) t = rw cons-append (ground (arith, length-append_text s t))

pub length-prefix : (n : ℕ) (s : String) → Text.length (Text.prefix n s) ≤ n
unfolding Text.prefix
length-prefix zero s = omega arith
length-prefix (suc n) String.[] = omega arith
length-prefix (suc n) (String.◌∷◌ c s) = omega (arith, length-prefix n s)

pub length-drop_text : (n : ℕ) (s : String) → Text.length (Text.drop n s) ≡ Text.length s - n
unfolding Text.drop
length-drop_text zero s = omega arith
length-drop_text (suc n) String.[] = omega arith
length-drop_text (suc n) (String.◌∷◌ c s) = ground (arith, length-drop_text n s)

length-cons_trimmed :
    (c : Char) (s : String) → Text.length (Text.cons_trimmed c s) ≤ suc (Text.length s)
unfolding Text.cons_trimmed
length-cons_trimmed c String.[] =
    if_induction (λ s. Text.length s ≤ 1) (Text.is_space c) (λ _. omega arith) (λ _. omega arith)
length-cons_trimmed c (String.◌∷◌ d s) = omega arith

pub length-rstrip : (s : String) → Text.length (Text.rstrip s) ≤ Text.length s
unfolding Text.rstrip
length-rstrip String.[] = omega arith
length-rstrip (String.◌∷◌ c s) =
    omega (arith, length-cons_trimmed c (Text.rstrip s), length-rstrip s)

pub prefix_short : (n : ℕ) (s : String) → Text.length s ≤ n → Text.prefix n s ≡ s
unfolding Text.prefix
prefix_short zero String.[] h = refl
prefix_short zero (String.◌∷◌ c s) h = absurd (omega arith)
prefix_short (suc n) String.[] h = refl
prefix_short (suc n) (String.◌∷◌ c s) h = ap (String.◌∷◌ c) (prefix_short n s (omega arith))

pub prefix-ne : (n : ℕ) (s : String) → (s == "") ≡ false → (Text.prefix (suc n) s == "") ≡ false
unfolding Text.prefix
prefix-ne n String.[] h = h
prefix-ne n (String.◌∷◌ c s) h =
    ==_false (String.◌∷◌ c (Text.prefix n s)) "" (λ e. absurd (omega (arith, ap Text.length e)))
