-- ===== src/Trajectory/Clipping.antt =====
-- A clipped text keeps within its limit.
use autonomous_llm_bot.Prelude.{
  ℕ, ◌+◌, ◌-◌, ◌*◌, ◌/◌, ◌≤◌, max, String, arith, leb, nat_eq, string_eq, if_induction,
}
use autonomous_llm_bot.Text
use autonomous_llm_bot.Trajectory.Append.{clip_middle, kept_around}
use autonomous_llm_bot.Text.Length.{length-append_text, length-prefix, length-drop_text}
use Prim.Native.String.{◌++◌ as append}

length-kept_around :
    (s marker : String) (available : ℕ)
    → Text.length (kept_around s marker available) ≤ available + Text.length marker
length-kept_around s marker available =
    let head = (available * 3) / 4 in
    let tail = available - head in
    omega (
      arith,
      length-append_text (Text.prefix head s) (append marker (Text.drop (Text.length s - tail) s)),
      length-append_text marker (Text.drop (Text.length s - tail) s),
      length-prefix head s,
      length-drop_text (Text.length s - tail) s,
    )

-- A text that is clipped in the middle has at most `limit` characters, or one where the limit is
-- zero.
pub length-clip_middle : (s : String) (limit : ℕ) → Text.length (clip_middle s limit) ≤ max 1 limit
unfolding clip_middle
length-clip_middle s limit =
    if_induction Bounded (leb (Text.length s) limit') (λ short. ground arith)
      λ _.
        if_induction Bounded (leb limit' (Text.length marker)) (λ _. length-prefix limit' marker)
          λ room. ground (arith, length-kept_around s marker (limit' - Text.length marker))
  where
    limit' : ℕ
    limit' = max 1 limit

    marker : String
    marker = append "...[" (append (Text.decimal (Text.length s - limit')) "자 생략]...")

    Bounded : String → Type 0
    Bounded t = Text.length t ≤ limit'
