-- ===== src/Payload/Resumable.antt =====
-- What a durable record keeps of a payload.
use autonomous_llm_bot.Prelude.{
  ℕ, zero, suc, ◌-◌, ◌≤◌, String, ◌≡◌, refl, ap, ◌≢◌, ◌⊎◌, inl, inr, Bool, false, Option, none,
  some, List, [], ◌∷◌, map, arith, leb, leb→le, ◌==◌, ==_iff, nat_eq, string_eq, length, drop, keep,
  all, any, All, length-map, if_induction, length-drop,
}
use autonomous_llm_bot.Json.{Value, null, text}
use autonomous_llm_bot.Text
use autonomous_llm_bot.Text.Length.{length-append_text, length-prefix, length-rstrip}
use autonomous_llm_bot.Payload.{Message, Texts}
use autonomous_llm_bot.Payload.System.{NotSystem}
use autonomous_llm_bot.Payload.Tail.{
  clip_summary_text, snapshot_tail_chars, snapshot_content, snapshot_message, has_calls,
  cut_unsettled, drop_results, not_system, last_messages, snapshot_tail, settled_ids, is_settled,
}
use autonomous_llm_bot.Payload.Settled.{
  GroupsSettled, EarlierSettled, cut_unsettled-GroupsSettled, EarlierSettled-drop_results,
}
use autonomous_llm_bot.Payload.Snapshot.{snapshot-GroupsSettled}

pub length-clip_summary_text : (s : String) (n : ℕ) → Text.length (clip_summary_text s n) ≤ n
unfolding clip_summary_text
length-clip_summary_text s n =
    if_induction Short (n == 0) (λ _. omega arith)
      λ _.
        if_induction Short (leb (Text.length stripped) n) (λ short. leb→le _ _ short)
          λ _.
            if_induction Short (leb n (Text.length omission)) (λ _. length-prefix n stripped)
              λ room. omega (
                arith,
                length-append_text (Text.rstrip (Text.prefix (n - Text.length omission) stripped))
                    omission,
                length-rstrip (Text.prefix (n - Text.length omission) stripped),
                length-prefix (n - Text.length omission) stripped,
                longer room,
              )
  where
    stripped : String
    stripped = Text.strip s

    omission : String
    omission = " ...[생략]"

    Short : String → Type 0
    Short t = Text.length t ≤ n

    longer : leb n (Text.length omission) ≡ false → Text.length omission ≤ n
    longer h = ground arith

-- A content is null, or a text within the limit.
abbrev pub IsClipped : Message → Type 0
IsClipped m =
    (m.content ≡ some null)
    ⊎ ((s : String) × (m.content ≡ some (text s)) × (Text.length s ≤ snapshot_tail_chars))

abbrev pub StartsPlain : List Message → Type 0
StartsPlain [] = Unit
StartsPlain (m ∷ ms) = m.role ≢ "tool"

-- A tail that a restart can go on from.
pub record IsResumable (n : ℕ) (out : List Message) : Type 0 where
  pub settled : GroupsSettled out
  pub starts : StartsPlain out
  pub no_system : All NotSystem out
  pub clipped : All IsClipped out
  pub short : n ≢ 0 → length out ≤ n

content_clipped :
    (t : Texts) (v : Option Value)
    → (snapshot_content t v ≡ null)
      ⊎ ((s : String) × (snapshot_content t v ≡ text s) × (Text.length s ≤ snapshot_tail_chars))
unfolding snapshot_content
content_clipped t none = inl refl
content_clipped t (some null) = inl refl
content_clipped t (some v) = inr (_, refl, length-clip_summary_text _ _)

snapshot-IsClipped : (t : Texts) (m : Message) → IsClipped (snapshot_message t m)
unfolding snapshot_message
snapshot-IsClipped t m = elim (content_clipped t m.content) [
  | inl e ↦ inl (ap some e)
  | inr (s, e, l) ↦ inr (s, ap some e, l)
]

All-IsClipped : (t : Texts) (ms : List Message) → All IsClipped (map (snapshot_message t) ms)
All-IsClipped t [] = tt
All-IsClipped t (m ∷ ms) = (snapshot-IsClipped t m, All-IsClipped t ms)

map-NotSystem :
    (t : Texts) (ms : List Message) → All NotSystem ms → All NotSystem (map (snapshot_message t) ms)
unfolding snapshot_message
map-NotSystem t [] n = tt
map-NotSystem t (m ∷ ms) n = (n.0, map-NotSystem t ms n.1)

abbrev cuts : Message → List Message → Bool
cuts m ms = all (is_settled (settled_ids ms)) m.tool_calls

module _ (P : Message → Type 0) where
  All-cut : (ms : List Message) → All P ms → All P (cut_unsettled ms)
  unfolding cut_unsettled
  All-cut [] a = tt
  All-cut (m ∷ ms) a =
      if_induction (All P) (any has_calls ms) (λ _. (a.0, All-cut ms a.1))
        λ _. if_induction (All P) (cuts m ms) (λ _. a) (λ _. tt)

  All-drop_results : (ms : List Message) → All P ms → All P (drop_results ms)
  unfolding drop_results
  All-drop_results [] a = tt
  All-drop_results (m ∷ ms) a =
      if_induction (All P) (m.role == "tool") (λ _. All-drop_results ms a.1) (λ _. a)

  All-drop : (n : ℕ) (ms : List Message) → All P ms → All P (drop n ms)
  unfolding drop
  All-drop zero ms a = a
  All-drop (suc n) [] a = tt
  All-drop (suc n) (m ∷ ms) a = All-drop n ms a.1

  All-last : (n : ℕ) (ms : List Message) → All P ms → All P (last_messages n ms)
  unfolding last_messages
  All-last n ms a = if_induction (All P) (n == 0) (λ _. a) (λ _. All-drop (length ms - n) ms a)

keep-NotSystem : (ms : List Message) → All NotSystem (keep not_system ms)
unfolding keep
keep-NotSystem [] = tt
keep-NotSystem (m ∷ ms) =
    if_induction (All NotSystem) (not_system m)
      (λ h. (λ r. absurd (cc (h, (==_iff m.role "system").1 r)), keep-NotSystem ms))
      (λ _. keep-NotSystem ms)

length-cut : (ms : List Message) → length (cut_unsettled ms) ≤ length ms
unfolding cut_unsettled
length-cut [] = omega arith
length-cut (m ∷ ms) = ground (arith, length-cut ms)

length-drop_results : (ms : List Message) → length (drop_results ms) ≤ length ms
unfolding drop_results
length-drop_results [] = omega arith
length-drop_results (m ∷ ms) = ground (arith, length-drop_results ms)

length-last : (n : ℕ) (ms : List Message) → n ≢ 0 → length (last_messages n ms) ≤ n
unfolding last_messages
length-last n ms h =
    if_induction (λ (xs : List Message). length xs ≤ n) (n == 0)
      (λ e. absurd (h ((==_iff n 0).0 e))) (λ _. omega (arith, length-drop (length ms - n) ms))

drop_results-StartsPlain : (ms : List Message) → StartsPlain (drop_results ms)
unfolding drop_results
drop_results-StartsPlain [] = tt
drop_results-StartsPlain (m ∷ ms) =
    if_induction StartsPlain (m.role == "tool") (λ _. drop_results-StartsPlain ms)
      (λ h r. absurd (cc (h, (==_iff m.role "tool").1 r)))

snapshot_cut-StartsPlain :
    (t : Texts) (ms : List Message)
    → StartsPlain ms
    → StartsPlain (map (snapshot_message t) (cut_unsettled ms))
unfolding cut_unsettled snapshot_message
snapshot_cut-StartsPlain t [] s = tt
snapshot_cut-StartsPlain t (m ∷ ms) s =
    if_induction Plain (any has_calls ms) (λ _. s)
      (λ _. if_induction Plain (cuts m ms) (λ _. s) (λ _. tt))
  where
    Plain : List Message → Type 0
    Plain ms = StartsPlain (map (snapshot_message t) ms)

length-map_snapshot :
    (t : Texts) (ms : List Message) → length (map (snapshot_message t) ms) ≡ length ms
length-map_snapshot t ms = length-map (snapshot_message t) ms

-- Where the calls of every message but the last one with calls are answered before the next such
-- message, the tail that is kept has every call answered in that way, starts with no tool result,
-- holds no system message, has no content above the limit, and, unless `n` is zero, at most `n`
-- messages.
pub snapshot_tail-IsResumable :
    (t : Texts) (n : ℕ) (ms : List Message)
    → EarlierSettled (last_messages n (keep not_system ms))
    → IsResumable n (snapshot_tail t n ms)
unfolding snapshot_tail
snapshot_tail-IsResumable t n ms e =
    let last = last_messages n (keep not_system ms) in
    let front = drop_results last in
    record {
      settled =
          snapshot-GroupsSettled t (cut_unsettled front)
            (cut_unsettled-GroupsSettled front (EarlierSettled-drop_results last e));
      starts = snapshot_cut-StartsPlain t front (drop_results-StartsPlain last);
      no_system = map-NotSystem t (cut_unsettled front) (
          All-cut NotSystem front (
            All-drop_results NotSystem last
              (All-last NotSystem n (keep not_system ms) (keep-NotSystem ms))));
      clipped = All-IsClipped t (cut_unsettled front);
      short = λ h. omega (
        arith,
        length-map_snapshot t (cut_unsettled front),
        length-cut front,
        length-drop_results last,
        length-last n (keep not_system ms) h,
      );
    }
