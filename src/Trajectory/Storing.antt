-- ===== src/Trajectory/Storing.antt =====
-- A successful append, and the log that is read afterwards.
use autonomous_llm_bot.Prelude.{
  ℕ, ◌≤◌, String, ◌≡◌, refl, sym, ap, ◌∙◌, subst, Bool, true, false, not, ◌&&◌, Option, List, [],
  ◌∷◌, ◌++◌, map, arith, ◌==◌, nat_eq, string_eq, length, All, Result, ok, if_induction, is_nil,
}
use autonomous_llm_bot.Json.{Fields}
use autonomous_llm_bot.Text.Lines.{
  entries, separator, written, entries-append, IsLine, entries-written,
}
use autonomous_llm_bot.Trajectory.{
  Codec, is_digest, Scan, initial, scan, decode_records, as_text, as_step,
}
use autonomous_llm_bot.Trajectory.Append.{
  last_record, payload, ToolCall, build_records, Fault, from_last, is_after, zip, append_tool_group,
  discard,
}
use autonomous_llm_bot.Trajectory.Chain.{scan-IsSound, initial-IsSound}
use autonomous_llm_bot.Trajectory.Resume.{
  IsResting, scan-append, scan_complete, none_pending-nil, IsSound-IsResting,
}
use autonomous_llm_bot.Trajectory.RoundTrip.{IsReadable, Alike, ReadAs, read_group}
use Prim.Native.String.{◌++◌ as append}
use mathlib.Core.List.{append-nil}
use text.Mathlib.TextLemmas

-- The log `after` holds what `before` holds and, behind it, records with the entries of `rs`.
abbrev pub Extends : Codec → String → List Fields → String → Type 0
Extends c before rs after =
    (read : List Fields) × (decode_records c after
      ≡ record { records = (decode_records c before).records ++ read; complete = true })
    × Alike read rs

lines-IsLine :
    (c : Codec) (rs : List Fields) → All (IsReadable c) rs → All IsLine (map c.canonical rs)
lines-IsLine c [] h = tt
lines-IsLine c (r ∷ rs) h = (h.0.line, lines-IsLine c rs h.1)

module _ (c : Codec) (digests : (s : String) → is_digest (c.sha256 s) ≡ true) (existing : String)
    (complete : (decode_records c existing).complete ≡ true) where
  unchanged : Extends c existing [] (append existing "")
  unfolding decode_records
  unchanged =
      rw (TextLemmas.append-nil existing)
        ([], rw (append-nil (decode_records c existing).records, complete) refl, tt)

  abbrev state : Scan
  state = (scan c (entries existing) initial).0

  state-IsResting : IsResting c state
  unfolding decode_records
  state-IsResting =
      IsSound-IsResting c state (scan-IsSound c (entries existing) initial (initial-IsSound c))
        (scan_complete c (entries existing) initial complete)

  scanned_on :
      (lines : List String)
      → All IsLine lines
      → scan c (entries (append existing (append (separator existing) (written lines)))) initial
        ≡ scan c lines state
  unfolding decode_records
  scanned_on lines h =
      rw (entries-append existing (written lines), entries-written lines h)
        (scan-append c (entries existing) lines initial complete)

  extended :
      (r : Fields) (rs : List Fields)
      → All (IsReadable c) (r ∷ rs)
      → ReadAs c state (r ∷ rs)
      → Extends c existing (r ∷ rs) (append existing (payload c existing (r ∷ rs)))
  unfolding decode_records
  extended r rs h a = (
    a.read,
    ap (λ (x : Scan × Bool). record { records = x.0.records; complete = x.1 })
          (scanned_on (map c.canonical (r ∷ rs)) (lines-IsLine c (r ∷ rs) h) ∙ a.scanned)
        ∙ ap (λ xs. record { records = xs; complete = true })
            (a.kept
              ∙ ap (λ ps. state.records ++ (ps ++ a.read))
                  (none_pending-nil state.pending
                    (scan_complete c (entries existing) initial complete))),
    a.alike,
  )

  -- The group of one call at least.
  stored_group :
      (step : ℕ) (call : ToolCall) (result : String) (rest : List (ToolCall × String))
      (remaining : List String)
      → let last = last_record (decode_records c existing).records in
        let records =
          build_records c step ((call, result) ∷ rest) (from_last as_text "id" last) remaining in
        1 ≤ step
        → is_after step (from_last as_step "step" last) ≡ true
        → All (IsReadable c) records
        → Extends c existing records (append existing (payload c existing records))
  unfolding decode_records build_records
  stored_group step call result rest remaining positive after h = extended _ _ h (
      read_group c digests step positive call result rest _ remaining state state-IsResting.parent
        (state-IsResting.order step positive after) h)

  stored_pairs :
      (step : ℕ) (pairs : List (ToolCall × String)) (remaining : List String)
      → let last = last_record (decode_records c existing).records in
        let records = build_records c step pairs (from_last as_text "id" last) remaining in
        1 ≤ step
        → (is_nil pairs ≡ false → is_after step (from_last as_step "step" last) ≡ true)
        → All (IsReadable c) records
        → Extends c existing records (append existing (payload c existing records))
  unfolding build_records
  stored_pairs step [] remaining positive after h = unchanged
  stored_pairs step ((call, result) ∷ rest) remaining positive after h =
      stored_group step call result rest remaining positive (after refl) h

zip_nil :
    (calls : List ToolCall) (results : List String)
    → is_nil (zip calls results) ≡ false
    → (length calls == 0) ≡ false
unfolding zip
zip_nil [] results h = cc
zip_nil (call ∷ calls) results h = ground arith

-- Where `sha256` gives 64 hexadecimal digits, and the records that an append returns are readable,
-- the log that it leaves is complete, and holds the records that were there and, behind them, the
-- returned ones, entry by entry.
pub append-Extends :
    (c : Codec) (step : ℕ) (calls : List ToolCall) (results executed_ids : List String)
    (existing : String) (rs : List Fields)
    → ((s : String) → is_digest (c.sha256 s) ≡ true)
    → (append_tool_group c step calls results executed_ids existing).1 ≡ ok rs
    → All (IsReadable c) rs
    → Extends c existing rs (append_tool_group c step calls results executed_ids existing).0
unfolding append_tool_group
append-Extends c step calls results executed_ids existing rs digests =
    if_induction Stores (step == 0) (λ _ e h. cc)
      λ some_step.
        if_induction Stores (not (length calls == length results)) (λ _ e h. cc)
          λ _.
            if_induction Stores (not (decode_records c existing).complete) (λ _ e h. cc)
              λ whole.
                if_induction Stores
                  (not (length calls == 0) && not (is_after step (from_last as_step "step" last)))
                  (λ _ e h. cc)
                  λ later e h.
                    let same : made ≡ rs = cc in
                    subst (λ xs. Extends c existing xs (append existing (payload c existing made)))
                      same
                      (stored_pairs c digests existing (ground arith) step (zip calls results)
                        (discard "" executed_ids) (ground arith)
                        (λ some_pair. ground (arith, zip_nil calls results some_pair))
                        (subst (All (IsReadable c)) (sym same) h))
  where
    Stores : String × Result Fault (List Fields) → Type 0
    Stores r = r.1 ≡ ok rs → All (IsReadable c) rs → Extends c existing rs r.0

    last : Option Fields
    last = last_record (decode_records c existing).records

    made : List Fields
    made =
        build_records c step (zip calls results) (from_last as_text "id" last)
          (discard "" executed_ids)
