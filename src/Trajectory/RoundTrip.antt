-- ===== src/Trajectory/RoundTrip.antt =====
-- What `append_tool_group` writes is what the reader gives back.
use autonomous_llm_bot.Prelude.{
  ℕ, ◌≤◌, String, ◌≡◌, refl, ap, ◌∙◌, Bool, true, false, ◌&&◌, Option, none, some, List, [], ◌∷◌,
  ◌++◌, map, arith, if◌then◌else◌, ==_iff, nat_eq, string_eq, ==_refl, All, if_induction,
}
use autonomous_llm_bot.Json.{number, object, Fields, get, pop, of_optional}
use autonomous_llm_bot.Text.Lines.{IsLine}
use autonomous_llm_bot.Trajectory.{
  Codec, is_artifact_path, is_parent, is_artifact, is_digest, Checked, check_record, is_schema,
  as_text, as_step, as_flag, Scan, in_order, close_group, keep_open, take_checked, take_object,
  take_line, scan,
}
use autonomous_llm_bot.Trajectory.Append.{
  ToolCall, kept_artifact, body_of, with_id, was_executed, remaining_after, build_records,
}
use autonomous_llm_bot.Trajectory.Chain.{scan-goes_on}
use mathlib.Core.List.{append_assoc}

-- The text of a record is one line that is not blank, and reads back as an object with the same
-- entries, whose canonical text without the id is that of the record.
pub record IsReadable (c : Codec) (r : Fields) : Type 0 where
  pub parsed : Fields
  pub loaded : c.loads (c.canonical r) ≡ some (object parsed)
  pub same : (key : String) → get key parsed ≡ get key r
  pub body : c.canonical (pop "id" parsed) ≡ c.canonical (pop "id" r)
  pub line : IsLine (c.canonical r)

own_parent : (parent : Option String) → is_parent parent (some (of_optional parent)) ≡ true
own_parent none = refl
own_parent (some p) = ==_refl p

own_artifact :
    (executed : Bool) (path : Option String)
    → is_artifact (some (of_optional (kept_artifact executed path))) ≡ true
own_artifact executed none = refl
own_artifact executed (some p) =
    if_induction (λ o. is_artifact (some (of_optional o)) ≡ true) (executed && is_artifact_path p)
      (λ e. ground arith) (λ _. refl)

check_passes :
    (c : Codec) (parent : Option String) (r : Fields) (id : String) (step : ℕ) (group_end : Bool)
    → as_text (get "id" r) ≡ some id
    → as_step (get "step" r) ≡ some step
    → as_flag (get "group_end" r) ≡ some group_end
    → is_digest id ≡ true
    → is_parent parent (get "parent" r) ≡ true
    → c.sha256 (c.canonical (pop "id" r)) ≡ id
    → is_artifact (get "artifact_path" r) ≡ true
    → check_record c parent r ≡ some (record { id = id; step = step; group_end = group_end })
unfolding check_record
check_passes c parent r id step group_end e1 e2 e3 h1 h2 h3 h4 =
    rw (e1, e2, e3, h1, h2, (==_iff (c.sha256 (c.canonical (pop "id" r))) id).1 h3, h4) refl

as_step_positive : (step : ℕ) → 1 ≤ step → as_step (some (number step)) ≡ some step
as_step_positive step h = ground arith

module _ (c : Codec) (digests : (s : String) → is_digest (c.sha256 s) ≡ true) (step : ℕ)
    (positive : 1 ≤ step) where
  module _ (call : ToolCall) (result : String) (executed : Bool) (parent : Option String)
      (group_end : Bool) where
    abbrev body : Fields
    body = body_of call result executed step parent group_end

    abbrev id : String
    id = c.sha256 (c.canonical body)

    abbrev expected : Checked
    expected = record { id = id; step = step; group_end = group_end }

    record-checked :
        (r : IsReadable c (with_id id body)) → check_record c parent r.parsed ≡ some expected
    unfolding body_of with_id get pop
    record-checked r =
        check_passes c parent r.parsed id step group_end (ap as_text (r.same "id"))
          (ap as_step (r.same "step") ∙ as_step_positive step positive)
          (ap as_flag (r.same "group_end")) (digests (c.canonical body))
          (ap (is_parent parent) (r.same "parent") ∙ own_parent parent) (ap c.sha256 r.body)
          (ap is_artifact (r.same "artifact_path") ∙ own_artifact executed call.artifact_path)

    record-taken :
        (s : Scan) (r : IsReadable c (with_id id body))
        → s.expected_parent ≡ parent
        → in_order s.pending_step s.previous_step step ≡ true
        → take_line c s (c.canonical (with_id id body))
          ≡ some
              (if group_end then close_group s r.parsed expected else keep_open s r.parsed expected)
    unfolding take_line take_object take_checked body_of with_id get
    record-taken s r e order =
        rw (r.loaded, ap (is_schema c) (r.same "schema"), e, record-checked r, order) refl

-- The same entries under every key, record by record.
abbrev pub Alike : List Fields → List Fields → Type 0
Alike [] [] = Unit
Alike [] (r ∷ rs) = ⊥
Alike (q ∷ qs) [] = ⊥
Alike (q ∷ qs) (r ∷ rs) = ((key : String) → get key q ≡ get key r) × Alike qs rs

-- The lines of `rs` are all read from `s`, and end a group.
pub record ReadAs (c : Codec) (s : Scan) (rs : List Fields) : Type 0 where
  pub after : Scan
  pub read : List Fields
  pub scanned : scan c (map c.canonical rs) s ≡ (after, true)
  pub kept : after.records ≡ s.records ++ (s.pending ++ read)
  pub alike : Alike read rs

module _ (c : Codec) (digests : (s : String) → is_digest (c.sha256 s) ≡ true) (step : ℕ)
    (positive : 1 ≤ step) where
  pub read_group :
      (call : ToolCall) (result : String) (rest : List (ToolCall × String)) (parent : Option String)
      (remaining : List String) (s : Scan)
      → s.expected_parent ≡ parent
      → in_order s.pending_step s.previous_step step ≡ true
      → All (IsReadable c) (build_records c step ((call, result) ∷ rest) parent remaining)
      → ReadAs c s (build_records c step ((call, result) ∷ rest) parent remaining)
  unfolding build_records scan
  read_group call result [] parent remaining s e order (r, _) = record {
    after = close_group s r.parsed k;
    read = r.parsed ∷ [];
    scanned =
        scan-goes_on c _ [] s (close_group s r.parsed k)
          (record-taken c digests step positive call result executed parent true s r e order);
    kept = refl;
    alike = (r.same, tt);
  }
    where
      executed : Bool
      executed = was_executed call.id remaining

      k : Checked
      k = expected c digests step positive call result executed parent true
  read_group call result ((call', result') ∷ rest) parent remaining s e order (r, rs) =
      let executed = was_executed call.id remaining in
      let k = expected c digests step positive call result executed parent false in
      let s' = keep_open s r.parsed k in
      let left = if executed then remaining_after call.id remaining else remaining in
      let lines =
        map c.canonical (build_records c step ((call', result') ∷ rest) (some k.id) left) in
      let later = read_group call' result' rest (some k.id) left s' refl (==_refl step) rs in
      record {
        after = later.after;
        read = r.parsed ∷ later.read;
        scanned =
            scan-goes_on c _ lines s s'
              (record-taken c digests step positive call result executed parent false s r e order)
            ∙ later.scanned;
        kept = later.kept ∙ ap (◌++◌ s.records) (append_assoc s.pending (r.parsed ∷ []) later.read);
        alike = (r.same, later.alike);
      }
