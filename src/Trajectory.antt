-- ===== src/Trajectory.antt =====
-- trajectory.py: the append-only log of a run and how it is read back. JSON, `sha256` and the text of
-- the file are what a `Codec` says; the descriptor, its lock and its mode are outside. A record is the
-- entries of its object.
use autonomous_llm_bot.Prelude.{
  ℕ, String, Bool, true, false, ◌&&◌, ◌||◌, Option, none, some, List, [], ◌∷◌, ◌++◌, ltb, leb,
  if◌then◌else◌, ◌==◌, nat_eq, string_eq, length, take, drop, all,
}
use autonomous_llm_bot.Json.{Value, null, boolean, number, real, text, object, Fields, get, pop}
use autonomous_llm_bot.Text
use autonomous_llm_bot.Text.Lines.{entries}
use autonomous_llm_bot.Ledger.Duplicates.{codes}
pub mod Append
pub mod Chain
pub mod Resume
pub mod RoundTrip
pub mod Storing
pub mod Separators
pub mod Clipping
pub mod Source
pub mod Budget
pub mod Lookup
mod Tests

pub record Codec : Type 0 where
  -- `_canonical` of an object
  pub canonical : Fields → String
  -- `json.loads`, `none` where it raises
  pub loads : String → Option Value
  -- hashlib.sha256(s.encode("utf-8")).hexdigest()
  pub sha256 : String → String
  -- whether a number that is written with a fraction or an exponent equals a whole one
  pub real_is : String → ℕ → Bool

abbrev pub schema : ℕ
schema = 3

-- `[0-9a-f]`
unfoldable pub is_hex : ℕ → Bool
is_hex n = (leb 48 n && leb n 57) || (leb 97 n && leb n 102)

codes_beq : List ℕ → List ℕ → Bool
codes_beq [] [] = true
codes_beq [] (y ∷ ys) = false
codes_beq (x ∷ xs) [] = false
codes_beq (x ∷ xs) (y ∷ ys) = x == y && codes_beq xs ys

-- `_ARTIFACT_PATH.fullmatch`
unfoldable pub is_artifact_path : String → Bool
unfolding codes_beq
is_artifact_path s =
    let xs = codes s in
    codes_beq (take 15 xs) (codes "artifacts/out_.")
    && (all is_hex (take 64 (drop 15 xs))
        && (codes_beq (drop 79 xs) (codes ".log") && length xs == 83))

abbrev pub is_schema : Codec → Option Value → Bool
is_schema c (some (number n)) = n == schema
is_schema c (some (real s)) = c.real_is s schema
is_schema c _ = false

-- A JSON text under a key, if there is one.
abbrev pub as_text : Option Value → Option String
as_text (some (text s)) = some s
as_text _ = none

-- A whole number of at least one, and not a Boolean.
abbrev pub as_step : Option Value → Option ℕ
as_step (some (number n)) = if leb 1 n then some n else none
as_step _ = none

abbrev pub as_flag : Option Value → Option Bool
as_flag (some (boolean b)) = some b
as_flag _ = none

-- record.get("parent") != expected_parent
abbrev pub is_parent : Option String → Option Value → Bool
is_parent none none = true
is_parent none (some null) = true
is_parent (some p) (some (text s)) = s == p
is_parent _ _ = false

abbrev pub is_artifact : Option Value → Bool
is_artifact (some null) = true
is_artifact (some (text s)) = is_artifact_path s
is_artifact _ = false

-- The shape of an id: 64 lower case hexadecimal digits.
unfoldable pub is_digest : String → Bool
is_digest s = Text.length s == 64 && all is_hex (codes s)

-- What the checks of one record let through: its id, its step and whether it ends a group.
pub record Checked : Type 0 where
  pub id : String
  pub step : ℕ
  pub group_end : Bool

abbrev pub checked_with :
    Codec → Option String → Fields → Option String → Option ℕ → Option Bool → Option Checked
checked_with c parent r (some id) (some step) (some group_end) =
    if is_digest id
      && (is_parent parent (get "parent" r)
          && (c.sha256 (c.canonical (pop "id" r)) == id && is_artifact (get "artifact_path" r)))
    then some (record { id = id; step = step; group_end = group_end })
    else none
checked_with c parent r _ _ _ = none

unfoldable pub check_record : Codec → Option String → Fields → Option Checked
check_record c parent r =
    checked_with c parent r (as_text (get "id" r)) (as_step (get "step" r))
      (as_flag (get "group_end" r))

-- The variables of the loop.
pub record Scan : Type 0 where
  pub records : List Fields
  pub pending : List Fields
  pub pending_step : Option ℕ
  pub expected_parent : Option String
  pub previous_step : ℕ

abbrev pub initial : Scan
initial = record {
  records = [];
  pending = [];
  pending_step = none;
  expected_parent = none;
  previous_step = 0;
}

-- The step of a record continues the group, or begins a later one.
abbrev pub in_order : Option ℕ → ℕ → ℕ → Bool
in_order none previous step = ltb previous step
in_order (some pending) previous step = step == pending

-- The last record of a group, and one that others of its group follow.
abbrev pub close_group : Scan → Fields → Checked → Scan
close_group s r k = record {
  records = s.records ++ (s.pending ++ r ∷ []);
  pending = [];
  pending_step = none;
  expected_parent = some k.id;
  previous_step = k.step;
}

abbrev pub keep_open : Scan → Fields → Checked → Scan
keep_open s r k = record s {
  pending = s.pending ++ r ∷ [];
  pending_step = some k.step;
  expected_parent = some k.id;
}

unfoldable pub take_checked : Scan → Fields → Option Checked → Option Scan
take_checked s r none = none
take_checked s r (some k) =
    if in_order s.pending_step s.previous_step k.step
    then some (if k.group_end then close_group s r k else keep_open s r k)
    else none

unfoldable pub take_object : Codec → Scan → Option Fields → Option Scan
unfolding take_checked check_record
take_object c s none = none
take_object c s (some r) =
    if is_schema c (get "schema" r)
    then take_checked s r (check_record c s.expected_parent r)
    else none

abbrev pub as_object : Option Value → Option Fields
as_object (some (object r)) = some r
as_object _ = none

-- What the loop makes of a line: the next state, `none` where it stops.
unfoldable pub take_line : Codec → Scan → String → Option Scan
unfolding take_object
take_line c s line = take_object c s (as_object (c.loads line))

-- The records of whole groups, and whether nothing invalid or unfinished was met.
pub record Decoded : Type 0 where
  pub records : List Fields
  pub complete : Bool

abbrev pub none_pending : List Fields → Bool
none_pending [] = true
none_pending (r ∷ rs) = false

-- The loop over the lines that are not blank; it stops at the first invalid one.
unfoldable pub scan : Codec → List String → Scan → Scan × Bool
unfolding take_line
scan c [] s = (s, none_pending s.pending)
scan c (line ∷ lines) s = elim (take_line c s line) [
  | none ↦ (s, false)
  | some s' ↦ scan c lines s'
]

-- `_decode_records` without `require_complete`
unfoldable pub decode_records : Codec → String → Decoded
unfolding scan
decode_records c content =
    let (s, complete) = scan c (entries content) initial in
    record { records = s.records; complete = complete }
