-- ===== src/Observation.antt =====
-- observation.py: which bash calls only observe again what was observed often enough. The regular
-- expressions and `urlsplit` are parameters. A record of the trajectory is given by the entries that
-- the guard reads; a command or a step of another type is `none`.
use autonomous_llm_bot.Prelude.{
  ℕ, code, String, Bool, not, ◌&&◌, ◌||◌, Option, none, some, List, [], ◌∷◌, ◌++◌, map, ltb, leb,
  if◌then◌else◌, ◌==◌, nat_eq, string_eq, length, contains, is_nil,
}
use autonomous_llm_bot.Text
use Prim.Native.String.{◌++◌ as append}
use autonomous_llm_bot.Ledger.State.{or_text}
use autonomous_llm_bot.Dict.{Dict, lookup, insert}
use autonomous_llm_bot.Ledger.Duplicates.{is_part, codes, unique}
pub mod Targets
pub mod Repeats
pub mod Refusals
mod Tests

-- `urlsplit(s)` without its fragment.
pub record UrlParts : Type 0 where
  pub scheme : String
  pub netloc : String
  pub path : String
  pub query : String

pub record Library : Type 0 where
  -- str.lower
  pub lower : String → String
  -- `urlsplit`, `none` where it raises
  pub urlsplit : String → Option UrlParts
  -- `_URL_RE.findall`
  pub find_urls : String → List String
  -- `_HTTP_ERROR_RE.findall`
  pub find_errors : String → List String
  -- whether `_HTTP_SUCCESS_RE` matches
  pub has_success : String → Bool
  -- the number that `_EXIT_CODE_RE` finds
  pub exit_code : String → Option String

abbrev pub max_targets_per_command : ℕ
max_targets_per_command = 32

abbrev pub dead_codes : List String
dead_codes =
    "400" ∷ "401" ∷ "403" ∷ "404" ∷ "405" ∷ "406" ∷ "409" ∷ "410" ∷ "429" ∷ "500" ∷ "502" ∷ "503"
    ∷ []

abbrev pub dead_family_outcomes : List String
dead_family_outcomes = "failed" ∷ map (append "http") dead_codes

-- s.rstrip("/")
unfoldable pub rstrip_slashes : String → String
rstrip_slashes String.[] = String.[]
rstrip_slashes (String.◌∷◌ c s) =
    let rest = rstrip_slashes s in
    if rest == "" && code c == 47 then String.[] else String.◌∷◌ c rest

unfoldable pub join_url : Library → UrlParts → String
join_url lib parts =
    let path = or_text (rstrip_slashes parts.path) "/" in
    let query = if parts.query == "" then "" else append "?" parts.query in
    append (lib.lower parts.scheme)
      (append "://" (append (lib.lower parts.netloc) (append path query)))

unfoldable pub normalize_url : Library → String → Option String
unfolding join_url rstrip_slashes
normalize_url lib raw = elim (lib.urlsplit (Text.strip raw)) [
  | none ↦ none
  | some parts ↦ some (join_url lib parts)
]

-- seen.append(norm), unless it is there
unfoldable pub add_target : List String → Option String → List String
add_target seen none = seen
add_target seen (some norm) = if contains seen norm then seen else seen ++ norm ∷ []

-- The loop, from the targets seen so far.
unfoldable pub collect_targets : Library → List String → List String → List String
collect_targets lib [] seen = seen
collect_targets lib (raw ∷ raws) seen =
    let seen' = add_target seen (normalize_url lib raw) in
    let rest = collect_targets lib raws seen' in
    if ltb max_targets_per_command (length seen') then [] else rest

unfoldable pub extract_observation_targets : Library → Option String → List String
extract_observation_targets lib none = []
extract_observation_targets lib (some command) =
    if command == "" then [] else collect_targets lib (lib.find_urls command) []

-- text.replace(" ", "")
unfoldable pub without_blanks : String → List ℕ
without_blanks String.[] = []
without_blanks (String.◌∷◌ c s) =
    let rest = without_blanks s in if code c == 32 then rest else code c ∷ rest

unfoldable pub exit_outcome : Option String → String
exit_outcome none = "other"
exit_outcome (some n) = append "exit" n

-- What the set of error statuses says.
unfoldable pub status_outcome : Library → String → List String → Option String
unfolding exit_outcome
status_outcome lib text [] = some (exit_outcome (lib.exit_code text))
status_outcome lib text (s ∷ []) = if lib.has_success text then none else some (append "http" s)
status_outcome lib text (s ∷ t ∷ ss) = none

unfoldable pub classify_observation_outcome : Library → String → Bool → Option String
classify_observation_outcome lib text failed =
    if is_part (codes "\"blocked\":true") (without_blanks text)
    then none
    else if failed
    then some "failed"
    else status_outcome lib text (unique (lib.find_errors text))

unfoldable pub is_dead_family_outcome : String → Bool
is_dead_family_outcome outcome = contains dead_family_outcomes outcome

pub record TrajectoryRecord : Type 0 where
  pub step : Option ℕ
  pub tool : String
  pub executed : Bool
  pub command : Option String
  pub result : String
  pub failed : Bool

-- A step and the outcome that was seen there.
abbrev pub Sighting : Type 0
Sighting = Option ℕ × String

abbrev pub Seen : Type 0
Seen = Dict String (List Sighting)

abbrev pub or_nil : Option (List Sighting) → List Sighting
or_nil none = []
or_nil (some xs) = xs

-- seen.setdefault(target, []).append(sighting), for each target of a record
unfoldable pub note_targets : Sighting → List String → Seen → Seen
note_targets sighting [] seen = seen
note_targets sighting (t ∷ ts) seen =
    note_targets sighting ts (insert t (or_nil (lookup t seen) ++ sighting ∷ []) seen)

unfoldable pub note_outcome : Option ℕ → List String → Option String → Seen → Seen
note_outcome step targets none seen = seen
note_outcome step targets (some outcome) seen = note_targets (step, outcome) targets seen

-- One round of the first loop. Without targets nothing is noted.
unfoldable pub note_record : Library → TrajectoryRecord → Seen → Seen
unfolding note_outcome
note_record lib r seen =
    if not (r.tool == "bash_exec") || not r.executed
    then seen
    else note_outcome r.step (extract_observation_targets lib r.command)
        (classify_observation_outcome lib r.result r.failed) seen

unfoldable pub note_records : Library → List TrajectoryRecord → Seen → Seen
note_records lib [] seen = seen
note_records lib (r ∷ rs) seen = note_records lib rs (note_record lib r seen)

unfoldable pub known_steps : List Sighting → List ℕ
known_steps [] = []
known_steps ((none, outcome) ∷ xs) = known_steps xs
known_steps ((some step, outcome) ∷ xs) = step ∷ known_steps xs

unfoldable pub last_outcome : List Sighting → String
last_outcome [] = ""
last_outcome ((step, outcome) ∷ []) = outcome
last_outcome (x ∷ y ∷ xs) = last_outcome (y ∷ xs)

-- What the guard says of a stale target: the steps, and the latest outcome.
abbrev pub Stale : Type 0
Stale = Dict String (List ℕ × String)

abbrev pub is_repeated : ℕ → List Sighting → Bool
is_repeated limit sightings = leb limit (length sightings) && not (is_nil (known_steps sightings))

-- stale[target] = {"steps": ..., "outcome": ...}
abbrev pub entry : List Sighting → List ℕ × String
entry sightings = (known_steps sightings, last_outcome sightings)

-- One round of the second loop, on the observations of its target.
unfoldable pub add_stale : ℕ → String → List Sighting → Stale → Stale
add_stale limit t sightings stale =
    if is_repeated limit sightings then insert t (entry sightings) stale else stale

unfoldable pub collect_stale : ℕ → Seen → List String → Stale → Stale
collect_stale limit seen [] stale = stale
collect_stale limit seen (t ∷ ts) stale =
    collect_stale limit seen ts (add_stale limit t (or_nil (lookup t seen)) stale)

unfoldable pub find_stale_targets : Library → List TrajectoryRecord → List String → ℕ → Stale
find_stale_targets lib records targets limit =
    collect_stale limit (note_records lib records []) targets []

-- The records are those that `trajectory.read_records` returns, `none` where it raises.
unfoldable pub check_observation_repeat :
    Library → Option (List TrajectoryRecord) → Option String → ℕ → Option Stale
check_observation_repeat lib none command limit = none
check_observation_repeat lib (some records) command limit =
    let targets = extract_observation_targets lib command in
    let stale = find_stale_targets lib records targets limit in
    if not (is_nil targets) && length stale == length targets then some stale else none
