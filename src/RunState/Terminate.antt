-- ===== src/RunState/Terminate.antt =====
-- run_state.py, `terminate`: the record of a run that has ended stays one that can be resumed.
use mathlib.Core.Option
use autonomous_llm_bot.Prelude.{
  String, ◌≡◌, refl, sym, ap, ◌∙◌, inl, inr, true, false, Option, none, some, arith, if◌then◌else◌,
  ◌==◌, string_eq, ==_refl, Bool-cases, Option-cases, all, eq_iff,
}
use autonomous_llm_bot.Json.{Value, text, object, Fields, no_fields, field, get, set, fields_of}
use autonomous_llm_bot.Ledger.Restore.{has}
use autonomous_llm_bot.RunState.{Platform}
use autonomous_llm_bot.RunState.Record.{RunRecord}
use autonomous_llm_bot.RunState.Load.{is_record_of, load_fields, load}

-- str(state or "terminated")
abbrev pub ended : String → String
ended state = if state == "" then "terminated" else state

-- The record that is written back, where the file holds one.
unfoldable pub terminate : String → String → Option Value → Option Fields
terminate state now payload = elim (fields_of payload) [
  | none ↦ none
  | some fs ↦ some (set "updated_at" (text now) (set "state" (text (ended state)) fs))
]

get-set :
    (key k : String) (v : Value) (fs : Fields)
    → (k == key) ≡ false
    → get key (set k v fs) ≡ get key fs
unfolding get set
get-set key k v no_fields h = rw h refl
get-set key k v (field j w fs) h = elim (Bool-cases (j == k)) [
  | inl e ↦ let other : (j == key) ≡ false = rw ((eq_iff j k).0 e) h in ground (arith)
  | inr n ↦ ground (arith, get-set key k v fs h)
]

get-set_same : (k : String) (v : Value) (fs : Fields) → get k (set k v fs) ≡ some v
unfolding get set
get-set_same k v no_fields = rw (==_refl k) refl
get-set_same k v (field j w fs) = elim (Bool-cases (j == k)) [
  | inl e ↦ ground (arith)
  | inr n ↦ ground (arith, get-set_same k v fs)
]

-- Two payloads with the same entries, but for `state` and `updated_at`.
abbrev Alike : Fields → Fields → Type 0
Alike fs gs =
    (key : String)
    → ("state" == key) ≡ false
    → ("updated_at" == key) ≡ false
    → get key fs ≡ get key gs

has-cong : (key : String) (fs gs : Fields) → get key fs ≡ get key gs → has key fs ≡ has key gs
has-cong key fs gs e = ap (λ (v : Option Value). elim v [ none ↦ false | some w ↦ true ]) e

load_fields-Alike :
    (p : Platform) (run_id : String) (fs gs : Fields)
    → Alike fs gs
    → has "state" fs ≡ has "state" gs
    → load_fields p run_id fs ≡ load_fields p run_id gs
unfolding load_fields is_record_of all
load_fields-Alike p run_id fs gs same state =
    rw
      (
        state,
        has-cong "run_id" fs gs (same "run_id" refl refl),
        has-cong "next_step" fs gs (same "next_step" refl refl),
        has-cong "summary" fs gs (same "summary" refl refl),
        has-cong "summary_version" fs gs (same "summary_version" refl refl),
        has-cong "tail" fs gs (same "tail" refl refl),
        has-cong "ledger" fs gs (same "ledger" refl refl),
        has-cong "interrupt" fs gs (same "interrupt" refl refl),
        has-cong "announced_call_ids" fs gs (same "announced_call_ids" refl refl),
        has-cong "tool_fingerprints" fs gs (same "tool_fingerprints" refl refl),
        has-cong "trajectory_gap_step" fs gs (same "trajectory_gap_step" refl refl),
        same "schema" refl refl,
        same "run_id" refl refl,
        same "next_step" refl refl,
        same "summary" refl refl,
        same "summary_version" refl refl,
        same "tail" refl refl,
        same "ledger" refl refl,
        same "interrupt" refl refl,
        same "announced_call_ids" refl refl,
        same "tool_fingerprints" refl refl,
        same "trajectory_gap_step" refl refl,
        same "task_contract" refl refl,
        same "artifact_manifest" refl refl,
        same "source_run_id" refl refl,
        same "source_step" refl refl,
        same "known_bad_calls" refl refl,
        same "artifact_chain" refl refl,
        same "last_record_step" refl refl,
      )
      refl

-- load_fields on a payload without a `state`
stateless :
    (p : Platform) (run_id : String) (fs : Fields)
    → has "state" fs ≡ false
    → load_fields p run_id fs ≡ none
unfolding load_fields is_record_of all
stateless p run_id fs h =
    let other : is_record_of p run_id fs ≡ false = ground arith in rw other refl

terminate-Alike :
    (s now : String) (fs : Fields)
    → Alike (set "updated_at" (text now) (set "state" (text s) fs)) fs
terminate-Alike s now fs key h j =
    get-set key "updated_at" (text now) (set "state" (text s) fs) j
    ∙ get-set key "state" (text s) fs h

terminate-state :
    (s now : String) (fs : Fields)
    → has "state" (set "updated_at" (text now) (set "state" (text s) fs)) ≡ true
terminate-state s now fs =
    ap (λ (v : Option Value). elim v [ none ↦ false | some w ↦ true ])
      (get-set "state" "updated_at" (text now) (set "state" (text s) fs) refl
        ∙ get-set_same "state" (text s) fs)

-- A record that can be loaded can still be loaded after its run was marked as ended, and what is
-- loaded is the same.
pub load-terminate :
    (p : Platform) (run_id state now : String) (payload : Option Value) (r : RunRecord)
    → load p run_id payload ≡ some r
    → load p run_id (Option.map object (terminate state now payload)) ≡ some r
unfolding load terminate fields_of
load-terminate p run_id state now payload r h = elim (Option-cases (fields_of payload)) [
  | inl other ↦ absurd (ground arith)
  | inr (fs, found) ↦
      let read : load_fields p run_id fs ≡ some r = ground arith in
      elim (Bool-cases (has "state" fs)) [
        | inl there ↦
            rw (load, terminate, found)
              (load_fields-Alike p run_id _ fs (terminate-Alike (ended state) now fs)
                  (terminate-state (ended state) now fs ∙ sym there)
                ∙ read)
        | inr gone ↦ absurd (cc (stateless p run_id fs gone, read))
      ]
]
