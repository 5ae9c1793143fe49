-- ===== src/Ledger/State.antt =====
-- ledger.py: the authoritative research state, as data, and the parts that its methods share. A
-- method returns the ledger that it leaves behind, also where it raises `LedgerRefusal`. The optional
-- texts of a payload are `Option String`, `none` for a key that is absent.
use autonomous_llm_bot.Prelude.{
  ℕ, ◌+◌, String, Bool, not, ◌&&◌, Option, none, some, List, [], ◌∷◌, leb, if◌then◌else◌, ◌==◌,
  nat_eq, string_eq, Result,
}
use autonomous_llm_bot.Dict.{Dict}
use autonomous_llm_bot.Text.{strip, rstrip, prefix, split, join}
use autonomous_llm_bot.Text
use Prim.Native.String.{◌++◌ as append}

abbrev pub active : String
active = "active"

abbrev pub rejected : String
rejected = "rejected"

abbrev pub confirmed : String
confirmed = "confirmed"

abbrev pub reopen : String
reopen = "reopen"

abbrev pub transition_statuses : List String
transition_statuses = active ∷ rejected ∷ confirmed ∷ []

abbrev pub statement_chars : ℕ
statement_chars = 220

abbrev pub summary_chars : ℕ
summary_chars = 220

abbrev pub source_chars : ℕ
source_chars = 160

abbrev pub note_chars : ℕ
note_chars = 120

pub record Transition : Type 0 where
  pub revision : ℕ
  pub status : String
  pub evidence_id : String
  pub note : String

pub record Hypothesis : Type 0 where
  pub id : String
  pub statement : String
  pub status : String
  pub revision : ℕ
  pub transitions : List Transition

pub record EvidenceRecord : Type 0 where
  pub id : String
  pub summary : String
  pub source : String
  pub retracted : Bool
  pub note : String

pub record Conclusion : Type 0 where
  pub id : String
  pub statement : String
  pub premises : Dict String ℕ

pub record ResearchLedger : Type 0 where
  pub goal : String
  pub revision : ℕ
  pub evidence : Dict String EvidenceRecord
  pub hypotheses : Dict String Hypothesis
  pub conclusions : Dict String Conclusion

-- `__init__`, and so `clear`
abbrev pub new : ResearchLedger
new = record { goal = ""; revision = 0; evidence = []; hypotheses = []; conclusions = [] }

-- The cases of `LedgerRefusal`, with the values that its message shows. A hypothesis is shown by
-- its marker: id, status and revision.
pub data Refusal : Type 0 where
  empty_evidence_id empty_hypothesis_id empty_conclusion_id evidence_required : Refusal
  bad_status : String → Refusal
  already_rejected : String → String → ℕ → Refusal
  already_cited : String → String → ℕ → String → Refusal
  unknown_hypothesis : Option String → Refusal
  unknown_evidence : String → Refusal
  retracted_evidence : String → Refusal
  unknown_conclusion : Option String → Refusal

abbrev pub Update : Type 0 → Type 0
Update A = ResearchLedger → ResearchLedger × Result Refusal A

-- str(x or "")
abbrev pub text_or_empty : Option String → String
text_or_empty none = ""
text_or_empty (some s) = s

-- str(x or "").strip()
unfoldable pub id_of : Option String → String
id_of x = strip (text_or_empty x)

-- `_clip`
unfoldable pub clip : Option String → ℕ → String
clip text max_chars =
    let s = Text.join " " (Text.split (text_or_empty text)) in
    if leb (Text.length s) max_chars then s else append (Text.rstrip (Text.prefix max_chars s)) "…"

-- x or y, on texts
abbrev pub or_text : String → String → String
or_text x y = if x == "" then y else x

unfoldable pub set_goal : Option String → ResearchLedger → ResearchLedger
set_goal goal l =
    let g = clip goal 600 in
    if not (g == "") && not (g == l.goal)
    then record l { goal = g; revision = l.revision + 1 }
    else l
