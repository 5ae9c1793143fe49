-- ===== src/Grounding/Tests.antt =====
-- The theorems of grounding.py at two measurements of one address.
use autonomous_llm_bot.Prelude.{
  ℕ, String, ◌≡◌, true, false, not, none, some, List, [], ◌∷◌, ◌==◌, string_eq, keep,
}
use autonomous_llm_bot.Observation.{Library}
use autonomous_llm_bot.Grounding.{
  Patterns, Measurement, NewEvidence, may_need_check, check_evidence_grounding,
}
use autonomous_llm_bot.Grounding.Steps.{IsAnchor}
use autonomous_llm_bot.Grounding.First.{FirstWarnings, check-FirstWarnings}
use autonomous_llm_bot.Grounding.Warnings.{check-prefiltered}

abbrev words : Library
words = record {
  lower = λ s. s;
  urlsplit = λ s. some (record { scheme = "http"; netloc = s; path = ""; query = "" });
  find_urls = λ s. "a" ∷ [];
  find_errors = λ s. "404" ∷ [];
  has_success = λ s. false;
  exit_code = λ s. none;
}

abbrev patterns : Patterns
patterns = record {
  has_phone = λ s. not (s == "none");
  has_negation = λ s. false;
  has_negative_result = λ s. false;
  without_trailer = λ s. s;
}

abbrev measured : ℕ → Measurement
measured n = record {
  step = some n;
  tool = "bash_exec";
  executed = true;
  command = "curl a";
  result = "404";
  failed = false;
}

abbrev claimed : String → NewEvidence
claimed summary = record { id = "e1"; summary = summary; source = "a" }

abbrev log : List Measurement
log = measured 3 ∷ measured 2 ∷ []

abbrev claims : List NewEvidence
claims = claimed "none" ∷ claimed "phone" ∷ []

check-FirstWarnings_example :
    (anchor : ℕ) × IsAnchor none log anchor
    × FirstWarnings words patterns anchor log 3 claims
        (check_evidence_grounding words patterns log claims none)
check-FirstWarnings_example = check-FirstWarnings words patterns log claims none

check-prefiltered_example :
    check_evidence_grounding words patterns log (keep (may_need_check words patterns) claims) none
    ≡ check_evidence_grounding words patterns log claims none
check-prefiltered_example = check-prefiltered words patterns log claims none
