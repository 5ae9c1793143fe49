-- ===== src/Stagnation/Tests.antt =====
-- The theorem of stagnation.py on a trajectory of three fetches.
use autonomous_llm_bot.Prelude.{
  ℕ, ◌*◌, ◌/◌, min, String, ◌≡◌, true, false, none, some, List, [], ◌∷◌, nat_eq, string_eq,
}
use autonomous_llm_bot.Observation.{Library, TrajectoryRecord}
use autonomous_llm_bot.Stagnation.{Pair, compute_stagnation_index}
use autonomous_llm_bot.Stagnation.Index.{Observed, Describes, compute-Describes}

-- A library to which a command is one address, and no result is a failure.
abbrev plain_steps : Library
plain_steps = record {
  lower = λ s. s;
  urlsplit = λ s. some (record { scheme = "http"; netloc = s; path = ""; query = "" });
  find_urls = λ s. s ∷ [];
  find_errors = λ s. [];
  has_success = λ s. false;
  exit_code = λ s. none;
}

abbrev fetched : ℕ → String → TrajectoryRecord
fetched step address = record {
  step = some step;
  tool = "bash_exec";
  executed = true;
  command = some address;
  result = "page";
  failed = false;
}

abbrev log : List TrajectoryRecord
log = fetched 1 "a" ∷ fetched 8 "a" ∷ fetched 9 "b" ∷ []

abbrev percent : ℕ → ℕ → ℕ
percent part whole = min 100 (part * 100 / whole)

compute-Describes_example :
    let index = compute_stagnation_index plain_steps percent log 10 5 in
    (index.window_steps ≡ 5)
    × (index.end_step ≡ 10)
    × (observed : List (Pair × ℕ)) × Observed plain_steps log observed
    × Describes percent observed index
compute-Describes_example = compute-Describes plain_steps percent log 10 5
