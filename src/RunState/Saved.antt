-- ===== src/RunState/Saved.antt =====
-- A record that `save` writes is read back by `load`.
use autonomous_llm_bot.Prelude.{
  ℕ, ◌≤◌, String, ◌≡◌, refl, sym, ap, inl, inr, Bool, true, false, Option, none, some, List, [],
  ◌∷◌, arith, leb, if◌then◌else◌, le→leb, ◌==◌, nat_eq, string_eq, ==_refl, Bool-cases, all, All,
  eq_iff, Distinct,
}
use autonomous_llm_bot.Json.{
  Value, text, number, array, object, Fields, get, text_of, fields_of, natural_of, positive_of,
  truthy,
}
use autonomous_llm_bot.Text
use autonomous_llm_bot.Trajectory.{is_digest}
use autonomous_llm_bot.Ledger.State.{ResearchLedger}
use autonomous_llm_bot.Ledger.Markers.{to_dict}
use autonomous_llm_bot.Ledger.Snapshot.{IsLedger, from_dict-to_dict}
use autonomous_llm_bot.RunState.{
  Platform, normalize_artifact_chain, normalize_last_record_step, normalize_known_bad_calls,
  TaskContract, normalize_task_contract, normalize_source_run_id, normalize_source_step, equals,
}
use autonomous_llm_bot.RunState.Contract.{
  positive_of-le, contract_again, source_again, normalize_task_contract-IsContract,
}
use autonomous_llm_bot.RunState.Failures.{failures_again, normalize_known_bad_calls-AreFailures}
use autonomous_llm_bot.RunState.ItemLoop.{manifest_again, normalize_artifact_manifest-AreItems}
use autonomous_llm_bot.RunState.Manifest.{normalize_artifact_manifest}
use autonomous_llm_bot.RunState.Record.{
  RunRecord, RunProgress, step_or_null, values_of, fingerprint_value, Run, contract_value, save,
  later_fields, state_fields, record_fields, text_or_null, manifest_value, known_bad_value,
}
use autonomous_llm_bot.RunState.Load.{
  ◌>>=◌, call_ids_of, is_distinct, announced_of, fingerprint_of, fingerprints_of, gap_of, dicts_of,
  ledger_of, summary_of, is_record_of, load_fields, load,
}

abbrev pub IsFingerprint : String × ℕ → Type 0
IsFingerprint (f, n) = (is_digest f ≡ true) × (1 ≤ n)

-- What the loop of the agent passes to `save`.
pub record IsProgress (p : Platform) (r : RunProgress) : Type 0 where
  pub step : 1 ≤ r.next_step
  pub ledger : IsLedger r.ledger
  pub ids_present : All (λ (id : String). (id == "") ≡ false) r.announced_call_ids
  pub ids_distinct : Distinct r.announced_call_ids
  pub fingerprints : All IsFingerprint r.tool_fingerprints
  pub gap : (n : ℕ) → r.trajectory_gap_step ≡ some n → 1 ≤ n
  -- cutting the goal at its limit has left no white space at its end
  pub goal_stripped :
      (c : TaskContract)
      → normalize_task_contract p r.task_contract ≡ some c
      → Text.strip c.goal ≡ c.goal

-- What is read back: the arguments of `save`, normalised.
abbrev pub normalised : Platform → RunProgress → RunRecord
normalised p r = record {
  next_step = r.next_step;
  summary = r.summary;
  tail = r.tail;
  ledger = r.ledger;
  interrupt = r.interrupt;
  announced_call_ids = r.announced_call_ids;
  tool_fingerprints = r.tool_fingerprints;
  trajectory_gap_step = r.trajectory_gap_step;
  task_contract = normalize_task_contract p r.task_contract;
  artifact_manifest = normalize_artifact_manifest p r.artifact_manifest;
  source_run_id = normalize_source_run_id p r.source_run_id;
  source_step = normalize_source_step r.source_step;
  known_bad_calls = normalize_known_bad_calls r.known_bad_calls;
  artifact_chain = normalize_artifact_chain r.artifact_chain;
  last_record_step = normalize_last_record_step r.last_record_step;
}

tail_again : (tail : List Fields) → dicts_of (values_of object tail) ≡ tail
unfolding dicts_of values_of fields_of
tail_again [] = refl
tail_again (fs ∷ tail) = ap (λ (r : List Fields). fs ∷ r) (tail_again tail)

call_ids_again :
    (ids : List String)
    → All (λ (id : String). (id == "") ≡ false) ids
    → call_ids_of (values_of text ids) ≡ some ids
unfolding call_ids_of values_of text_of
call_ids_again [] h = refl
call_ids_again (id ∷ ids) h = ground (arith, call_ids_again ids)

is_distinct_iff : (ids : List String) → Distinct ids → is_distinct ids ≡ true
unfolding is_distinct
is_distinct_iff [] d = refl
is_distinct_iff (id ∷ ids) d = ground (arith, is_distinct_iff ids)

announced_again :
    (ids : List String)
    → All (λ (id : String). (id == "") ≡ false) ids
    → Distinct ids
    → announced_of (some (array (values_of text ids))) ≡ some ids
unfolding announced_of
announced_again ids h d = ground (arith, call_ids_again ids, is_distinct_iff ids)

fingerprint_again :
    (f : String) (n : ℕ)
    → is_digest f ≡ true
    → 1 ≤ n
    → fingerprint_of (fingerprint_value (f, n)) ≡ some (f, n)
unfolding fingerprint_of text_of natural_of
fingerprint_again f n d h = ground arith

fingerprints_again :
    (xs : List (String × ℕ))
    → All IsFingerprint xs
    → fingerprints_of (values_of fingerprint_value xs) ≡ some xs
unfolding fingerprints_of values_of
fingerprints_again [] h = refl
fingerprints_again ((f, n) ∷ xs) h =
    ground (arith, fingerprint_again f n h.0.0 h.0.1, fingerprints_again xs)

gap_again :
    (gap : Option ℕ)
    → ((n : ℕ) → gap ≡ some n → 1 ≤ n)
    → gap_of (some (step_or_null gap)) ≡ some gap
unfolding gap_of natural_of
gap_again none h = refl
gap_again (some n) h = rw (le→leb 1 n (h n refl)) refl

ledger_again :
    (p : Platform) (l : ResearchLedger)
    → IsLedger l
    → ledger_of p (some (object (to_dict l))) ≡ some l
unfolding ledger_of
ledger_again p l v = rw (from_dict-to_dict p.convert l v, ledger_of) refl

summary_again : (p : Platform) (s : String) → summary_of p (some (text s)) ≡ s
unfolding summary_of truthy text_of
summary_again p s = elim (Bool-cases (s == "")) [
  | inl e ↦ rw e (sym ((eq_iff s "").0 e))
  | inr n ↦ rw n refl
]

positive_again :
    (o : Option ℕ)
    → ((n : ℕ) → o ≡ some n → 1 ≤ n)
    → normalize_source_step (some (step_or_null o)) ≡ o
unfolding normalize_source_step natural_of
positive_again none h = refl
positive_again (some n) h = rw (le→leb 1 n (h n refl)) refl

step_again :
    (v : Option Value)
    → normalize_source_step (some (step_or_null (normalize_source_step v)))
      ≡ normalize_source_step v
unfolding normalize_source_step
step_again v = positive_again (positive_of v) (positive_of-le v)

chain_again : (n : ℕ) → normalize_artifact_chain (some (number n)) ≡ n
unfolding normalize_artifact_chain natural_of
chain_again n = refl

last_again : (n : ℕ) → normalize_last_record_step (some (number n)) ≡ n
unfolding normalize_last_record_step natural_of
last_again n = refl

next_again : (n : ℕ) → 1 ≤ n → positive_of (some (number n)) ≡ some n
unfolding natural_of
next_again n h = rw (le→leb 1 n h) refl

saved_for {ℓ} :
    {A : Type ℓ} {x : A} (gap : Option ℕ)
    → ((n : ℕ) → gap ≡ some n → 1 ≤ n)
    → ◌≡◌ {A = Option A}
        (elim gap [ none ↦ some x | some n ↦ if leb 1 n then some x else none ])
        (some x)
saved_for none h = refl
saved_for (some n) h = rw (le→leb 1 n (h n refl)) refl

if_true {ℓ} :
    {A : Type ℓ} {b : Bool} {x z : A} (y : A) → b ≡ true → x ≡ z → (if b then x else y) ≡ z
if_true y e h = rw e h

bind_some :
    {A B : Type 0} {o : Option A} {a : A} {b : Option B} (f : A → Option B)
    → o ≡ some a
    → f a ≡ b
    → (o >>= f) ≡ b
bind_some f e h = rw e h

module _ (p : Platform) (run : Run) (r : RunProgress) (v : IsProgress p r) where
  contract_lem :
      normalize_task_contract p (some (contract_value (normalize_task_contract p r.task_contract)))
      ≡ normalize_task_contract p r.task_contract
  contract_lem =
      contract_again p (normalize_task_contract p r.task_contract)
        (λ d e. (normalize_task_contract-IsContract p r.task_contract d e, v.goal_stripped d e))

  is_own_record : is_record_of p run.run_id (record_fields p run r) ≡ true
  unfolding is_record_of record_fields state_fields later_fields get equals all natural_of text_of
  is_own_record = ==_refl run.run_id

  read_back :
      ◌≡◌ {A = Option RunRecord}
        (some (record {
          next_step = r.next_step;
          summary = summary_of p (some (text r.summary));
          tail = dicts_of (values_of object r.tail);
          ledger = r.ledger;
          interrupt = r.interrupt;
          announced_call_ids = r.announced_call_ids;
          tool_fingerprints = r.tool_fingerprints;
          trajectory_gap_step = r.trajectory_gap_step;
          task_contract =
              normalize_task_contract p
                (some (contract_value (normalize_task_contract p r.task_contract)));
          artifact_manifest =
              normalize_artifact_manifest p
                (some (manifest_value (normalize_artifact_manifest p r.artifact_manifest)));
          source_run_id =
              normalize_source_run_id p
                (some (text_or_null (normalize_source_run_id p r.source_run_id)));
          source_step =
              normalize_source_step (some (step_or_null (normalize_source_step r.source_step)));
          known_bad_calls = normalize_known_bad_calls (
              some
                (array (values_of known_bad_value (normalize_known_bad_calls r.known_bad_calls))));
          artifact_chain =
              normalize_artifact_chain (some (number (normalize_artifact_chain r.artifact_chain)));
          last_record_step =
              normalize_last_record_step
                (some (number (normalize_last_record_step r.last_record_step)));
        }))
        (some (normalised p r))
  read_back =
      rw
        (
          summary_again p r.summary,
          tail_again r.tail,
          contract_lem,
          manifest_again p (normalize_artifact_manifest p r.artifact_manifest)
              (normalize_artifact_manifest-AreItems p r.artifact_manifest),
          source_again p r.source_run_id,
          step_again r.source_step,
          failures_again (normalize_known_bad_calls r.known_bad_calls)
              (normalize_known_bad_calls-AreFailures r.known_bad_calls),
          chain_again (normalize_artifact_chain r.artifact_chain),
          last_again (normalize_last_record_step r.last_record_step),
        )
        refl

  load_record_fields : load_fields p run.run_id (record_fields p run r) ≡ some (normalised p r)
  unfolding load_fields record_fields get fields_of
  load_record_fields = if_true _ is_own_record (
      bind_some _ (next_again r.next_step v.step) (
        bind_some _ (announced_again r.announced_call_ids v.ids_present v.ids_distinct) (
          bind_some _ (fingerprints_again r.tool_fingerprints v.fingerprints) (
            bind_some _ (gap_again r.trajectory_gap_step v.gap)
              (bind_some _ (ledger_again p r.ledger v.ledger) read_back)))))

  saves : save p run r ≡ some (record_fields p run r)
  unfolding save
  saves = saved_for r.trajectory_gap_step v.gap

  -- For progress that the loop of the agent reports: `save` writes a record, and `load` reads the
  -- written record of the same run back as the progress, its values normalised. Lists of texts, pairs
  -- and items keep their order.
  pub load-save :
      (fs : Fields) × (save p run r ≡ some fs)
      × (load p run.run_id (some (object fs)) ≡ some (normalised p r))
  unfolding load fields_of
  load-save = (record_fields p run r, saves, load_record_fields)
