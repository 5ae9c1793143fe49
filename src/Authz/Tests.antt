-- ===== src/Authz/Tests.antt =====
-- The theorems of authz.py at two users, the second an admin.
use autonomous_llm_bot.Prelude.{
  ℕ, ◌≡◌, refl, inl, inr, true, false, Option, some, [], ◌∷◌, nat_eq, string_eq, contains,
}
use autonomous_llm_bot.Authz.{control, purge, authorize, Settings, authorize_caller}
use autonomous_llm_bot.Authz.Rules.{
  authorize_caller_sound, Admitted, Permitted, authorize_caller_complete,
}

abbrev settings : Settings
settings = record { allowed_user_ids = 1 ∷ 2 ∷ []; admin_user_ids = 2 ∷ []; tools_enabled = true }

abbrev owners : ℕ → Option ℕ
owners channel = some 1

purge_allowed : (authorize_caller settings purge (some 2) owners 7 true).allowed ≡ true
unfolding authorize_caller authorize contains
purge_allowed = refl

control_denied : (authorize_caller settings control (some 3) owners 7 true).allowed ≡ false
unfolding authorize_caller authorize contains
control_denied = refl

authorize_caller_sound_example :
    (u : ℕ) × (some 2 ≡ some u) × Admitted settings u × Permitted settings (some 1) true u purge
authorize_caller_sound_example =
    authorize_caller_sound settings owners 7 true purge (some 2) purge_allowed

second-Admitted : Admitted settings 2
unfolding contains
second-Admitted = inl refl

second-Permitted : Permitted settings (some 1) false 2 control
unfolding contains
second-Permitted = inr (inl (refl, inl refl))

authorize_caller_complete_example :
    (authorize_caller settings control (some 2) owners 7 false).allowed ≡ true
authorize_caller_complete_example =
    authorize_caller_complete settings owners 7 false 2 control second-Admitted second-Permitted
