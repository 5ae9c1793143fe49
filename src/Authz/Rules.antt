-- ===== src/Authz/Rules.antt =====
-- The rules at the top of authz.py, as theorems about the code that decides.
use autonomous_llm_bot.Prelude.{
  ℕ, String, ◌≡◌, refl, sym, ◌≢◌, ◌⊎◌, inl, inr, Bool, true, false, Option, none, some, [], ◌∷◌,
  arith, nat_eq, string_eq, contains, eq_iff, contains-cons,
}
use autonomous_llm_bot.Authz.{
  Settings, authorize, authorize_caller, access, control, purge, actions,
}

-- Who may act at all: an allowlist with the caller on it, or no allowlist and no tools.
abbrev pub Admitted : Settings → ℕ → Type 0
Admitted s u =
    (contains s.allowed_user_ids u ≡ true) ⊎ ((s.allowed_user_ids ≡ []) × (s.tools_enabled ≡ false))

-- What each action asks of an admitted caller.
abbrev pub Permitted : Settings → Option ℕ → Bool → ℕ → String → Type 0
Permitted s owner can_manage u action =
    (action ≡ access)
    ⊎ ((action ≡ control)
        × ((contains s.admin_user_ids u ≡ true) ⊎ (owner ≡ none) ⊎ (owner ≡ some u)))
    ⊎ ((action ≡ purge)
        × (can_manage ≡ true)
        × (s.allowed_user_ids ≢ [])
        × ((s.admin_user_ids ≡ []) ⊎ (contains s.admin_user_ids u ≡ true)))

actions_cases :
    (a : String) → contains actions a ≡ true → (a ≡ access) ⊎ (a ≡ control) ⊎ (a ≡ purge)
unfolding contains
actions_cases a h = elim (contains-cons access (control ∷ purge ∷ []) a h) [
  | inl e ↦ inl (sym e)
  | inr h' ↦ elim (contains-cons control (purge ∷ []) a h') [
    | inl e ↦ inr (inl (sym e))
    | inr h'' ↦ ground (arith, contains-cons purge [] a h'')
  ]
]

module _ (s : Settings) (owners : ℕ → Option ℕ) (channel : ℕ) (can_manage : Bool) where
  caller-Admitted :
      (action : String) (u : ℕ)
      → (authorize_caller s action (some u) owners channel can_manage).allowed ≡ true
      → Admitted s u
  unfolding authorize_caller authorize
  caller-Admitted action u h = ground arith

  caller-Permitted :
      (action : String) (u : ℕ)
      → (authorize_caller s action (some u) owners channel can_manage).allowed ≡ true
      → Permitted s (owners channel) can_manage u action
  unfolding authorize_caller authorize
  caller-Permitted action u h = ground (
    arith,
    actions_cases action,
    eq_iff action access,
    eq_iff action control,
    eq_iff action purge,
  )

  -- A caller who is allowed an action has an identity, is admitted, and is permitted that action.
  pub authorize_caller_sound :
      (action : String) (user : Option ℕ)
      → (authorize_caller s action user owners channel can_manage).allowed ≡ true
      → (u : ℕ) × (user ≡ some u) × Admitted s u × Permitted s (owners channel) can_manage u action
  unfolding authorize_caller authorize
  authorize_caller_sound action none h = ground arith
  authorize_caller_sound action (some u) h =
      (u, refl, caller-Admitted action u h, caller-Permitted action u h)

  -- A caller who is admitted and permitted an action is allowed it.
  pub authorize_caller_complete :
      (u : ℕ) (action : String)
      → Admitted s u
      → Permitted s (owners channel) can_manage u action
      → (authorize_caller s action (some u) owners channel can_manage).allowed ≡ true
  unfolding authorize_caller authorize contains
  authorize_caller_complete u action a (inl e) = rw e (ground arith)
  authorize_caller_complete u action a (inr (inl (e, owns))) = rw e (ground arith)
  authorize_caller_complete u action a (inr (inr (e, manages, listed, admin))) = rw e (ground arith)
