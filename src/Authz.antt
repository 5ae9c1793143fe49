-- ===== src/Authz.antt =====
-- authz.py: one decision for every entry point, and bot.py's `authorize_caller` in front of it.
-- A Discord id is a number; a set of ids is the list of its members.
pub mod Rules
mod Tests
use autonomous_llm_bot.Prelude.{
  ℕ, String, Bool, true, false, not, ◌&&◌, ◌||◌, Option, none, some, List, [], ◌∷◌, if◌then◌else◌,
  ◌==◌, nat_eq, string_eq, contains,
}
use Prim.Native.String.{◌++◌ as append}

abbrev pub access : String
access = "access"

abbrev pub control : String
control = "control"

abbrev pub purge : String
purge = "purge"

abbrev pub actions : List String
actions = access ∷ control ∷ purge ∷ []

pub record Decision : Type 0 where
  pub allowed : Bool
  pub reason : String

abbrev pub permit : Decision
permit = record { allowed = true; reason = "" }

abbrev pub deny : String → Decision
deny reason = record { allowed = false; reason = reason }

abbrev pub is_empty : List ℕ → Bool
is_empty [] = true
is_empty (x ∷ xs) = false

-- The test of the `CONTROL` branch: no run is in flight, or the caller owns it.
abbrev pub owns_run : Option ℕ → ℕ → Bool
owns_run none user_id = true
owns_run (some owner) user_id = user_id == owner

-- What the last three blocks decide for a caller who passed the allowlist.
by_action : String → ℕ → List ℕ → Bool → Option ℕ → Bool → Decision
by_action action user_id admins open_access run_owner can_manage =
    let is_admin = contains admins user_id in
    if action == access
    then permit
    else if action == control
    then (if is_admin || owns_run run_owner user_id
        then permit
        else deny "실행 중인 조사는 시작한 사용자 또는 관리자만 제어할 수 있습니다.")
    else if not can_manage
    then deny "메시지 삭제에는 호출자의 '메시지 관리' 권한이 필요합니다."
    else if not (is_empty admins) && not is_admin
    then deny "메시지 삭제는 DISCORD_ADMIN_USER_IDS에 등록된 관리자만 가능합니다."
    else if open_access
    then deny "관리자 목록이 설정되지 않아 메시지 삭제를 허용하지 않습니다."
    else permit

identified : String → ℕ → List ℕ → List ℕ → Bool → Option ℕ → Bool → Decision
unfolding by_action
identified action user_id allowed admins tools_enabled run_owner can_manage =
    if is_empty allowed
    then (if tools_enabled
        then deny "허용 목록이 비어 있는데 도구가 활성화되어 있습니다. 시작 설정을 확인하세요."
        else by_action action user_id admins true run_owner can_manage)
    else if not (contains allowed user_id)
    then deny "허용 목록에 없는 호출자입니다."
    else by_action action user_id admins false run_owner can_manage

unfoldable pub authorize : String → Option ℕ → List ℕ → List ℕ → Bool → Option ℕ → Bool → Decision
unfolding identified
authorize action user_id allowed admins tools_enabled run_owner can_manage =
    if not (contains actions action)
    then deny (append "알 수 없는 동작 '" (append action "'"))
    else elim user_id [
      | none ↦ deny "호출자 신원을 확인할 수 없습니다."
      | some u ↦ identified action u allowed admins tools_enabled run_owner can_manage
    ]

-- The process-wide settings that bot.py reads: the two id lists and `BOT_TOOLS_ENABLED`.
pub record Settings : Type 0 where
  pub allowed_user_ids : List ℕ
  pub admin_user_ids : List ℕ
  pub tools_enabled : Bool

-- `channel_run_owner.get(channel_id)` is the third argument.
pub authorize_caller : Settings → String → Option ℕ → (ℕ → Option ℕ) → ℕ → Bool → Decision
authorize_caller s action user_id channel_run_owner channel_id can_manage =
    authorize action user_id s.allowed_user_ids s.admin_user_ids s.tools_enabled
      (channel_run_owner channel_id) can_manage
