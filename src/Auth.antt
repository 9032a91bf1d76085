-- ===== src/Auth.antt =====
-- api/app/auth/rbac.py, and the permission checks of api/app/auth/dependencies.py.
pub mod Hierarchy
use hcp.Prelude.{
  ℕ, String, Bool, true, false, ◌||◌, Option, none, some, List, ℤ, pos, negsuc, leb_ℤ, str_eq, any,
  if◌then◌else◌,
}

pub record CurrentUser : Type 0 where
  pub id : ℕ
  pub org_id : ℕ
  pub email : String
  pub name : String
  pub role : String
  pub api_key_scopes : List String

-- ROLE_RANK.get(role, d)
pub role_rank : String → ℤ → ℤ
role_rank role d =
    if str_eq role "viewer"
    then pos 0
    else if str_eq role "editor"
    then pos 1
    else if str_eq role "approver"
    then pos 2
    else if str_eq role "admin"
    then pos 3
    else d

unfoldable pub role_at_least : String → String → Bool
unfolding role_rank
role_at_least role minimum = leb_ℤ (role_rank minimum (pos 99)) (role_rank role (negsuc 0))

pub can_upload : String → Bool
can_upload role = role_at_least role "editor"

pub can_approve : String → Bool
can_approve role = role_at_least role "approver"

unfoldable pub can_admin : String → Bool
can_admin role = role_at_least role "admin"

-- What a FastAPI dependency answers: the user, or status 403.
pub data Checked : Type 0 where
  allowed : CurrentUser → Checked
  forbidden_403 : Checked

pub require_upload_permission : CurrentUser → Checked
unfolding can_upload
require_upload_permission user = if can_upload user.role then allowed user else forbidden_403

pub require_approver : CurrentUser → Checked
unfolding can_approve
require_approver user = if can_approve user.role then allowed user else forbidden_403

unfoldable pub require_admin : CurrentUser → Checked
unfolding can_admin
require_admin user = if can_admin user.role then allowed user else forbidden_403

-- scope in user.api_key_scopes
has_scope : String → CurrentUser → Bool
has_scope scope user = any (λ s. str_eq s scope) user.api_key_scopes

require_events_publish : CurrentUser → Checked
unfolding can_admin has_scope
require_events_publish user =
    if can_admin user.role || has_scope "events_publish" user || has_scope "admin" user
    then allowed user
    else forbidden_403

require_graph_query : CurrentUser → Checked
unfolding can_admin has_scope
require_graph_query user =
    if can_admin user.role || has_scope "graph_query" user || has_scope "admin" user
    then allowed user
    else forbidden_403

require_role : String → CurrentUser → Checked
require_role minimum user = if role_at_least user.role minimum then allowed user else forbidden_403
