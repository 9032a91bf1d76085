-- ===== src/Auth/Hierarchy.antt =====
-- The roles form a hierarchy, and each dependency stands at its place in it.
use hcp.Prelude.{◌≡◌, refl, String, true, arith, ℤ, pos, negsuc, leb_ℤ}
use hcp.Auth.{
  CurrentUser, role_rank, role_at_least, can_upload, can_approve, can_admin, allowed,
  require_upload_permission, require_approver, require_admin,
}

leb_ℤ_trans : (a b c : ℤ) → leb_ℤ a b ≡ true → leb_ℤ b c ≡ true → leb_ℤ a c ≡ true
leb_ℤ_trans a b c p q = ground arith

-- The default of an unknown role, -1, stands below that of an unknown minimum, 99.
rank-le : (r : String) → leb_ℤ (role_rank r (negsuc 0)) (role_rank r (pos 99)) ≡ true
unfolding role_rank
rank-le r = ground arith

-- A role that is at least `m`, where `m` is at least `k`, is at least `k`. Unknown names are not
-- excluded.
pub role_at_least_trans :
    (r m k : String)
    → role_at_least r m ≡ true
    → role_at_least m k ≡ true
    → role_at_least r k ≡ true
unfolding role_at_least
role_at_least_trans r m k p q =
    leb_ℤ_trans (role_rank k (pos 99)) (role_rank m (negsuc 0)) (role_rank r (negsuc 0)) q (
      leb_ℤ_trans (role_rank m (negsuc 0)) (role_rank m (pos 99)) (role_rank r (negsuc 0))
        (rank-le m) p)

known_roles : (role_at_least "admin" "approver" ≡ true) × (role_at_least "approver" "editor" ≡ true)
unfolding role_at_least
known_roles = (refl, refl)

-- Whoever passes `require_admin` passes `require_approver` and `require_upload_permission`, each
-- time with the user unchanged.
pub require_admin_nested :
    (u v : CurrentUser)
    → require_admin u ≡ allowed v
    → (require_approver u ≡ allowed u) × (require_upload_permission u ≡ allowed u) × (u ≡ v)
unfolding require_admin require_approver require_upload_permission can_admin can_approve can_upload
require_admin_nested u v h = ground (
  arith,
  role_at_least_trans u.role "admin" "approver",
  role_at_least_trans u.role "approver" "editor",
  known_roles,
)
