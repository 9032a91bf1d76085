-- ===== src/Hos/Commits.antt =====
-- Branches and commits: the methods of HosVersionControlService on them.
pub mod Queries
use Prim.Native.String.{compare}
use Prim.Native.Nat.{Ordering}
use hcp.Prelude.{
  ℕ, String, Bool, true, false, ◌&&◌, none, some, List, [], ◌∷◌, ◌++◌, ◌==◌, leb, select,
  first_where, sort_by, take,
}
use hcp.Json.{Json}
use hcp.Auth.{CurrentUser}
use hcp.Db.{Branch, Commit, ObjectSnapshot}
use hcp.Action.{
  Error, Action, ◌>>=◌, ◌>>◌, gets, modify, or_raise, branch_not_found, commit_not_found,
}
use hcp.Access.{require_project}

-- _write_audit
unfoldable pub write_audit : CurrentUser → ℕ → String → ℕ → String → Json → Action (Unit {0})
write_audit user project_id entity_type entity_id event_type metadata = modify λ db. record db {
  audit =
      db.audit
      ++ record {
        org_id = user.org_id;
        project_id = project_id;
        entity_type = entity_type;
        entity_id = entity_id;
        event_type = event_type;
        actor_id = user.id;
        actor_email = user.email;
        metadata = metadata;
      }
        ∷ [];
}

-- The `where` of the queries by identifier.
unfoldable pub branch_at : CurrentUser → ℕ → ℕ → Branch → Bool
branch_at user project_id branch_id b =
    b.id == branch_id && (b.org_id == user.org_id) && (b.project_id == project_id)

unfoldable pub commit_at : CurrentUser → ℕ → ℕ → Commit → Bool
commit_at user project_id commit_id c =
    c.id == commit_id && (c.org_id == user.org_id) && (c.project_id == project_id)

unfoldable pub find_commit : CurrentUser → ℕ → ℕ → Error → Action Commit
find_commit user project_id commit_id e = do
  found ← gets (λ db. first_where (commit_at user project_id commit_id) db.commits)
  or_raise found e

unfoldable pub get_branch : CurrentUser → ℕ → ℕ → Action Branch
get_branch user project_id branch_id = do
  require_project project_id user.org_id
  found ← gets (λ db. first_where (branch_at user project_id branch_id) db.branches)
  or_raise found branch_not_found

unfoldable pub get_commit : CurrentUser → ℕ → ℕ → Action Commit
unfolding find_commit
get_commit user project_id commit_id = do
  require_project project_id user.org_id
  find_commit user project_id commit_id commit_not_found

-- ORDER BY name, object_path, created_at DESC
name_le : Branch → Branch → Bool
name_le a b = elim (compare a.name b.name) [ Ordering.gt ↦ false | _ ↦ true ]

path_le : ObjectSnapshot → ObjectSnapshot → Bool
path_le a b = elim (compare a.object_path b.object_path) [ Ordering.gt ↦ false | _ ↦ true ]

newest_first : Commit → Commit → Bool
newest_first a b = leb b.created_at a.created_at

list_branches : CurrentUser → ℕ → Action (List Branch)
unfolding name_le
list_branches user project_id = do
  require_project project_id user.org_id
  gets (λ db.
      sort_by name_le
        (select (λ b. b.org_id == user.org_id && (b.project_id == project_id)) db.branches))

list_object_snapshots : CurrentUser → ℕ → ℕ → Action (List ObjectSnapshot)
unfolding path_le get_commit
list_object_snapshots user project_id commit_id = do
  get_commit user project_id commit_id
  gets (λ db. sort_by path_le (
      select
        (λ r. r.org_id == user.org_id && (r.project_id == project_id) && (r.commit_id == commit_id))
        db.snapshots))

-- c.branch_id == branch_id
on_branch : ℕ → Commit → Bool
on_branch branch_id c = elim c.branch_id [ none ↦ false | some b ↦ b == branch_id ]

pub log : CurrentUser → ℕ → ℕ → (limit : ℕ) → Action (List Commit)
unfolding newest_first on_branch get_branch
log user project_id branch_id limit = do
  require_project project_id user.org_id
  get_branch user project_id branch_id
  gets (λ db. take limit (
      sort_by newest_first (
        select
          (λ c. c.org_id == user.org_id && (c.project_id == project_id) && on_branch branch_id c)
          db.commits)))
