-- ===== src/Access.antt =====
-- The checks that open the service methods: `_require_project` and `_require_editor` of
-- api/app/services/collaboration.py, which hos_version_control.py and scene_graph.py repeat.
use hcp.Prelude.{ℕ, ◌*◌, ◌≡◌, Bool, true, ◌&&◌, some, ◌==◌, first_where, any, arith, List, [], ◌∷◌}
use hcp.Prelude.Table.{any_of_first_where}
use hcp.Auth.{CurrentUser, role_at_least}
use hcp.Db.{Project, EventRow, Db, Session, event_refs, consistent, open_session}
use hcp.Action.{Action, ok, ◌>>=◌, ◌>>◌, gets, guard, or_raise, flush, project_not_found, forbidden}

-- timedelta(seconds=...), in microseconds
abbrev pub seconds : ℕ → ℕ
seconds n = n * 1000000

-- _require_project
unfoldable pub require_project : ℕ → ℕ → Action Project
require_project project_id org_id = do
  found ← gets (λ db. first_where (λ p. p.id == project_id && (p.org_id == org_id)) db.projects)
  or_raise found project_not_found

-- _require_editor
pub require_editor : CurrentUser → Action (Unit {0})
require_editor user = guard (role_at_least user.role "editor") forbidden

-- The two checks that open every method which changes something.
unfoldable pub as_editor {ℓ} : {A : Type ℓ} → CurrentUser → ℕ → Action A → Action A
unfolding require_editor require_project
as_editor user project_id body = do
  require_editor user
  require_project project_id user.org_id
  body

-- The caller may edit, and the project is one of the caller's organisation.
pub record MayEdit (user : CurrentUser) (project_id : ℕ) (db : Db) : Type 0 where
  pub editor : role_at_least user.role "editor" ≡ true
  pub project : Project
  pub found :
      first_where (λ p. p.id == project_id && (p.org_id == user.org_id)) db.projects ≡ some project
  -- the caller is a row of the table of users
  pub known : any (λ u. u == user.id) db.users ≡ true

any_both :
    (p q : Project → Bool) (xs : List Project) → any (λ x. p x && q x) xs ≡ true → any p xs ≡ true
unfolding any
any_both p q [] h = h
any_both p q (x ∷ xs) h = ground (arith, h, any_both p q xs)

-- Events of the caller in the project refer to rows that are there.
pub event_refs_of :
    (user : CurrentUser) (project_id : ℕ) (db : Db) (row : EventRow)
    → MayEdit user project_id db
    → row.project_id ≡ project_id
    → row.actor_id ≡ some user.id
    → event_refs db row ≡ true
unfolding event_refs
event_refs_of user project_id db row may at_project by_user =
    let there =
      any_both (λ (p : Project). p.id == project_id) (λ p. p.org_id == user.org_id) db.projects
        (any_of_first_where (λ (p : Project). p.id == project_id && (p.org_id == user.org_id))
          db.projects may.found) in
    rw (at_project, by_user) (ground (arith, there, may.known))

pub as_editor-pass {ℓ} :
    {A : Type ℓ} (user : CurrentUser) (project_id : ℕ) (db : Db) (body : Action A)
    → MayEdit user project_id db
    → as_editor user project_id body (open_session db) ≡ body (open_session db)
unfolding as_editor
as_editor-pass user project_id db body may = rw (may.editor, may.found)

pub flush-pass : (s : Session) → consistent s.current ≡ true → flush s ≡ (ok tt, s)
unfolding flush
flush-pass s c = rw c
