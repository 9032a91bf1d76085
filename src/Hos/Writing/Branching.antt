-- ===== src/Hos/Writing/Branching.antt =====
-- New branches, and the query that looks for them.
use hcp.Prelude.{
  ℕ, ◌≡◌, refl, ◌∙◌, ap, String, true, false, Option, none, some, arith, any, first_where,
}
use hcp.Prelude.Table.{first_where-snoc, first_where_sound}
use hcp.Auth.{CurrentUser}
use hcp.Db.{Branch, Commit, Db, Session, branch_clash, consistent, open_session}
use hcp.Db.Consistency.{add_branch_row, consistent-add_branch_row}
use hcp.Action.{ok}
use hcp.Events.{Runtime}
use hcp.Access.{MayEdit, as_editor-pass, require_project, flush-pass}
use hcp.Hos.Commits.{branch_at, commit_at, find_commit, get_branch, write_audit}
use hcp.Hos.Writing.{new_branch, branch_head, add_branch, create_branch}

-- The commit to start from is none, or a commit of the project that is in the database.
abbrev pub CanStart : CurrentUser → ℕ → Option ℕ → Db → Type 0
CanStart user project none db = Unit {0}
CanStart user project (some id) db =
    (c : Commit) × (first_where (commit_at user project id) db.commits ≡ some c)

starts :
    (user : CurrentUser) (project : ℕ) (from : Option ℕ) (db : Db)
    → CanStart user project from db
    → branch_head user project from (open_session db) ≡ (ok from, open_session db)
unfolding branch_head find_commit commit_at
starts user project none db h = refl
starts user project (some id) db (c, found) =
    let same : c.id ≡ id =
      ground (arith, first_where_sound (commit_at user project id) db.commits found) in
    rw found (ap (λ i. (ok (some i), open_session db)) same)

module _ (rt : Runtime) (user : CurrentUser) (project : ℕ) (name : String) (from : Option ℕ)
    (new_id : ℕ) (db : Db) (may : MayEdit user project db) (c : consistent db ≡ true)
    (can : CanStart user project from db) where
  abbrev made : Branch
  made = new_branch user project name from new_id

  abbrev added : Session
  added = record (open_session db) { current = add_branch_row db made }

  asked :
      create_branch rt user project name from new_id (open_session db)
      ≡ add_branch rt user project name from new_id from (open_session db)
  unfolding create_branch
  asked = as_editor-pass user project db _ may ∙ rw (starts user project from db can) refl

  -- What a client asks for, as a row.
  pub record IsAsked (b : Branch) : Type 0 where
    pub has_id : b.id ≡ new_id
    pub has_name : b.name ≡ name
    pub at_head : b.head_commit_id ≡ from
    pub in_project : b.project_id ≡ project
    pub in_org : b.org_id ≡ user.org_id

  -- In a consistent database an editor creates a branch, from no commit or from a commit of the
  -- project that is in the database. If no branch of the project has the name and the identifier is
  -- new, a branch is answered that has the identifier, the name, the project and the organisation
  -- that were asked for, and exactly the commit that was asked for as its head, or none.
  -- `get_branch` then finds this branch by its identifier.
  pub create_branch-get_branch :
      any (λ b. branch_clash b made) db.branches ≡ false
      → first_where (branch_at user project new_id) db.branches ≡ none
      → (b : Branch) × IsAsked b
        × ((create_branch rt user project name from new_id (open_session db)).0 ≡ ok b)
        × ((get_branch user project new_id
              (create_branch rt user project name from new_id (open_session db)).1).0
            ≡ ok b)
  unfolding add_branch get_branch require_project write_audit new_branch
  create_branch-get_branch free fresh =
      let kept : consistent added.current ≡ true =
        ground (arith, consistent-add_branch_row db made) in
      let found : first_where (branch_at user project new_id) added.current.branches ≡ some made =
        first_where-snoc (branch_at user project new_id) db.branches made fresh
          (unfold branch_at in (ground arith)) in
      (
        made,
        record { has_id = refl; has_name = refl; at_head = refl; in_project = refl; in_org = refl },
        rw asked (rw (flush-pass added kept) refl),
        rw asked (rw (flush-pass added kept) (rw may.found (rw found refl))),
      )
