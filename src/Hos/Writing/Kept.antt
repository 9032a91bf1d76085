-- ===== src/Hos/Writing/Kept.antt =====
-- The steps of `add_commit` that leave the history as it is.
use hcp.Prelude.{
  Bool, any, ◌==◌, ℕ, ◌≡◌, refl, subst, ◌∙◌, inl, inr, String, List, [], ◌∷◌, Bool-cases, map,
}
use hcp.Prelude.Table.{any-rewritten}
use hcp.Json.{Fields}
use hcp.Auth.{CurrentUser}
use hcp.Db.{Commit, Session, consistent}
use hcp.Action.{Action, Result, ok, err, bind, flush}
use hcp.Events.{Runtime}
use hcp.Hnf.{SnapshotInput, Validation}
use hcp.Hnf.Rows.{persist_commit_snapshots}
use hcp.Hos.Writing.{store_snapshots, warn_commit, add_warnings}

-- The tables that linking a commit reads are the same, and so is what is committed.
pub record Kept (s t : Session) : Type 0 where
  pub committed : t.committed ≡ s.committed
  pub parents : t.current.parents ≡ s.current.parents
  pub branches : t.current.branches ≡ s.current.branches
  pub events : t.current.events ≡ s.current.events
  pub projects : t.current.projects ≡ s.current.projects
  pub users : t.current.users ≡ s.current.users
  -- the commits, but for their trees
  pub commits :
      (p : Commit → Bool)
      → ((c : Commit) (d : Fields) → p (record c { tree = d }) ≡ p c)
      → any p t.current.commits ≡ any p s.current.commits

Kept-refl : (s : Session) → Kept s s
Kept-refl s = record {
  committed = refl;
  parents = refl;
  branches = refl;
  events = refl;
  projects = refl;
  users = refl;
  commits = λ p blind. refl;
}

pub Kept-trans : (s t u : Session) → Kept s t → Kept t u → Kept s u
Kept-trans s t u a b = record {
  committed = b.committed ∙ a.committed;
  parents = b.parents ∙ a.parents;
  branches = b.branches ∙ a.branches;
  events = b.events ∙ a.events;
  projects = b.projects ∙ a.projects;
  users = b.users ∙ a.users;
  commits = λ p blind. b.commits p blind ∙ a.commits p blind;
}

pub Kept-after {ℓ} :
    {A : Type ℓ} {r : Result A × Session} {a : A} {s t : Session}
    → r ≡ (ok a, t)
    → Kept s r.1
    → Kept s t
Kept-after {s = s} e k = subst (λ (q : _ × Session). Kept s q.1) e k

bind-Kept {ℓ κ} :
    {A : Type ℓ} {B : Type κ} (s : Session) (r : Result A × Session) (f : A → Action B)
    → Kept s r.1
    → ((a : A) (t : Session) → Kept t (f a t).1)
    → Kept s (bind r f).1
bind-Kept s (ok a, t) f k h = Kept-trans s t (f a t).1 k (h a t)
bind-Kept s (err e, t) f k h = k

pub flush-Kept : (s : Session) → Kept s (flush s).1
unfolding flush
flush-Kept s = elim (Bool-cases (consistent s.current)) [
  | inl c ↦ rw c (Kept-refl s)
  | inr c ↦ rw c (Kept-refl s)
]

persist-Kept :
    (v : Validation) (org project commit_id : ℕ) (snapshots : List Fields) (s : Session)
    → Kept s (persist_commit_snapshots v org project commit_id snapshots s).1
unfolding persist_commit_snapshots
persist-Kept v org project commit_id snapshots s =
    bind-Kept s _ _
      (Kept-trans s _ _
        (record {
          committed = refl;
          parents = refl;
          branches = refl;
          events = refl;
          projects = refl;
          users = refl;
          commits = λ p blind. refl;
        })
        (flush-Kept _))
      (λ a t. Kept-refl t)

module _ (rt : Runtime) (v : Validation) (user : CurrentUser) (project : ℕ) where
  warn_commit-Kept :
      (commit_id : ℕ) (warnings : List String) (s : Session)
      → Kept s (warn_commit rt v user project commit_id warnings s).1
  unfolding warn_commit
  warn_commit-Kept commit_id [] s = Kept-refl s
  warn_commit-Kept commit_id (w ∷ ws) s = record {
    committed = refl;
    parents = refl;
    branches = refl;
    events = refl;
    projects = refl;
    users = refl;
    commits = λ p blind.
        any-rewritten p (λ (c : Commit). c.id == commit_id)
          (λ c. record c { tree = add_warnings (w ∷ ws) c.tree }) s.current.commits
          (λ c. blind c _);
  }

  pub store_snapshots-Kept :
      (commit_id : ℕ) (raws : List Fields) (parsed : List SnapshotInput) (s : Session)
      → Kept s (store_snapshots rt v user project commit_id raws parsed s).1
  unfolding store_snapshots
  store_snapshots-Kept commit_id [] [] s = Kept-refl s
  store_snapshots-Kept commit_id [] (p ∷ ps) s =
      bind-Kept s
        (persist_commit_snapshots v user.org_id project commit_id (map v.model_dump (p ∷ ps)) s) _
        (persist-Kept v user.org_id project commit_id (map v.model_dump (p ∷ ps)) s)
        (λ a t. Kept-refl t)
  store_snapshots-Kept commit_id (raw ∷ raws) parsed s =
      bind-Kept s (persist_commit_snapshots v user.org_id project commit_id (raw ∷ raws) s) _
        (persist-Kept v user.org_id project commit_id (raw ∷ raws) s)
        (λ stored t. warn_commit-Kept commit_id stored.1 t)
