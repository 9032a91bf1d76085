-- ===== src/Hos/Merges/SameHead.antt =====
-- What becomes of the merge of two branches that have one head.
use hcp.Prelude.Table.{unique}
use hcp.Prelude.{any, arith, ==_refl, [], ◌∷◌, ℕ, ◌≡◌, false, Option, some}
use hcp.Auth.{CurrentUser}
use hcp.Db.{Commit, Session, rollback}
use hcp.Action.{err, integrity_error}
use hcp.Events.{Runtime}
use hcp.Events.Publish.{logged}
use hcp.Hnf.{Validation}
use hcp.Prelude.{String}
use hcp.Hos.Writing.{commit_event, link_commit}
use hcp.Hos.Writing.Linking.{link_commit-repeated}
use hcp.Hos.Merges.{merge_parents}

-- The merge commit of two branches with one head has that head twice as its parent. Unless the
-- committed log has an event of it, linking it raises IntegrityError, and every change of the
-- transaction is gone.
pub link_commit-same_head :
    (rt : Runtime) (v : Validation) (user : CurrentUser) (project commit_id branch_id : ℕ)
    (root_ref : Option String) (s : Session) (head : Commit)
    → logged rt (commit_event rt v user project commit_id branch_id root_ref) s.committed ≡ false
    → link_commit rt v user project commit_id branch_id
        (merge_parents (some head) (some head))
        root_ref
        s
      ≡ (err integrity_error, rollback s)
unfolding merge_parents unique any
link_commit-same_head rt v user project commit_id branch_id root_ref s head fresh =
    link_commit-repeated rt v user project commit_id branch_id root_ref s (head.id ∷ head.id ∷ [])
      (ground (arith, ==_refl head.id)) fresh
