-- ===== src/Db/Consistency.antt =====
-- How one change of a table bears on the constraints.
use hcp.Prelude.{◌≡◌, not, ◌&&◌, [], ◌∷◌, ◌++◌, arith, any}
use hcp.Prelude.Table.{unique-snoc, every-snoc}
use hcp.Db.{Branch, branch_clash, Db, EventRow, event_clash, unique_rows, event_refs, consistent}

abbrev pub add_event : Db → EventRow → Db
add_event db row = record db { events = db.events ++ row ∷ [] }

pub consistent-add_event :
    (db : Db) (row : EventRow)
    → consistent (add_event db row)
      ≡ (consistent db && not (any (λ e. event_clash e row) db.events) && event_refs db row)
unfolding consistent event_refs
consistent-add_event db row =
    ground (arith, unique-snoc event_clash db.events row, every-snoc (event_refs db) db.events row)

abbrev pub add_branch_row : Db → Branch → Db
add_branch_row db row = record db { branches = db.branches ++ row ∷ [] }

pub consistent-add_branch_row :
    (db : Db) (row : Branch)
    → consistent (add_branch_row db row)
      ≡ (consistent db && not (any (λ b. branch_clash b row) db.branches))
unfolding consistent unique_rows
consistent-add_branch_row db row = ground (arith, unique-snoc branch_clash db.branches row)
