-- ===== src/Standalone/Steps.antt =====
-- What a method of the standalone hub may do to the tables, as a step relation: the methods of
-- connect/hub/standalone_grpc.go and standalone_rest.go are sequences of these steps.
pub mod Methods
pub mod Invariant
pub mod Gone
use wispers_hub.Base.{
  ◌≡◌, Bool, false, not, ◌&&◌, some, [], ◌∷◌, ◌++◌, Bytes, map, any, find, ◌==◌, bytes_eq,
  if◌then◌else◌,
}
use wispers_hub.Base.Int.{pos}
use wispers_hub.Standalone.Db.{Db, GroupRow, NodeRow, is_null, is_node}
use wispers_hub.Standalone.Messages.{bump_number}

-- A row keeps its key, and a deleted row stays deleted.
abbrev pub KeepsNode : (NodeRow → NodeRow) → Type 0
KeepsNode f =
    (r : NodeRow)
    → ((f r).group_id ≡ r.group_id)
      × ((f r).node_number ≡ r.node_number)
      × ((not (is_null r.deleted_at) && is_null (f r).deleted_at) ≡ false)

abbrev pub KeepsGroup : (GroupRow → GroupRow) → Type 0
KeepsGroup f =
    (g : GroupRow)
    → ((f g).id ≡ g.id)
      × ((f g).next_node_number ≡ g.next_node_number)
      × ((not (is_null g.deleted_at) && is_null (f g).deleted_at) ≡ false)

abbrev pub bump_in : Bytes → GroupRow → GroupRow
bump_in id g = if g.id == id then bump_number g else g

abbrev pub has_id : Bytes → GroupRow → Bool
has_id id g = g.id == id

-- One statement, or the one transaction that writes.
pub data Step (db db' : Db) : Type 0 where
  reads : db'.groups ≡ db.groups → db'.nodes ≡ db.nodes → Step db db'
  changes_nodes :
      (f : NodeRow → NodeRow)
      → KeepsNode f
      → db'.groups ≡ db.groups
      → db'.nodes ≡ map f db.nodes
      → Step db db'
  changes_groups :
      (f : GroupRow → GroupRow)
      → KeepsGroup f
      → db'.groups ≡ map f db.groups
      → db'.nodes ≡ db.nodes
      → Step db db'
  registers :
      (row : NodeRow) (g : GroupRow)
      → find (has_id row.group_id) db.groups ≡ some g
      → row.node_number ≡ pos g.next_node_number
      → any (is_node row.group_id row.node_number) db.nodes ≡ false
      → db'.groups ≡ map (bump_in row.group_id) db.groups
      → db'.nodes ≡ db.nodes ++ row ∷ []
      → Step db db'
  opens :
      (g : GroupRow)
      → any (has_id g.id) db.groups ≡ false
      → db'.groups ≡ db.groups ++ g ∷ []
      → db'.nodes ≡ db.nodes
      → Step db db'

pub data Reach (db : Db) : Db → Type 0 where
  here : Reach db db
  next : {db1 db2 : Db} → Reach db db1 → Step db1 db2 → Reach db db2
