-- ===== src/Standalone/Steps/Invariant.antt =====
-- The invariant of the tables of connect/hub/standalone_schema.sql that the schema's keys and the
-- methods of connect/hub/standalone_grpc.go and standalone_rest.go keep together.
use wispers_hub.Base.{
  ◌≤◌, ◌≡◌, refl, sym, ap, subst, ◌∙◌, Bool, true, some, List, [], ◌∷◌, Bytes, map, find, ◌==◌,
  ==_iff, bytes_eq, if◌then◌else◌, All, All-append, All-map, All-weaken, Distinct, Distinct-map,
  Distinct-snoc, find-map, find-append, Bool-cases, inl, inr, arith,
}
use wispers_hub.Base.Int.{pos, int_eq, ◌<ℤ◌}
use wispers_hub.Standalone.Db.{Db, GroupRow, NodeRow, empty_db, is_node}
use wispers_hub.Standalone.Messages.{bump_number}
use wispers_hub.Standalone.Steps.{
  Step, reads, changes_nodes, changes_groups, registers, opens, Reach, here, next, KeepsNode,
  KeepsGroup, has_id, bump_in,
}

abbrev pub same_group : GroupRow → GroupRow → Bool
same_group g h = has_id g.id h

abbrev pub same_node : NodeRow → NodeRow → Bool
same_node r s = is_node r.group_id r.node_number s

-- The node's group is there and has given out its number.
abbrev pub Numbered : List GroupRow → NodeRow → Type 0
Numbered groups r =
    (g : GroupRow) × (find (has_id r.group_id) groups ≡ some g)
    × (r.node_number <ℤ pos g.next_node_number)

-- Group identifiers and node keys are unique, and every node has a number of its group that the group
-- has given out.
pub record IsValid (db : Db) : Type 0 where
  pub distinct_groups : Distinct same_group db.groups
  pub distinct_nodes : Distinct same_node db.nodes
  pub numbered : All (Numbered db.groups) db.nodes

empty_db-IsValid : IsValid empty_db
empty_db-IsValid = record { distinct_groups = tt; distinct_nodes = tt; numbered = tt }

==-comm : (a b : Bytes) → (a == b) ≡ (b == a)
==-comm a b = ground (arith, ==_iff a b, ==_iff b a)

same_group_comm : (g h : GroupRow) → same_group g h ≡ same_group h g
same_group_comm g h = ==-comm h.id g.id

same_node_comm : (r s : NodeRow) → same_node r s ≡ same_node s r
same_node_comm r s = ground (
  arith,
  ==_iff r.group_id s.group_id,
  ==_iff s.group_id r.group_id,
  ==_iff r.node_number s.node_number,
  ==_iff s.node_number r.node_number,
)

same_group-KeepsGroup :
    (f : GroupRow → GroupRow)
    → KeepsGroup f
    → (g h : GroupRow) → same_group (f g) (f h) ≡ same_group g h
same_group-KeepsGroup f k g h = rw ((k g).0, (k h).0)

same_node-KeepsNode :
    (f : NodeRow → NodeRow) → KeepsNode f → (r s : NodeRow) → same_node (f r) (f s) ≡ same_node r s
same_node-KeepsNode f k r s = rw ((k r).0, (k r).1, (k s).0, (k s).1)

bump_in-id : (cg : Bytes) (g : GroupRow) → (bump_in cg g).id ≡ g.id
bump_in-id cg g = ground arith

same_group-bump_in :
    (cg : Bytes) (g h : GroupRow) → same_group (bump_in cg g) (bump_in cg h) ≡ same_group g h
same_group-bump_in cg g h = rw (bump_in-id cg g, bump_in-id cg h)

bump_in-next : (cg : Bytes) (g : GroupRow) → g.next_node_number ≤ (bump_in cg g).next_node_number
bump_in-next cg g = ground arith

-- The group's row in later tables, with a number that has not gone back.
abbrev pub Later : Bytes → GroupRow → List GroupRow → Type 0
Later cg g groups =
    (h : GroupRow) × (find (has_id cg) groups ≡ some h) × (g.next_node_number ≤ h.next_node_number)

Later-map :
    (cg : Bytes) (g : GroupRow) (f : GroupRow → GroupRow) (groups groups' : List GroupRow)
    → ((h : GroupRow) → (f h).id ≡ h.id)
    → ((h : GroupRow) → h.next_node_number ≤ (f h).next_node_number)
    → groups' ≡ map f groups
    → find (has_id cg) groups ≡ some g
    → Later cg g groups'
Later-map cg g f groups groups' ids up e there = (
  f g,
  ap (find (has_id cg)) e
      ∙ find-map (has_id cg) f (λ h. ap (λ id. id == cg) (ids h)) groups g there,
  up g,
)

Step-Later :
    (cg : Bytes) (g : GroupRow) (db db' : Db)
    → Step db db'
    → find (has_id cg) db.groups ≡ some g
    → Later cg g db'.groups
Step-Later cg g db db' (reads gs ns) there = (g, ap (find (has_id cg)) gs ∙ there, ground arith)
Step-Later cg g db db' (changes_nodes f k gs ns) there =
    (g, ap (find (has_id cg)) gs ∙ there, ground arith)
Step-Later cg g db db' (changes_groups f k gs ns) there =
    Later-map cg g f db.groups db'.groups (λ h. (k h).0) (λ h. omega (arith, (k h).1)) gs there
Step-Later cg g db db' (registers row h found number free gs ns) there =
    Later-map cg g (bump_in row.group_id) db.groups db'.groups (bump_in-id row.group_id)
      (bump_in-next row.group_id) gs there
Step-Later cg g db db' (opens h free gs ns) there =
    (g, ap (find (has_id cg)) gs ∙ find-append (has_id cg) db.groups (h ∷ []) g there, ground arith)

Step-Numbered :
    (db db' : Db) → Step db db' → (r : NodeRow) → Numbered db.groups r → Numbered db'.groups r
Step-Numbered db db' s r (g, there, below) =
    let (h, found, up) = Step-Later r.group_id g db db' s there in
    (h, found, omega (arith, below, up))

keeps_numbers :
    (groups : List GroupRow) (f : NodeRow → NodeRow)
    → KeepsNode f
    → (r : NodeRow) → Numbered groups r
    → Numbered groups (f r)
keeps_numbers groups f k r (g, there, below) =
    (g, ap (λ id. find (has_id id) groups) (k r).0 ∙ there, rw (k r).1 below)

find-has_id :
    (cg : Bytes) (groups : List GroupRow) (g : GroupRow)
    → find (has_id cg) groups ≡ some g
    → has_id cg g ≡ true
find-has_id cg [] g e = cc
find-has_id cg (h ∷ groups) g e = elim (Bool-cases (has_id cg h)) [
  | inl hit ↦ (let same : h ≡ g = cc (rw hit at e) in subst (λ k. has_id cg k ≡ true) same hit)
  | inr miss ↦ find-has_id cg groups g (rw miss at e)
]

pub find-bump_in :
    (cg : Bytes) (groups groups' : List GroupRow) (g : GroupRow)
    → find (has_id cg) groups ≡ some g
    → groups' ≡ map (bump_in cg) groups
    → find (has_id cg) groups' ≡ some (bump_number g)
find-bump_in cg groups groups' g found gs =
    ap (find (has_id cg)) gs
    ∙ find-map (has_id cg) (bump_in cg) (λ h. ap (λ id. id == cg) (bump_in-id cg h)) groups g found
    ∙ ap (λ b. some (if b then bump_number g else g)) (find-has_id cg groups g found)

-- The new node's number is below the one that its group has now.
new_node-Numbered :
    (cg : Bytes) (g : GroupRow) (groups groups' : List GroupRow) (r : NodeRow)
    → r.group_id ≡ cg
    → r.node_number ≡ pos g.next_node_number
    → find (has_id cg) groups ≡ some g
    → groups' ≡ map (bump_in cg) groups
    → Numbered groups' r
new_node-Numbered cg g groups groups' r id number found gs = (
  bump_number g,
  ap (λ id. find (has_id id) groups') id ∙ find-bump_in cg groups groups' g found gs,
  rw number (omega arith),
)

Step-IsValid : (db db' : Db) → Step db db' → IsValid db → IsValid db'
Step-IsValid db db' (reads gs ns) v = record {
  distinct_groups = subst (Distinct same_group) (sym gs) v.distinct_groups;
  distinct_nodes = subst (Distinct same_node) (sym ns) v.distinct_nodes;
  numbered =
      subst (All (Numbered db'.groups)) (sym ns)
        (All-weaken _ _ (Step-Numbered db db' (reads gs ns)) db.nodes v.numbered);
}
Step-IsValid db db' (changes_nodes f k gs ns) v = record {
  distinct_groups = subst (Distinct same_group) (sym gs) v.distinct_groups;
  distinct_nodes =
      subst (Distinct same_node) (sym ns)
        (Distinct-map same_node f (same_node-KeepsNode f k) db.nodes v.distinct_nodes);
  numbered = subst (All (Numbered db'.groups)) (sym ns) (
      All-map _ _ f
        (λ r p. keeps_numbers db'.groups f k r (Step-Numbered db db' (changes_nodes f k gs ns) r p))
        db.nodes v.numbered);
}
Step-IsValid db db' (changes_groups f k gs ns) v = record {
  distinct_groups =
      subst (Distinct same_group) (sym gs)
        (Distinct-map same_group f (same_group-KeepsGroup f k) db.groups v.distinct_groups);
  distinct_nodes = subst (Distinct same_node) (sym ns) v.distinct_nodes;
  numbered =
      subst (All (Numbered db'.groups)) (sym ns)
        (All-weaken _ _ (Step-Numbered db db' (changes_groups f k gs ns)) db.nodes v.numbered);
}
Step-IsValid db db' (registers row g found number free gs ns) v = record {
  distinct_groups = subst (Distinct same_group) (sym gs) (
      Distinct-map same_group (bump_in row.group_id) (same_group-bump_in row.group_id) db.groups
        v.distinct_groups);
  distinct_nodes =
      subst (Distinct same_node) (sym ns)
        (Distinct-snoc same_node same_node_comm db.nodes row free v.distinct_nodes);
  numbered = subst (All (Numbered db'.groups)) (sym ns) (
      All-append _ db.nodes (row ∷ [])
        (All-weaken _ _ (Step-Numbered db db' (registers row g found number free gs ns)) db.nodes
          v.numbered)
        (new_node-Numbered row.group_id g db.groups db'.groups row refl number found gs, tt));
}
Step-IsValid db db' (opens g free gs ns) v = record {
  distinct_groups =
      subst (Distinct same_group) (sym gs)
        (Distinct-snoc same_group same_group_comm db.groups g free v.distinct_groups);
  distinct_nodes = subst (Distinct same_node) (sym ns) v.distinct_nodes;
  numbered =
      subst (All (Numbered db'.groups)) (sym ns)
        (All-weaken _ _ (Step-Numbered db db' (opens g free gs ns)) db.nodes v.numbered);
}

pub Reach-IsValid : {db db' : Db} → Reach db db' → IsValid db → IsValid db'
Reach-IsValid here v = v
Reach-IsValid (next r s) v = Step-IsValid _ _ s (Reach-IsValid r v)

pub Reach-Later :
    {db db' : Db} (cg : Bytes) (g : GroupRow)
    → Reach db db'
    → find (has_id cg) db.groups ≡ some g
    → Later cg g db'.groups
Reach-Later cg g here there = (g, there, omega arith)
Reach-Later cg g (next r s) there =
    let (h, found, up) = Reach-Later cg g r there in
    let (k, found', up') = Step-Later cg h _ _ s found in (k, found', omega (arith, up, up'))
