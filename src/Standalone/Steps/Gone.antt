-- ===== src/Standalone/Steps/Gone.antt =====
-- Deleted rows of node_registrations: connect/hub brings none of them back, and their keys stay taken.
use wispers_hub.Base.{
  ◌≡◌, refl, ap, ◌∙◌, Bool, true, false, none, List, [], ◌∷◌, ◌++◌, some, Bytes, map, any, find,
  ==_iff, bytes_eq, any-map, any-snoc, Bool-cases, inl, inr, arith,
}
use wispers_hub.Base.Int.{ℤ, int_eq}
use wispers_hub.Standalone.Db.{Db, NodeRow, is_node, is_live_node}
use wispers_hub.Standalone.Steps.{
  Step, reads, changes_nodes, changes_groups, registers, opens, Reach, here, next, KeepsNode,
}

abbrev pub Known : Bytes → ℤ → Db → Type 0
Known cg n db = any (is_node cg n) db.nodes ≡ true

-- The key has been given to a node, and no live node has it.
pub record Gone (cg : Bytes) (n : ℤ) (db : Db) : Type 0 where
  pub known : Known cg n db
  pub dead : any (is_live_node cg n) db.nodes ≡ false

module _ (cg : Bytes) (n : ℤ) where
  is_node-KeepsNode :
      (f : NodeRow → NodeRow) → KeepsNode f → (r : NodeRow) → is_node cg n (f r) ≡ is_node cg n r
  is_node-KeepsNode f k r = rw ((k r).0, (k r).1)

  stays_dead :
      (f : NodeRow → NodeRow)
      → KeepsNode f
      → (r : NodeRow) → is_live_node cg n r ≡ false
      → is_live_node cg n (f r) ≡ false
  stays_dead f k r h = let same = is_node-KeepsNode f k r in let (_, _, gone) = k r in ground arith

  dead-map :
      (f : NodeRow → NodeRow)
      → KeepsNode f
      → (rows : List NodeRow) → any (is_live_node cg n) rows ≡ false
      → any (is_live_node cg n) (map f rows) ≡ false
  dead-map f k [] h = refl
  dead-map f k (r ∷ rows) h = elim (Bool-cases (is_live_node cg n r)) [
    | inl live ↦ absurd (cc (rw live at h))
    | inr gone ↦ rw (stays_dead f k r gone) (dead-map f k rows (rw gone at h))
  ]

  any-append :
      (p : NodeRow → Bool) (rows rows' : List NodeRow)
      → any p rows ≡ true
      → any p (rows ++ rows') ≡ true
  any-append p [] rows' h = cc
  any-append p (r ∷ rows) rows' h = elim (Bool-cases (p r)) [
    | inl hit ↦ rw hit refl
    | inr miss ↦ rw miss (any-append p rows rows' (rw miss at h))
  ]

  Step-Known : (db db' : Db) → Step db db' → Known cg n db → Known cg n db'
  Step-Known db db' (reads gs ns) h = ap (any (is_node cg n)) ns ∙ h
  Step-Known db db' (changes_nodes f k gs ns) h =
      ap (any (is_node cg n)) ns
      ∙ any-map (is_node cg n) (is_node cg n) f (is_node-KeepsNode f k) db.nodes
      ∙ h
  Step-Known db db' (changes_groups f k gs ns) h = ap (any (is_node cg n)) ns ∙ h
  Step-Known db db' (registers row g found number free gs ns) h =
      ap (any (is_node cg n)) ns ∙ any-append (is_node cg n) db.nodes (row ∷ []) h
  Step-Known db db' (opens g free gs ns) h = ap (any (is_node cg n)) ns ∙ h

  pub Reach-Known : {db db' : Db} → Reach db db' → Known cg n db → Known cg n db'
  Reach-Known here h = h
  Reach-Known (next r s) h = Step-Known _ _ s (Reach-Known r h)

  -- A row whose key is free is not that of a known node.
  other_key :
      (row : NodeRow) (rows : List NodeRow)
      → any (is_node row.group_id row.node_number) rows ≡ false
      → any (is_node cg n) rows ≡ true
      → is_live_node cg n row ≡ false
  other_key row rows free known = elim (Bool-cases (is_node cg n row)) [
    | inl hit ↦
        let same_id : row.group_id ≡ cg = ground (arith, ==_iff row.group_id cg) in
        let same_number : row.node_number ≡ n = ground (arith, ==_iff row.node_number n) in
        absurd (cc (rw (same_id, same_number) at free))
    | inr miss ↦ rw miss refl
  ]

  Step-Gone : (db db' : Db) → Step db db' → Gone cg n db → any (is_live_node cg n) db'.nodes ≡ false
  Step-Gone db db' (reads gs ns) h = ap (any (is_live_node cg n)) ns ∙ h.dead
  Step-Gone db db' (changes_nodes f k gs ns) h =
      ap (any (is_live_node cg n)) ns ∙ dead-map f k db.nodes h.dead
  Step-Gone db db' (changes_groups f k gs ns) h = ap (any (is_live_node cg n)) ns ∙ h.dead
  Step-Gone db db' (registers row g found number free gs ns) h =
      ap (any (is_live_node cg n)) ns
      ∙ any-snoc (is_live_node cg n) db.nodes row h.dead (other_key row db.nodes free h.known)
  Step-Gone db db' (opens g free gs ns) h = ap (any (is_live_node cg n)) ns ∙ h.dead

  pub Reach-Gone : {db db' : Db} → Reach db db' → Gone cg n db → Gone cg n db'
  Reach-Gone here h = h
  Reach-Gone (next r s) h =
      let before = Reach-Gone r h in
      record { known = Step-Known _ _ s before.known; dead = Step-Gone _ _ s before }

  pub find-dead :
      (rows : List NodeRow)
      → any (is_live_node cg n) rows ≡ false
      → find (is_live_node cg n) rows ≡ none
  find-dead [] h = refl
  find-dead (r ∷ rows) h = elim (Bool-cases (is_live_node cg n r)) [
    | inl live ↦ absurd (cc (rw live at h))
    | inr gone ↦ rw gone (find-dead rows (rw gone at h))
  ]

  pub find-Known :
      (rows : List NodeRow) (r : NodeRow)
      → find (is_live_node cg n) rows ≡ some r
      → any (is_node cg n) rows ≡ true
  find-Known [] r e = cc
  find-Known (s ∷ rows) r e = elim (Bool-cases (is_node cg n s)) [
    | inl hit ↦ rw hit refl
    | inr miss ↦ rw miss (find-Known rows r (rw miss at e))
  ]
