-- ===== src/Standalone/Backend/Listing.antt =====
-- ListNodes of connect/hub/standalone_grpc.go: the live nodes of a group, in order.
use wispers_hub.Base.{
  ◌≡◌, refl, ap, ◌∙◌, Bool, true, false, ◌&&◌, ◌||◌, some, List, [], ◌∷◌, Bytes, map, any, arith,
  filter, Bool-cases, inl, inr, All,
}
use wispers_hub.Base.Int.{leb_ℤ}
use wispers_hub.Standalone.Db.{NodeRow, is_live_in}
use wispers_hub.Standalone.Exec.{Env, World, ok, ◌>>=◌, query, pure, or_raise, called}
use wispers_hub.Standalone.Messages.{node_info, insert_sorted, order_by_node_number}
use wispers_hub.Standalone.Backend.{Externals, list_nodes, parse_group_id}

abbrev pub Before : NodeRow → NodeRow → Type 0
Before r s = leb_ℤ r.node_number s.node_number ≡ true

abbrev pub Sorted : List NodeRow → Type 0
Sorted [] = Unit
Sorted (r ∷ rows) = All (Before r) rows × Sorted rows

Before-trans : (r s t : NodeRow) → Before r s → Before s t → Before r t
Before-trans r s t h k = ground arith

Before-total : (r s : NodeRow) → leb_ℤ r.node_number s.node_number ≡ false → Before s r
Before-total r s h = ground arith

All-Before :
    (r s : NodeRow) (rows : List NodeRow) → Before r s → All (Before s) rows → All (Before r) rows
All-Before r s [] h a = tt
All-Before r s (t ∷ rows) h (k, a) = (Before-trans r s t h k, All-Before r s rows h a)

insert_sorted-All :
    (q r : NodeRow) (rows : List NodeRow)
    → Before q r
    → All (Before q) rows
    → All (Before q) (insert_sorted r rows)
unfolding insert_sorted
insert_sorted-All q r [] h a = (h, tt)
insert_sorted-All q r (s ∷ rows) h (k, a) = elim (Bool-cases (leb_ℤ r.node_number s.node_number)) [
  | inl le ↦ rw le (h, (k, a))
  | inr gt ↦ rw gt (k, insert_sorted-All q r rows h a)
]

insert_sorted-Sorted :
    (r : NodeRow) (rows : List NodeRow) → Sorted rows → Sorted (insert_sorted r rows)
unfolding insert_sorted
insert_sorted-Sorted r [] v = (tt, tt)
insert_sorted-Sorted r (s ∷ rows) (a, v) = elim (Bool-cases (leb_ℤ r.node_number s.node_number)) [
  | inl le ↦ rw le ((le, All-Before r s rows le a), (a, v))
  | inr gt ↦
      rw gt (insert_sorted-All s r rows (Before-total r s gt) a, insert_sorted-Sorted r rows v)
]

any-insert_sorted :
    (p : NodeRow → Bool) (r : NodeRow) (rows : List NodeRow)
    → any p (insert_sorted r rows) ≡ (p r || any p rows)
unfolding insert_sorted
any-insert_sorted p r [] = refl
any-insert_sorted p r (s ∷ rows) = ground (arith, any-insert_sorted p r rows)

order_by_node_number-Sorted : (rows : List NodeRow) → Sorted (order_by_node_number rows)
unfolding order_by_node_number
order_by_node_number-Sorted [] = tt
order_by_node_number-Sorted (r ∷ rows) =
    insert_sorted-Sorted r (order_by_node_number rows) (order_by_node_number-Sorted rows)

any-order_by_node_number :
    (p : NodeRow → Bool) (rows : List NodeRow) → any p (order_by_node_number rows) ≡ any p rows
unfolding order_by_node_number
any-order_by_node_number p [] = refl
any-order_by_node_number p (r ∷ rows) =
    any-insert_sorted p r (order_by_node_number rows)
    ∙ ap (λ b. p r || b) (any-order_by_node_number p rows)

any-filter :
    (p q : NodeRow → Bool) (rows : List NodeRow)
    → any p (filter q rows) ≡ any (λ r. q r && p r) rows
any-filter p q [] = refl
any-filter p q (r ∷ rows) = ground (arith, any-filter p q rows)

-- The nodes that ListNodes gives for an identifier that parses and a database that answers come from
-- rows in the order of their numbers, and a row of some kind is among them exactly when a live node
-- of the group is of that kind.
list_nodes_lem :
    (x : Externals) (env : Env) (raw cg : Bytes) (w : World)
    → x.parse_uuid raw ≡ some cg
    → env.fails w.calls ≡ false
    → (rows : List NodeRow) × (list_nodes x env raw w ≡ (ok (map node_info rows), called w))
      × Sorted rows
      × ((p : NodeRow → Bool) → any p rows ≡ any (λ r. is_live_in cg r && p r) w.db.nodes)
unfolding list_nodes parse_group_id ◌>>=◌ or_raise query pure
list_nodes_lem x env raw cg w parsed up =
    let live = filter (is_live_in cg) w.db.nodes in
    (
      order_by_node_number live,
      rw (parsed, up) refl,
      order_by_node_number-Sorted live,
      λ p. any-order_by_node_number p live ∙ any-filter p (is_live_in cg) w.db.nodes,
    )
