-- ===== src/Routing/Router.antt =====
-- connect/hub/routing.go: Router and FutureResponse.Await. The router's map and each group have
-- mutexes of their own; a call below is one group operation under them.
use wispers_hub.Base.{
  ℕ, ◌≡◌, refl, sym, ◌≢◌, Bool, true, false, Option, none, some, List, [], ◌∷◌, map, Bytes, arith,
  eqb, any, if◌then◌else◌, ◌==◌, bytes_eq, Option-cases, inl, inr,
}
use wispers_hub.Base.Int.{ℤ, int_eq}
use wispers_hub.Base.Assoc.{lookup, insert, lookup-insert_ne, lookup-insert_self}
use wispers_hub.Grpc.{Error, context_done}
use wispers_hub.Proto.{ServingRequest, ServingResponse}
use wispers_hub.Routing.Requests.{lookup-connect}
use wispers_hub.Routing.{
  ConnectivityGroup, FutureResponse, new_group, connect, disconnect, route_request,
}

pub record Router : Type 0 where
  pub groups : List (Bytes × ConnectivityGroup)

abbrev pub new_router : Router
new_router = record { groups = [] }

abbrev or_new : Bytes → Option ConnectivityGroup → ConnectivityGroup
or_new cg_id none = new_group cg_id
or_new cg_id (some g) = g

-- The group, which is stored when it is new: the write below stores it in either case.
unfoldable pub find_or_create_group : Bytes → Router → ConnectivityGroup
find_or_create_group cg_id r = or_new cg_id (lookup cg_id r.groups)

abbrev pub put : Bytes → ConnectivityGroup → Router → Router
put cg_id g r = record { groups = insert cg_id g r.groups }

unfoldable pub router_connect : Bytes → ℤ → Router → ℕ × Router
router_connect cg_id n r =
    let (c, g) = connect n (find_or_create_group cg_id r) in (c, put cg_id g r)

unfoldable pub router_route_request : Bool → Bytes → ServingRequest → Router → ℕ × Router
router_route_request taken cg_id req r =
    let (f, g) = route_request taken req (find_or_create_group cg_id r) in (f, put cg_id g r)

-- Connector.Disconnect, on the connector's group.
unfoldable pub router_disconnect : Bytes → ℕ → Router → Router
router_disconnect cg_id c r = put cg_id (disconnect c (find_or_create_group cg_id r)) r

abbrev is_some : {A : Type 0} → Option A → Bool
is_some none = false
is_some (some a) = true

abbrev connected_in : Option ConnectivityGroup → ℤ → Bool
connected_in none n = false
connected_in (some g) n = is_some (lookup n g.connectors)

unfoldable pub is_node_connected : Bytes → ℤ → Router → Bool
is_node_connected cg_id n r = connected_in (lookup cg_id r.groups) n

abbrev nodes_of : Option ConnectivityGroup → List ℤ
nodes_of none = []
nodes_of (some g) = map (λ e. e.0) g.connectors

-- In the order of a Go map's iteration, which is not specified.
unfoldable pub connected_nodes : Bytes → Router → List ℤ
connected_nodes cg_id r = nodes_of (lookup cg_id r.groups)

pub data Awaited : Type 0 where
  blocked : Awaited
  returns : Option ServingResponse → Option Error → Awaited

-- Await; `cancelled` says that the select takes the arm of the caller's context.
unfoldable pub await : Bool → FutureResponse → Awaited
await cancelled f =
    if cancelled
    then returns none (some context_done)
    else if eqb f.closes 0
    then blocked
    else returns f.resp f.err

any-keys : (n : ℤ) (m : List (ℤ × ℕ)) → any (λ j. j == n) (map (λ e. e.0) m) ≡ is_some (lookup n m)
unfolding lookup
any-keys n [] = refl
any-keys n ((j, c) ∷ m) = ground (arith, any-keys n m)

-- The two views of who is online agree: a node is reported connected exactly when its number is
-- among the group's connected nodes.
is_node_connected-connected_nodes :
    (cg_id : Bytes) (n : ℤ) (r : Router)
    → is_node_connected cg_id n r ≡ any (λ j. j == n) (connected_nodes cg_id r)
unfolding is_node_connected connected_nodes
is_node_connected-connected_nodes cg_id n r = elim (Option-cases (lookup cg_id r.groups)) [
  | inl e ↦ rw (e, connected_in, nodes_of)
  | inr (g, e) ↦ rw (e, connected_in, nodes_of) (sym (any-keys n g.connectors))
]

lookup-put :
    (cg_id other : Bytes) (g : ConnectivityGroup) (r : Router)
    → other ≢ cg_id
    → lookup other (put cg_id g r).groups ≡ lookup other r.groups
lookup-put cg_id other g r h = lookup-insert_ne cg_id other g r.groups (λ e. h (sym e))

-- Whatever a connection, a routed request and the end of a connection in one group do, another
-- group's state is untouched.
other_group :
    (cg_id other : Bytes) (n : ℤ) (taken : Bool) (req : ServingRequest) (c : ℕ) (r : Router)
    → other ≢ cg_id
    → (lookup other (router_connect cg_id n r).1.groups ≡ lookup other r.groups)
      × (lookup other (router_route_request taken cg_id req r).1.groups ≡ lookup other r.groups)
      × (lookup other (router_disconnect cg_id c r).groups ≡ lookup other r.groups)
unfolding router_connect router_route_request router_disconnect
other_group cg_id other n taken req c r h =
    (lookup-put cg_id other _ r h, lookup-put cg_id other _ r h, lookup-put cg_id other _ r h)

after_connect :
    (cg_id : Bytes) (n j : ℤ) (c : ℕ) (o : Option ConnectivityGroup)
    → is_some (if n == j then some c else lookup j (or_new cg_id o).connectors)
      ≡ (if n == j then true else connected_in o j)
unfolding lookup
after_connect cg_id n j c none = ground arith
after_connect cg_id n j c (some g) = ground arith

-- After a connection the node is reported connected, and what is reported of the group's other nodes
-- does not change.
is_node_connected-router_connect :
    (cg_id : Bytes) (n j : ℤ) (r : Router)
    → is_node_connected cg_id j (router_connect cg_id n r).1
      ≡ (if n == j then true else is_node_connected cg_id j r)
unfolding is_node_connected router_connect find_or_create_group
is_node_connected-router_connect cg_id n j r =
    rw
      (
        lookup-insert_self cg_id (connect n (or_new cg_id (lookup cg_id r.groups))).1 r.groups,
        lookup-connect n j (or_new cg_id (lookup cg_id r.groups)),
      )
      (after_connect cg_id n j _ (lookup cg_id r.groups))
