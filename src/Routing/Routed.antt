-- ===== src/Routing/Routed.antt =====
-- A routeRequest of connect/hub/routing.go whose node takes the request, as one change of its group.
use wispers_hub.Base.{
  ℕ, suc, ◌≡◌, refl, true, some, List, [], ◌∷◌, ap, eqb_refl, if◌then◌else◌, ◌==◌, nat_eq,
}
use wispers_hub.Base.Int.{int_eq}
use wispers_hub.Base.Assoc.{lookup, lookup-insert}
use wispers_hub.Proto.{ServingRequest}
use wispers_hub.Routing.{
  ConnectivityGroup, write, begin_route, hand_over, register, route_request, next_id,
  send_and_register, with_id, new_future,
}

-- A group after a request to its connector `c` that the send loop takes.
abbrev pub routed : ServingRequest → ConnectivityGroup → ℕ → ConnectivityGroup
routed req g c = register (next_id g) g.next_fut (
    hand_over c (with_id req (next_id g)) (record g {
      msg_counter = next_id g;
      futs = write g.futs g.next_fut (new_future req.dest_node_number);
      next_fut = suc g.next_fut;
    }))

pub route_request-routed :
    (req : ServingRequest) (g : ConnectivityGroup) (c : ℕ)
    → lookup req.dest_node_number g.connectors ≡ some c
    → route_request true req g ≡ (g.next_fut, routed req g c)
unfolding route_request begin_route
route_request-routed req g c e = rw (e, send_and_register) refl

first : ServingRequest → List ServingRequest → ServingRequest
first a [] = a
first a (b ∷ bs) = b

pub handed_over :
    (req a : ServingRequest) (g : ConnectivityGroup) (c : ℕ) (before : List ServingRequest)
    → ((routed req g c).conns c).delivered ≡ a ∷ before
    → with_id req (next_id g) ≡ a
unfolding hand_over register first
handed_over req a g c before d = ap (first a) (rw (eqb_refl c) at d)

pub lookup-routed :
    (req : ServingRequest) (g : ConnectivityGroup) (c id : ℕ)
    → lookup id (routed req g c).futures
      ≡ (if next_id g == id then some g.next_fut else lookup id g.futures)
unfolding hand_over register
lookup-routed req g c id = lookup-insert (next_id g) id g.next_fut g.futures
