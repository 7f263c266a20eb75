-- ===== src/Routing/Races.antt =====
-- Two orders in which connect/hub/routing.go loses a future: routeRequest registers the future after
-- the request has gone out, outside the critical section that found the connector.
use wispers_hub.Base.{ℕ, ◌≡◌, refl, false, none, some, arith, eqb_refl, nat_eq}
use wispers_hub.Base.Int.{int_eq}
use wispers_hub.Base.Assoc.{lookup, lookup-insert_self, lookup-delete_self}
use wispers_hub.Proto.{ServingResponse}
use wispers_hub.Routing.{
  register, process_response, is_check_in_msg, resolve_found, disconnect, is_current, clear_futures,
}
use wispers_hub.Routing.Clear.{Absent, failed-Absent}
use wispers_hub.Routing.System.{System, registering, registers, receives, disconnects, step, finish}

-- In any state where a call is about to register its future, nothing else is registered under its id
-- and a proper response with that id comes: if the response is processed before the registration it
-- is dropped, and the call's future stays registered and open; in the other order the response
-- resolves it.
pub response_before_register :
    (s : System) (f : ℕ) (r : ServingResponse)
    → s.flights f ≡ registering r.request_id
    → lookup r.request_id s.group.futures ≡ none
    → is_check_in_msg r.kind ≡ false
    → let early = step (step s (receives r)) (registers f) in
      let late = step (step s (registers f)) (receives r) in
      (early.group.futs f ≡ s.group.futs f)
      × (lookup r.request_id early.group.futures ≡ some f)
      × ((late.group.futs f).resp ≡ some r)
      × (lookup r.request_id late.group.futures ≡ none)
unfolding step process_response register
response_before_register s f r e k c =
    rw (e, finish, c, k, resolve_found)
      (
        refl,
        lookup-insert_self r.request_id f s.group.futures,
        rw (lookup-insert_self r.request_id f s.group.futures, resolve_found) (ground arith),
        rw (lookup-insert_self r.request_id f s.group.futures, resolve_found)
            (lookup-delete_self r.request_id _),
      )

-- In any state where a call is about to register its future under a free id and the connector that
-- took its request is its node's current one: if the node disconnects before the registration, the
-- node is not connected and yet the future stays registered and open.
pub disconnect_before_register :
    (s : System) (f id c : ℕ)
    → s.flights f ≡ registering id
    → lookup (s.group.conns c).node_num s.group.connectors ≡ some c
    → Absent f s.group.futures
    → let s' = step (step s (disconnects c)) (registers f) in
      (lookup (s.group.conns c).node_num s'.group.connectors ≡ none)
      × (lookup id s'.group.futures ≡ some f)
      × (s'.group.futs f ≡ s.group.futs f)
unfolding step disconnect clear_futures register
disconnect_before_register s f id c e k a =
    rw (k, is_current, eqb_refl c, e, finish)
      (
        lookup-delete_self (s.group.conns c).node_num s.group.connectors,
        lookup-insert_self id f _,
        failed-Absent (s.group.conns c).node_num s.group.futs f s.group.futures a,
      )
