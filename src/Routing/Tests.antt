-- ===== src/Routing/Tests.antt =====
-- Runs of the model of connect/hub/routing.go, and its theorems at concrete inputs.
use wispers_hub.Base.{
  ℕ, ◌≡◌, ◌≢◌, refl, true, false, none, some, List, [], ◌∷◌, Bytes, codes, if◌then◌else◌, ◌==◌,
  nat_eq, bytes_eq, All,
}
use wispers_hub.Base.Int.{ℤ, pos, int_eq}
use wispers_hub.Base.Assoc.{lookup, insert}
use wispers_hub.Proto.{ServingRequest, ServingResponse, paired, start_connection}
use wispers_hub.Routing.{
  ConnectivityGroup, new_group, connect, disconnect, route_request, process_response, with_id,
  new_connector, cancel, clear_futures, begin_route, register, hand_over, disconnected,
}
use wispers_hub.Routing.System.{
  System, Event, Flight, init, step, run, connects, disconnects, begins, takes, registers, receives,
  registering,
}
use wispers_hub.Routing.Clear.{Pending, NoPanic, Absent}
use wispers_hub.Routing.NoPanic.{run-NoPanic}
use wispers_hub.Routing.Requests.{disconnect_current, connect_again, Cleared}
use wispers_hub.Routing.Answers.{g2, routed-answered}
use wispers_hub.Routing.Departed.{routed-departed}
use wispers_hub.Routing.Races.{response_before_register, disconnect_before_register}
use wispers_hub.Routing.Router.{Router, new_router, router_connect, blocked, returns, await}

abbrev group : Bytes
group = codes "g"

abbrev request : ServingRequest
request = record {
  request_id = 0;
  dest_node_number = pos 1;
  source_node_number = pos 2;
  kind = start_connection [];
}

abbrev response : ServingResponse
response = record { request_id = 1; error = []; kind = paired [] }

abbrev events : List Event
events =
    connects (pos 1)
    ∷ begins request
    ∷ takes 0
    ∷ registers 0
    ∷ connects (pos 1)
    ∷ receives response
    ∷ []

run-NoPanic_example :
    let s = run (init group) events in
    NoPanic s.group.futs × Pending s.group.futs s.flights s.group.futures
run-NoPanic_example = run-NoPanic group events

abbrev empty : ConnectivityGroup
empty = new_group group

-- Node 1 is connected, on connector 0.
abbrev online : ConnectivityGroup
online = (connect (pos 1) empty).1

-- A request waits for node 1's response, under id 1.
abbrev waiting : ConnectivityGroup
waiting = (route_request true request online).1

-- Node 1 has connected twice.
abbrev again : ConnectivityGroup
again = (connect (pos 1) waiting).1

empty-offline : lookup (pos 1) empty.connectors ≡ none
unfolding lookup
empty-offline = refl

waiting-current : lookup (pos 1) waiting.connectors ≡ some 0
unfolding connect lookup insert route_request begin_route register hand_over
waiting-current = refl

waiting-registered : lookup 1 waiting.futures ≡ some 0
unfolding connect lookup insert route_request begin_route register hand_over
waiting-registered = refl

waiting-node : (waiting.conns 0).node_num ≡ pos 1
unfolding connect lookup insert route_request begin_route register hand_over
waiting-node = refl

waiting-Pending : Pending waiting.futs (λ f. Flight.returned) waiting.futures
unfolding connect lookup insert route_request begin_route register hand_over
waiting-Pending = (refl, refl, tt, tt)

again-current : lookup (again.conns 0).node_num again.connectors ≡ some 1
unfolding connect clear_futures lookup insert route_request begin_route register hand_over
again-current = refl

-- Node 1 on connector 0 and node 2 on connector 1, each asked by the other.
abbrev pair : ConnectivityGroup
pair = (connect (pos 2) online).1

abbrev back : ServingRequest
back = record request { dest_node_number = pos 2; source_node_number = pos 1 }

abbrev answer : ServingResponse
answer = record response { request_id = 2 }

abbrev asked : ConnectivityGroup
asked = g2 request back pair

pair-first : lookup (pos 1) pair.connectors ≡ some 0
unfolding connect lookup insert
pair-first = refl

pair-second : lookup (pos 2) pair.connectors ≡ some 1
unfolding connect lookup insert
pair-second = refl

handed_first :
    ((route_request true request pair).1.conns 0).delivered ≡ record request { request_id = 1 } ∷ []
unfolding connect lookup insert route_request begin_route register hand_over
handed_first = refl

handed_second : (asked.conns 1).delivered ≡ record back { request_id = 2 } ∷ []
unfolding connect lookup insert route_request begin_route register hand_over
handed_second = refl

routed-answered_example :
    let f1 = (route_request true request pair).0 in
    let f2 = (route_request true back (route_request true request pair).1).0 in
    let g3 = process_response answer asked in
    let g4 = process_response response g3 in
    (record request { request_id = 1 } ≡ with_id request 1)
    × (record back { request_id = 2 } ≡ with_id back 2)
    × (◌≢◌ {A = ℕ} 1 2)
    × (await false (asked.futs f1) ≡ blocked)
    × (await false (asked.futs f2) ≡ blocked)
    × (await false (g3.futs f1) ≡ blocked)
    × (await false (g3.futs f2) ≡ returns (some answer) none)
    × (await false (g4.futs f1) ≡ returns (some response) none)
    × (await false (g4.futs f2) ≡ returns (some answer) none)
routed-answered_example =
    routed-answered request back pair 0 1 (record request { request_id = 1 })
      (record back { request_id = 2 }) [] [] response answer pair-first pair-second handed_first
      handed_second refl refl refl refl

started : lookup (pos 1) (run (init group) (connects (pos 1) ∷ [])).group.connectors ≡ some 0
unfolding run step connect lookup insert
started = refl

started_node : ((run (init group) (connects (pos 1) ∷ [])).group.conns 0).node_num ≡ pos 1
unfolding run step connect lookup insert
started_node = refl

routed-departed_example :
    let (f, g) = route_request true request (run (init group) (connects (pos 1) ∷ [])).group in
    let lost = returns none (some (disconnected (pos 1))) in
    let gone = disconnect 0 g in
    let again = (connect (pos 1) g).1 in
    (await false (gone.futs f) ≡ lost)
    × (await false ((process_response response gone).futs f) ≡ lost)
    × (await false (again.futs f) ≡ lost)
    × (await false ((process_response response again).futs f) ≡ lost)
routed-departed_example =
    routed-departed group (connects (pos 1) ∷ []) request 0 response started started_node

disconnect_current_example :
    let n = (waiting.conns 0).node_num in
    let g' = disconnect 0 waiting in
    ((j : ℤ) → lookup j g'.connectors ≡ (if n == j then none else lookup j waiting.connectors))
    × All (Cleared n waiting.futs g'.futs) waiting.futures
disconnect_current_example =
    disconnect_current 0 waiting (λ f. Flight.returned) waiting-Pending
      (rw waiting-node waiting-current)

connect_again_example :
    let (c, g') = connect (pos 1) waiting in
    ((j : ℤ)
      → lookup j g'.connectors ≡ (if pos 1 == j then some c else lookup j waiting.connectors))
    × ((q : ℕ)
        → g'.conns q ≡ (
            if q == c
            then new_connector (pos 1)
            else if q == 0
            then record (cancel (waiting.conns 0)) { evicted = true }
            else waiting.conns q))
    × All (Cleared (pos 1) waiting.futs g'.futs) waiting.futures
    × ((q : ℕ) → Absent q waiting.futures → g'.futs q ≡ waiting.futs q)
connect_again_example =
    connect_again (pos 1) waiting (λ f. Flight.returned) 0 waiting-Pending waiting-current
      waiting-node

-- The node has taken the request, and the call is not back in the mutex yet.
abbrev taken : System
taken = run (init group) (connects (pos 1) ∷ begins request ∷ takes 0 ∷ [])

taken-registering : taken.flights 0 ≡ registering 1
unfolding run step connect lookup insert begin_route hand_over
taken-registering = refl

taken-free : lookup 1 taken.group.futures ≡ none
unfolding run step connect lookup insert begin_route hand_over
taken-free = refl

taken-current : lookup (taken.group.conns 0).node_num taken.group.connectors ≡ some 0
unfolding run step connect lookup insert begin_route hand_over
taken-current = refl

taken-Absent : Absent 0 taken.group.futures
unfolding run step connect lookup insert begin_route hand_over
taken-Absent = tt

response_before_register_example :
    let early = step (step taken (receives response)) (registers 0) in
    let late = step (step taken (registers 0)) (receives response) in
    (early.group.futs 0 ≡ taken.group.futs 0)
    × (lookup 1 early.group.futures ≡ some 0)
    × ((late.group.futs 0).resp ≡ some response)
    × (lookup 1 late.group.futures ≡ none)
response_before_register_example =
    response_before_register taken 0 response taken-registering taken-free refl

disconnect_before_register_example :
    let s' = step (step taken (disconnects 0)) (registers 0) in
    (lookup (taken.group.conns 0).node_num s'.group.connectors ≡ none)
    × (lookup 1 s'.group.futures ≡ some 0)
    × (s'.group.futs 0 ≡ taken.group.futs 0)
disconnect_before_register_example =
    disconnect_before_register taken 0 1 0 taken-registering taken-current taken-Absent

abbrev router : Router
router = (router_connect group (pos 1) new_router).1
