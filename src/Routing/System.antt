-- ===== src/Routing/System.antt =====
-- The goroutines of connect/hub/routing.go around one connectivity group, interleaved. A call of
-- routeRequest takes the mutex twice and blocks in send between the two, so other calls, responses
-- and disconnections may come between; its local state is kept under the pointer of its future.
use wispers_hub.Base.{ℕ, Option, none, some, List, [], ◌∷◌, Bytes, if◌then◌else◌}
use wispers_hub.Base.Int.{ℤ}
use wispers_hub.Proto.{ServingRequest, ServingResponse}
use wispers_hub.Routing.{
  ConnectivityGroup, new_group, connect, disconnect, close, begin_route, hand_over, refuse,
  register, process_response, write,
}

-- Where a call of routeRequest stands: not begun, in send, before its second critical section, or
-- returned.
pub data Flight : Type 0 where
  idle : Flight
  sending : ServingRequest → ℕ → Flight
  registering : ℕ → Flight
  returned : Flight

pub record System : Type 0 where
  pub group : ConnectivityGroup
  pub flights : ℕ → Flight

pub data Event : Type 0 where
  connects : ℤ → Event
  disconnects : ℕ → Event
  closes : ℕ → Event
  begins : ServingRequest → Event
  takes : ℕ → Event
  refuses : ℕ → Event
  registers : ℕ → Event
  receives : ServingResponse → Event

abbrev pub init : Bytes → System
init id = record { group = new_group id; flights = λ f. idle }

abbrev pub first_flight : ServingRequest → Option ℕ → Flight
first_flight req none = returned
first_flight req (some c) = sending req c

abbrev pub begin : ServingRequest × Option ℕ × ℕ × ConnectivityGroup → (ℕ → Flight) → System
begin (req, c, f, g) fl = record { group = g; flights = write fl f (first_flight req c) }

-- The send loop takes a request from a call that waits in send.
abbrev pub take : Flight → ℕ → System → System
take (sending req c) f s = record {
  group = hand_over c req s.group;
  flights = write s.flights f (registering req.request_id);
}
take _ f s = s

-- A call gives up in send once the connector's context is done.
abbrev pub give_up : Flight → ℕ → System → System
give_up (sending req c) f s =
    if (s.group.conns c).cancelled
    then record { group = refuse c f s.group; flights = write s.flights f returned }
    else s
give_up _ f s = s

abbrev pub finish : Flight → ℕ → System → System
finish (registering id) f s = record {
  group = register id f s.group;
  flights = write s.flights f returned;
}
finish _ f s = s

-- An event that is not possible in the state changes nothing.
unfoldable pub step : System → Event → System
step s (connects n) = record s { group = (connect n s.group).1 }
step s (disconnects c) = record s { group = disconnect c s.group }
step s (closes c) = record s { group = close c s.group }
step s (begins req) = begin (begin_route req s.group) s.flights
step s (takes f) = take (s.flights f) f s
step s (refuses f) = give_up (s.flights f) f s
step s (registers f) = finish (s.flights f) f s
step s (receives r) = record s { group = process_response r s.group }

unfoldable pub run : System → List Event → System
run s [] = s
run s (e ∷ es) = run (step s e) es
