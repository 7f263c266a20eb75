-- ===== src/Routing.antt =====
-- connect/hub/routing.go: connectors, connectivity groups, future responses. Pointers are numbers
-- into the group's heap of connectors and futures. Each function below is one critical section of
-- the group's mutex, or one channel operation; Routing/System.antt interleaves them.
pub mod System
pub mod Clear
pub mod NoPanic
pub mod Requests
pub mod Routed
pub mod Answers
pub mod Departed
pub mod Races
pub mod Router
mod Tests
use wispers_hub.Base.{
  ℕ, suc, ◌+◌, ◌%◌, ◌^◌, Bool, true, false, Option, none, some, List, [], ◌∷◌, Bytes, eqb,
  if◌then◌else◌, ◌==◌, nat_eq,
}
use wispers_hub.Base.Int.{ℤ, int_eq}
use wispers_hub.Base.Assoc.{lookup, insert, delete}
use wispers_hub.Grpc.{Error, status, unavailable, number}
use wispers_hub.Proto.{ServingRequest, ServingResponse, ResponseKind, check_in}

-- `delivered` is what the send loop has taken from the out channel.
pub record Connector : Type 0 where
  pub node_num : ℤ
  pub cancelled : Bool
  pub evicted : Bool
  pub delivered : List ServingRequest

-- `closes` counts the closings of the done channel: a second one panics.
pub record FutureResponse : Type 0 where
  pub node_num : ℤ
  pub resp : Option ServingResponse
  pub err : Option Error
  pub closes : ℕ

-- `conns` and `futs` are the heap, `next_conn` and `next_fut` its unused pointers.
pub record ConnectivityGroup : Type 0 where
  pub id : Bytes
  pub connectors : List (ℤ × ℕ)
  pub msg_counter : ℕ
  pub futures : List (ℕ × ℕ)
  pub conns : ℕ → Connector
  pub next_conn : ℕ
  pub futs : ℕ → FutureResponse
  pub next_fut : ℕ

-- A write through a pointer.
abbrev pub write : {A : Type 0} → (ℕ → A) → ℕ → A → ℕ → A
write h p a q = if eqb q p then a else h q

abbrev pub new_connector : ℤ → Connector
new_connector n = record { node_num = n; cancelled = false; evicted = false; delivered = [] }

abbrev pub new_future : ℤ → FutureResponse
new_future n = record { node_num = n; resp = none; err = none; closes = 0 }

abbrev pub new_group : Bytes → ConnectivityGroup
new_group id = record {
  id = id;
  connectors = [];
  msg_counter = 0;
  futures = [];
  conns = λ p. new_connector (ℤ.pos 0);
  next_conn = 0;
  futs = λ p. new_future (ℤ.pos 0);
  next_fut = 0;
}

abbrev pub resolve : ServingResponse → FutureResponse → FutureResponse
resolve r f = record f { resp = some r; closes = suc f.closes }

abbrev pub fail : Error → FutureResponse → FutureResponse
fail e f = record f { err = some e; closes = suc f.closes }

abbrev pub cancel : Connector → Connector
cancel c = record c { cancelled = true }

abbrev pub disconnected : ℤ → Error
disconnected n = status unavailable "node %d disconnected" (number n ∷ [])

-- clearFutures: the entries that stay, and the heap with the others failed.
pub kept : ℤ → (ℕ → FutureResponse) → List (ℕ × ℕ) → List (ℕ × ℕ)
kept n h [] = []
kept n h ((id, p) ∷ m) = if (h p).node_num == n then kept n h m else (id, p) ∷ kept n h m

pub failed : ℤ → (ℕ → FutureResponse) → List (ℕ × ℕ) → ℕ → FutureResponse
failed n h [] = h
failed n h ((id, p) ∷ m) =
    if (h p).node_num == n
    then write (failed n h m) p (fail (disconnected n) (failed n h m p))
    else failed n h m

unfoldable pub clear_futures : ℤ → ConnectivityGroup → ConnectivityGroup
clear_futures n g = record g { futures = kept n g.futs g.futures; futs = failed n g.futs g.futures }

abbrev pub evict : ConnectivityGroup → ℕ → ConnectivityGroup
evict g p =
    let g' = clear_futures (g.conns p).node_num g in
    record g' { conns = write g'.conns p (record (cancel (g'.conns p)) { evicted = true }) }

abbrev pub evict_previous : Option ℕ → ConnectivityGroup → ConnectivityGroup
evict_previous none g = g
evict_previous (some p) g = evict g p

-- connectivityGroup.connect; it returns the new connector.
unfoldable pub connect : ℤ → ConnectivityGroup → ℕ × ConnectivityGroup
connect n g =
    let c = g.next_conn in
    let g' = evict_previous (lookup n g.connectors) g in
    (
      c,
      record g' {
        connectors = insert n c g'.connectors;
        conns = write g'.conns c (new_connector n);
        next_conn = suc c;
      },
    )

-- g.connectors[c.nodeNum] == c
abbrev pub is_current : Option ℕ → ℕ → Bool
is_current none c = false
is_current (some p) c = eqb p c

unfoldable pub disconnect : ℕ → ConnectivityGroup → ConnectivityGroup
disconnect c g =
    let n = (g.conns c).node_num in
    if is_current (lookup n g.connectors) c
    then clear_futures n (record g { connectors = delete n g.connectors })
    else g

-- Connector.Close, and the end of its receive or send loop.
unfoldable pub close : ℕ → ConnectivityGroup → ConnectivityGroup
close c g = record g { conns = write g.conns c (cancel (g.conns c)) }

abbrev pub with_id : ServingRequest → ℕ → ServingRequest
with_id req id = record req { request_id = id }

-- g.msgCounter.Add(1) on an int64.
abbrev pub next_id : ConnectivityGroup → ℕ
next_id g = (g.msg_counter + 1) % 2 ^ 64

abbrev pub not_connected : ℤ → Error
not_connected n = status unavailable "node %d is not connected" (number n ∷ [])

abbrev pub found_future : Option ℕ → ℤ → FutureResponse
found_future none n = fail (not_connected n) (new_future n)
found_future (some c) n = new_future n

-- routeRequest up to the send: the request with its id, the connector if there is one, the future.
unfoldable pub begin_route :
    ServingRequest → ConnectivityGroup → ServingRequest × Option ℕ × ℕ × ConnectivityGroup
begin_route req g =
    let n = req.dest_node_number in
    let c = lookup n g.connectors in
    (
      with_id req (next_id g),
      c,
      g.next_fut,
      record g {
        msg_counter = next_id g;
        futs = write g.futs g.next_fut (found_future c n);
        next_fut = suc g.next_fut;
      },
    )

-- The two ends of Connector.send: the send loop takes the request, or the context is done.
unfoldable pub hand_over : ℕ → ServingRequest → ConnectivityGroup → ConnectivityGroup
hand_over c req g = record g {
  conns = write g.conns c (record (g.conns c) { delivered = req ∷ (g.conns c).delivered });
}

unfoldable pub refuse : ℕ → ℕ → ConnectivityGroup → ConnectivityGroup
refuse c f g = record g {
  futs = write g.futs f (fail (disconnected (g.conns c).node_num) (g.futs f));
}

-- g.futures[req.RequestId] = f
unfoldable pub register : ℕ → ℕ → ConnectivityGroup → ConnectivityGroup
register id f g = record g { futures = insert id f g.futures }

abbrev pub is_check_in_msg : ResponseKind → Bool
is_check_in_msg check_in = true
is_check_in_msg _ = false

abbrev pub resolve_found : Option ℕ → ServingResponse → ConnectivityGroup → ConnectivityGroup
resolve_found none r g = g
resolve_found (some p) r g = record g {
  futures = delete r.request_id g.futures;
  futs = write g.futs p (resolve r (g.futs p));
}

unfoldable pub process_response : ServingResponse → ConnectivityGroup → ConnectivityGroup
process_response r g =
    if is_check_in_msg r.kind then g else resolve_found (lookup r.request_id g.futures) r g

-- routeRequest with nothing in between; `taken` says which arm of the select in send is chosen.
abbrev pub send_and_register :
    Bool → Option ℕ → ℕ → ServingRequest → ConnectivityGroup → ConnectivityGroup
send_and_register taken none f req g = g
send_and_register true (some c) f req g = register req.request_id f (hand_over c req g)
send_and_register false (some c) f req g = refuse c f g

unfoldable pub route_request : Bool → ServingRequest → ConnectivityGroup → ℕ × ConnectivityGroup
route_request taken req g =
    let (req', c, f, g') = begin_route req g in (f, send_and_register taken c f req' g')
