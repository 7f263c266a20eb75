-- ===== src/Routing/Requests.antt =====
-- What one request, one response, one connection and one disconnection of connect/hub/routing.go do
-- to a connectivity group.
use wispers_hub.Base.{
  ℕ, ◌⊎◌, All, ◌≡◌, refl, ◌≢◌, Bool, true, false, none, some, List, [], ◌∷◌, arith, if◌then◌else◌,
  ◌==◌, ==_iff, eqb_refl, Bool-cases, Option-cases, inl, inr, nat_eq,
}
use wispers_hub.Base.Int.{ℤ, int_eq}
use wispers_hub.Base.Assoc.{lookup, lookup-insert, lookup-delete}
use wispers_hub.Proto.{ServingRequest, ServingResponse}
use wispers_hub.Routing.{
  ConnectivityGroup, FutureResponse, write, fail, resolve, failed, clear_futures, connect,
  disconnect, begin_route, process_response, route_request, evict_previous, new_connector,
  is_check_in_msg, resolve_found, is_current, disconnected, not_connected, cancel,
  send_and_register,
}
use wispers_hub.Routing.Clear.{Pending, Absent, failed-Absent}
use wispers_hub.Routing.System.{Flight}

-- A request to a node that is not connected fails at once with Unavailable, closes its future, and
-- delivers and registers nothing.
route_unconnected :
    (taken : Bool) (req : ServingRequest) (g : ConnectivityGroup)
    → lookup req.dest_node_number g.connectors ≡ none
    → let (f, g') = route_request taken req g in
      ((g'.futs f).err ≡ some (not_connected req.dest_node_number))
      × ((g'.futs f).closes ≡ 1)
      × (g'.futures ≡ g.futures)
      × (g'.conns ≡ g.conns)
unfolding route_request begin_route
route_unconnected taken req g e = rw (e, send_and_register) (ground arith, ground arith, refl, refl)

-- A proper response to a registered request id resolves the future registered there, closes its
-- channel and touches no other future; that registration ends and the others stay.
pub process_response_resolves :
    (r : ServingResponse) (g : ConnectivityGroup) (p : ℕ)
    → is_check_in_msg r.kind ≡ false
    → lookup r.request_id g.futures ≡ some p
    → let g' = process_response r g in
      ((q : ℕ) → g'.futs q ≡ (if q == p then resolve r (g.futs p) else g.futs q))
      × ((id : ℕ)
          → lookup id g'.futures ≡ (if r.request_id == id then none else lookup id g.futures))
unfolding process_response
process_response_resolves r g p c e =
    rw (c, e, resolve_found) (λ q. refl, λ id. lookup-delete r.request_id id g.futures)

-- A response to a request id that is not registered, and a check-in, change nothing.
process_response_ignored :
    (r : ServingResponse) (g : ConnectivityGroup)
    → (is_check_in_msg r.kind ≡ true) ⊎ (lookup r.request_id g.futures ≡ none)
    → process_response r g ≡ g
unfolding process_response
process_response_ignored r g (inl e) = rw e
process_response_ignored r g (inr e) = elim (Bool-cases (is_check_in_msg r.kind)) [
  | inl k ↦ rw k
  | inr k ↦ rw (k, e, resolve_found)
]

-- What clearing the futures of node `n` does to one registered future.
abbrev pub Cleared : ℤ → (ℕ → FutureResponse) → (ℕ → FutureResponse) → ℕ × ℕ → Type 0
Cleared n h h' (id, p) =
    (((h p).node_num ≢ n) × (h' p ≡ h p))
    ⊎ (((h p).node_num ≡ n) × (h' p ≡ fail (disconnected n) (h p)))

Cleared-write :
    (n : ℤ) (h h' : ℕ → FutureResponse) (q : ℕ) (x : FutureResponse) (m : List (ℕ × ℕ))
    → Absent q m
    → All (Cleared n h h') m
    → All (Cleared n h (write h' q x)) m
Cleared-write n h h' q x [] a w = tt
Cleared-write n h h' q x ((id, p) ∷ m) a w =
    (ground (arith, w.0), Cleared-write n h h' q x m a.1 w.1)

Cleared-if :
    (n : ℤ) (h h' : ℕ → FutureResponse) (q : ℕ) (x : FutureResponse) (b : Bool) (m : List (ℕ × ℕ))
    → Absent q m
    → All (Cleared n h h') m
    → All (Cleared n h (if b then write h' q x else h')) m
Cleared-if n h h' q x true m a w = Cleared-write n h h' q x m a w
Cleared-if n h h' q x false m a w = w

failed-Cleared :
    (n : ℤ) (h : ℕ → FutureResponse) (fl : ℕ → Flight) (m : List (ℕ × ℕ))
    → Pending h fl m
    → All (Cleared n h (failed n h m)) m
unfolding failed
failed-Cleared n h fl [] w = tt
failed-Cleared n h fl ((id, q) ∷ m) w =
    let rest = failed-Cleared n h fl m w.3 in
    (
      ground (arith, failed-Absent n h q m w.2, ==_iff (h q).node_num n),
      Cleared-if n h (failed n h m) q _ ((h q).node_num == n) m w.2 rest,
    )

-- A connection of the node's current connector ends: the node is no longer connected, other nodes
-- stay, every registered future of the node fails with Unavailable and every other one is untouched.
pub disconnect_current :
    (c : ℕ) (g : ConnectivityGroup) (fl : ℕ → Flight)
    → Pending g.futs fl g.futures
    → lookup (g.conns c).node_num g.connectors ≡ some c
    → let n = (g.conns c).node_num in
      let g' = disconnect c g in
      ((j : ℤ) → lookup j g'.connectors ≡ (if n == j then none else lookup j g.connectors))
      × All (Cleared n g.futs g'.futs) g.futures
unfolding disconnect clear_futures
disconnect_current c g fl w e =
    rw (e, is_current, eqb_refl c)
      (
        λ j. lookup-delete (g.conns c).node_num j g.connectors,
        failed-Cleared (g.conns c).node_num g.futs fl g.futures w,
      )

-- The end of a connection that a newer one of the node has replaced changes nothing.
disconnect_stale :
    (c p : ℕ) (g : ConnectivityGroup)
    → lookup (g.conns c).node_num g.connectors ≡ some p
    → p ≢ c
    → disconnect c g ≡ g
unfolding disconnect
disconnect_stale c p g e k = rw (e, is_current) (ground arith)

-- A node that connects again: the new connector takes the node's place and is open, the previous one
-- is cancelled and marked evicted, the registered futures of the node fail with Unavailable, and
-- other nodes and connectors, the registered futures of other nodes and every future that is not
-- registered, in flight or answered, are untouched.
pub connect_again :
    (n : ℤ) (g : ConnectivityGroup) (fl : ℕ → Flight) (p : ℕ)
    → Pending g.futs fl g.futures
    → lookup n g.connectors ≡ some p
    → (g.conns p).node_num ≡ n
    → let (c, g') = connect n g in
      ((j : ℤ) → lookup j g'.connectors ≡ (if n == j then some c else lookup j g.connectors))
      × ((q : ℕ)
          → g'.conns q ≡ (
              if q == c
              then new_connector n
              else if q == p
              then record (cancel (g.conns p)) { evicted = true }
              else g.conns q))
      × All (Cleared n g.futs g'.futs) g.futures
      × ((q : ℕ) → Absent q g.futures → g'.futs q ≡ g.futs q)
unfolding connect clear_futures
connect_again n g fl p w e k =
    rw (e, evict_previous)
      (
        λ j. lookup-insert n j g.next_conn g.connectors,
        λ q. refl,
        rw k (failed-Cleared n g.futs fl g.futures w),
        λ q a. failed-Absent (g.conns p).node_num g.futs q g.futures a,
      )

pub lookup-connect :
    (n j : ℤ) (g : ConnectivityGroup)
    → lookup j (connect n g).1.connectors
      ≡ (if n == j then some (connect n g).0 else lookup j g.connectors)
unfolding connect clear_futures
lookup-connect n j g = elim (Option-cases (lookup n g.connectors)) [
  | inl e ↦ rw (e, evict_previous) (lookup-insert n j g.next_conn g.connectors)
  | inr (p, e) ↦ rw (e, evict_previous) (lookup-insert n j g.next_conn g.connectors)
]
