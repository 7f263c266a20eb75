-- ===== src/Routing/Departed.antt =====
-- What a call of routeRequest in connect/hub/routing.go awaits once its node has left or come again.
use wispers_hub.Base.{
  ℕ, ◌≡◌, refl, ◌≢◌, true, false, none, some, List, [], ◌∷◌, ◌∙◌, ap, Bytes, arith, eqb_refl, ◌==◌,
  ==_iff, Bool-cases, Option-cases, inl, inr, nat_eq,
}
use wispers_hub.Base.Int.{ℤ, int_eq}
use wispers_hub.Base.Assoc.{lookup, insert}
use wispers_hub.Proto.{ServingRequest, ServingResponse}
use wispers_hub.Routing.{
  ConnectivityGroup, FutureResponse, fail, kept, failed, hand_over, register, process_response,
  route_request, is_check_in_msg, resolve_found, next_id, disconnected, disconnect, connect,
  new_future, clear_futures, evict_previous, is_current,
}
use wispers_hub.Routing.Routed.{routed, route_request-routed}
use wispers_hub.Routing.Clear.{Absent, failed-Absent, Absent-of_flight}
use wispers_hub.Routing.NoPanic.{run-IsSound, init-IsSound}
use wispers_hub.Routing.System.{Event, init, run, idle}
use wispers_hub.Routing.Router.{returns, await}

-- The entry that is put in last is failed with the others of its node.
failed-insert :
    (n : ℤ) (h : ℕ → FutureResponse) (id f : ℕ) (m : List (ℕ × ℕ))
    → Absent f m
    → (h f).node_num ≡ n
    → failed n h (insert id f m) f ≡ fail (disconnected n) (h f)
unfolding failed insert
failed-insert n h id f [] a e = ground (arith, ==_iff (h f).node_num n)
failed-insert n h id f ((j, q) ∷ m) a e =
    ground
      (arith, failed-insert n h id f m a.1 e, failed-Absent n h f m a.1, ==_iff (h f).node_num n)

-- What stays in the map is of other nodes.
lookup-kept :
    (n : ℤ) (h : ℕ → FutureResponse) (id p : ℕ) (m : List (ℕ × ℕ))
    → lookup id (kept n h m) ≡ some p
    → (h p).node_num ≢ n
unfolding lookup kept
lookup-kept n h id p [] e = cc
lookup-kept n h id p ((j, q) ∷ m) e = elim (Bool-cases ((h q).node_num == n)) [
  | inl gone ↦ lookup-kept n h id p m (rw gone at e)
  | inr stays ↦ elim (Bool-cases (j == id)) [
    | inl here ↦
        let same : q ≡ p = cc (rw (stays, here) at e) in
        λ k. ground (arith, ==_iff (h q).node_num n)
    | inr there ↦ lookup-kept n h id p m (rw (stays, there) at e)
  ]
]

-- A response leaves a future alone that the cleared map has no entry for.
process_response-kept :
    (r : ServingResponse) (g : ConnectivityGroup) (n : ℤ) (h : ℕ → FutureResponse) (f : ℕ)
    (m : List (ℕ × ℕ))
    → g.futures ≡ kept n h m
    → (h f).node_num ≡ n
    → (process_response r g).futs f ≡ g.futs f
unfolding process_response
process_response-kept r g n h f m left mine = elim (Bool-cases (is_check_in_msg r.kind)) [
  | inl k ↦ rw k refl
  | inr k ↦ elim (Option-cases (lookup r.request_id g.futures)) [
    | inl e ↦ rw (k, e, resolve_found) refl
    | inr (p, e) ↦
        let other = lookup-kept n h r.request_id p m (rw left at e) in
        let apart : f ≢ p = λ same. other (rw (← same) mine) in
        rw (k, e, resolve_found) (ground arith)
  ]
]

-- The future waits for its node, and is cleared with the node's entries.
abbrev Lost : ℤ → (ℕ → FutureResponse) → ℕ → ConnectivityGroup → Type 0
Lost n h f g =
    (g.futs f ≡ fail (disconnected n) (new_future n))
    × ((m : List (ℕ × ℕ)) × (g.futures ≡ kept n h m))

Lost-answered :
    (n : ℤ) (h : ℕ → FutureResponse) (f : ℕ) (g : ConnectivityGroup) (r : ServingResponse)
    → (h f).node_num ≡ n
    → Lost n h f g
    → (await false (g.futs f) ≡ returns none (some (disconnected n)))
      × (await false ((process_response r g).futs f) ≡ returns none (some (disconnected n)))
unfolding await
Lost-answered n h f g r mine (e, (m, left)) =
    (rw e refl, rw (process_response-kept r g n h f m left mine, e) refl)

module _ (req : ServingRequest) (g : ConnectivityGroup) (c : ℕ)
    (on : lookup req.dest_node_number g.connectors ≡ some c)
    (mine : (g.conns c).node_num ≡ req.dest_node_number) (fresh : Absent g.next_fut g.futures) where
  cleared :
      (n : ℤ)
      → n ≡ req.dest_node_number
      → let h = (routed req g c).futs in
        failed n h (routed req g c).futures g.next_fut
        ≡ fail (disconnected req.dest_node_number) (new_future req.dest_node_number)
  unfolding hand_over register
  cleared n e = rw e (
      failed-insert req.dest_node_number (routed req g c).futs (next_id g) g.next_fut g.futures
        fresh (rw (eqb_refl g.next_fut) refl)
      ∙ rw (eqb_refl g.next_fut) refl)

  node_of : ((routed req g c).conns c).node_num ≡ req.dest_node_number
  unfolding hand_over register
  node_of = rw (eqb_refl c) mine

  current : lookup req.dest_node_number (routed req g c).connectors ≡ some c
  unfolding hand_over register
  current = on

  Lost-disconnect :
      Lost req.dest_node_number (routed req g c).futs g.next_fut (disconnect c (routed req g c))
  unfolding disconnect clear_futures
  Lost-disconnect = rw (node_of, current, is_current, eqb_refl c) (cleared _ refl, (_, refl))

  Lost-connect :
      Lost req.dest_node_number
        (routed req g c).futs
        g.next_fut
        (connect req.dest_node_number (routed req g c)).1
  unfolding connect clear_futures
  Lost-connect = rw (current, evict_previous, node_of) (cleared _ refl, (_, refl))

  departed :
      (r : ServingResponse) (f : ℕ) (g1 : ConnectivityGroup)
      → f ≡ g.next_fut
      → g1 ≡ routed req g c
      → let lost = returns none (some (disconnected req.dest_node_number)) in
        let gone = disconnect c g1 in
        let again = (connect req.dest_node_number g1).1 in
        (await false (gone.futs f) ≡ lost)
        × (await false ((process_response r gone).futs f) ≡ lost)
        × (await false (again.futs f) ≡ lost)
        × (await false ((process_response r again).futs f) ≡ lost)
  unfolding hand_over register
  departed r f g1 ef eg =
      let n = req.dest_node_number in
      let h = (routed req g c).futs in
      let own : (h g.next_fut).node_num ≡ n = rw (eqb_refl g.next_fut) refl in
      let (now, late) =
        Lost-answered n h g.next_fut (disconnect c (routed req g c)) r own Lost-disconnect in
      let (now', late') =
        Lost-answered n h g.next_fut (connect n (routed req g c)).1 r own Lost-connect in
      rw (eg, ef) (now, late, now', late')

-- In every state that a group can reach: a request to a node that is connected, on a connector of its
-- number, which the node has taken and which is registered, ends for a caller whose own context lasts
-- with Unavailable, naming the node, once the node's connection ends or the node connects again, and a
-- response that comes after that, whatever it answers, does not change it.
pub routed-departed :
    (id : Bytes) (es : List Event) (req : ServingRequest) (c : ℕ) (r : ServingResponse)
    → lookup req.dest_node_number (run (init id) es).group.connectors ≡ some c
    → ((run (init id) es).group.conns c).node_num ≡ req.dest_node_number
    → let (f, g) = route_request true req (run (init id) es).group in
      let lost = returns none (some (disconnected req.dest_node_number)) in
      let gone = disconnect c g in
      let again = (connect req.dest_node_number g).1 in
      (await false (gone.futs f) ≡ lost)
      × (await false ((process_response r gone).futs f) ≡ lost)
      × (await false (again.futs f) ≡ lost)
      × (await false ((process_response r again).futs f) ≡ lost)
routed-departed id es req c r on mine =
    let s = run (init id) es in
    let sound = run-IsSound (init id) es (init-IsSound id) in
    let unused : s.flights s.group.next_fut ≡ idle = sound.unused s.group.next_fut (omega arith) in
    let fresh =
      Absent-of_flight s.group.futs s.flights s.group.next_fut s.group.futures sound.pending
        (λ k. cc) in
    let routing = route_request-routed req s.group c on in
    departed req s.group c on mine fresh r _ _ (ap (λ (p : ℕ × ConnectivityGroup). p.0) routing)
      (ap (λ (p : ℕ × ConnectivityGroup). p.1) routing)
