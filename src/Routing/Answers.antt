-- ===== src/Routing/Answers.antt =====
-- What the calls of routeRequest in connect/hub/routing.go come to await: the answer of their node.
use wispers_hub.Base.{
  ℕ, ◌+◌, ◌%◌, ◌^◌, ◌≡◌, refl, ◌≢◌, true, false, none, some, List, ◌∷◌, ◌∙◌, ap, sym, arith, nat_eq,
}
use wispers_hub.Base.Int.{int_eq}
use wispers_hub.Base.Assoc.{lookup}
use wispers_hub.Proto.{ServingRequest, ServingResponse}
use wispers_hub.Routing.{
  ConnectivityGroup, FutureResponse, resolve, hand_over, register, process_response, route_request,
  is_check_in_msg, next_id, with_id,
}
use wispers_hub.Routing.Requests.{process_response_resolves}
use wispers_hub.Routing.Router.{blocked, returns, await}
use wispers_hub.Routing.Routed.{routed, route_request-routed, handed_over, lookup-routed}

two_ids : (k : ℕ) → (k + 1) % 2 ^ 64 ≢ k
two_ids k = omega arith

await_resolved :
    (r : ServingResponse) (f : FutureResponse)
    → f.err ≡ none
    → await false (resolve r f) ≡ returns (some r) none
unfolding await
await_resolved r f e = ground (arith, e)

-- Two registered futures, and the responses to both, the second one first.
two_answered :
    (g : ConnectivityGroup) (i j p q : ℕ) (r s : ServingResponse)
    → i ≢ j
    → p ≢ q
    → lookup i g.futures ≡ some p
    → lookup j g.futures ≡ some q
    → (g.futs p).err ≡ none
    → (g.futs q).err ≡ none
    → (g.futs p).closes ≡ 0
    → is_check_in_msg r.kind ≡ false
    → is_check_in_msg s.kind ≡ false
    → r.request_id ≡ i
    → s.request_id ≡ j
    → let g' = process_response s g in
      let g'' = process_response r g' in
      (await false (g'.futs p) ≡ blocked)
      × (await false (g'.futs q) ≡ returns (some s) none)
      × (await false (g''.futs p) ≡ returns (some r) none)
      × (await false (g''.futs q) ≡ returns (some s) none)
unfolding await
two_answered g i j p q r s ij pq at_i at_j ep eq op kr ks ri sj =
    let (futs1, map1) = process_response_resolves s g q ks (rw sj at_j) in
    let found : lookup r.request_id (process_response s g).futures ≡ some p =
      ground (arith, map1 r.request_id) in
    let (futs2, map2) = process_response_resolves r (process_response s g) p kr found in
    let first_q : (process_response s g).futs q ≡ resolve s (g.futs q) = ground (arith, futs1 q) in
    let first_p : (process_response s g).futs p ≡ g.futs p = ground (arith, futs1 p) in
    let last_p : (process_response r (process_response s g)).futs p ≡ resolve r (g.futs p) =
      ground (arith, futs2 p) in
    let last_q : (process_response r (process_response s g)).futs q ≡ resolve s (g.futs q) =
      ground (arith, futs2 q) in
    (
      rw (first_p, op) refl,
      rw first_q (await_resolved s (g.futs q) eq),
      rw last_p (await_resolved r (g.futs p) ep),
      rw last_q (await_resolved s (g.futs q) eq),
    )

module _ (req1 req2 : ServingRequest) (g : ConnectivityGroup) (c1 c2 : ℕ) where
  abbrev once : ConnectivityGroup
  once = routed req1 g c1

  abbrev twice : ConnectivityGroup
  twice = routed req2 once c2

  both_answered :
      (a b : ServingRequest) (r1 r2 : ServingResponse)
      → with_id req1 (next_id g) ≡ a
      → with_id req2 (next_id once) ≡ b
      → is_check_in_msg r1.kind ≡ false
      → is_check_in_msg r2.kind ≡ false
      → r1.request_id ≡ a.request_id
      → r2.request_id ≡ b.request_id
      → let g3 = process_response r2 twice in
        let g4 = process_response r1 g3 in
        (a ≡ with_id req1 a.request_id)
        × (b ≡ with_id req2 b.request_id)
        × (a.request_id ≢ b.request_id)
        × (await false (twice.futs g.next_fut) ≡ blocked)
        × (await false (twice.futs once.next_fut) ≡ blocked)
        × (await false (g3.futs g.next_fut) ≡ blocked)
        × (await false (g3.futs once.next_fut) ≡ returns (some r2) none)
        × (await false (g4.futs g.next_fut) ≡ returns (some r1) none)
        × (await false (g4.futs once.next_fut) ≡ returns (some r2) none)
  unfolding hand_over register await
  both_answered a b r1 r2 sent1 sent2 k1 k2 id1 id2 =
      let a_id : next_id g ≡ a.request_id = ap (λ (r : ServingRequest). r.request_id) sent1 in
      let b_id : next_id once ≡ b.request_id = ap (λ (r : ServingRequest). r.request_id) sent2 in
      let other : next_id g ≢ next_id once = λ same. two_ids (next_id g) (sym same) in
      let at1 : lookup (next_id g) twice.futures ≡ some g.next_fut =
        ground
          (arith, lookup-routed req2 once c2 (next_id g), lookup-routed req1 g c1 (next_id g)) in
      let at2 : lookup (next_id once) twice.futures ≡ some once.next_fut =
        ground (arith, lookup-routed req2 once c2 (next_id once)) in
      let apart : g.next_fut ≢ once.next_fut = omega arith in
      let (waits, second, first_last, second_last) =
        two_answered twice (next_id g) (next_id once) g.next_fut once.next_fut r1 r2 other apart at1
          at2 (ground arith) (ground arith) (ground arith) k1 k2 (id1 ∙ sym a_id)
          (id2 ∙ sym b_id) in
      (
        cc,
        cc,
        λ same. other (a_id ∙ same ∙ sym b_id),
        ground arith,
        ground arith,
        waits,
        second,
        first_last,
        second_last,
      )

  reached :
      (a b : ServingRequest) (r1 r2 : ServingResponse) (f1 f2 : ℕ) (g2 : ConnectivityGroup)
      → f1 ≡ g.next_fut
      → f2 ≡ once.next_fut
      → g2 ≡ twice
      → with_id req1 (next_id g) ≡ a
      → with_id req2 (next_id once) ≡ b
      → is_check_in_msg r1.kind ≡ false
      → is_check_in_msg r2.kind ≡ false
      → r1.request_id ≡ a.request_id
      → r2.request_id ≡ b.request_id
      → let g3 = process_response r2 g2 in
        let g4 = process_response r1 g3 in
        (a ≡ with_id req1 a.request_id)
        × (b ≡ with_id req2 b.request_id)
        × (a.request_id ≢ b.request_id)
        × (await false (g2.futs f1) ≡ blocked)
        × (await false (g2.futs f2) ≡ blocked)
        × (await false (g3.futs f1) ≡ blocked)
        × (await false (g3.futs f2) ≡ returns (some r2) none)
        × (await false (g4.futs f1) ≡ returns (some r1) none)
        × (await false (g4.futs f2) ≡ returns (some r2) none)
  reached a b r1 r2 f1 f2 g2 e1 e2 e3 sent1 sent2 k1 k2 id1 id2 =
      rw (e3, e1, e2) (both_answered a b r1 r2 sent1 sent2 k1 k2 id1 id2)

module _ (req1 req2 : ServingRequest) (g : ConnectivityGroup) where
  abbrev f1 : ℕ
  f1 = (route_request true req1 g).0

  abbrev g1 : ConnectivityGroup
  g1 = (route_request true req1 g).1

  abbrev f2 : ℕ
  f2 = (route_request true req2 g1).0

  abbrev pub g2 : ConnectivityGroup
  g2 = (route_request true req2 g1).1

  -- Two requests are routed, one after the other, to nodes that are connected and take them. Each node
  -- is handed its caller's request, under an id of its own. While their own contexts last, neither call
  -- returns before an answer; the second node's response, which comes first, goes to the second call
  -- alone, and then the first node's response to the first call.
  pub routed-answered :
      (c1 c2 : ℕ) (a b : ServingRequest) (before1 before2 : List ServingRequest)
      (r1 r2 : ServingResponse)
      → lookup req1.dest_node_number g.connectors ≡ some c1
      → lookup req2.dest_node_number g.connectors ≡ some c2
      → (g1.conns c1).delivered ≡ a ∷ before1
      → (g2.conns c2).delivered ≡ b ∷ before2
      → is_check_in_msg r1.kind ≡ false
      → is_check_in_msg r2.kind ≡ false
      → r1.request_id ≡ a.request_id
      → r2.request_id ≡ b.request_id
      → let g3 = process_response r2 g2 in
        let g4 = process_response r1 g3 in
        (a ≡ with_id req1 a.request_id)
        × (b ≡ with_id req2 b.request_id)
        × (a.request_id ≢ b.request_id)
        × (await false (g2.futs f1) ≡ blocked)
        × (await false (g2.futs f2) ≡ blocked)
        × (await false (g3.futs f1) ≡ blocked)
        × (await false (g3.futs f2) ≡ returns (some r2) none)
        × (await false (g4.futs f1) ≡ returns (some r1) none)
        × (await false (g4.futs f2) ≡ returns (some r2) none)
  routed-answered c1 c2 a b before1 before2 r1 r2 on1 on2 got1 got2 k1 k2 id1 id2 =
      let step1 = route_request-routed req1 g c1 on1 in
      let step2 =
        route_request-routed req2 (routed req1 g c1) c2 (unfold hand_over register in on2) in
      let both = ap (λ (p : ℕ × ConnectivityGroup). route_request true req2 p.1) step1 ∙ step2 in
      let at1 = ap (λ (p : ℕ × ConnectivityGroup). (p.1.conns c1).delivered) step1 in
      let at2 = ap (λ (p : ℕ × ConnectivityGroup). (p.1.conns c2).delivered) both in
      let sent1 = handed_over req1 a g c1 before1 (sym at1 ∙ got1) in
      let sent2 = handed_over req2 b (routed req1 g c1) c2 before2 (sym at2 ∙ got2) in
      reached req1 req2 g c1 c2 a b r1 r2 f1 f2 g2 (ap (λ (p : ℕ × ConnectivityGroup). p.0) step1)
        (ap (λ (p : ℕ × ConnectivityGroup). p.0) both)
        (ap (λ (p : ℕ × ConnectivityGroup). p.1) both) sent1 sent2 k1 k2 id1 id2
