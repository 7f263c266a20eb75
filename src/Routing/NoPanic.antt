-- ===== src/Routing/NoPanic.antt =====
-- No interleaving of connect/hub/routing.go closes the done channel of a future twice.
use wispers_hub.Base.{
  ℕ, suc, ◌≤◌, ◌≡◌, refl, ◌≢◌, Option, none, some, List, [], ◌∷◌, Bytes, arith, Bool-cases,
  Option-cases, inl, inr, nat_eq,
}
use wispers_hub.Base.Int.{ℤ, int_eq}
use wispers_hub.Base.Assoc.{lookup, insert, delete}
use wispers_hub.Grpc.{Error}
use wispers_hub.Proto.{ServingRequest, ServingResponse}
use wispers_hub.Routing.{
  ConnectivityGroup, FutureResponse, write, fail, resolve, clear_futures, connect, disconnect,
  close, begin_route, hand_over, refuse, register, process_response, evict_previous, found_future,
  is_check_in_msg, is_current,
}
use wispers_hub.Routing.System.{
  System, Flight, Event, idle, sending, registering, returned, connects, disconnects, closes,
  begins, takes, refuses, registers, receives, init, step, run, take, give_up, finish, first_flight,
}
use wispers_hub.Routing.Clear.{
  Pending, NoPanic, failed-Absent, failed-NoPanic, kept-Pending, write-Pending,
  write_flight-Pending, Absent-of_flight, delete-Pending, lookup-Pending, insert-Pending,
}

-- Every entry of the map is pending; a future whose call has not returned is open; no channel is
-- closed twice; pointers from `next` on are not in use.
pub record Sound (h : ℕ → FutureResponse) (fl : ℕ → Flight) (m : List (ℕ × ℕ)) (next : ℕ)
    : Type 0 where
  pub pending : Pending h fl m
  pub opened : (f : ℕ) → fl f ≢ returned → (h f).closes ≡ 0
  no_panic : NoPanic h
  pub unused : (f : ℕ) → next ≤ f → fl f ≡ idle

abbrev pub GroupSound : ConnectivityGroup → (ℕ → Flight) → Type 0
GroupSound g fl = Sound g.futs fl g.futures g.next_fut

abbrev pub IsSound : System → Type 0
IsSound s = GroupSound s.group s.flights

clear-Sound :
    (n : ℤ) (g : ConnectivityGroup) (fl : ℕ → Flight)
    → GroupSound g fl
    → GroupSound (clear_futures n g) fl
unfolding clear_futures
clear-Sound n g fl v = record {
  pending = kept-Pending n g.futs fl g.futures v.pending;
  opened = λ f k.
      rw (failed-Absent n g.futs f g.futures (Absent-of_flight g.futs fl f g.futures v.pending k))
        (v.opened f k);
  no_panic = failed-NoPanic n g.futs fl g.futures v.pending v.no_panic;
  unused = v.unused;
}

connect-Sound :
    (n : ℤ) (g : ConnectivityGroup) (fl : ℕ → Flight)
    → GroupSound g fl
    → GroupSound (connect n g).1 fl
unfolding connect
connect-Sound n g fl v = elim (Option-cases (lookup n g.connectors)) [
  | inl e ↦ rw (e, evict_previous) v
  | inr (p, e) ↦ rw (e, evict_previous) (unfold clear_futures in clear-Sound _ g fl v)
]

disconnect-Sound :
    (c : ℕ) (g : ConnectivityGroup) (fl : ℕ → Flight)
    → GroupSound g fl
    → GroupSound (disconnect c g) fl
unfolding disconnect
disconnect-Sound c g fl v =
    elim (Bool-cases (is_current (lookup (g.conns c).node_num g.connectors) c)) [
      | inl e ↦ rw e (unfold clear_futures in clear-Sound (g.conns c).node_num g fl v)
      | inr e ↦ rw e v
    ]

begin-Pending :
    (x : FutureResponse) (s : Flight) (h : ℕ → FutureResponse) (fl : ℕ → Flight) (m : List (ℕ × ℕ))
    (next : ℕ)
    → Sound h fl m next
    → Pending (write h next x) (write fl next s) m
begin-Pending x s h fl m next v =
    let gone = Absent-of_flight h fl next m v.pending (ground (arith, v.unused next)) in
    write_flight-Pending (write h next x) fl next s m gone
      (write-Pending h fl next x m gone v.pending)

begin-Sound :
    (o : Option ℕ) (req : ServingRequest) (n : ℤ) (h : ℕ → FutureResponse) (fl : ℕ → Flight)
    (m : List (ℕ × ℕ)) (next : ℕ)
    → Sound h fl m next
    → Sound (write h next (found_future o n)) (write fl next (first_flight req o)) m (suc next)
begin-Sound none req n h fl m next v = record {
  pending = begin-Pending _ _ h fl m next v;
  opened = λ f k. ground (arith, v.opened f);
  no_panic = λ f. ground (arith, v.no_panic f);
  unused = λ f k. ground (arith, v.unused f);
}
begin-Sound (some c) req n h fl m next v = record {
  pending = begin-Pending _ _ h fl m next v;
  opened = λ f k. ground (arith, v.opened f);
  no_panic = λ f. ground (arith, v.no_panic f);
  unused = λ f k. ground (arith, v.unused f);
}

-- A call that returns with an open future and no entry.
return-Sound :
    (h : ℕ → FutureResponse) (fl : ℕ → Flight) (m : List (ℕ × ℕ)) (next f : ℕ) (e : Error)
    → fl f ≢ returned
    → fl f ≢ idle
    → Sound h fl m next
    → Sound (write h f (fail e (h f))) (write fl f returned) m next
return-Sound h fl m next f e k i v =
    let gone = Absent-of_flight h fl f m v.pending k in
    record {
      pending =
          write_flight-Pending (write h f (fail e (h f))) fl f returned m gone
            (write-Pending h fl f _ m gone v.pending);
      opened = λ q l. ground (arith, v.opened q);
      no_panic = λ q. ground (arith, v.no_panic q, v.opened f k);
      unused = λ q l. ground (arith, v.unused q);
    }

take-Sound :
    (h : ℕ → FutureResponse) (fl : ℕ → Flight) (m : List (ℕ × ℕ)) (next f id : ℕ)
    → fl f ≢ returned
    → fl f ≢ idle
    → Sound h fl m next
    → Sound h (write fl f (registering id)) m next
take-Sound h fl m next f id k i v = record {
  pending = write_flight-Pending h fl f _ m (Absent-of_flight h fl f m v.pending k) v.pending;
  opened = λ q l. ground (arith, v.opened q, v.opened f k);
  no_panic = v.no_panic;
  unused = λ q l. ground (arith, v.unused q);
}

finish-Sound :
    (h : ℕ → FutureResponse) (fl : ℕ → Flight) (m : List (ℕ × ℕ)) (next f id : ℕ)
    → fl f ≢ returned
    → fl f ≢ idle
    → Sound h fl m next
    → Sound h (write fl f returned) (insert id f m) next
finish-Sound h fl m next f id k i v =
    let gone = Absent-of_flight h fl f m v.pending k in
    record {
      pending =
          insert-Pending h (write fl f returned) id f m (v.opened f k) (ground arith) gone
            (write_flight-Pending h fl f returned m gone v.pending);
      opened = λ q l. ground (arith, v.opened q);
      no_panic = v.no_panic;
      unused = λ q l. ground (arith, v.unused q);
    }

resolve-Sound :
    (h : ℕ → FutureResponse) (fl : ℕ → Flight) (m : List (ℕ × ℕ)) (next p : ℕ) (r : ServingResponse)
    → lookup r.request_id m ≡ some p
    → Sound h fl m next
    → Sound (write h p (resolve r (h p))) fl (delete r.request_id m) next
resolve-Sound h fl m next p r e v =
    let (free, gone, back) = lookup-Pending h fl r.request_id p m v.pending e in
    record {
      pending = write-Pending h fl p _ _ gone (delete-Pending h fl r.request_id m v.pending);
      opened = λ q l. ground (arith, v.opened q l, back);
      no_panic = λ q. ground (arith, v.no_panic q);
      unused = v.unused;
    }

take_step : (t : Flight) (f : ℕ) (s : System) → s.flights f ≡ t → IsSound s → IsSound (take t f s)
unfolding hand_over
take_step idle f s e v = v
take_step (sending req c) f s e v = take-Sound _ _ _ _ f req.request_id (λ x. cc) (λ x. cc) v
take_step (registering id) f s e v = v
take_step returned f s e v = v

give_up_step :
    (t : Flight) (f : ℕ) (s : System) → s.flights f ≡ t → IsSound s → IsSound (give_up t f s)
unfolding refuse
give_up_step idle f s e v = v
give_up_step (sending req c) f s e v = elim (Bool-cases (s.group.conns c).cancelled) [
  | inl d ↦ rw d (return-Sound _ _ _ _ f _ (λ x. cc) (λ x. cc) v)
  | inr d ↦ rw d v
]
give_up_step (registering id) f s e v = v
give_up_step returned f s e v = v

finish_step :
    (t : Flight) (f : ℕ) (s : System) → s.flights f ≡ t → IsSound s → IsSound (finish t f s)
unfolding register
finish_step idle f s e v = v
finish_step (sending req c) f s e v = v
finish_step (registering id) f s e v = finish-Sound _ _ _ _ f id (λ x. cc) (λ x. cc) v
finish_step returned f s e v = v

response-Sound :
    (r : ServingResponse) (g : ConnectivityGroup) (fl : ℕ → Flight)
    → GroupSound g fl
    → GroupSound (process_response r g) fl
unfolding process_response
response-Sound r g fl v = elim (Bool-cases (is_check_in_msg r.kind)) [
  | inl e ↦ rw e v
  | inr e ↦ rw e (elim (Option-cases (lookup r.request_id g.futures)) [
    | inl k ↦ rw k v
    | inr (p, k) ↦ rw k (resolve-Sound _ fl _ _ p r k v)
  ])
]

-- Every event keeps the invariant.
step-IsSound : (s : System) (e : Event) → IsSound s → IsSound (step s e)
unfolding step
step-IsSound s (connects n) v = connect-Sound n s.group s.flights v
step-IsSound s (disconnects c) v = disconnect-Sound c s.group s.flights v
step-IsSound s (closes c) v = unfold close in v
step-IsSound s (begins req) v =
    unfold begin_route in
    begin-Sound (lookup req.dest_node_number s.group.connectors) _ req.dest_node_number _ _ _ _ v
step-IsSound s (takes f) v = take_step (s.flights f) f s refl v
step-IsSound s (refuses f) v = give_up_step (s.flights f) f s refl v
step-IsSound s (registers f) v = finish_step (s.flights f) f s refl v
step-IsSound s (receives r) v = response-Sound r s.group s.flights v

pub init-IsSound : (id : Bytes) → IsSound (init id)
init-IsSound id = record {
  pending = tt;
  opened = λ f k. refl;
  no_panic = λ f. omega arith;
  unused = λ f k. refl;
}

pub run-IsSound : (s : System) (es : List Event) → IsSound s → IsSound (run s es)
unfolding run
run-IsSound s [] v = v
run-IsSound s (e ∷ es) v = run-IsSound (step s e) es (step-IsSound s e v)

-- After any sequence of connections, disconnections, routed requests, responses and their
-- interleavings, no future's done channel has been closed more than once, so no close panics; and
-- every entry of the group's map points to a future of its own that is still open.
pub run-NoPanic :
    (id : Bytes) (es : List Event)
    → let s = run (init id) es in
      NoPanic s.group.futs × Pending s.group.futs s.flights s.group.futures
run-NoPanic id es = let v = run-IsSound (init id) es (init-IsSound id) in (v.no_panic, v.pending)
