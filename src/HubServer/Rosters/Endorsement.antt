-- ===== src/HubServer/Rosters/Endorsement.antt =====
-- What a getEndorserCosignature of connect/hub/hubsrv.go that replies has done.
use wispers_hub.Base.{
  ℕ, ◌≡◌, refl, sym, ap, ◌∙◌, Bool, true, false, Option, none, some, Bytes, is_empty, eqb,
  Bool-cases, inl, inr,
}
use wispers_hub.Base.Int.{ℤ, int_eq}
use wispers_hub.Grpc.{Error}
use wispers_hub.Proto.{
  Roster, Activation, ServingRequest, ServingResponse, ResponseKind, roster_cosign, cosigned,
}
use wispers_hub.Routing.{FutureResponse}
use wispers_hub.Routing.Router.{router_route_request, find_or_create_group, returns, await}
use wispers_hub.Standalone.Exec.{Result, ok, err}
use wispers_hub.HubServer.Interface.{Hub, Deps}
use wispers_hub.HubServer.Exec.{replied, pure, or_raise, route, wait, asking, awaited, or_nil}
use wispers_hub.HubServer.Exec.Inversion.{>>=-eq-replied, guard-bind}
use wispers_hub.HubServer.Handlers.{to_peer}
use wispers_hub.HubServer.Rosters.{cosignature, or_unreachable, get_endorser_cosignature}

await-eq-ok :
    (cancelled : Bool) (f : FutureResponse) (r : ServingResponse)
    → awaited (await cancelled f) ≡ replied (ok r)
    → (f.err ≡ none) × (r ≡ or_nil f.resp)
unfolding await
await-eq-ok true f r e = cc
await-eq-ok false f r e = elim (Bool-cases (eqb f.closes 0)) [
  | inl unresolved ↦ absurd (cc (rw unresolved at e))
  | inr resolved ↦ returned f.resp f.err (rw resolved at e)
]
  where
    returned :
        (resp : Option ServingResponse) (err : Option Error)
        → awaited (returns resp err) ≡ replied (ok r)
        → (err ≡ none) × (r ≡ or_nil resp)
    returned resp none e = (refl, cc)
    returned resp (some x) e = cc

cosignature-eq-some : (k : ResponseKind) (s : Bytes) → cosignature k ≡ some s → k ≡ cosigned s
cosignature-eq-some (cosigned t) s e = cc
cosignature-eq-some k s e = cc

module _ {S L : Type 0} (d : Deps S L) (cg : Bytes) (n : ℤ) (roster : Roster) (a : Activation)
    (h : Hub S L) where
  abbrev asked_endorser : ServingRequest
  asked_endorser = to_peer a.endorser_node_number n (roster_cosign a.new_node_number roster)

  -- The server when the endorser's answer is read, and the future that it is read from.
  abbrev pub endorsed : Hub S L
  endorsed =
      let h1 = record (asking h) {
        router = (router_route_request (d.taken h.asked) cg asked_endorser h.router).1;
      } in
      d.others h1.asked (asking h1)

  abbrev pub answer : FutureResponse
  answer =
      (find_or_create_group cg endorsed.router).futs
        (router_route_request (d.taken h.asked) cg asked_endorser h.router).0

  -- The endorser answered without an error and with this signature.
  abbrev pub Cosigned : Bytes → Type 0
  Cosigned signature =
      (r : ServingResponse) × (answer.resp ≡ some r)
      × (answer.err ≡ none)
      × (is_empty r.error ≡ true)
      × (r.kind ≡ cosigned signature)

  found_answer :
      (o : Option ServingResponse) (r : ServingResponse) (signature : Bytes)
      → r ≡ or_nil o
      → cosignature r.kind ≡ some signature
      → o ≡ some r
  found_answer none r signature e c = absurd (cc (rw e at c))
  found_answer (some s) r signature e c = ap some (sym e)

  or_unreachable-eq-replied :
      (answer : Result Error ServingResponse) (h1 h2 : Hub S L) (r : ServingResponse)
      → or_unreachable d answer h1 ≡ (replied r, h2)
      → (answer ≡ ok r) × (h2 ≡ h1)
  unfolding or_unreachable pure
  or_unreachable-eq-replied (ok s) h1 h2 r e = (cc, cc)
  or_unreachable-eq-replied (err x) h1 h2 r e = cc

  or_raise-eq-replied :
      {A : Type 0} (o : Option A) (x : Error) (h1 h2 : Hub S L) (b : A)
      → or_raise o x h1 ≡ (replied b, h2)
      → (o ≡ some b) × (h2 ≡ h1)
  unfolding or_raise
  or_raise-eq-replied none x h1 h2 b e = cc
  or_raise-eq-replied (some c) x h1 h2 b e = (cc, cc)

  wait-eq-replied :
      (h1 h2 : Hub S L) (f : ℕ) (r : Result Error ServingResponse)
      → wait d cg f h1 ≡ (replied r, h2)
      → (awaited (
            await
              (d.gives_up h1.asked)
              ((find_or_create_group cg (d.others h1.asked (asking h1)).router).futs f))
          ≡ replied r)
        × (h2 ≡ d.others h1.asked (asking h1))
  unfolding wait
  wait-eq-replied h1 h2 f r e = (cc, cc)

  route-eq-replied :
      (h1 : Hub S L) (f : ℕ)
      → route d cg asked_endorser h ≡ (replied f, h1)
      → (f ≡ (router_route_request (d.taken h.asked) cg asked_endorser h.router).0)
        × (h1 ≡ record (asking h) {
          router = (router_route_request (d.taken h.asked) cg asked_endorser h.router).1;
        })
  unfolding route
  route-eq-replied h1 f e = (cc, cc)

  pub get_endorser_cosignature-eq-replied :
      (h' : Hub S L) (signature : Bytes)
      → get_endorser_cosignature d cg n roster a h ≡ (replied signature, h')
      → Cosigned signature × (h' ≡ endorsed)
  unfolding get_endorser_cosignature
  get_endorser_cosignature-eq-replied h' signature e =
      let (f, h1, e1, e2) = >>=-eq-replied h h' signature _ _ e in
      let (result, h2, e3, e4) = >>=-eq-replied h1 h' signature _ _ e2 in
      let (r, h3, e5, e6) = >>=-eq-replied h2 h' signature _ _ e4 in
      let (clean, e7) = guard-bind h3 h' signature _ _ _ e6 in
      let (found, last_state) = or_raise-eq-replied (cosignature r.kind) _ h3 h' signature e7 in
      signed_by f h1 result h2 r h3 h' signature (route-eq-replied h1 f e1)
        (wait-eq-replied h1 h2 f result e3) (or_unreachable-eq-replied result h2 h3 r e5) clean
        found last_state
    where
      signed_by :
          (f : ℕ) (h1 : Hub S L) (result : Result Error ServingResponse) (h2 : Hub S L)
          (r : ServingResponse) (h3 h' : Hub S L) (signature : Bytes)
          → (f ≡ (router_route_request (d.taken h.asked) cg asked_endorser h.router).0)
            × (h1 ≡ record (asking h) {
              router = (router_route_request (d.taken h.asked) cg asked_endorser h.router).1;
            })
          → (awaited (
                await
                  (d.gives_up h1.asked)
                  ((find_or_create_group cg (d.others h1.asked (asking h1)).router).futs f))
              ≡ replied result)
            × (h2 ≡ d.others h1.asked (asking h1))
          → (result ≡ ok r) × (h3 ≡ h2)
          → is_empty r.error ≡ true
          → cosignature r.kind ≡ some signature
          → h' ≡ h3
          → Cosigned signature × (h' ≡ endorsed)
      signed_by f h1 result h2 r h3 h' signature (f_eq, h1_eq) (waited, h2_eq) (good, h3_eq) clean
            found same =
          let (no_err, r_eq) = await-eq-ok _ answer r (rw (f_eq, h1_eq, good) at waited) in
          (
            (
              r,
              found_answer answer.resp r signature r_eq found,
              no_err,
              clean,
              cosignature-eq-some r.kind signature found,
            ),
            same ∙ h3_eq ∙ h2_eq ∙ ap (λ (k : Hub S L). d.others k.asked (asking k)) h1_eq,
          )
