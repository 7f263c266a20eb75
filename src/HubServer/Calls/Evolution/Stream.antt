-- ===== src/HubServer/Calls/Evolution/Stream.antt =====
-- The serving stream of connect/hub/hubsrv.go, and the state of the backend.
use wispers_hub.Base.{
  ℕ, ◌≡◌, refl, sym, subst, ◌&&◌, ◌||◌, Bool, Option, none, some, Bytes, Bool-cases, inl, inr,
}
use wispers_hub.Base.Int.{ℤ}
use wispers_hub.Grpc.{Error}
use wispers_hub.HubServer.Interface.{Hub, Deps}
use wispers_hub.HubServer.Laws.{BackendLaws}
use wispers_hub.HubServer.Exec.{Outcome, replied, failed, waiting, panicked, Handler, asking}
use wispers_hub.HubServer.Auth.{Metadata}
use wispers_hub.HubServer.Serving.{
  connect, send_welcome, run, is_evicted, serve_stream, finally, with_disconnect, disconnect,
  start_serving, ended, after_others, connector, welcomed,
}
use wispers_hub.HubServer.Calls.Evolution.Parts.{
  OthersEvolve, HandlerEvolves, >>=-Evolves, guard-Evolves, authenticate-Evolves, logged-Evolves,
  tell-Evolves,
}

module _ {S L : Type 0} (d : Deps S L) (laws : BackendLaws d.client)
    (rely : OthersEvolve d laws) where
  connect-Evolves : (cg : Bytes) (n : ℤ) → HandlerEvolves d laws (connect d cg n)
  unfolding connect
  connect-Evolves cg n h = laws.stays h.backend

  after_others-Evolves :
      (armed : Bool) (cg : Bytes) (c : ℕ) (h : Hub S L)
      → laws.Evolves h.backend (after_others d armed cg c h).backend
  after_others-Evolves armed cg c h = elim (Bool-cases (armed && d.fires h.asked)) [
    | inl e ↦ rw e (rely h.asked (asking h))
    | inr e ↦ rw e (rely h.asked (asking h))
  ]

  ended-backend :
      (b : Bool) (cg : Bytes) (c : ℕ) (fired : Bool) (h : Hub S L)
      → (ended d b cg c fired h).1.backend ≡ h.backend
  ended-backend b cg c fired h = elim (Bool-cases ((connector cg c h.router).cancelled || b)) [
    | inl e ↦ rw e refl
    | inr e ↦ rw e refl
  ]

  run-Evolves : (armed : Bool) (cg : Bytes) (c : ℕ) → HandlerEvolves d laws (run d armed cg c)
  unfolding run
  run-Evolves armed cg c h =
      subst (laws.Evolves h.backend) (sym (ended-backend _ cg c _ (after_others d armed cg c h)))
        (after_others-Evolves armed cg c h)

  welcomed-Evolves : (e : Option Error) → HandlerEvolves d laws (welcomed d e)
  welcomed-Evolves none h = laws.stays h.backend
  welcomed-Evolves (some e) h = laws.stays h.backend

  send_welcome-Evolves : HandlerEvolves d laws (send_welcome d)
  unfolding send_welcome
  send_welcome-Evolves h = welcomed-Evolves (d.send_error h.asked) (asking h)

  is_evicted-Evolves : (cg : Bytes) (c : ℕ) → HandlerEvolves d laws (is_evicted d cg c)
  unfolding is_evicted
  is_evicted-Evolves cg c h = laws.stays h.backend

  serve_stream-Evolves :
      (md : Option Metadata) (cg : Bytes) (n : ℤ) (c : ℕ)
      → HandlerEvolves d laws (serve_stream d md cg n c)
  unfolding serve_stream
  serve_stream-Evolves md cg n c = >>=-Evolves d laws _ _ send_welcome-Evolves λ u.
      >>=-Evolves d laws _ _ (run-Evolves _ cg c) λ fired. logged-Evolves d laws cg n _ _ _ _ λ v.
        >>=-Evolves d laws _ _ (is_evicted-Evolves cg c)
          λ evicted. >>=-Evolves d laws _ _ (guard-Evolves d laws _ _) λ w. guard-Evolves d laws _ _

  finally-backend :
      (cg : Bytes) (c : ℕ) (p : Outcome (Unit {0}) × Hub S L)
      → (finally d cg c p).1.backend ≡ p.1.backend
  unfolding disconnect
  finally-backend cg c (replied u, h) = refl
  finally-backend cg c (failed e, h) = refl
  finally-backend cg c (waiting, h) = refl
  finally-backend cg c (panicked, h) = refl

  with_disconnect-Evolves :
      (cg : Bytes) (c : ℕ) (m : Handler S L (Unit {0}))
      → HandlerEvolves d laws m
      → HandlerEvolves d laws (with_disconnect d cg c m)
  unfolding with_disconnect
  with_disconnect-Evolves cg c m e h =
      subst (laws.Evolves h.backend) (sym (finally-backend cg c (m h))) (e h)

  pub serving-Evolves : (md : Option Metadata) → HandlerEvolves d laws (start_serving d md)
  unfolding start_serving
  serving-Evolves md = >>=-Evolves d laws _ _ (authenticate-Evolves d laws md) λ who.
      >>=-Evolves d laws _ _ (tell-Evolves d laws _ (laws.last_seen_evolves who.0 who.1)) λ u.
        logged-Evolves d laws who.0 who.1 _ _ _ _ λ v.
          >>=-Evolves d laws _ _ (connect-Evolves who.0 who.1)
            λ c. with_disconnect-Evolves who.0 c _ (serve_stream-Evolves md who.0 who.1 c)
