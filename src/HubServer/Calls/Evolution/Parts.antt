-- ===== src/HubServer/Calls/Evolution/Parts.antt =====
-- The parts that the calls of connect/hub/hubsrv.go are made of, and the state of the backend.
use wispers_hub.Base.{ℕ, Bool, true, false, Option, none, some, Bytes}
use wispers_hub.Base.Int.{ℤ}
use wispers_hub.Grpc.{Error}
use wispers_hub.Proto.{ServingRequest}
use wispers_hub.Standalone.Exec.{Result}
use wispers_hub.Standalone.Messages.{EventDetails}
use wispers_hub.HubServer.Interface.{Hub, Deps}
use wispers_hub.HubServer.Laws.{BackendLaws}
use wispers_hub.HubServer.Exec.{
  Outcome, replied, failed, waiting, panicked, Handler, continue, ◌>>=◌, pure, guard, or_raise, ask,
  tell, observe, log_activity, route,
}
use wispers_hub.HubServer.Auth.{Metadata, limiter_allow, authenticate_and_rate_limit}

module _ {S L : Type 0} (d : Deps S L) (laws : BackendLaws d.client) where
  -- The other calls, while one waits, do to the backend what calls do.
  abbrev pub OthersEvolve : Type 0
  OthersEvolve = (i : ℕ) (h : Hub S L) → laws.Evolves h.backend (d.others i h).backend

  abbrev pub HandlerEvolves : {A : Type 0} → Handler S L A → Type 0
  HandlerEvolves m = (h : Hub S L) → laws.Evolves h.backend (m h).1.backend

  continue-Evolves :
      {A B : Type 0} (s : S) (p : Outcome A × Hub S L) (k : A → Handler S L B)
      → laws.Evolves s p.1.backend
      → ((a : A) → HandlerEvolves (k a))
      → laws.Evolves s (continue p.0 k p.1).1.backend
  continue-Evolves s (replied a, h) k e g = laws.then e (g a h)
  continue-Evolves s (failed x, h) k e g = e
  continue-Evolves s (waiting, h) k e g = e
  continue-Evolves s (panicked, h) k e g = e

  pub >>=-Evolves :
      {A B : Type 0} (m : Handler S L A) (k : A → Handler S L B)
      → HandlerEvolves m
      → ((a : A) → HandlerEvolves (k a))
      → HandlerEvolves (m >>= k)
  unfolding ◌>>=◌
  >>=-Evolves m k e g h = continue-Evolves h.backend (m h) k (e h) g

  pub pure-Evolves : {A : Type 0} (a : A) → HandlerEvolves (pure a)
  unfolding pure
  pure-Evolves a h = laws.stays h.backend

  pub guard-Evolves : (b : Bool) (e : Error) → HandlerEvolves (guard b e)
  unfolding guard
  guard-Evolves true e h = laws.stays h.backend
  guard-Evolves false e h = laws.stays h.backend

  pub or_raise-Evolves : {A : Type 0} (o : Option A) (e : Error) → HandlerEvolves (or_raise o e)
  unfolding or_raise
  or_raise-Evolves none e h = laws.stays h.backend
  or_raise-Evolves (some a) e h = laws.stays h.backend

  pub ask-Evolves :
      {A : Type 0} (call : S → Result Error A × S)
      → ((s : S) → laws.Evolves s (call s).1)
      → HandlerEvolves (ask call)
  unfolding ask
  ask-Evolves call e h = e h.backend

  pub log-Evolves :
      (cg : Bytes) (n : ℤ) (event : Bytes) (success : Bool) (details : EventDetails)
      → HandlerEvolves (log_activity d cg n event success details)
  unfolding log_activity tell
  log-Evolves cg n event success details h =
      laws.log_evolves cg n event success (some details) h.backend

  limiter-Evolves : (key : Bytes) → HandlerEvolves (limiter_allow d key)
  unfolding limiter_allow
  limiter-Evolves key h = laws.stays h.backend

  pub route-Evolves : (cg : Bytes) (req : ServingRequest) → HandlerEvolves (route d cg req)
  unfolding route
  route-Evolves cg req h = laws.stays h.backend

  pub authenticate-Evolves :
      (md : Option Metadata) → HandlerEvolves (authenticate_and_rate_limit d md)
  unfolding authenticate_and_rate_limit
  authenticate-Evolves md = >>=-Evolves _ _ (or_raise-Evolves md _) λ m.
      >>=-Evolves _ _ (guard-Evolves _ _) λ u. >>=-Evolves _ _ (or_raise-Evolves _ _) λ n.
        >>=-Evolves _ _ (limiter-Evolves _) λ allowed. >>=-Evolves _ _ (guard-Evolves _ _) λ v.
          >>=-Evolves _ _ (ask-Evolves _ (laws.authentication_evolves _ n _)) λ w. pure-Evolves _

  pub observe-Evolves : {A : Type 0} (f : ℕ → A) → HandlerEvolves (observe f)
  unfolding observe
  observe-Evolves f h = laws.stays h.backend

  pub logged-Evolves :
      {A : Type 0} (cg : Bytes) (n : ℤ) (event : Bytes) (success : Bool) (details : EventDetails)
      (k : Unit {0} → Handler S L A)
      → ((u : Unit {0}) → HandlerEvolves (k u))
      → HandlerEvolves (log_activity d cg n event success details >>= k)
  logged-Evolves cg n event success details k h =
      >>=-Evolves _ k (log-Evolves cg n event success details) h

  pub tell-Evolves :
      {A : Type 0} (call : S → Result Error A × S)
      → ((s : S) → laws.Evolves s (call s).1)
      → HandlerEvolves (tell call)
  unfolding tell
  tell-Evolves call e h = e h.backend
