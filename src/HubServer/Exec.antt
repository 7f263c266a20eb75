-- ===== src/HubServer/Exec.antt =====
-- A call of the hub server: it replies, fails, waits for good, or panics, and leaves the server in
-- some state.
pub mod Inversion
use wispers_hub.Base.{[], ℕ, suc, Bool, Option, none, some, Bytes, if◌then◌else◌}
use wispers_hub.Base.Int.{ℤ}
use wispers_hub.Grpc.{Error}
use wispers_hub.Standalone.Exec.{Result, ok, err}
use wispers_hub.Standalone.Messages.{EventDetails}
use wispers_hub.Routing.Router.{
  Router, router_route_request, find_or_create_group, Awaited, blocked, returns, await,
}
use wispers_hub.Proto.{ServingRequest, ServingResponse, ResponseKind}
use wispers_hub.HubServer.Interface.{Hub, Deps}

pub data Outcome (A : Type 0) : Type 0 where
  replied : A → Outcome A
  failed : Error → Outcome A
  waiting : Outcome A
  panicked : Outcome A

abbrev pub Handler : Type 0 → Type 0 → Type 0 → Type 0
Handler S L A = Hub S L → Outcome A × Hub S L

abbrev pub outcome_of : {A : Type 0} → Result Error A → Outcome A
outcome_of (ok a) = replied a
outcome_of (err e) = failed e

-- The response that a call has in hand: a nil one reads as an empty one.
abbrev pub or_nil : Option ServingResponse → ServingResponse
or_nil none = record { request_id = 0; error = []; kind = ResponseKind.unset }
or_nil (some r) = r

abbrev pub awaited : Awaited → Outcome (Result Error ServingResponse)
awaited blocked = waiting
awaited (returns r (some e)) = replied (err e)
awaited (returns r none) = replied (ok (or_nil r))

module _ {S L : Type 0} where
  abbrev pub continue : {A B : Type 0} → Outcome A → (A → Handler S L B) → Handler S L B
  continue (replied a) k h = k a h
  continue (failed e) k h = (failed e, h)
  continue waiting k h = (waiting, h)
  continue panicked k h = (panicked, h)

  infixl 5 ◌>>=◌ ◌>>◌
  unfoldable pub ◌>>=◌ : {A B : Type 0} → Handler S L A → (A → Handler S L B) → Handler S L B
  ◌>>=◌ m k h = let (o, h') = m h in continue o k h'

  abbrev pub ◌>>◌ : {A B : Type 0} → Handler S L A → Handler S L B → Handler S L B
  m >> k = m >>= λ _. k

  unfoldable pub pure : {A : Type 0} → A → Handler S L A
  pure a h = (replied a, h)

  abbrev pub raise : {A : Type 0} → Error → Handler S L A
  raise e h = (failed e, h)

  unfoldable pub guard : Bool → Error → Handler S L (Unit {0})
  guard b e h = if b then (replied tt, h) else (failed e, h)

  unfoldable pub or_raise : {A : Type 0} → Option A → Error → Handler S L A
  or_raise none e h = (failed e, h)
  or_raise (some a) e h = (replied a, h)

  -- A call of the backend, whose error is passed on.
  unfoldable pub ask : {A : Type 0} → (S → Result Error A × S) → Handler S L A
  ask call h = let (r, s) = call h.backend in (outcome_of r, record h { backend = s })

  -- A call of the backend whose error is only logged.
  unfoldable pub tell : {A : Type 0} → (S → Result Error A × S) → Handler S L (Unit {0})
  tell call h = let (r, s) = call h.backend in (replied tt, record h { backend = s })

  abbrev pub asking : Hub S L → Hub S L
  asking h = record h { asked = suc h.asked }

  -- An answer of the surroundings.
  unfoldable pub observe : {A : Type 0} → (ℕ → A) → Handler S L A
  observe f h = (replied (f h.asked), asking h)

  module _ (d : Deps S L) where
    -- logActivity.
    unfoldable pub log_activity : Bytes → ℤ → Bytes → Bool → EventDetails → Handler S L (Unit {0})
    log_activity cg n event success details =
        tell (d.client.log_activity cg n event success (some details))

    abbrev pub routed : ℕ × Router → Hub S L → Outcome ℕ × Hub S L
    routed (f, r) h = (replied f, record (asking h) { router = r })

    -- Router.RouteRequest; the result is the future.
    unfoldable pub route : Bytes → ServingRequest → Handler S L ℕ
    route cg req h = routed (router_route_request (d.taken h.asked) cg req h.router) h

    -- FutureResponse.Await: the other calls go on, then the future is read.
    unfoldable pub wait : Bytes → ℕ → Handler S L (Result Error ServingResponse)
    wait cg f h =
        let h' = d.others h.asked (asking h) in
        (awaited (await (d.gives_up h.asked) ((find_or_create_group cg h'.router).futs f)), h')
