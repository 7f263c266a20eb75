-- ===== src/HubServer/Calls/Evolution/Unary.antt =====
-- The unary calls of connect/hub/hubsrv.go behind their authentication, and the state of the backend.
use wispers_hub.Base.{
  ℕ, Bool, true, false, Option, none, some, List, Bytes, is_empty, if◌then◌else◌, Bool-cases, inl,
  inr,
}
use wispers_hub.Base.Int.{ℤ}
use wispers_hub.Grpc.{Error}
use wispers_hub.Proto.{Roster, Activation, Addendum, activation, revocation, ServingResponse}
use wispers_hub.Standalone.Exec.{Result, ok, err}
use wispers_hub.Standalone.Messages.{TurnPolicy, NodeInfo}
use wispers_hub.HubServer.Interface.{Deps, StartPayload}
use wispers_hub.HubServer.Laws.{BackendLaws}
use wispers_hub.HubServer.Exec.{pure, wait}
use wispers_hub.HubServer.Handlers.{
  pair_with, present, stun_only, decoded, or_fail, or_panic, with_turn, turn_config, conclude,
  start_with, PairNodesMessage, StartConnectionRequest,
}
use wispers_hub.HubServer.Rosters.{or_unreachable, get_endorser_cosignature, prepare, store}
use wispers_hub.HubServer.Calls.Evolution.Parts.{
  OthersEvolve, HandlerEvolves, >>=-Evolves, pure-Evolves, guard-Evolves, or_raise-Evolves,
  ask-Evolves, log-Evolves, route-Evolves, observe-Evolves, logged-Evolves,
}

module _ {S L : Type 0} (d : Deps S L) (laws : BackendLaws d.client)
    (rely : OthersEvolve d laws) where
  wait-Evolves : (cg : Bytes) (f : ℕ) → HandlerEvolves d laws (wait d cg f)
  unfolding wait
  wait-Evolves cg f h = rely h.asked _

  or_fail-Evolves : (r : Result Error ServingResponse) → HandlerEvolves d laws (or_fail d r)
  unfolding or_fail
  or_fail-Evolves (ok r) = pure-Evolves d laws r
  or_fail-Evolves (err e) = λ h. laws.stays h.backend

  pub pair_with-Evolves :
      (m : PairNodesMessage) (who : Bytes × ℤ) → HandlerEvolves d laws (pair_with d m who)
  unfolding pair_with
  pair_with-Evolves m (cg, n) = >>=-Evolves d laws _ _ (route-Evolves d laws cg _) λ f.
      >>=-Evolves d laws _ _ (wait-Evolves cg f) λ answer.
        >>=-Evolves d laws _ _ (or_fail-Evolves answer) λ resp.
          >>=-Evolves d laws _ _ (guard-Evolves d laws _ _)
            λ u. >>=-Evolves d laws _ _ (log-Evolves d laws cg n _ _ _) λ v. pure-Evolves d laws _

  pub present-Evolves :
      (cg : Bytes) (nodes : List NodeInfo) → HandlerEvolves d laws (present d cg nodes)
  unfolding present
  present-Evolves cg nodes h = laws.stays h.backend

  pub decoded-Evolves : (b : Bytes) → HandlerEvolves d laws (decoded d b)
  unfolding decoded
  decoded-Evolves b = elim (Bool-cases (is_empty b)) [
    | inl e ↦ rw e (pure-Evolves d laws _)
    | inr e ↦ rw e (or_raise-Evolves d laws _ _)
  ]

  or_panic-Evolves :
      (expiry : ℕ) (o : Option (Bytes × Bytes)) → HandlerEvolves d laws (or_panic d expiry o)
  or_panic-Evolves expiry none h = laws.stays h.backend
  or_panic-Evolves expiry (some c) h = laws.stays h.backend

  with_turn-Evolves : (p : TurnPolicy) → HandlerEvolves d laws (with_turn d p)
  unfolding with_turn
  with_turn-Evolves p =
      >>=-Evolves d laws _ _ (observe-Evolves d laws d.now) λ now. or_panic-Evolves _ _

  policy-Evolves :
      (b : Bool) (p : TurnPolicy)
      → HandlerEvolves d laws (if b then with_turn d p else pure (stun_only d))
  policy-Evolves true p = with_turn-Evolves p
  policy-Evolves false p = pure-Evolves d laws _

  turn_config-Evolves : (cg : Bytes) → HandlerEvolves d laws (turn_config d cg)
  unfolding turn_config
  turn_config-Evolves cg =
      >>=-Evolves d laws _ _ (ask-Evolves d laws _ (laws.policy_evolves cg))
        λ p. policy-Evolves p.enabled p

  pub configured-Evolves :
      (b : Bool) (cg : Bytes)
      → HandlerEvolves d laws (if b then pure (stun_only d) else turn_config d cg)
  configured-Evolves true cg = pure-Evolves d laws _
  configured-Evolves false cg = turn_config-Evolves cg

  conclude-Evolves :
      (who : Bytes × ℤ) (p : StartPayload) (r : Result Error ServingResponse)
      → HandlerEvolves d laws (conclude d who p r)
  unfolding conclude
  conclude-Evolves (cg, n) p (err e) =
      logged-Evolves d laws cg n _ _ _ _ (λ u h. laws.stays h.backend)
  conclude-Evolves (cg, n) p (ok resp) = elim (Bool-cases (is_empty resp.error)) [
    | inl e ↦ rw (e, conclude) (logged-Evolves d laws cg n _ _ _ _ (λ u. pure-Evolves d laws _))
    | inr e ↦ rw (e, conclude) (logged-Evolves d laws cg n _ _ _ _ (λ u h. laws.stays h.backend))
  ]

  pub start_with-Evolves :
      (r : StartConnectionRequest) (who : Bytes × ℤ) → HandlerEvolves d laws (start_with d r who)
  unfolding start_with
  start_with-Evolves r (cg, n) = >>=-Evolves d laws _ _ (or_raise-Evolves d laws _ _) λ p.
      >>=-Evolves d laws _ _ (route-Evolves d laws cg _)
        λ f. >>=-Evolves d laws _ _ (wait-Evolves cg f) λ answer. conclude-Evolves (cg, n) p answer

  or_unreachable-Evolves :
      (r : Result Error ServingResponse) → HandlerEvolves d laws (or_unreachable d r)
  unfolding or_unreachable
  or_unreachable-Evolves (ok r) = pure-Evolves d laws r
  or_unreachable-Evolves (err e) = λ h. laws.stays h.backend

  cosignature-Evolves :
      (cg : Bytes) (n : ℤ) (r : Roster) (a : Activation)
      → HandlerEvolves d laws (get_endorser_cosignature d cg n r a)
  unfolding get_endorser_cosignature
  cosignature-Evolves cg n r a = >>=-Evolves d laws _ _ (route-Evolves d laws cg _) λ f.
      >>=-Evolves d laws _ _ (wait-Evolves cg f) λ answer.
        >>=-Evolves d laws _ _ (or_unreachable-Evolves answer)
          λ resp. >>=-Evolves d laws _ _ (guard-Evolves d laws _ _) λ u. or_raise-Evolves d laws _ _

  pub prepare-Evolves :
      (cg : Bytes) (n : ℤ) (r : Roster) (a : Addendum) → HandlerEvolves d laws (prepare d cg n r a)
  unfolding prepare
  prepare-Evolves cg n r (activation a) =
      >>=-Evolves d laws _ _ (guard-Evolves d laws _ _) λ u.
        >>=-Evolves d laws _ _ (cosignature-Evolves cg n r a) λ signature. pure-Evolves d laws _
  prepare-Evolves cg n r (revocation a) =
      >>=-Evolves d laws _ _ (guard-Evolves d laws _ _) λ u. pure-Evolves d laws _
  prepare-Evolves cg n r Addendum.unset = λ h. laws.stays h.backend

  pub store-Evolves :
      (who : Bytes × ℤ) (p : Roster × ℤ × Bytes) → HandlerEvolves d laws (store d who p)
  unfolding store
  store-Evolves (cg, n) (r, expected, kind) =
      >>=-Evolves d laws _ _ (or_raise-Evolves d laws _ _) λ bytes.
        >>=-Evolves d laws _ _
          (ask-Evolves d laws _ (laws.update_evolves cg bytes r.version expected))
          λ u. logged-Evolves d laws cg n _ _ _ _ (λ v. pure-Evolves d laws _)
