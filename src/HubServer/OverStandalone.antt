-- ===== src/HubServer/OverStandalone.antt =====
-- The hub server over the standalone backend, as connect/hub/hub.go runs it with Serve of
-- connect/hub/standalone.go: the in-memory transport hands each call to the backend's method.
use wispers_hub.Base.{◌≡◌, refl, some, Bytes, Bool-cases, inl, inr}
use wispers_hub.Base.Int.{ℤ}
use wispers_hub.Grpc.{Error}
use wispers_hub.Standalone.Exec.{Env, World, Result, ok, err, ◌>>=◌, or_raise, query}
use wispers_hub.Standalone.Messages.{Externals, internal_error, invalid_credentials}
use wispers_hub.Standalone.Backend
use wispers_hub.Standalone.Backend.{authenticate_node, deregister_node, parse_group_id}
use wispers_hub.Standalone.Backend.Steps as BackendSteps
use wispers_hub.Standalone.Steps.{Reach, here}
use wispers_hub.Standalone.Steps.Methods.{Reach-trans}
use wispers_hub.Standalone.Steps.Gone.{Gone, Reach-Known, Reach-Gone, find-dead}
use wispers_hub.Standalone.Calls.Histories.{Known-authenticated, Gone-deregistered}
use wispers_hub.HubServer.Interface.{BackendClient}
use wispers_hub.HubServer.Laws.{BackendLaws}

module _ (x : Externals) (env : Env) (instance_id : Bytes) where
  abbrev pub standalone_client : BackendClient World
  standalone_client = record {
    complete_node_registration = λ token. Backend.complete_node_registration x env token;
    authenticate_node = λ cg n token. Backend.authenticate_node x env cg n token;
    list_nodes = λ cg. Backend.list_nodes x env cg;
    get_roster = λ cg. Backend.get_roster x env cg;
    get_group_metadata = λ cg. Backend.get_group_metadata x env instance_id cg;
    get_turn_policy = λ cg. Backend.get_turn_policy x env instance_id cg;
    update_roster = λ cg roster new expected. Backend.update_roster x env cg roster new expected;
    update_node_last_seen = λ cg n. Backend.update_node_last_seen x env cg n;
    deregister_node = λ cg n. Backend.deregister_node x env cg n;
    log_activity =
        λ cg n event success details. Backend.log_activity x env cg n event success details;
  }

  -- The group of this identifier has given the number to a node, and no live node has it.
  abbrev pub GoneAs : Bytes → ℤ → World → Type 0
  GoneAs raw n w = (cg : Bytes) × (x.parse_uuid raw ≡ some cg) × Gone cg n w.db

  refused-gone :
      (raw : Bytes) (n : ℤ) (token : Bytes) (w : World)
      → GoneAs raw n w
      → (e : Error) × ((authenticate_node x env raw n token w).0 ≡ err e)
  unfolding authenticate_node parse_group_id ◌>>=◌ query or_raise
  refused-gone raw n token w (cg, parsed, gone) = elim (Bool-cases (env.fails w.calls)) [
    | inl down ↦ (internal_error, rw (parsed, down) refl)
    | inr up ↦ (invalid_credentials, rw (parsed, up, find-dead cg n w.db.nodes gone.dead) refl)
  ]

  with_state : {A : Type 0} (p : Result Error A × World) (a : A) → p.0 ≡ ok a → p ≡ (ok a, p.1)
  with_state (ok b, w) a e = cc
  with_state (err b, w) a e = cc

  deregistered-gone :
      (raw : Bytes) (n : ℤ) (token : Bytes) (w w1 : World)
      → (authenticate_node x env raw n token w).0 ≡ ok tt
      → Reach w.db w1.db
      → (deregister_node x env raw n w1).0 ≡ ok tt
      → GoneAs raw n (deregister_node x env raw n w1).1
  deregistered-gone raw n token w w1 good r e =
      let (cg, parsed, known) =
        Known-authenticated x env raw token n w _
          (with_state (authenticate_node x env raw n token w) tt good) in
      let d = deregister_node x env raw n w1 in
      let dead = Gone-deregistered x env raw cg n w1 d.1 parsed (with_state d tt e) in
      let before = Reach-Known cg n r known in
      (
        cg,
        parsed,
        record {
          known = Reach-Known cg n (BackendSteps.deregister_node-Reaches x env raw n w1) before;
          dead = dead;
        },
      )

  -- The standalone backend keeps the laws that the hub server relies on.
  pub standalone_laws : BackendLaws standalone_client
  standalone_laws = record {
    Evolves = λ w w'. Reach w.db w'.db;
    Gone = GoneAs;
    stays = λ w. here;
    then = Reach-trans;
    registration_evolves = BackendSteps.complete_node_registration-Reaches x env;
    authentication_evolves = BackendSteps.authenticate_node-Reaches x env;
    listing_evolves = BackendSteps.list_nodes-Reaches x env;
    roster_evolves = BackendSteps.get_roster-Reaches x env;
    metadata_evolves = BackendSteps.get_group_metadata-Reaches x env instance_id;
    policy_evolves = BackendSteps.get_turn_policy-Reaches x env instance_id;
    update_evolves = BackendSteps.update_roster-Reaches x env;
    last_seen_evolves = BackendSteps.update_node_last_seen-Reaches x env;
    deregistration_evolves = BackendSteps.deregister_node-Reaches x env;
    log_evolves = BackendSteps.log_activity-Reaches x env;
    gone_stays = λ raw n r gone. (gone.0, gone.1, Reach-Gone gone.0 n r gone.2);
    gone_refused = refused-gone;
    deregistered = deregistered-gone;
  }
