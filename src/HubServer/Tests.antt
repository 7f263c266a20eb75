-- ===== src/HubServer/Tests.antt =====
-- Calls of the hub server, connect/hub/hubsrv.go, over the standalone backend, at concrete inputs.
use wispers_hub.Base.{
  ℕ, ◌-◌, ◌≡◌, refl, ◌⊎◌, ◌↔◌, inl, true, false, Option, none, some, [], ◌∷◌, Bytes, codes, ltb,
  arith, bytes_eq,
}
use wispers_hub.Base.Int.{ℤ, pos}
use wispers_hub.Proto.{Roster, revocation, Addendum}
use wispers_hub.Routing.Router.{new_router, router_connect}
use wispers_hub.Strings.{parse_int, parse_digits, format_int, format_nat, digits, contains}
use wispers_hub.Base.Assoc.{lookup, insert}
use wispers_hub.Standalone.Db.{NodeRow}
use wispers_hub.Standalone.Exec.{Env, World}
use wispers_hub.Standalone.Exec as Exec
use wispers_hub.Standalone.Messages.{TurnPolicy}
use wispers_hub.Standalone.Fixtures.{externals, env, start}
use wispers_hub.Standalone.Backend
use wispers_hub.HubServer.Interface.{Hub, Deps, new_hub_server}
use wispers_hub.HubServer.Exec.{replied, waiting, failed, ◌>>=◌, pure, guard, or_raise, ask}
use wispers_hub.HubServer.Auth.{
  scan_int32, skip_blanks, leading_digits, limiter_allow, limiter_key, Metadata,
  authenticate_and_rate_limit,
}
use wispers_hub.HubServer.OverStandalone.{standalone_client, standalone_laws}
use wispers_hub.HubServer.Handlers.{StunTurnConfig, deregister_node, get_stun_turn_config}
use wispers_hub.HubServer.Handlers.Turn.{organisation, Grants, get_stun_turn_config-Grants}
use wispers_hub.HubServer.Exec.{log_activity, tell}
use wispers_hub.Base.Int.{pred_int64}
use wispers_hub.HubServer.Rosters.{last, prepare, store, update_roster}
use wispers_hub.HubServer.Rosters.Stored.{Justified, update_roster-Justified}
use wispers_hub.HubServer.Serving.{start_serving, serve_stream, connector, resharding, superseded}
use wispers_hub.HubServer.Serving.Ending.{Left, start_serving-Left}
use wispers_hub.HubServer.Serving.Shedding.{Shed, serve_stream-Shed}
use wispers_hub.HubServer.Calls.{node_listing, serving, serve}
use wispers_hub.HubServer.Calls.Credentials.{Accepted, Refused, serve-Accepted}
use wispers_hub.HubServer.Calls.Deregistration.{Names, serve_all, deregistered-Refused}

abbrev node : NodeRow
node = record {
  group_id = codes "g";
  node_number = pos 1;
  name = none;
  auth_token_hash = externals.hash_token (codes "secret");
  metadata = none;
  last_seen_at = none;
  created_at = 1;
  deleted_at = none;
}

-- The standalone hub with a node 1.
abbrev registered : World
registered = record start { db = record start.db { nodes = node ∷ [] } }

-- A bucket of three calls; streams end at once, and nothing else happens meanwhile.
abbrev deps : Deps World ℕ
deps = record {
  client = standalone_client externals env (codes "id");
  new_bucket = 3;
  bucket_allow = λ i b. (ltb 0 b, b - 1);
  sign = λ s. s;
  now = λ i. 1000;
  marshal_roster = λ r. some (codes "r");
  unmarshal_roster = λ b. none;
  decode_payload = λ b. none;
  others = λ i h. h;
  gives_up = λ i. false;
  taken = λ i. true;
  stream_ends = λ i. true;
  fires = λ i. false;
  send_error = λ i. none;
  stun_server = codes "stun";
  turn_server = codes "turn";
  assigned_shard = 0;
}

abbrev metadata : Option Metadata
metadata = some (record {
  connectivity_group_id = codes "g" ∷ [];
  node_number = codes "1" ∷ [];
  auth_token = codes "secret" ∷ [];
  client_version = [];
})

abbrev hub : Hub World ℕ
hub = new_hub_server registered

abbrev authenticated : Hub World ℕ
authenticated = (authenticate_and_rate_limit deps metadata hub).1

authenticates :
    authenticate_and_rate_limit deps metadata hub ≡ (replied (codes "g", pos 1), authenticated)
unfolding authenticate_and_rate_limit scan_int32 skip_blanks leading_digits parse_int parse_digits
    limiter_allow limiter_key format_int format_nat digits lookup insert ◌>>=◌ pure guard or_raise
    ask Backend.authenticate_node Backend.parse_group_id Exec.◌>>=◌ Exec.or_raise Exec.query
    Exec.guard
authenticates = refl

abbrev gone : Hub World ℕ
gone = (deregister_node deps metadata hub).1

deregisters : deregister_node deps metadata hub ≡ (replied tt, gone)
unfolding deregister_node Backend.deregister_node Exec.read_clock Exec.execute_returning
    Exec.quietly Exec.best_effort Backend.insert_activity_log authenticate_and_rate_limit scan_int32
    skip_blanks leading_digits parse_int parse_digits limiter_allow limiter_key format_int
    format_nat digits lookup insert ◌>>=◌ pure guard or_raise ask Backend.authenticate_node
    Backend.parse_group_id Exec.◌>>=◌ Exec.or_raise Exec.query Exec.guard
deregisters = refl

named : Names metadata (codes "g") (pos 1)
unfolding scan_int32 skip_blanks leading_digits parse_int parse_digits
named = (_, refl, refl, refl)

abbrev policy : TurnPolicy
policy = record {
  enabled = true;
  floor_bps = pos 0;
  ceil_bps = pos 0;
  organisation_id = codes "id";
}

clean : contains b':' (organisation policy) ≡ false
unfolding contains
clean = refl

serve-Accepted_example :
    Refused deps (serve deps node_listing metadata hub) hub ⊎ Accepted deps metadata hub
serve-Accepted_example = serve-Accepted deps node_listing metadata hub

deregistered-Refused_example :
    Refused deps
      (serve deps node_listing metadata (serve_all deps ((serving, metadata) ∷ []) gone))
      (serve_all deps ((serving, metadata) ∷ []) gone)
deregistered-Refused_example =
    deregistered-Refused deps (standalone_laws externals env (codes "id"))
      (λ i h. (standalone_laws externals env (codes "id")).stays h.backend) metadata metadata
      (codes "g") (pos 1) ((serving, metadata) ∷ []) node_listing hub gone named named deregisters

start_serving-Left_example :
    ((start_serving deps metadata hub).0 ≡ waiting)
    ⊎ Left
        (codes "g")
        (router_connect (codes "g") (pos 1) authenticated.router).0
        (start_serving deps metadata hub).1.router
start_serving-Left_example =
    start_serving-Left deps metadata hub authenticated (codes "g") (pos 1) authenticates

-- A hub of the second shard, where times to live run out.
abbrev sharded : Deps World ℕ
sharded = record deps { assigned_shard = 2; fires = λ i. true; stream_ends = λ i. false }

serve_stream-Shed_example :
    let o = (serve_stream sharded metadata (codes "g") (pos 1) 0 hub).0 in
    let k = connector (codes "g") 0 new_router in
    let over = Shed sharded metadata (codes "g") hub ⊎ (k.cancelled ≡ true) ⊎ (false ≡ true) in
    ((o ≡ failed resharding) ↔ (Shed sharded metadata (codes "g") hub × (k.evicted ≡ false)))
    × ((o ≡ failed superseded) ↔ (over × (k.evicted ≡ true)))
    × ((o ≡ waiting) ↔ (¬ over))
serve_stream-Shed_example = serve_stream-Shed sharded metadata (codes "g") (pos 1) 0 hub refl

allows_turn : (deps.client.get_turn_policy (codes "g") authenticated.backend).0 ≡ Exec.ok policy
unfolding Backend.get_turn_policy Backend.live_group Exec.pure authenticate_and_rate_limit
    scan_int32 skip_blanks leading_digits parse_int parse_digits limiter_allow limiter_key
    format_int format_nat digits lookup insert ◌>>=◌ pure guard or_raise ask
    Backend.authenticate_node Backend.parse_group_id Exec.◌>>=◌ Exec.or_raise Exec.query Exec.guard
allows_turn = refl

get_stun_turn_config-Grants_example :
    (cfg : StunTurnConfig) × ((get_stun_turn_config deps metadata hub).0 ≡ replied cfg)
    × Grants deps cfg policy 1600
get_stun_turn_config-Grants_example =
    get_stun_turn_config-Grants deps metadata hub authenticated (codes "g") (pos 1) policy
      authenticates refl allows_turn refl (ground arith) (ground arith) (ground arith)
      (ground arith, inl refl) clean

-- The node revokes a node, as the first change of the roster.
abbrev revoking : Roster
revoking = record {
  version = pos 1;
  nodes = [];
  addenda = revocation (record { version = pos 1; revoker_node_number = pos 1 }) ∷ [];
}

abbrev updated : Hub World ℕ
updated = (update_roster deps metadata revoking hub).1

updates : update_roster deps metadata revoking hub ≡ (replied revoking, updated)
unfolding update_roster prepare store log_activity tell pred_int64 Backend.update_roster
    Backend.log_activity Exec.read_clock Exec.execute_returning Exec.quietly Exec.best_effort
    Backend.insert_activity_log authenticate_and_rate_limit scan_int32 skip_blanks leading_digits
    parse_int parse_digits limiter_allow limiter_key format_int format_nat digits lookup insert
    ◌>>=◌ pure guard or_raise ask Backend.authenticate_node Backend.parse_group_id Exec.◌>>=◌
    Exec.or_raise Exec.query Exec.guard
updates = refl

update_roster-Justified_example :
    (cg : Bytes) × (n : ℤ) × (h0 : Hub World ℕ) × (h1 : Hub World ℕ) × (a : Addendum)
    × (expected : ℤ) × (bytes : Bytes) × (authenticate_and_rate_limit deps metadata hub
        ≡ (replied (cg, n), h0))
    × (last revoking.addenda ≡ some a)
    × Justified deps cg n revoking h0 a revoking expected h1
    × (deps.marshal_roster revoking ≡ some bytes)
    × ((deps.client.update_roster cg bytes revoking.version expected h1.backend).0 ≡ Exec.ok tt)
update_roster-Justified_example =
    update_roster-Justified deps metadata revoking revoking hub updated updates
