-- ===== src/Standalone/Calls.antt =====
-- The calls that reach the standalone hub's tables: the RPCs of connect/hub/standalone_grpc.go and the
-- requests that connect/hub/standalone_rest.go routes, each with its API-key check before it.
pub mod Histories
mod Tests
use wispers_hub.Base.{Bool, Option, List, [], ◌∷◌, Bytes}
use wispers_hub.Base.Int.{ℤ}
use wispers_hub.RegistrationTokens.{CreateRegistrationTokenRequest}
use wispers_hub.Standalone.Exec.{◌>>◌, Env, World, Exec}
use wispers_hub.Standalone.Messages.{EventDetails}
use wispers_hub.Standalone.Messages
use wispers_hub.Standalone.Answers.{CreateConnectivityGroupRequest, Failure}
use wispers_hub.Standalone.Answers
use wispers_hub.Standalone.Backend
use wispers_hub.Standalone.Rest

pub data Rpc : Type 0 where
  registration : (token : Bytes) → Rpc
  authentication : (raw : Bytes) → (n : ℤ) → (auth_token : Bytes) → Rpc
  node_listing : (raw : Bytes) → Rpc
  roster_reading : (raw : Bytes) → Rpc
  metadata_reading : (raw : Bytes) → Rpc
  policy_reading : (raw : Bytes) → Rpc
  roster_update : (raw roster : Bytes) → (new_version expected_version : ℤ) → Rpc
  last_seen_update : (raw : Bytes) → (n : ℤ) → Rpc
  deregistration : (raw : Bytes) → (n : ℤ) → Rpc
  activity : (raw : Bytes) → (n : ℤ) → (event : Bytes) → Bool → Option EventDetails → Rpc

pub data Request : Type 0 where
  stats : Request
  groups : (association_key : Bytes) → Request
  group_creation : Option CreateConnectivityGroupRequest → Request
  group : (raw : Bytes) → Request
  group_deletion : (raw : Bytes) → Request
  group_reset : (raw : Bytes) → Request
  token_creation : (raw : Bytes) → Option CreateRegistrationTokenRequest → Request
  tokens : (raw : Bytes) → Request
  node_patch : (raw number : Bytes) → Option (Option Bytes) → Request
  node_deletion : (raw number : Bytes) → Request

pub data Call : Type 0 where
  rpc : Rpc → Call
  rest : (header : Bytes) → Request → Call

module _ (x : Messages.Externals) (y : Answers.Externals) (instance_id : Bytes) (env : Env) where
  unfoldable pub serve_rpc : Rpc → World → World
  serve_rpc (registration token) w = (Backend.complete_node_registration x env token w).1
  serve_rpc (authentication raw n auth_token) w =
      (Backend.authenticate_node x env raw n auth_token w).1
  serve_rpc (node_listing raw) w = (Backend.list_nodes x env raw w).1
  serve_rpc (roster_reading raw) w = (Backend.get_roster x env raw w).1
  serve_rpc (metadata_reading raw) w = (Backend.get_group_metadata x env instance_id raw w).1
  serve_rpc (policy_reading raw) w = (Backend.get_turn_policy x env instance_id raw w).1
  serve_rpc (roster_update raw roster new_version expected_version) w =
      (Backend.update_roster x env raw roster new_version expected_version w).1
  serve_rpc (last_seen_update raw n) w = (Backend.update_node_last_seen x env raw n w).1
  serve_rpc (deregistration raw n) w = (Backend.deregister_node x env raw n w).1
  serve_rpc (activity raw n event success details) w =
      (Backend.log_activity x env raw n event success details w).1

  -- The middleware that the routes under /api/v1 share.
  unfoldable pub with_api_key : {A : Type 0} → Bytes → Exec Failure A → World → World
  with_api_key header handler w = ((Rest.check_api_key y env header >> handler) w).1

  unfoldable pub serve_request : Bytes → Request → World → World
  serve_request header stats w = with_api_key header (Rest.get_stats y env) w
  serve_request header (groups ak) w = with_api_key header (Rest.get_connectivity_groups y env ak) w
  serve_request header (group_creation body) w =
      with_api_key header (Rest.post_connectivity_group y env body) w
  serve_request header (group raw) w = with_api_key header (Rest.get_connectivity_group y env raw) w
  serve_request header (group_deletion raw) w =
      with_api_key header (Rest.delete_connectivity_group y env raw) w
  serve_request header (group_reset raw) w =
      with_api_key header (Rest.reset_connectivity_group y env raw) w
  serve_request header (token_creation raw body) w =
      with_api_key header (Rest.post_registration_token y env raw body) w
  serve_request header (tokens raw) w =
      with_api_key header (Rest.get_registration_tokens y env raw) w
  serve_request header (node_patch raw number body) w =
      with_api_key header (Rest.patch_node y env raw number body) w
  serve_request header (node_deletion raw number) w =
      with_api_key header (Rest.delete_node y env raw number) w

  unfoldable pub serve : Call → World → World
  serve (rpc call) w = serve_rpc call w
  serve (rest header request) w = serve_request header request w

  unfoldable pub serve_all : List Call → World → World
  serve_all [] w = w
  serve_all (call ∷ calls) w = serve_all calls (serve call w)
