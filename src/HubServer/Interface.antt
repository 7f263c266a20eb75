-- ===== src/HubServer/Interface.antt =====
-- What connect/hub/hubsrv.go calls and does not decide: the storage backend of proto/connect/be.proto,
-- the token bucket of a limiter, clocks, cryptography, serialisation, and the other calls.
use wispers_hub.Base.{ℕ, Bool, Option, List, [], Bytes}
use wispers_hub.Base.Int.{ℤ}
use wispers_hub.Grpc.{Error}
use wispers_hub.Proto.{Roster}
use wispers_hub.Routing.Router.{Router, new_router}
use wispers_hub.Standalone.Exec.{Result}
use wispers_hub.Standalone.Messages.{
  EventDetails, Registration, NodeInfo, GroupMetadata, TurnPolicy,
}

-- bepb.BackendClient, over the state that the backend keeps.
pub record BackendClient (S : Type 0) : Type 0 where
  pub complete_node_registration : Bytes → S → Result Error Registration × S
  pub authenticate_node : Bytes → ℤ → Bytes → S → Result Error (Unit {0}) × S
  pub list_nodes : Bytes → S → Result Error (List NodeInfo) × S
  pub get_roster : Bytes → S → Result Error (Option Bytes × ℤ) × S
  pub get_group_metadata : Bytes → S → Result Error GroupMetadata × S
  pub get_turn_policy : Bytes → S → Result Error TurnPolicy × S
  pub update_roster : Bytes → Bytes → ℤ → ℤ → S → Result Error (Unit {0}) × S
  pub update_node_last_seen : Bytes → ℤ → S → Result Error (Unit {0}) × S
  pub deregister_node : Bytes → ℤ → S → Result Error (Unit {0}) × S
  pub log_activity :
      Bytes → ℤ → Bytes → Bool → Option EventDetails → S → Result Error (Unit {0}) × S

-- The server's state: the backend's, the router, the buckets of the limiter by key, and how many times
-- it has asked its surroundings for something.
pub record Hub (S L : Type 0) : Type 0 where
  pub backend : S
  pub router : Router
  pub limiters : List (Bytes × L)
  pub asked : ℕ

-- NewHubServer.
abbrev pub new_hub_server : {S L : Type 0} → S → Hub S L
new_hub_server s = record { backend = s; router = new_router; limiters = []; asked = 0 }

-- The decoded payload of a connection request.
pub record StartPayload : Type 0 where
  pub answerer_node_number : ℤ
  pub transport : Bytes

-- The server's configuration and its surroundings. What they answer may depend on the number of the
-- question: `others` is what all other calls and streams do while this one waits, `gives_up` that the
-- caller's context ends first, `taken` that a send loop takes a request, `stream_ends` that a
-- stream's context ends, `fires` that a connection's time to live runs out, and `send_error` how
-- sending the welcome fails. A clock is in whole Unix seconds.
pub record Deps (S L : Type 0) : Type 0 where
  pub client : BackendClient S
  pub new_bucket : L
  pub bucket_allow : ℕ → L → Bool × L
  pub sign : Bytes → Bytes
  pub now : ℕ → ℕ
  pub marshal_roster : Roster → Option Bytes
  pub unmarshal_roster : Bytes → Option Roster
  pub decode_payload : Bytes → Option StartPayload
  pub others : ℕ → Hub S L → Hub S L
  pub gives_up : ℕ → Bool
  pub taken : ℕ → Bool
  pub stream_ends : ℕ → Bool
  pub fires : ℕ → Bool
  pub send_error : ℕ → Option Error
  pub stun_server : Bytes
  pub turn_server : Bytes
  pub assigned_shard : ℕ
