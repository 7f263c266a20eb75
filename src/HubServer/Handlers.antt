-- ===== src/HubServer/Handlers.antt =====
-- The unary calls of connect/hub/hubsrv.go but UpdateRoster. The messages of the node-facing protocol
-- have the fields that the hub reads or fills.
pub mod Turn
use wispers_hub.Base.{
  ℕ, ◌+◌, ◌*◌, Bool, true, false, Option, none, some, List, [], ◌∷◌, ◌++◌, Bytes, codes, map,
  is_empty, if◌then◌else◌,
}
use wispers_hub.Base.Int.{ℤ, pos}
use wispers_hub.Grpc.{Error, status, text, invalid_argument, failed_precondition, internal}
use wispers_hub.Proto.{
  Roster, ServingRequest, ServingResponse, RequestKind, ResponseKind, pair_nodes, start_connection,
  paired, connection_started,
}
use wispers_hub.TurnCreds.{mint}
use wispers_hub.Routing.Router.{is_node_connected}
use wispers_hub.Standalone.Exec.{Result, ok, err}
use wispers_hub.Standalone.Messages.{
  EventDetails, ErrorMessage, no_message, of_error, of_peer, activate, connection, Registration,
  NodeInfo, TurnPolicy,
}
use wispers_hub.HubServer.Interface.{Hub, Deps, StartPayload}
use wispers_hub.HubServer.Exec.{
  ◌>>=◌, ◌>>◌, replied, panicked, Handler, pure, raise, guard, or_raise, ask, observe, log_activity,
  route, wait,
}
use wispers_hub.HubServer.Auth.{Metadata, authenticate_and_rate_limit}

-- A message that is passed on has its bytes in `body`.
pub record PairNodesMessage : Type 0 where
  pub receiver_node_number : ℤ
  pub body : Bytes

pub record StartConnectionRequest : Type 0 where
  pub signed_payload : Bytes
  pub body : Bytes

pub record Node : Type 0 where
  pub node_number : ℤ
  pub name : Bytes
  pub last_seen_at : ℕ
  pub metadata : Bytes
  pub is_online : Bool

pub record GroupInfo : Type 0 where
  pub id : Bytes
  pub name : Bytes
  pub created_at : ℕ

pub record StunTurnConfig : Type 0 where
  pub stun_server : Bytes
  pub turn_server : Bytes
  pub turn_username : Bytes
  pub turn_password : Bytes
  pub expires_at : ℕ

-- A getter of another kind of response gives nil, which is sent as an empty message.
abbrev pub paired_body : ResponseKind → Bytes
paired_body (paired b) = b
paired_body _ = []

abbrev pub started_body : ResponseKind → Bytes
started_body (connection_started b) = b
started_body _ = []

abbrev pub empty_roster : Roster
empty_roster = record { version = pos 0; nodes = []; addenda = [] }

abbrev pub bytes_of : Option Bytes → Bytes
bytes_of none = []
bytes_of (some b) = b

abbrev pub turn_credential_ttl : ℕ
turn_credential_ttl = 10 * 60

-- The request that the peer gets: the source is the node that was authenticated.
abbrev pub to_peer : ℤ → ℤ → RequestKind → ServingRequest
to_peer dest source kind = record {
  request_id = 0;
  dest_node_number = dest;
  source_node_number = source;
  kind = kind;
}

abbrev pub connection_details : ErrorMessage → StartPayload → EventDetails
connection_details message p = record {
  error_message = message;
  kind = connection p.transport p.answerer_node_number;
}

module _ {S L : Type 0} (d : Deps S L) where
  unfoldable pub complete_node_registration : Bytes → Handler S L Registration
  complete_node_registration token = ask (d.client.complete_node_registration token)

  -- An error of Await is the call's.
  unfoldable pub or_fail : Result Error ServingResponse → Handler S L ServingResponse
  or_fail (ok r) = pure r
  or_fail (err e) = raise e

  unfoldable pub pair_with : PairNodesMessage → Bytes × ℤ → Handler S L Bytes
  pair_with req (cg, n) = do
    f ← route d cg (to_peer req.receiver_node_number n (pair_nodes req.body))
    answer ← wait d cg f
    resp ← or_fail answer
    guard (is_empty resp.error)
        (status failed_precondition "peer rejected request: %s" (text resp.error ∷ []))
    log_activity d cg n (codes "activate") true
        (record { error_message = no_message; kind = activate req.receiver_node_number })
    pure (paired_body resp.kind)

  unfoldable pub pair_nodes_handler : Option Metadata → PairNodesMessage → Handler S L Bytes
  pair_nodes_handler md req = do who ← authenticate_and_rate_limit d md; pair_with req who

  abbrev pub with_presence : Bytes → Hub S L → NodeInfo → Node
  with_presence cg h n = record {
    node_number = n.node_number;
    name = n.name;
    last_seen_at = n.last_seen_at;
    metadata = n.metadata;
    is_online = is_node_connected cg n.node_number h.router;
  }

  unfoldable pub present : Bytes → List NodeInfo → Handler S L (List Node)
  present cg nodes h = (replied (map (with_presence cg h) nodes), h)

  unfoldable pub list_nodes : Option Metadata → Handler S L (List Node)
  list_nodes md = do
    who ← authenticate_and_rate_limit d md
    nodes ← ask (d.client.list_nodes who.0)
    present who.0 nodes

  unfoldable pub decoded : Bytes → Handler S L Roster
  decoded b =
      if is_empty b
      then pure empty_roster
      else or_raise (d.unmarshal_roster b) (status internal "failed to deserialize roster" [])

  unfoldable pub get_roster : Option Metadata → Handler S L Roster
  get_roster md = do
    who ← authenticate_and_rate_limit d md
    stored ← ask (d.client.get_roster who.0)
    decoded (bytes_of stored.0)

  unfoldable pub get_group_metadata : Option Metadata → Handler S L GroupInfo
  get_group_metadata md = do
    who ← authenticate_and_rate_limit d md
    m ← ask (d.client.get_group_metadata who.0)
    pure (record { id = who.0; name = m.name; created_at = m.created_at })

  abbrev pub stun_only : StunTurnConfig
  stun_only = record {
    stun_server = d.stun_server;
    turn_server = [];
    turn_username = [];
    turn_password = [];
    expires_at = 0;
  }

  -- Mint panics on a subject that it does not take.
  abbrev pub or_panic : ℕ → Option (Bytes × Bytes) → Handler S L StunTurnConfig
  or_panic expiry none h = (panicked, h)
  or_panic expiry (some (username, password)) h = (
    replied (record {
      stun_server = d.stun_server;
      turn_server = d.turn_server;
      turn_username = username;
      turn_password = password;
      expires_at = expiry * 1000;
    }),
    h,
  )

  unfoldable pub with_turn : TurnPolicy → Handler S L StunTurnConfig
  with_turn p = do
    now ← observe d.now
    or_panic (now + turn_credential_ttl) (
        mint d.sign (codes "org-" ++ p.organisation_id) p.floor_bps p.ceil_bps
          (pos (now + turn_credential_ttl)))

  unfoldable pub turn_config : Bytes → Handler S L StunTurnConfig
  turn_config cg = do
    p ← ask (d.client.get_turn_policy cg)
    if p.enabled then with_turn p else pure stun_only

  unfoldable pub get_stun_turn_config : Option Metadata → Handler S L StunTurnConfig
  get_stun_turn_config md = do
    who ← authenticate_and_rate_limit d md
    if is_empty d.turn_server then pure stun_only else turn_config who.0

  -- What becomes of the awaited answer, and what is logged of it.
  unfoldable pub conclude :
      Bytes × ℤ → StartPayload → Result Error ServingResponse → Handler S L Bytes
  conclude (cg, n) p (err e) = do
    log_activity d cg n (codes "start-connection") false (connection_details (of_error e) p)
    raise e
  conclude (cg, n) p (ok resp) = elim (is_empty resp.error) [
    | true ↦ do
      log_activity d cg n (codes "start-connection") true (connection_details no_message p)
      pure (started_body resp.kind)
    | false ↦ do
      log_activity d cg n (codes "start-connection") false
          (connection_details (of_peer resp.error) p)
      raise (status failed_precondition "peer rejected connection: %s" (text resp.error ∷ []))
  ]

  unfoldable pub start_with : StartConnectionRequest → Bytes × ℤ → Handler S L Bytes
  start_with req who = do
    p ←
        or_raise (d.decode_payload req.signed_payload)
          (status invalid_argument "cannot decode signed payload: %v" [])
    f ← route d who.0 (to_peer p.answerer_node_number who.1 (start_connection req.body))
    answer ← wait d who.0 f
    conclude who p answer

  unfoldable pub start_connection_handler :
      Option Metadata → StartConnectionRequest → Handler S L Bytes
  start_connection_handler md req = do who ← authenticate_and_rate_limit d md; start_with req who

  unfoldable pub deregister_node : Option Metadata → Handler S L (Unit {0})
  deregister_node md = do
    who ← authenticate_and_rate_limit d md
    ask (d.client.deregister_node who.0 who.1)
