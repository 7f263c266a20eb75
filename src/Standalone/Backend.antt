-- ===== src/Standalone/Backend.antt =====
-- connect/hub/standalone_grpc.go: the storage backend over sqlite. SHA-256 in hexadecimal, the UUID
-- parser, the serialisation of event details and the attestation signer are parameters.
pub mod Registering
pub mod Tokens
pub mod OneShot
pub mod Versions
pub mod Rosters
pub mod Deregistered
pub mod Listing
pub mod Steps
pub mod Progress
mod Tests
use wispers_hub.Base.{
  ℕ, Bool, true, not, Option, none, some, List, map, Bytes, codes, any, find, filter, ◌==◌,
  bytes_eq,
}
use wispers_hub.Base.Int.{ℤ, pos, leb_ℤ, int_eq}
use wispers_hub.Grpc.{Error}
use wispers_hub.RegistrationTokens.{hex_encode}
use wispers_hub.Standalone.Db.{
  GroupRow, NodeRow, TokenRow, is_live_group, is_node, is_live_node, is_live_in, is_usable,
  insert_node, insert_activity, update_groups, update_nodes, update_tokens,
}
use wispers_hub.Standalone.Exec.{
  ◌>>=◌, ◌>>◌, Env, World, Exec, Result, ok, pure, guard, or_raise, query, execute,
  execute_returning, try_insert, read_clock, draw, allow, quietly, best_effort, transaction, called,
}
use wispers_hub.Standalone.Messages.{
  EventDetails, Externals, Registration, NodeInfo, GroupMetadata, TurnPolicy, internal_error,
  invalid_group_id, group_not_found, invalid_credentials, invalid_token, registration_limited,
  bad_new_version, version_conflict, or_empty, number_of, bump_number, stamp, order_by_node_number,
  node_info, has_version, with_roster, register, deregister, no_message,
}

module _ (x : Externals) (env : Env) where
  -- parseGroupID.
  unfoldable pub parse_group_id : Bytes → Exec Error Bytes
  parse_group_id raw = or_raise (x.parse_uuid raw) invalid_group_id

  -- insertActivityLog: it reads the clock and writes, or gives up where the details do not
  -- serialise; nothing of it fails the caller.
  abbrev log_row : Bytes → ℤ → Bytes → Bool → Option Bytes → World → World
  log_row cg n event success details w =
      let t = env.now w.calls in
      best_effort env
        (insert_activity (record {
          group_id = cg;
          node_number = n;
          event_type = event;
          success = success;
          details = details;
          created_at = t;
        }))
        (called w)

  abbrev log_marshalled : Bytes → ℤ → Bytes → Bool → Option Bytes → World → World
  log_marshalled cg n event success none w = w
  log_marshalled cg n event success (some bytes) w = log_row cg n event success (some bytes) w

  unfoldable pub insert_activity_log :
      Bytes → ℤ → Bytes → Bool → Option EventDetails → World → World
  insert_activity_log cg n event success none w = log_row cg n event success none w
  insert_activity_log cg n event success (some d) w =
      log_marshalled cg n event success (x.marshal_details d) w

  abbrev pub new_node : TokenRow → ℕ → Bytes → ℕ → NodeRow
  new_node t n auth_token now = record {
    group_id = t.group_id;
    node_number = pos n;
    name = t.node_name;
    auth_token_hash = x.hash_token auth_token;
    metadata = t.node_metadata;
    last_seen_at = none;
    created_at = now;
    deleted_at = none;
  }

  -- The body of the transaction: from BEGIN to COMMIT.
  unfoldable pub register_node : Bytes → Exec Error (Bytes × ℕ × Bytes)
  register_node hash = do
    execute env internal_error (λ db. db)
    now ← read_clock env
    found ← query env internal_error (λ db. find (is_usable db hash now) db.tokens)
    t ← or_raise found invalid_token
    drawn ← draw env 32
    bytes ← or_raise drawn internal_error
    group ←
        execute_returning env internal_error
          (λ db. find (λ (g : GroupRow). g.id == t.group_id) db.groups)
          (update_groups (λ (g : GroupRow). g.id == t.group_id) bump_number)
    n ← or_raise (number_of group) internal_error
    created ← read_clock env
    try_insert env internal_error internal_error
        (insert_node (new_node t n (hex_encode bytes) created))
    used ← read_clock env
    execute env internal_error
        (update_tokens (λ (r : TokenRow). r.id == t.id) (λ r. record r { used_at = some used }))
    execute env internal_error (λ db. db)
    pure (t.group_id, n, hex_encode bytes)

  abbrev attest : Bytes × ℕ × Bytes → World → Result Error Registration × World
  attest (cg, n, auth_token) w = (
    ok (record {
      connectivity_group_id = cg;
      node_number = pos n;
      auth_token = auth_token;
      attestation_jwt = or_empty (x.sign_attestation w.calls cg (pos n));
    }),
    called w,
  )

  abbrev registered : Bytes × ℕ × Bytes → Exec Error Registration
  registered (cg, n, auth_token) w =
      attest (cg, n, auth_token)
        (insert_activity_log cg (pos n) (codes "register") true
          (some (record { error_message = no_message; kind = register })) w)

  unfoldable pub complete_node_registration : Bytes → Exec Error Registration
  unfolding register_node
  complete_node_registration token = do
    allowed ← allow env
    guard allowed registration_limited
    r ← transaction (register_node (x.hash_token token))
    registered r

  abbrev pub check_hash : Bytes → NodeRow → Exec Error (Unit {0})
  check_hash auth_token row =
      guard (x.hash_token auth_token == row.auth_token_hash) invalid_credentials

  unfoldable pub authenticate_node : Bytes → ℤ → Bytes → Exec Error (Unit {0})
  authenticate_node raw n auth_token = do
    cg ← parse_group_id raw
    found ← query env internal_error (λ db. find (is_live_node cg n) db.nodes)
    row ← or_raise found invalid_credentials
    check_hash auth_token row

  unfoldable pub list_nodes : Bytes → Exec Error (List NodeInfo)
  list_nodes raw = do
    cg ← parse_group_id raw
    rows ← query env internal_error (λ db. order_by_node_number (filter (is_live_in cg) db.nodes))
    pure (map node_info rows)

  unfoldable pub live_group : Bytes → Exec Error GroupRow
  live_group raw = do
    cg ← parse_group_id raw
    found ← query env internal_error (λ db. find (is_live_group cg) db.groups)
    or_raise found group_not_found

  unfoldable pub get_roster : Bytes → Exec Error (Option Bytes × ℤ)
  get_roster raw = do g ← live_group raw; pure (g.roster, g.roster_version)

  unfoldable pub get_group_metadata : Bytes → Bytes → Exec Error GroupMetadata
  get_group_metadata instance_id raw = do
    g ← live_group raw
    pure (record {
      domain_id = instance_id;
      created_at = g.created_at;
      name = or_empty g.name;
      association_key = or_empty g.association_key;
    })

  unfoldable pub get_turn_policy : Bytes → Bytes → Exec Error TurnPolicy
  get_turn_policy instance_id raw = do
    g ← live_group raw
    pure (record {
      enabled = true;
      floor_bps = pos 0;
      ceil_bps = pos 0;
      organisation_id = instance_id;
    })

  -- Whether the statement affects a row is whether one has the expected version.
  unfoldable pub update_roster : Bytes → Bytes → ℤ → ℤ → Exec Error (Unit {0})
  update_roster raw roster new_version expected_version = do
    cg ← parse_group_id raw
    guard (not (leb_ℤ new_version expected_version)) bad_new_version
    affected ←
        execute_returning env internal_error (λ db. any (has_version cg expected_version) db.groups)
          (update_groups (has_version cg expected_version) (with_roster roster new_version))
    guard affected version_conflict

  unfoldable pub update_node_last_seen : Bytes → ℤ → Exec Error (Unit {0})
  update_node_last_seen raw n = do
    cg ← parse_group_id raw
    now ← read_clock env
    execute env internal_error
        (update_nodes (is_node cg n) (λ row. record row { last_seen_at = some now }))

  unfoldable pub deregister_node : Bytes → ℤ → Exec Error (Unit {0})
  deregister_node raw n = do
    cg ← parse_group_id raw
    now ← read_clock env
    execute env internal_error (update_nodes (is_node cg n) (stamp now))
    quietly (
        insert_activity_log cg n (codes "deregister") true
          (some (record { error_message = no_message; kind = deregister })))

  unfoldable pub log_activity :
      Bytes → ℤ → Bytes → Bool → Option EventDetails → Exec Error (Unit {0})
  log_activity raw n event success details = do
    cg ← parse_group_id raw
    quietly (insert_activity_log cg n event success details)
