-- ===== src/Standalone/Rest.antt =====
-- connect/hub/standalone_rest.go: the admin API. A handler's result is what it answers with status
-- 200, and its error any other answer. A request body is `none` where it does not bind. SHA-256, the
-- UUID parser, the roster's parser and the format of a time are parameters.

pub mod Stamped
pub mod Deletion
pub mod Reset
pub mod Admission
pub mod Steps
mod Tests
use wispers_hub.Base.{
  ℕ, suc, ◌+◌, ◌-◌, Bool, not, Option, none, some, List, map, Bytes, any, find, filter, length, ltb,
  ◌==◌, bytes_eq, is_empty, if◌then◌else◌,
}
use wispers_hub.Base.Int.{ℤ, pos, int_eq}
use wispers_hub.Strings.{parse_int}
use wispers_hub.ApiKeys.Keys.{from_auth_header}
use wispers_hub.ApiKeys.Keys
use wispers_hub.RegistrationTokens.{
  CreateRegistrationTokenRequest, MintedRegistrationToken, invalid, mint_registration_token,
}
use wispers_hub.RegistrationTokens
use wispers_hub.Standalone.Db.{
  ApiKeyRow, GroupRow, NodeRow, TokenRow, is_live_group, is_live_node, is_live_in, insert_group,
  insert_token, update_groups, update_nodes,
}
use wispers_hub.Standalone.Exec.{
  ◌>>=◌, ◌>>◌, Env, Exec, ok, err, pure, guard, or_raise, query, execute, execute_returning,
  try_insert, read_clock, uuid, called, stored,
}
use wispers_hub.Standalone.Messages.{stamp, or_empty, order_by_node_number}
use wispers_hub.Standalone.Answers.{
  Failure, Externals, GroupSummary, CreateConnectivityGroupRequest, GroupCreated, Node, GroupDetail,
  RegistrationTokenCreated, RegistrationTokenInfo, order_by_age, newest_first, is_live, summary,
  has_association_key, window, is_listed, is_pending, is_connection, map_time, revoked_in, bury,
  clear_roster, header_key, of_minted, accepts, bad_request, unauthorized, not_found, conflict,
  internal,
}

module _ (x : Externals) (env : Env) where
  -- nodeRevokedInRoster: a roster that does not parse revokes nobody.
  unfoldable pub node_revoked_in_roster : Option Bytes → ℤ → Bool
  node_revoked_in_roster roster n = revoked_in n (x.unmarshal_roster (or_empty roster))

  unfoldable pub check_api_key : Bytes → Exec Failure Bytes
  check_api_key header = do
    key ← header_key (from_auth_header x.sha256 header)
    found ← query env internal (λ db. find (λ (k : ApiKeyRow). k.id == key.id) db.api_keys)
    guard (accepts key found) unauthorized
    pure key.id

  unfoldable pub get_stats : Exec Failure ℕ
  get_stats = query env internal (λ db. length (filter is_live db.groups))

  unfoldable pub get_connectivity_groups : Bytes → Exec Failure (List GroupSummary)
  get_connectivity_groups ak =
      if is_empty ak
      then query env internal (λ db. map summary (order_by_age (filter is_live db.groups)))
      else query env internal (λ db. map summary (filter (has_association_key ak) db.groups))

  abbrev new_group_row : Bytes → ℕ → CreateConnectivityGroupRequest → GroupRow
  new_group_row id now dto = record {
    id = id;
    name = dto.name;
    association_key = dto.association_key;
    next_node_number = 1;
    roster = none;
    roster_version = pos 0;
    created_at = now;
    deleted_at = none;
  }

  -- A clash of ids breaks the primary key, which has another code than a unique index.
  abbrev refusal : Bool → Failure
  refusal id_taken = if id_taken then internal else conflict "association key conflict"

  unfoldable pub add_group : GroupRow → Exec Failure (Unit {0})
  add_group g w =
      if env.fails w.calls
      then (err internal, called w)
      else stored (refusal (any (λ (r : GroupRow). r.id == g.id) w.db.groups)) (insert_group g w.db)
          (called w)

  unfoldable pub post_connectivity_group :
      Option CreateConnectivityGroupRequest → Exec Failure GroupCreated
  post_connectivity_group body = do
    dto ← or_raise body (bad_request "invalid body")
    id ← uuid env
    now ← read_clock env
    add_group (new_group_row id now dto)
    pure (record { id = id; created_at = x.rfc3339 now; name = dto.name })

  abbrev node_of : List ℤ → NodeRow → Node
  node_of online row = record {
    node_number = row.node_number;
    created_at = x.rfc3339 row.created_at;
    name = row.name;
    last_seen_at = map_time x.rfc3339 row.last_seen_at;
    metadata = row.metadata;
    is_online = any (λ n. n == row.node_number) online;
  }

  -- A count that fails is logged, and stays 0.
  unfoldable pub count_activity : Bytes → ℕ → Exec Failure ℕ
  count_activity cg since w =
      if env.fails w.calls
      then (ok 0, called w)
      else (ok (length (filter (is_connection cg since) w.db.activity)), called w)

  unfoldable pub get_connectivity_group : Bytes → Exec Failure GroupDetail
  get_connectivity_group raw = do
    cg ← or_raise (x.parse_uuid raw) (bad_request "")
    found ← query env internal (λ db. find (is_live_group cg) db.groups)
    g ← or_raise found not_found
    rows ← query env internal (λ db. order_by_node_number (filter (is_live_in cg) db.nodes))
    week_end ← read_clock env
    connections ← count_activity cg (week_end - window)
    now ← read_clock env
    pending ← query env internal (λ db. length (filter (is_pending cg now) db.tokens))
    pure (record {
      id = cg;
      created_at = x.rfc3339 g.created_at;
      name = g.name;
      nodes = map (node_of (x.online cg)) rows;
      successful_connections_7d = connections;
      quota_current = length rows + pending;
    })

  unfoldable pub delete_connectivity_group : Bytes → Exec Failure (Unit {0})
  delete_connectivity_group raw = do
    cg ← or_raise (x.parse_uuid raw) (bad_request "")
    now ← read_clock env
    execute env internal (update_nodes (is_live_in cg) (stamp now))
    execute env internal (update_groups (is_live_group cg) (bury now))

  unfoldable pub group_exists : Bytes → Exec Failure (Unit {0})
  group_exists cg = do
    found ← query env internal (λ db. any (is_live_group cg) db.groups)
    guard found not_found

  unfoldable pub reset_connectivity_group : Bytes → Exec Failure (Unit {0})
  reset_connectivity_group raw = do
    cg ← or_raise (x.parse_uuid raw) (bad_request "")
    group_exists cg
    now ← read_clock env
    execute env internal (update_nodes (is_live_in cg) (stamp now))
    execute env internal (update_groups (is_live_group cg) clear_roster)

  -- MintRegistrationToken reads the random bytes, then the clock.
  unfoldable pub mint : CreateRegistrationTokenRequest → Exec Failure MintedRegistrationToken
  mint dto w =
      of_minted
        (mint_registration_token x.hash_token (env.random w.calls) (env.now (suc w.calls)) dto)
        (called (called w))

  abbrev pub new_token_row :
      Bytes → Bytes → CreateRegistrationTokenRequest → MintedRegistrationToken → ℕ → TokenRow
  new_token_row id cg dto m now = record {
    id = id;
    group_id = cg;
    token_hash = m.token_hash;
    node_name = dto.node_name;
    node_metadata = dto.node_metadata;
    created_at = now;
    expires_at = m.expires_at;
    used_at = none;
  }

  unfoldable pub post_registration_token :
      Bytes → Option CreateRegistrationTokenRequest → Exec Failure RegistrationTokenCreated
  post_registration_token raw body = do
    cg ← or_raise (x.parse_uuid raw) (bad_request "invalid connectivity group ID")
    dto ← or_raise body (bad_request "invalid body")
    group_exists cg
    m ← mint dto
    id ← uuid env
    now ← read_clock env
    try_insert env internal internal (insert_token (new_token_row id cg dto m now))
    pure (record { token = m.token; expires_at = x.rfc3339 m.expires_at })

  abbrev info : TokenRow → RegistrationTokenInfo
  info t = record {
    node_name = t.node_name;
    node_metadata = t.node_metadata;
    created_at = x.rfc3339 t.created_at;
    expires_at = x.rfc3339 t.expires_at;
    used_at = map_time x.rfc3339 t.used_at;
  }

  unfoldable pub get_registration_tokens : Bytes → Exec Failure (List RegistrationTokenInfo)
  get_registration_tokens raw = do
    cg ← or_raise (x.parse_uuid raw) (bad_request "invalid connectivity group ID")
    group_exists cg
    now ← read_clock env
    query env internal (λ db. map info (newest_first (filter (is_listed cg now) db.tokens)))

  abbrev rename : Bytes → NodeRow → NodeRow
  rename name row = record row { name = some name }

  abbrev with_name : Bytes → ℤ → Option Bytes → Exec Failure (Unit {0})
  with_name cg n none = pure tt
  with_name cg n (some name) = do
    guard (not (ltb 256 (length name))) (bad_request "name exceeds 256 characters")
    execute env internal (update_nodes (is_live_node cg n) (rename name))

  -- `body` is the `name` member of the request.
  unfoldable pub patch_node : Bytes → Bytes → Option (Option Bytes) → Exec Failure (Unit {0})
  patch_node raw number body = do
    cg ← or_raise (x.parse_uuid raw) (bad_request "invalid connectivity group ID")
    n ← or_raise (parse_int 32 number) (bad_request "invalid node number")
    name ← or_raise body (bad_request "invalid body")
    with_name cg n name

  unfoldable pub delete_node : Bytes → Bytes → Exec Failure (Unit {0})
  delete_node raw number = do
    cg ← or_raise (x.parse_uuid raw) (bad_request "invalid connectivity group ID")
    n ← or_raise (parse_int 32 number) (bad_request "invalid node number")
    found ← query env internal (λ db. find (is_live_group cg) db.groups)
    g ← or_raise found not_found
    there ← query env internal (λ db. any (is_live_node cg n) db.nodes)
    guard there not_found
    guard (node_revoked_in_roster g.roster n)
        (conflict "node is not marked revoked in the group's roster")
    now ← read_clock env
    affected ←
        execute_returning env internal (λ db. any (is_live_node cg n) db.nodes)
          (update_nodes (is_live_node cg n) (stamp now))
    guard affected not_found
