-- ===== src/Standalone/Rest/Tests.antt =====
-- Runs of the model of connect/hub/standalone_rest.go, and its theorems at concrete inputs.
use wispers_hub.Base.{
  ℕ, suc, ◌≡◌, refl, true, false, none, some, [], ◌∷◌, ◌++◌, Bytes, codes, replicate, length, any,
  find, ◌==◌, bytes_eq, ltb, ◌&&◌,
}
use wispers_hub.Base.Int.{pos}
use wispers_hub.Strings.{parse_int, parse_digits, cut, strip_prefix, split, to_lower, equal_fold}
use wispers_hub.Strings
use wispers_hub.ApiKeys.Base62.{decode_base62, decode_loop, base62_indices, int_bytes}
use wispers_hub.ApiKeys.Keys.{ApiKey, from_auth_header, parse}
use wispers_hub.ApiKeys.Keys
use wispers_hub.RegistrationTokens.{
  CreateRegistrationTokenRequest, MintedRegistrationToken, minted, mint_registration_token,
  profile_of, hex_encode,
}
use wispers_hub.Standalone.Db.{
  Db, ApiKeyRow, GroupRow, NodeRow, TokenRow, empty_db, is_null, is_usable, is_live_group,
  is_live_node, update_nodes, insert_token,
}
use wispers_hub.Standalone.Exec.{
  Env, World, ok, err, ◌>>=◌, pure, guard, or_raise, query, execute_returning, try_insert,
  read_clock, uuid, called,
}
use wispers_hub.Standalone.Backend.{authenticate_node, complete_node_registration}
use wispers_hub.Standalone.Messages.{Registration, invalid_credentials, stamp}
use wispers_hub.Standalone.Messages
use wispers_hub.Standalone.Rest.{
  delete_connectivity_group, delete_node, reset_connectivity_group, post_registration_token,
  check_api_key, group_exists, mint, node_revoked_in_roster,
}
use wispers_hub.Standalone.Answers.{Externals, RegistrationTokenCreated}
use wispers_hub.Standalone.Rest.Deletion.{delete_connectivity_group-closed, delete_node-revoked}
use wispers_hub.Standalone.Rest.Admission.{post_registration_token-eq-ok, check_api_key-eq-ok}

abbrev hash : Bytes → Bytes
hash s = length s ∷ s

abbrev backend : Messages.Externals
backend = record {
  hash_token = hash;
  parse_uuid = λ s. some s;
  marshal_details = λ d. none;
  sign_attestation = λ t cg n. none;
}

-- Every roster revokes node 1.
abbrev externals : Externals
externals = record {
  sha256 = hash;
  hash_token = hash;
  parse_uuid = λ s. some s;
  unmarshal_roster = λ s. some (record {
    version = pos 1;
    nodes = record { node_number = pos 1; revoked = true } ∷ [];
    addenda = [];
  });
  rfc3339 = λ t. t ∷ [];
  online = λ cg. [];
}

abbrev env : Env
env = record {
  fails = λ i. false;
  now = λ i. 1000;
  random = λ i n. some (replicate n 171);
  new_uuid = λ i. codes "u";
  allows = λ i. true;
}

abbrev group : GroupRow
group = record {
  id = codes "g";
  name = none;
  association_key = none;
  next_node_number = 2;
  roster = some [];
  roster_version = pos 1;
  created_at = 1;
  deleted_at = none;
}

abbrev node : NodeRow
node = record {
  group_id = codes "g";
  node_number = pos 1;
  name = none;
  auth_token_hash = [];
  metadata = none;
  last_seen_at = none;
  created_at = 1;
  deleted_at = none;
}

abbrev header : Bytes
header = codes "Bearer wc_prod_00000000000000000.0000000000000000000000000000000000000000000"

abbrev zeros : Bytes
zeros = replicate 32 0

abbrev key_row : ApiKeyRow
key_row = record {
  id = replicate 17 b'0';
  secret_hash = hex_encode (hash zeros);
  name = none;
  created_at = 1;
  revoked_at = none;
}

abbrev start : World
start = record {
  db = record empty_db { groups = group ∷ []; nodes = node ∷ []; api_keys = key_row ∷ [] };
  calls = 0;
}

abbrev deleted : World
deleted = (delete_connectivity_group externals env (codes "g") start).1

deletes : delete_connectivity_group externals env (codes "g") start ≡ (ok tt, deleted)
unfolding delete_connectivity_group ◌>>=◌ or_raise read_clock execute_returning
deletes = refl

abbrev registration : Registration
registration = record {
  connectivity_group_id = codes "g";
  node_number = pos 2;
  auth_token = [];
  attestation_jwt = [];
}

delete_connectivity_group-closed_example :
    (authenticate_node backend env (codes "g") (pos 1) (codes "a") deleted
      ≡ (err invalid_credentials, called deleted))
    × (¬ (
        (complete_node_registration backend env (codes "b") deleted ≡ (ok registration, start))
        × (registration.connectivity_group_id ≡ codes "g")))
delete_connectivity_group-closed_example =
    delete_connectivity_group-closed externals backend env env (codes "g") (codes "a") (codes "b")
      (codes "g") (pos 1) start deleted deleted start registration deletes refl refl refl refl refl

abbrev removed : World
removed = (delete_node externals env (codes "g") (codes "1") start).1

reads_one : parse_int 32 (codes "1") ≡ some (pos 1)
unfolding parse_int parse_digits
reads_one = refl

removes : delete_node externals env (codes "g") (codes "1") start ≡ (ok tt, removed)
unfolding delete_node ◌>>=◌ or_raise read_clock execute_returning query guard parse_int parse_digits
    node_revoked_in_roster
removes = refl

delete_node-revoked_example :
    ((g : GroupRow) × (now : ℕ) × (find (is_live_group (codes "g")) start.db.groups ≡ some g)
      × (any (is_live_node (codes "g") (pos 1)) start.db.nodes ≡ true)
      × (node_revoked_in_roster externals env g.roster (pos 1) ≡ true)
      × (removed.db ≡ update_nodes (is_live_node (codes "g") (pos 1)) (stamp now) start.db))
    × (authenticate_node backend env (codes "g") (pos 1) (codes "a") removed
        ≡ (err invalid_credentials, called removed))
delete_node-revoked_example =
    delete_node-revoked externals backend env env (codes "g") (codes "1") (codes "a") (codes "g")
      (pos 1) start removed removed removes reads_one refl refl refl refl

abbrev cleared : World
cleared = (reset_connectivity_group externals env (codes "g") start).1

abbrev request : CreateRegistrationTokenRequest
request = record { node_name = none; node_metadata = none; codehalf = none; ttl_profile = none }

abbrev posted : World
posted = (post_registration_token externals env (codes "g") (some request) start).1

abbrev created : RegistrationTokenCreated
created = record { token = codes "abababab"; expires_at = 301_000 ∷ [] }

posts :
    post_registration_token externals env (codes "g") (some request) start ≡ (ok created, posted)
unfolding post_registration_token group_exists mint ◌>>=◌ or_raise read_clock uuid try_insert query
    guard pure insert_token mint_registration_token profile_of hex_encode
posts = refl

post_registration_token-eq-ok_example :
    (dto : CreateRegistrationTokenRequest) × (cg : Bytes) × (m : MintedRegistrationToken)
    × (t : TokenRow) × (i : ℕ) × (some request ≡ some dto)
    × (externals.parse_uuid (codes "g") ≡ some cg)
    × (any (is_live_group cg) start.db.groups ≡ true)
    × (mint_registration_token externals.hash_token (env.random i) (env.now (suc i)) dto ≡ minted m)
    × (created.token ≡ m.token)
    × (posted.db ≡ record start.db { tokens = start.db.tokens ++ t ∷ [] })
    × ((db : Db) (now : ℕ)
        → is_usable db m.token_hash now t
          ≡ (ltb now m.expires_at && any (is_live_group cg) db.groups))
post_registration_token-eq-ok_example =
    post_registration_token-eq-ok externals env (codes "g") (some request) start posted created
      posts

admits : check_api_key externals env header start ≡ (ok (replicate 17 b'0'), called start)
unfolding check_api_key ◌>>=◌ pure query guard from_auth_header parse Keys.split decode_base62
    decode_loop base62_indices int_bytes Strings.split cut strip_prefix equal_fold to_lower
    hex_encode
admits = refl

check_api_key-eq-ok_example :
    (key : ApiKey) × (row : ApiKeyRow) × (from_auth_header externals.sha256 header ≡ Keys.ok key)
    × (replicate 17 b'0' ≡ key.id)
    × (find (λ (k : ApiKeyRow). k.id == replicate 17 b'0') start.db.api_keys ≡ some row)
    × (is_null row.revoked_at ≡ true)
    × (hex_encode key.secret_hash ≡ row.secret_hash)
check_api_key-eq-ok_example =
    check_api_key-eq-ok externals env header (replicate 17 b'0') start (called start) admits
