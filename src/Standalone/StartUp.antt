-- ===== src/Standalone/StartUp.antt =====
-- Open of connect/hub/standalone.go with ensureMeta, ensureAttestationKey and ensureAPIKey: what a
-- standalone hub makes once and keeps in its database. The schema only creates tables that are missing.
pub mod Stored
pub mod Reopening
pub mod Bootstrap
mod Tests
use wispers_hub.Base.{
  ℕ, Bool, Option, none, some, [], ◌∷◌, Bytes, codes, length, filter, ltb, if◌then◌else◌, bytes_eq,
}
use wispers_hub.Base.Assoc.{lookup, insert}
use wispers_hub.ApiKeys.Keys.{ApiKey, generate_with_reader}
use wispers_hub.RegistrationTokens.{hex_encode}
use wispers_hub.Standalone.Db.{Db, ApiKeyRow, is_null, insert_api_key}
use wispers_hub.Standalone.Exec.{
  ◌>>=◌, ◌>>◌, Env, Exec, pure, or_raise, query, execute, try_insert, read_clock, draw, uuid, guard,
  called,
}

pub data Failure : Type 0 where
  apply_schema : Failure
  read_meta generate_meta store_meta : (key : Bytes) → Failure
  bad_attestation_key no_key_set : Failure
  count_api_keys generate_api_key store_api_key : Failure
  write_key_file : Failure

-- SHA-256; a fresh Ed25519 key in PEM, `none` where making it fails, by the number of the call; the
-- stored text as a key; its public key set; and whether the file beside the database is written.
pub record Externals : Type 0 where
  pub sha256 : Bytes → Bytes
  pub new_key_pem : ℕ → Option Bytes
  pub parse_key : Bytes → Option Bytes
  pub key_set : Bytes → Option Bytes
  pub file_written : ℕ → Bool

pub record State : Type 0 where
  pub instance_id : Bytes
  pub signing_key : Bytes
  pub jwks : Bytes
  pub bootstrap_api_key : Bytes

abbrev pub instance_id_key : Bytes
instance_id_key = codes "instance_id"

abbrev pub attestation_key : Bytes
attestation_key = codes "attestation_key_pem"

-- apiKeyEnv.
abbrev pub api_key_env : Bytes
api_key_env = codes "standalone"

abbrev stored_once : Bytes → Bytes → Option Bytes → Db → Option Db
stored_once key value none db = some (record db { meta = insert key value db.meta })
stored_once key value (some old) db = none

unfoldable pub insert_meta : Bytes → Bytes → Db → Option Db
insert_meta key value db = stored_once key value (lookup key db.meta) db

abbrev pub is_active : ApiKeyRow → Bool
is_active row = is_null row.revoked_at

abbrev pub bootstrap_row : ApiKey → ℕ → ApiKeyRow
bootstrap_row key now = record {
  id = key.id;
  secret_hash = hex_encode key.secret_hash;
  name = some (codes "bootstrap");
  created_at = now;
  revoked_at = none;
}

module _ (x : Externals) (env : Env) where
  unfoldable pub generate_and_store : Bytes → Exec Failure (Option Bytes) → Exec Failure Bytes
  generate_and_store key generate = do
    generated ← generate
    value ← or_raise generated (generate_meta key)
    try_insert env (store_meta key) (store_meta key) (insert_meta key value)
    pure value

  unfoldable pub stored_or_new :
      Bytes → Exec Failure (Option Bytes) → Option Bytes → Exec Failure Bytes
  stored_or_new key generate none w = generate_and_store key generate w
  stored_or_new key generate (some value) w = pure value w

  unfoldable pub ensure_meta : Bytes → Exec Failure (Option Bytes) → Exec Failure Bytes
  ensure_meta key generate = do
    found ← query env (read_meta key) (λ db. lookup key db.meta)
    stored_or_new key generate found

  unfoldable pub new_instance_id : Exec Failure (Option Bytes)
  new_instance_id = do id ← uuid env; pure (some id)

  unfoldable pub new_attestation_key : Exec Failure (Option Bytes)
  new_attestation_key w = pure (x.new_key_pem w.calls) (called w)

  unfoldable pub ensure_attestation_key : Exec Failure Bytes
  ensure_attestation_key = do
    pem ← ensure_meta attestation_key new_attestation_key
    or_raise (x.parse_key pem) bad_attestation_key

  unfoldable pub mint_api_key : Exec Failure Bytes
  mint_api_key = do
    id_bytes ← draw env 12
    secret_bytes ← draw env 32
    key ←
        or_raise (generate_with_reader x.sha256 api_key_env id_bytes secret_bytes) generate_api_key
    now ← read_clock env
    try_insert env store_api_key store_api_key (insert_api_key (bootstrap_row key now))
    pure key.encoded

  unfoldable pub ensure_api_key : Exec Failure Bytes
  ensure_api_key = do
    n ← query env count_api_keys (λ db. length (filter is_active db.api_keys))
    if ltb 0 n then pure [] else mint_api_key

  abbrev written : Bool → Exec Failure (Unit {0})
  written b = guard b write_key_file

  unfoldable pub write_bootstrap_file : Bytes → Exec Failure (Unit {0})
  write_bootstrap_file [] w = pure tt w
  write_bootstrap_file (c ∷ key) w = written (x.file_written w.calls) (called w)

  unfoldable pub open_state : Exec Failure State
  open_state = do
    execute env apply_schema (λ db. db)
    id ← ensure_meta instance_id_key new_instance_id
    key ← ensure_attestation_key
    set ← or_raise (x.key_set key) no_key_set
    bootstrap ← ensure_api_key
    write_bootstrap_file bootstrap
    pure (record { instance_id = id; signing_key = key; jwks = set; bootstrap_api_key = bootstrap })
