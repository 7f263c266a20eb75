-- ===== src/Standalone/StartUp/Tests.antt =====
-- Openings of the standalone hub's state, connect/hub/standalone.go, at concrete inputs.
use wispers_hub.Base.{
  any, ◌≡◌, refl, true, false, none, some, [], ◌∷◌, ◌++◌, Bytes, codes, replicate, arith,
}
use wispers_hub.ApiKeys.Base62.{encode_base62, encode_loop, set_bytes}
use wispers_hub.ApiKeys.Keys.{generate_with_reader, is_blank}
use wispers_hub.Base.Assoc.{lookup, insert}
use wispers_hub.Standalone.Db.{empty_db, insert_api_key}
use wispers_hub.Standalone.Exec.{
  Env, World, ok, ◌>>=◌, pure, guard, or_raise, query, execute_returning, try_insert, read_clock,
  draw, uuid, called,
}
use wispers_hub.Standalone.Answers
use wispers_hub.Standalone.Rest.{check_api_key}
use wispers_hub.Standalone.StartUp.{
  Externals, State, insert_meta, generate_and_store, stored_or_new, ensure_meta, new_instance_id,
  new_attestation_key, ensure_attestation_key, ensure_api_key, mint_api_key, write_bootstrap_file,
  open_state, is_active,
}
use wispers_hub.Standalone.StartUp.Reopening.{open_state-again}
use wispers_hub.Standalone.StartUp.Bootstrap.{check_api_key-ensure_api_key}

abbrev externals : Externals
externals = record {
  sha256 = λ s. s;
  new_key_pem = λ i. some (codes "pem");
  parse_key = λ pem. some pem;
  key_set = λ key. some (b'k' ∷ key);
  file_written = λ i. true;
}

abbrev env : Env
env = record {
  fails = λ i. false;
  now = λ i. 1000;
  random = λ i n. some (replicate n 7);
  new_uuid = λ i. codes "id";
  allows = λ i. true;
}

abbrev fresh : World
fresh = record { db = empty_db; calls = 0 }

abbrev rest_externals : Answers.Externals
rest_externals = record {
  sha256 = λ s. s;
  hash_token = λ s. s;
  parse_uuid = λ s. some s;
  unmarshal_roster = λ s. none;
  rfc3339 = λ t. [];
  online = λ s. [];
}

abbrev with_key : World
with_key = (ensure_api_key externals env fresh).1

-- The key behind its first letter.
abbrev key_tail : Bytes
key_tail = codes "c_standalone_02pMtvso8EmzYk4j1.1fJjkkpe9PiTw9KSulA8Ghct30vZz4HpdQ5c5b9cPF1"

makes_key : ensure_api_key externals env fresh ≡ (ok (b'w' ∷ key_tail), with_key)
unfolding ensure_api_key mint_api_key ◌>>=◌ pure or_raise query try_insert read_clock draw
    insert_api_key generate_with_reader encode_base62 set_bytes encode_loop is_blank
makes_key = refl

check_api_key-ensure_api_key_example :
    (id : Bytes) × (check_api_key rest_externals env (codes "Bearer " ++ b'w' ∷ key_tail) with_key
      ≡ (ok id, called with_key))
check_api_key-ensure_api_key_example =
    check_api_key-ensure_api_key externals rest_externals env env key_tail (replicate 12 7)
      (replicate 32 7) b'w' fresh with_key with_key refl refl refl (ground arith) (ground arith)
      refl refl makes_key refl refl

abbrev opened : World
opened = (open_state externals env fresh).1

abbrev state : State
state = record {
  instance_id = codes "id";
  signing_key = codes "pem";
  jwks = codes "kpem";
  bootstrap_api_key = b'w' ∷ key_tail;
}

opens : open_state externals env fresh ≡ (ok state, opened)
unfolding open_state ensure_meta stored_or_new generate_and_store insert_meta new_instance_id
    new_attestation_key ensure_attestation_key ensure_api_key mint_api_key write_bootstrap_file
    ◌>>=◌ pure guard or_raise query execute_returning try_insert read_clock draw uuid insert_api_key
    generate_with_reader encode_base62 set_bytes encode_loop is_blank lookup insert
opens = refl

active : any is_active opened.db.api_keys ≡ true
unfolding open_state ensure_meta stored_or_new generate_and_store insert_meta new_instance_id
    new_attestation_key ensure_attestation_key ensure_api_key mint_api_key write_bootstrap_file
    ◌>>=◌ pure guard or_raise query execute_returning try_insert read_clock draw uuid insert_api_key
    generate_with_reader encode_base62 set_bytes encode_loop is_blank lookup insert
active = refl

open_state-again_example :
    (w3 : World) × (open_state externals env opened
      ≡ (ok (record state { bootstrap_api_key = [] }), w3))
    × (w3.db ≡ opened.db)
open_state-again_example =
    open_state-again externals env env state fresh opened opened opens refl active (λ i. refl)
