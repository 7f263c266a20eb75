-- ===== src/Standalone/Fixtures.antt =====
-- A small standalone hub for the examples: one group with one registration token, and nothing fails.
use wispers_hub.Base.{true, false, none, some, [], ◌∷◌, codes, replicate, length}
use wispers_hub.Base.Int.{pos}
use wispers_hub.Standalone.Db.{GroupRow, TokenRow, empty_db}
use wispers_hub.Standalone.Exec.{Env, World}
use wispers_hub.Standalone.Messages.{Externals}

abbrev pub externals : Externals
externals = record {
  hash_token = λ s. length s ∷ s;
  parse_uuid = λ s. some s;
  marshal_details = λ d. some [];
  sign_attestation = λ t cg n. none;
}

-- Nothing fails, the clock stands still, and the random bytes are all 7.
abbrev pub env : Env
env = record {
  fails = λ i. false;
  now = λ i. 1000;
  random = λ i n. some (replicate n 7);
  new_uuid = λ i. [];
  allows = λ i. true;
}

abbrev pub group : GroupRow
group = record {
  id = codes "g";
  name = none;
  association_key = none;
  next_node_number = 1;
  roster = none;
  roster_version = pos 0;
  created_at = 1;
  deleted_at = none;
}

abbrev pub token : TokenRow
token = record {
  id = codes "t";
  group_id = codes "g";
  token_hash = externals.hash_token (codes "abab");
  node_name = none;
  node_metadata = none;
  created_at = 1;
  expires_at = 2000;
  used_at = none;
}

abbrev pub start : World
start = record { db = record empty_db { groups = group ∷ []; tokens = token ∷ [] }; calls = 0 }
