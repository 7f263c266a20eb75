-- ===== src/ApiKeys/Keys.antt =====
-- Generate, Parse, FromAuthHeader and split of connect/shared/apikeys.go. `zero` only wipes memory.
pub mod RoundTrip
use wispers_hub.Base.{
  ℕ, Bool, true, not, ◌&&◌, ◌||◌, Option, none, some, List, [], ◌∷◌, ◌++◌, Bytes, codes, length,
  eqb, leb, is_empty, if◌then◌else◌,
}
use wispers_hub.Strings.{cut, strip_prefix, equal_fold}
use wispers_hub.Strings
use wispers_hub.ApiKeys.Base62.{encode_base62, decode_base62}

abbrev pub id_bytes_len : ℕ
id_bytes_len = 12

abbrev pub id_encoded_len : ℕ
id_encoded_len = 17

abbrev pub secret_bytes_len : ℕ
secret_bytes_len = 32

abbrev pub secret_encoded_len : ℕ
secret_encoded_len = 43

-- keyPrefix + "_".
abbrev pub key_prefix : Bytes
key_prefix = codes "wc_"

pub record ApiKey : Type 0 where
  pub id : Bytes
  pub env : Bytes
  pub encoded : Bytes
  pub secret_hash : Bytes

pub record Parts : Type 0 where
  pub env_part : Bytes
  pub id_part : Bytes
  pub secret_part : Bytes

-- IndexByte gives -1 or the length of what stands before the byte: `cut` says both.
abbrev checked_parts : Bytes → Bytes × Bytes × Bool → Option Parts
checked_parts env (id, secret, found) =
    if not found || is_empty id || is_empty secret
    then none
    else if is_empty env
        || not (eqb (length id) id_encoded_len)
        || not (eqb (length secret) secret_encoded_len)
    then none
    else some (record { env_part = env; id_part = id; secret_part = secret })

abbrev split_env : Bytes × Bytes × Bool → Option Parts
split_env (env, remainder, found) =
    if not found || is_empty env then none else checked_parts env (cut b'.' remainder)

abbrev split_prefix : Option Bytes → Option Parts
split_prefix none = none
split_prefix (some trimmed) = split_env (cut b'_' trimmed)

-- The empty text has no prefix, so its test of its own changes nothing.
unfoldable pub split : Bytes → Option Parts
split raw = if is_empty raw then none else split_prefix (strip_prefix key_prefix raw)

-- The white space of ASCII that strings.TrimSpace removes.
abbrev is_space : ℕ → Bool
is_space c = eqb c 32 || (leb 9 c && leb c 13)

-- strings.TrimSpace(env) == "", for a text of ASCII.
unfoldable pub is_blank : Bytes → Bool
is_blank [] = true
is_blank (c ∷ s) = is_space c && is_blank s

pub data AuthError : Type 0 where
  no_auth_header bad_auth_header invalid_key : AuthError

pub data Authorized : Type 0 where
  ok : ApiKey → Authorized
  err : AuthError → Authorized

module _ (sha256 : Bytes → Bytes) where
  abbrev pub key_of : Bytes → Bytes → Bytes → Option Bytes → Option Bytes → Option ApiKey
  key_of env id_bytes secret_bytes (some id) (some secret) = some (record {
    id = id;
    env = env;
    encoded = key_prefix ++ (env ++ b'_' ∷ (id ++ b'.' ∷ secret));
    secret_hash = sha256 secret_bytes;
  })
  key_of env id_bytes secret_bytes _ _ = none

  -- The two reads of the random reader are arguments, `none` where one fails. The result is `none`
  -- on an error; encodeBase62 does not panic at these lengths.
  unfoldable pub generate_with_reader : Bytes → Option Bytes → Option Bytes → Option ApiKey
  generate_with_reader env none secret_bytes = none
  generate_with_reader env (some id_bytes) none = none
  generate_with_reader env (some id_bytes) (some secret_bytes) =
      if is_blank env
      then none
      else key_of env id_bytes secret_bytes (encode_base62 id_bytes id_encoded_len)
          (encode_base62 secret_bytes secret_encoded_len)

  abbrev pub with_secret : Bytes → Parts → Option Bytes → Option ApiKey
  with_secret raw p none = none
  with_secret raw p (some secret_bytes) = some (record {
    id = p.id_part;
    env = p.env_part;
    encoded = raw;
    secret_hash = sha256 secret_bytes;
  })

  abbrev pub parse_parts : Bytes → Option Parts → Option ApiKey
  parse_parts raw none = none
  parse_parts raw (some p) = with_secret raw p (decode_base62 p.secret_part secret_bytes_len)

  unfoldable pub parse : Bytes → Option ApiKey
  parse raw = parse_parts raw (split raw)

  abbrev or_invalid : Option ApiKey → Authorized
  or_invalid none = err invalid_key
  or_invalid (some key) = ok key

  abbrev of_header_parts : List Bytes → Authorized
  of_header_parts (scheme ∷ token ∷ []) =
      if equal_fold scheme (codes "bearer") then or_invalid (parse token) else err bad_auth_header
  of_header_parts _ = err bad_auth_header

  unfoldable pub from_auth_header : Bytes → Authorized
  from_auth_header header =
      if is_empty header then err no_auth_header else of_header_parts (Strings.split b' ' header)
