-- ===== src/Tests.antt =====
-- The theorems about connect/hub/sharding.go and connect/shared at concrete inputs.
use wispers_hub.Base.{
  zero, suc, ◌<◌, All, ℕ, ◌≡◌, refl, ◌+◌, inr, false, Option, none, some, [], ◌∷◌, ◌++◌, Bytes,
  codes, length, replicate, arith,
}
use wispers_hub.Base.Int.{pos}
use wispers_hub.Strings.{contains}
use wispers_hub.TurnCreds
use wispers_hub.TurnCreds.{mint, verify, username_of, invalid_rates}
use wispers_hub.TurnCreds.RoundTrip.{verify-mint, verify-mint_invalid}
use wispers_hub.ApiKeys.Base62.{encode_base62, decode_base62}
use wispers_hub.ApiKeys.Base62.RoundTrip.{decode_base62-encode_base62}
use wispers_hub.ApiKeys.Keys.{ApiKey, generate_with_reader, from_auth_header, is_blank}
use wispers_hub.ApiKeys.Keys
use wispers_hub.ApiKeys.Keys.RoundTrip.{from_auth_header-generate}
use wispers_hub.RegistrationTokens.{
  CreateRegistrationTokenRequest, MintedRegistrationToken, minted, mint_registration_token,
  profile_of, hex_encode,
}
use wispers_hub.RegistrationTokens.Laws.{Within, Hashed, Fresh, mint_registration_token-eq-minted}

-- A stand-in for the keyed hash, and one for SHA-256.
abbrev sign : Bytes → Bytes
sign username = length username ∷ []

abbrev hash : Bytes → Bytes
hash s = length s ∷ []

abbrev subject : Bytes
subject = codes "org"

verify-mint_example :
    verify sign
      (username_of subject (pos 10) (pos 20) (pos 99))
      (sign (username_of subject (pos 10) (pos 20) (pos 99)))
    ≡ TurnCreds.ok
        (record { subject = subject; floor_bps = pos 10; ceil_bps = pos 20; expiry = pos 99 })
unfolding mint contains
verify-mint_example =
    verify-mint sign subject (pos 10) (pos 20) (pos 99) _ _ (ground arith, ground arith)
      (ground arith, ground arith) (ground arith, ground arith) (ground arith, inr (ground arith))
      refl

verify-mint_invalid_example :
    (username : Bytes) × (password : Bytes) × (mint sign subject (pos 20) (pos 10) (pos 99)
      ≡ some (username, password))
    × (verify sign username password ≡ TurnCreds.err (invalid_rates (pos 20) (pos 10)))
unfolding contains
verify-mint_invalid_example =
    verify-mint_invalid sign subject (pos 20) (pos 10) (pos 99) (ground arith, ground arith)
      (ground arith, ground arith) (ground arith, ground arith) (ground arith) (inr (ground arith))
      refl refl

decode_base62-encode_base62_example :
    (t : Bytes) × (encode_base62 (0 ∷ 255 ∷ []) 3 ≡ some t)
    × (length t ≡ 3)
    × (decode_base62 t 2 ≡ some (0 ∷ 255 ∷ []))
decode_base62-encode_base62_example =
    decode_base62-encode_base62 (0 ∷ 255 ∷ []) 3 (ground arith, (ground arith, tt)) (ground arith)
      (ground arith)

abbrev id_bytes : Bytes
id_bytes = replicate 12 7

abbrev secret_bytes : Bytes
secret_bytes = replicate 32 9

not_blank : is_blank (codes "prod") ≡ false
unfolding is_blank
not_blank = refl

from_auth_header-generate_example :
    (key : ApiKey) × (generate_with_reader hash (codes "prod") (some id_bytes) (some secret_bytes)
      ≡ some key)
    × (key.env ≡ codes "prod")
    × (from_auth_header hash (codes "Bearer " ++ key.encoded) ≡ Keys.ok key)
from_auth_header-generate_example =
    from_auth_header-generate hash (codes "prod") id_bytes secret_bytes not_blank (ground arith)
      (ground arith) (ground arith) (ground arith) refl refl

abbrev random : ℕ → Option Bytes
random n = some (replicate n 171)

abbrev token_request : CreateRegistrationTokenRequest
token_request = record {
  node_name = some (codes "laptop");
  node_metadata = none;
  codehalf = some (codes "0123456789abcdef");
  ttl_profile = none;
}

abbrev token : MintedRegistrationToken
token = record {
  token = codes "abababab";
  token_hash = hash (codes "0123456789abcdefabababab");
  expires_at = 1000 + 300_000;
}

minted_token : mint_registration_token hash random 1000 token_request ≡ minted token
unfolding mint_registration_token profile_of hex_encode
minted_token = refl

drawn : (n b : ℕ) → b < 256 → (length (replicate n b) ≡ n) × All (λ c. c < 256) (replicate n b)
drawn zero b h = (refl, tt)
drawn (suc n) b h = let rest = drawn n b h in (omega (arith, rest.0), (h, rest.1))

draws :
    (n : ℕ) (bytes : Bytes) → random n ≡ some bytes → (length bytes ≡ n) × All (λ b. b < 256) bytes
draws n bytes e = let same : replicate n 171 ≡ bytes = cc in rw (← same) (drawn n 171 (omega arith))

mint_registration_token-eq-minted_example :
    Within 0 256 token_request.node_name
    × Within 0 256 token_request.node_metadata
    × Within 16 256 token_request.codehalf
    × Hashed hash token_request.codehalf token
    × Fresh hash random 1000 token_request token draws
mint_registration_token-eq-minted_example =
    mint_registration_token-eq-minted hash random 1000 token_request token draws minted_token
