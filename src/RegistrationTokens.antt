-- ===== src/RegistrationTokens.antt =====
-- connect/shared/integratorapi.go: minting registration tokens. Times are Unix milliseconds: a time
-- to live is a whole number of them. The hash, SHA-256 in hexadecimal, is a parameter.
pub mod Laws
use wispers_hub.Base.{
  ℕ, ◌+◌, ◌-◌, ◌*◌, ◌/◌, ◌%◌, Bool, false, ◌||◌, Option, none, some, List, [], ◌∷◌, ◌++◌, Bytes,
  String, codes, length, ltb, if◌then◌else◌, bytes_eq,
}
use wispers_hub.Base.Assoc.{lookup}

pub record CreateRegistrationTokenRequest : Type 0 where
  pub node_name : Option Bytes
  pub node_metadata : Option Bytes
  pub codehalf : Option Bytes
  pub ttl_profile : Option Bytes

pub record RegistrationTtlProfile : Type 0 where
  pub token_bytes : ℕ
  pub ttl : ℕ

pub record MintedRegistrationToken : Type 0 where
  pub token : Bytes
  pub token_hash : Bytes
  pub expires_at : ℕ

pub data Minted : Type 0 where
  minted : MintedRegistrationToken → Minted
  invalid : String → Minted
  internal : Minted

abbrev pub minute : ℕ
minute = 60 * 1000

abbrev pub interactive : RegistrationTtlProfile
interactive = record { token_bytes = 4; ttl = 5 * minute }

abbrev pub asynchronous : RegistrationTtlProfile
asynchronous = record { token_bytes = 8; ttl = 24 * 60 * minute }

abbrev registration_ttl_profiles : List (Bytes × RegistrationTtlProfile)
registration_ttl_profiles =
    (codes "interactive", interactive) ∷ (codes "asynchronous", asynchronous) ∷ []

unfoldable pub profile_of : Option Bytes → Option RegistrationTtlProfile
unfolding lookup
profile_of none = lookup (codes "interactive") registration_ttl_profiles
profile_of (some name) = lookup name registration_ttl_profiles

abbrev hex_digit : ℕ → ℕ
hex_digit d = if ltb d 10 then b'0' + d else b'a' + d - 10

-- hex.EncodeToString.
unfoldable pub hex_encode : Bytes → Bytes
hex_encode [] = []
hex_encode (b ∷ bs) = hex_digit (b / 16) ∷ hex_digit (b % 16) ∷ hex_encode bs

abbrev pub longer_than : ℕ → Option Bytes → Bool
longer_than n none = false
longer_than n (some s) = ltb n (length s)

abbrev pub bad_codehalf : Option Bytes → Bool
bad_codehalf none = false
bad_codehalf (some s) = ltb (length s) 16 || ltb 256 (length s)

-- What is hashed: the token, behind the codehalf if there is one.
abbrev pub hash_input : Option Bytes → Bytes → Bytes
hash_input none token = token
hash_input (some codehalf) token = codehalf ++ token

-- Random bytes of a length, `none` where the read fails; the clock.
module _ (hash : Bytes → Bytes) (random : ℕ → Option Bytes) (now : ℕ) where
  abbrev pub with_random :
      CreateRegistrationTokenRequest → RegistrationTtlProfile → Option Bytes → Minted
  with_random req p none = internal
  with_random req p (some bytes) = minted (record {
    token = hex_encode bytes;
    token_hash = hash (hash_input req.codehalf (hex_encode bytes));
    expires_at = now + p.ttl;
  })

  abbrev pub with_profile : CreateRegistrationTokenRequest → Option RegistrationTtlProfile → Minted
  with_profile req none = invalid "ttlProfile must be \"interactive\" or \"asynchronous\""
  with_profile req (some p) = with_random req p (random p.token_bytes)

  unfoldable pub mint_registration_token : CreateRegistrationTokenRequest → Minted
  mint_registration_token req =
      if longer_than 256 req.node_name
      then invalid "nodeName exceeds 256 characters"
      else if longer_than 256 req.node_metadata
      then invalid "nodeMetadata exceeds 256 characters"
      else if bad_codehalf req.codehalf
      then invalid "codehalf must be 16-256 characters"
      else with_profile req (profile_of req.ttl_profile)
