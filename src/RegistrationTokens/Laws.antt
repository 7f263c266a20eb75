-- ===== src/RegistrationTokens/Laws.antt =====
-- When minting in connect/shared/integratorapi.go succeeds, and with what.
use wispers_hub.Base.{
  ap, sym, ==_iff, ◌-◌, ◌*◌, ◌/◌, ◌%◌, ◌<◌, ◌≤◌, ◌∷◌, ◌++◌, [], length, ltb, if◌then◌else◌, All, ℕ,
  ◌+◌, ◌≡◌, ◌⊎◌, inl, inr, refl, false, Option, none, some, Bytes, codes, arith, bytes_eqb,
  Bool-cases, bytes_eq,
}
use wispers_hub.RegistrationTokens.{
  CreateRegistrationTokenRequest, RegistrationTtlProfile, MintedRegistrationToken, minted,
  interactive, asynchronous, profile_of, longer_than, bad_codehalf, hash_input, hex_encode,
  with_random, with_profile, mint_registration_token,
}

-- The profile that a request asks for, and how long a token it has and how long that lives.
abbrev pub Profile : Option Bytes → ℕ → ℕ → Type 0
Profile o bytes ttl =
    (((o ≡ none) ⊎ (o ≡ some (codes "interactive"))) × (bytes ≡ 4) × (ttl ≡ 300_000))
    ⊎ ((o ≡ some (codes "asynchronous")) × (bytes ≡ 8) × (ttl ≡ 86_400_000))

profile_of-Profile :
    (o : Option Bytes) (p : RegistrationTtlProfile)
    → profile_of o ≡ some p
    → Profile o p.token_bytes p.ttl
unfolding profile_of
profile_of-Profile none p h =
    let e : interactive ≡ p = cc in inl (inl refl, rw (← e) refl, rw (← e) refl)
profile_of-Profile (some name) p h = elim (Bool-cases (bytes_eqb (codes "interactive") name)) [
  | inl e ↦
      let q : interactive ≡ p = cc (rw e at h) in
      inl (
        inr (ap some (sym ((==_iff (codes "interactive") name).0 e))),
        rw (← q) refl,
        rw (← q) refl,
      )
  | inr n ↦ elim (Bool-cases (bytes_eqb (codes "asynchronous") name)) [
    | inl e ↦
        let q : asynchronous ≡ p = cc (rw (n, e) at h) in
        inr (ap some (sym ((==_iff (codes "asynchronous") name).0 e)), rw (← q) refl, rw (← q) refl)
    | inr k ↦ absurd (cc (rw (n, k) at h))
  ]
]

-- hex.DecodeString, of what the encoder can write.
abbrev pub nibble : ℕ → ℕ
nibble c = if ltb c b'a' then c - b'0' else c - b'a' + 10

abbrev pub hex_decode : Bytes → Bytes
hex_decode (a ∷ b ∷ s) = (nibble a * 16 + nibble b) ∷ hex_decode s
hex_decode s = []

nibble_digit : (d : ℕ) → d < 16 → nibble (if ltb d 10 then b'0' + d else b'a' + d - 10) ≡ d
nibble_digit d h = ground arith

hex_decode-hex_encode : (bs : Bytes) → All (λ b. b < 256) bs → hex_decode (hex_encode bs) ≡ bs
unfolding hex_encode
hex_decode-hex_encode [] w = refl
hex_decode-hex_encode (b ∷ bs) w =
    let high = nibble_digit (b / 16) (omega (arith, w.0)) in
    let low = nibble_digit (b % 16) (omega arith) in
    let whole : b / 16 * 16 + b % 16 ≡ b = omega arith in
    rw (high, low, whole, hex_decode-hex_encode bs w.1) refl

length-hex_encode : (bs : Bytes) → length (hex_encode bs) ≡ 2 * length bs
unfolding hex_encode
length-hex_encode [] = refl
length-hex_encode (b ∷ bs) = omega (arith, length-hex_encode bs)

-- A text that is left out, or one whose length is within the bounds.
abbrev pub Within : ℕ → ℕ → Option Bytes → Type 0
Within low high none = Unit
Within low high (some s) = (low ≤ length s) × (length s ≤ high)

longer_than-Within : (n : ℕ) (o : Option Bytes) → longer_than n o ≡ false → Within 0 n o
longer_than-Within n none e = tt
longer_than-Within n (some s) e = (omega arith, ground arith)

bad_codehalf-Within : (o : Option Bytes) → bad_codehalf o ≡ false → Within 16 256 o
bad_codehalf-Within none e = tt
bad_codehalf-Within (some s) e = (ground arith, ground arith)

-- What is hashed is the codehalf, if there is one, and then the token.
abbrev pub Hashed : (Bytes → Bytes) → Option Bytes → MintedRegistrationToken → Type 0
Hashed hash none m = m.token_hash ≡ hash m.token
Hashed hash (some codehalf) m = m.token_hash ≡ hash (codehalf ++ m.token)

hash_input-Hashed :
    (hash : Bytes → Bytes) (o : Option Bytes) (m : MintedRegistrationToken)
    → m.token_hash ≡ hash (hash_input o m.token)
    → Hashed hash o m
hash_input-Hashed hash none m e = e
hash_input-Hashed hash (some codehalf) m e = e

module _ (hash : Bytes → Bytes) (random : ℕ → Option Bytes) (now : ℕ)
    (req : CreateRegistrationTokenRequest) (m : MintedRegistrationToken)
    (draws : (n : ℕ) (bytes : Bytes)
      → random n ≡ some bytes
      → (length bytes ≡ n) × All (λ b. b < 256) bytes) where
  -- The token and its time to live are those of the profile that the request asks for.
  abbrev pub Fresh : Type 0
  Fresh =
      (n : ℕ) × (ttl : ℕ) × Profile req.ttl_profile n ttl
      × (random n ≡ some (hex_decode m.token))
      × (length m.token ≡ 2 * n)
      × (m.expires_at ≡ now + ttl)

  with_random-Fresh :
      (p : RegistrationTtlProfile) (o : Option Bytes)
      → Profile req.ttl_profile p.token_bytes p.ttl
      → random p.token_bytes ≡ o
      → with_random hash random now req p o ≡ minted m
      → Hashed hash req.codehalf m × Fresh
  with_random-Fresh p none pr r e = cc
  with_random-Fresh p (some bytes) pr r e =
      let (long, small) = draws p.token_bytes bytes r in
      let token : m.token ≡ hex_encode bytes = cc in
      let hashed : m.token_hash ≡ hash (hash_input req.codehalf (hex_encode bytes)) = cc in
      let expires : m.expires_at ≡ now + p.ttl = cc in
      (
        hash_input-Hashed hash req.codehalf m (rw token hashed),
        (
          p.token_bytes,
          p.ttl,
          pr,
          rw (token, hex_decode-hex_encode bytes small) r,
          rw token (omega (arith, length-hex_encode bytes, long)),
          expires,
        ),
      )

  with_profile-Fresh :
      (o : Option RegistrationTtlProfile)
      → profile_of req.ttl_profile ≡ o
      → with_profile hash random now req o ≡ minted m
      → Hashed hash req.codehalf m × Fresh
  with_profile-Fresh none q e = cc
  with_profile-Fresh (some p) q e =
      with_random-Fresh p (random p.token_bytes) (profile_of-Profile req.ttl_profile p q) refl e

  -- Where the source of randomness gives as many bytes as it is asked for: a token is minted only for a
  -- name and metadata of at most 256 bytes and a codehalf of 16 to 256 bytes. It is the hexadecimal of
  -- freshly drawn bytes: four, in eight digits, that live for five minutes where no profile or the
  -- interactive one is asked for, and eight, in sixteen digits, that live for a day in the asynchronous
  -- one. Its hash is that of the codehalf, if there is one, followed by the token.
  pub mint_registration_token-eq-minted :
      mint_registration_token hash random now req ≡ minted m
      → Within 0 256 req.node_name
        × Within 0 256 req.node_metadata
        × Within 16 256 req.codehalf
        × Hashed hash req.codehalf m
        × Fresh
  unfolding mint_registration_token
  mint_registration_token-eq-minted e =
      let name : longer_than 256 req.node_name ≡ false = ground arith in
      let metadata : longer_than 256 req.node_metadata ≡ false = ground arith in
      let codehalf : bad_codehalf req.codehalf ≡ false = ground arith in
      let (hashed, fresh) =
        with_profile-Fresh (profile_of req.ttl_profile) refl (rw (name, metadata, codehalf) at e) in
      (
        longer_than-Within 256 req.node_name name,
        longer_than-Within 256 req.node_metadata metadata,
        bad_codehalf-Within req.codehalf codehalf,
        hashed,
        fresh,
      )
