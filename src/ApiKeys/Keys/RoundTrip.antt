-- ===== src/ApiKeys/Keys/RoundTrip.antt =====
-- A generated API key is accepted where it is presented, in connect/shared/apikeys.go.
use wispers_hub.Base.{
  ℕ, suc, ◌<◌, ◌≤◌, ◌^◌, ◌≡◌, ◌≢◌, refl, ◌∙◌, false, some, [], ◌∷◌, ◌++◌, Bytes, codes, length,
  is_empty, arith, All, All-append, ap, subst,
}
use wispers_hub.Strings.{equal_fold, to_lower}
use wispers_hub.Strings.Split.{Lacks, cut-append, strip_prefix-append, split-append, split-nil}
use wispers_hub.ApiKeys.Base62.{base62_indices, encode_base62, decode_base62}
use wispers_hub.ApiKeys.Base62.Alphabet.{decode_base62-Lacks}
use wispers_hub.ApiKeys.Base62.RoundTrip.{decode_base62-encode_base62}
use wispers_hub.ApiKeys.Keys.{
  ApiKey, split, split_env, checked_parts, generate_with_reader, parse, parse_parts, with_secret,
  key_of, from_auth_header, of_header_parts, or_invalid, ok, key_prefix, is_blank,
}

is_empty_of_ne : (s : Bytes) → s ≢ [] → is_empty s ≡ false
is_empty_of_ne [] h = absurd (h refl)
is_empty_of_ne (c ∷ s) h = refl

is_empty_of_length : (s : Bytes) {n : ℕ} → length s ≡ suc n → is_empty s ≡ false
is_empty_of_length [] h = absurd (omega arith)
is_empty_of_length (c ∷ s) h = refl

-- The parts of an encoded key, if the environment has no underscore and the id no dot.
split-encoded :
    (env id secret : Bytes)
    → env ≢ []
    → Lacks b'_' env
    → Lacks b'.' id
    → length id ≡ 17
    → length secret ≡ 43
    → split (key_prefix ++ (env ++ b'_' ∷ (id ++ b'.' ∷ secret)))
      ≡ some (record { env_part = env; id_part = id; secret_part = secret })
unfolding split
split-encoded env id secret n l d i s =
    rw (strip_prefix-append key_prefix (env ++ b'_' ∷ (id ++ b'.' ∷ secret))) (
      rw (cut-append b'_' env (id ++ b'.' ∷ secret) l, split_env)
        (rw (cut-append b'.' id secret d, checked_parts)
          (rw (is_empty_of_ne env n, is_empty_of_length id i, is_empty_of_length secret s, i, s))))

ne_of_not_blank : (env : Bytes) → is_blank env ≡ false → env ≢ []
unfolding is_blank
ne_of_not_blank [] h e = cc
ne_of_not_blank (c ∷ s) h e = cc

dot_is_no_digit : base62_indices b'.' ≡ 0xFF
unfolding base62_indices
dot_is_no_digit = refl

blank_is_no_digit : base62_indices b' ' ≡ 0xFF
unfolding base62_indices
blank_is_no_digit = refl

-- What encoding the two random parts gives.
record Encoded (bytes : Bytes) (len : ℕ) : Type 0 where
  written : Bytes
  encodes : encode_base62 bytes len ≡ some written
  long : length written ≡ len
  decodes : decode_base62 written (length bytes) ≡ some bytes

encoded :
    (bytes : Bytes) (len : ℕ)
    → All (λ b. b < 256) bytes
    → 0 < len
    → 256 ^ length bytes ≤ 62 ^ len
    → Encoded bytes len
encoded bytes len w p f =
    let (t, e, l, d) = decode_base62-encode_base62 bytes len w p f in
    record { written = t; encodes = e; long = l; decodes = d }

bearer_lem :
    (sha256 : Bytes → Bytes) (raw : Bytes)
    → Lacks b' ' raw
    → from_auth_header sha256 (codes "Bearer " ++ raw) ≡ or_invalid sha256 (parse sha256 raw)
unfolding from_auth_header equal_fold to_lower
bearer_lem sha256 raw l =
    let e =
      split-append b' ' (codes "Bearer") raw (omega arith)
      ∙ ap (λ ps. codes "Bearer" ∷ ps) (split-nil b' ' raw l) in
    rw (e, of_header_parts)

encoded-Lacks :
    (b : ℕ) (bytes : Bytes) (len : ℕ) (i : Encoded bytes len)
    → base62_indices b ≡ 0xFF
    → Lacks b i.written
encoded-Lacks b bytes len i o = decode_base62-Lacks b i.written (length bytes) bytes o i.decodes

raw_key-Lacks :
    (env id_bytes secret_bytes : Bytes) (i : Encoded id_bytes 17) (s : Encoded secret_bytes 43)
    → Lacks b' ' env
    → Lacks b' ' (key_prefix ++ (env ++ b'_' ∷ (i.written ++ b'.' ∷ s.written)))
raw_key-Lacks env id_bytes secret_bytes i s space =
    let P = λ (c : ℕ). c ≢ b' ' in
    All-append P key_prefix (env ++ b'_' ∷ (i.written ++ b'.' ∷ s.written)) (omega arith) (
      All-append P env (b'_' ∷ (i.written ++ b'.' ∷ s.written)) space (
        omega arith,
        All-append P i.written (b'.' ∷ s.written)
            (encoded-Lacks b' ' id_bytes 17 i blank_is_no_digit)
            (omega arith, encoded-Lacks b' ' secret_bytes 43 s blank_is_no_digit),
      ))

parse_lem :
    (sha256 : Bytes → Bytes) (env id_bytes secret_bytes : Bytes) (i : Encoded id_bytes 17)
    (s : Encoded secret_bytes 43)
    → env ≢ []
    → Lacks b'_' env
    → length secret_bytes ≡ 32
    → let raw = key_prefix ++ (env ++ b'_' ∷ (i.written ++ b'.' ∷ s.written)) in
      parse sha256 raw
      ≡ some
          (record { id = i.written; env = env; encoded = raw; secret_hash = sha256 secret_bytes })
unfolding parse
parse_lem sha256 env id_bytes secret_bytes i s n under ls =
    let dot = encoded-Lacks b'.' id_bytes 17 i dot_is_no_digit in
    let secret : decode_base62 s.written 32 ≡ some secret_bytes =
      subst (λ k. decode_base62 s.written k ≡ some secret_bytes) ls s.decodes in
    rw (split-encoded env i.written s.written n under dot i.long s.long, parse_parts)
      (rw (secret, with_secret))

module _ (sha256 : Bytes → Bytes) (env id_bytes secret_bytes : Bytes) where
  -- A key that is generated from 12 and 32 random bytes for an environment that is not blank and has
  -- no underscore and no space is the very key that its holder's header `Bearer <key>` yields: same
  -- id, same environment, same secret hash.
  pub from_auth_header-generate :
      is_blank env ≡ false
      → Lacks b'_' env
      → Lacks b' ' env
      → All (λ b. b < 256) id_bytes
      → All (λ b. b < 256) secret_bytes
      → length id_bytes ≡ 12
      → length secret_bytes ≡ 32
      → (key : ApiKey) × (generate_with_reader sha256 env (some id_bytes) (some secret_bytes)
          ≡ some key)
        × (key.env ≡ env)
        × (from_auth_header sha256 (codes "Bearer " ++ key.encoded) ≡ ok key)
  unfolding generate_with_reader
  from_auth_header-generate blank under space wi ws li ls =
      let i = encoded id_bytes 17 wi (omega arith) (rw li (omega arith)) in
      let s = encoded secret_bytes 43 ws (omega arith) (rw ls (omega arith)) in
      (
        record {
          id = i.written;
          env = env;
          encoded = key_prefix ++ (env ++ b'_' ∷ (i.written ++ b'.' ∷ s.written));
          secret_hash = sha256 secret_bytes;
        },
        rw (blank, i.encodes, s.encodes, key_of),
        refl,
        bearer_lem sha256 _ (raw_key-Lacks env id_bytes secret_bytes i s space)
            ∙ rw (
              parse_lem sha256 env id_bytes secret_bytes i s (ne_of_not_blank env blank) under ls,
              or_invalid,
            ),
      )
