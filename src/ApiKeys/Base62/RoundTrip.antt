-- ===== src/ApiKeys/Base62/RoundTrip.antt =====
-- Decoding an encoded byte sequence gives it back, in connect/shared/apikeys.go.
use wispers_hub.Base.{
  ℕ, ◌^◌, ◌<◌, ◌≤◌, ◌≡◌, some, [], ◌∷◌, ◌∙◌, ap, append-nil, Bytes, length, arith, All,
}
use wispers_hub.ApiKeys.Base62.{set_bytes, encode_loop, encode_base62, decode_loop, decode_base62}
use wispers_hub.ApiKeys.Base62.Digits.{buffer, left, encode_loop_fits}
use wispers_hub.ApiKeys.Base62.Places.{place, place-set_bytes, set_bytes-lt, 62_pow-le, pad-place}

-- A text that stands for a number that fits is decoded to its padded bytes.
decode_lem :
    (t : Bytes) (size num : ℕ)
    → 0 < length t
    → decode_loop 0 t ≡ some num
    → num < 256 ^ size
    → num < 256 ^ length t
    → decode_base62 t size ≡ some (place size num [])
unfolding decode_base62
decode_lem [] size num p r h k = absurd (omega arith)
decode_lem (c ∷ s) size num p r h k = rw r (pad-place size (length (c ∷ s)) num h k)

encode_lem :
    (src : Bytes) (max_len : ℕ)
    → left (encode_loop max_len (set_bytes 0 src) []) ≡ 0
    → encode_base62 src max_len ≡ some (buffer (encode_loop max_len (set_bytes 0 src) []))
unfolding encode_base62
encode_lem src max_len z = rw z

-- Every byte sequence that is encoded into enough characters, 256 ^ n ≤ 62 ^ m for n bytes and m
-- characters, gives exactly m characters, with no panic, and decoding them into n bytes gives the
-- sequence back, leading zeros included.
pub decode_base62-encode_base62 :
    (src : Bytes) (max_len : ℕ)
    → All (λ b. b < 256) src
    → 0 < max_len
    → 256 ^ length src ≤ 62 ^ max_len
    → (t : Bytes) × (encode_base62 src max_len ≡ some t)
      × (length t ≡ max_len)
      × (decode_base62 t (length src) ≡ some src)
unfolding decode_loop
decode_base62-encode_base62 src max_len bytes pos fits =
    let num = set_bytes 0 src in
    let lt = set_bytes-lt 0 src bytes in
    let (zero_left, long, reads) = encode_loop_fits max_len num [] (omega (arith, lt)) in
    let long' : length (buffer (encode_loop max_len num [])) ≡ max_len = omega (arith, long) in
    let same = place-set_bytes (length src) 0 0 src [] bytes (omega arith) ∙ append-nil src in
    (
      buffer (encode_loop max_len num []),
      encode_lem src max_len zero_left,
      long',
      decode_lem (buffer (encode_loop max_len num [])) (length src) num (rw long' pos) reads
            (omega (arith, lt)) (rw long' (omega (arith, lt, 62_pow-le max_len)))
          ∙ ap some same,
    )
