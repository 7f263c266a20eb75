-- ===== src/ApiKeys/Base62.antt =====
-- encodeBase62 and decodeBase62 of connect/shared/apikeys.go.
pub mod Alphabet
pub mod Digits
pub mod Places
pub mod RoundTrip
use wispers_hub.Base.{
  ℕ, zero, suc, ◌+◌, ◌-◌, ◌*◌, ◌/◌, ◌%◌, ◌≡◌, refl, Option, none, some, [], ◌∷◌, ◌++◌, Bytes, codes,
  length, replicate, ltb, eqb, if◌then◌else◌,
}

abbrev pub base62_alphabet : Bytes
base62_alphabet = codes "0123456789ABCDEFGHIJKLMNOPQRSTUVWXYZabcdefghijklmnopqrstuvwxyz"

abbrev pub get_or : Bytes → ℕ → ℕ → ℕ
get_or [] i d = d
get_or (x ∷ xs) zero d = x
get_or (x ∷ xs) (suc i) d = get_or xs i d

-- initBase62Indices as a function of the byte: its index in the alphabet, or 0xFF.
abbrev index_from : ℕ → Bytes → ℕ → ℕ
index_from i [] c = 0xFF
index_from i (x ∷ xs) c = if eqb x c then i else index_from (i + 1) xs c

unfoldable pub base62_indices : ℕ → ℕ
base62_indices c = index_from 0 base62_alphabet c

-- big.Int.SetBytes: the bytes are big-endian.
unfoldable pub set_bytes : ℕ → Bytes → ℕ
set_bytes n [] = n
set_bytes n (b ∷ bs) = set_bytes (n * 256 + b) bs

-- The loop from position i - 1 down, over the rest of the number and the suffix of the buffer that is
-- written; it stops early at zero and leaves the first characters of the buffer as they are.
unfoldable pub encode_loop : ℕ → ℕ → Bytes → ℕ × Bytes
encode_loop zero num out = (num, out)
encode_loop (suc i) num out =
    let rest = encode_loop i (num / 62) (get_or base62_alphabet (num % 62) 0 ∷ out) in
    if eqb num 0 then (0, replicate (suc i) b'0' ++ out) else rest

abbrev or_panic : ℕ × Bytes → Option Bytes
or_panic (num, buf) = if ltb 0 num then none else some buf

-- `none` is the panic on a length that is too small.
unfoldable pub encode_base62 : Bytes → ℕ → Option Bytes
encode_base62 src max_len = or_panic (encode_loop max_len (set_bytes 0 src) [])

-- The loop over the characters: `none` at one that is not in the alphabet.
unfoldable pub decode_loop : ℕ → Bytes → Option ℕ
decode_loop num [] = some num
decode_loop num (c ∷ s) =
    if eqb (base62_indices c) 0xFF then none else decode_loop (num * 62 + base62_indices c) s

-- big.Int.Bytes: big-endian, with no leading zero. The fuel bounds the number of bytes.
unfoldable pub int_bytes : ℕ → ℕ → Bytes → Bytes
int_bytes zero num out = out
int_bytes (suc fuel) num out =
    let rest = int_bytes fuel (num / 256) ((num % 256) ∷ out) in if eqb num 0 then out else rest

abbrev pad : ℕ → Bytes → Option Bytes
pad size bytes =
    if ltb size (length bytes)
    then none
    else if ltb (length bytes) size
    then some (replicate (size - length bytes) 0 ++ bytes)
    else some bytes

-- A text of n characters stands for a number below 62 ^ n, which has at most n bytes.
abbrev sized : ℕ → ℕ → Option ℕ → Option Bytes
sized fuel size none = none
sized fuel size (some num) = pad size (int_bytes fuel num [])

unfoldable pub decode_base62 : Bytes → ℕ → Option Bytes
decode_base62 [] size = none
decode_base62 (c ∷ s) size = sized (length (c ∷ s)) size (decode_loop 0 (c ∷ s))

encode_small : encode_base62 (1 ∷ 0 ∷ []) 4 ≡ some (codes "0048")
unfolding encode_base62 set_bytes encode_loop
encode_small = refl

decode_small : decode_base62 (codes "0048") 3 ≡ some (0 ∷ 1 ∷ 0 ∷ [])
unfolding decode_base62 decode_loop base62_indices int_bytes
decode_small = refl
