-- ===== src/ApiKeys/Base62/Digits.antt =====
-- The digits that encodeBase62 writes and decodeBase62 reads, in connect/shared/apikeys.go.
use native.Mathlib.Nat.{pow-suc}
use wispers_hub.Base.{
  ℕ, zero, suc, ◌+◌, ◌*◌, ◌/◌, ◌%◌, ◌^◌, ◌<◌, ◌≡◌, refl, Bool, true, ◌&&◌, ◌∷◌, ◌++◌, ◌∙◌, ap,
  Bytes, length, replicate, eqb, arith, Bool-cases, inl, inr,
}
use wispers_hub.ApiKeys.Base62.{base62_alphabet, get_or, base62_indices, encode_loop, decode_loop}

-- Every value of a digit, by evaluation.
holds_below : (ℕ → Bool) → ℕ → Bool
holds_below test zero = true
holds_below test (suc k) = holds_below test k && test k

holds_below-at : (test : ℕ → Bool) (k d : ℕ) → d < k → holds_below test k ≡ true → test d ≡ true
unfolding holds_below
holds_below-at test zero d l e = absurd (omega arith)
holds_below-at test (suc k) d l e = ground (arith, holds_below-at test k d)

index_table : holds_below (λ d. eqb (base62_indices (get_or base62_alphabet d 0)) d) 62 ≡ true
unfolding holds_below base62_indices
index_table = refl

base62_indices-alphabet : (d : ℕ) → d < 62 → base62_indices (get_or base62_alphabet d 0) ≡ d
base62_indices-alphabet d h = ground (
  arith,
  holds_below-at (λ d. eqb (base62_indices (get_or base62_alphabet d 0)) d) 62 d h index_table,
)

decode_digit :
    (num d : ℕ) (s : Bytes)
    → d < 62
    → decode_loop num (get_or base62_alphabet d 0 ∷ s) ≡ decode_loop (num * 62 + d) s
unfolding decode_loop
decode_digit num d s h = rw (base62_indices-alphabet d h) (ground arith)

decode_zeros : (n : ℕ) (s : Bytes) → decode_loop 0 (replicate n b'0' ++ s) ≡ decode_loop 0 s
decode_zeros zero s = refl
decode_zeros (suc n) s = decode_digit 0 0 _ (omega arith) ∙ decode_zeros n s

quotient : (i num : ℕ) → num < 62 ^ suc i → num / 62 < 62 ^ i
quotient i num h = let e = pow-suc 62 i in omega (arith, e)

length-replicate : (n b : ℕ) (out : Bytes) → length (replicate n b ++ out) ≡ n + length out
length-replicate zero b out = omega arith
length-replicate (suc n) b out = omega (arith, length-replicate n b out)

abbrev pub buffer : ℕ × Bytes → Bytes
buffer (num, buf) = buf

abbrev pub left : ℕ × Bytes → ℕ
left (num, buf) = num

-- A number below 62 ^ i is written in i characters, and read back before what follows.
pub encode_loop_fits :
    (i num : ℕ) (out : Bytes)
    → num < 62 ^ i
    → (left (encode_loop i num out) ≡ 0)
      × (length (buffer (encode_loop i num out)) ≡ i + length out)
      × (decode_loop 0 (buffer (encode_loop i num out)) ≡ decode_loop num out)
unfolding encode_loop
encode_loop_fits zero num out h = let e : num ≡ 0 = omega arith in rw e (refl, omega arith, refl)
encode_loop_fits (suc i) num out h = elim (Bool-cases (eqb num 0)) [
  | inl z ↦
      let e : num ≡ 0 = ground arith in
      rw z (refl, omega (arith, length-replicate (suc i) b'0' out), rw e (decode_zeros (suc i) out))
  | inr nz ↦
      let d = num % 62 in
      let (zero_left, long, reads) =
        encode_loop_fits i (num / 62) (get_or base62_alphabet d 0 ∷ out) (quotient i num h) in
      rw nz (
        zero_left,
        omega (arith, long),
        reads
            ∙ decode_digit (num / 62) d out (omega arith)
            ∙ ap (λ k. decode_loop k out) (omega arith),
      )
]
