-- ===== src/ApiKeys/Base62/Places.antt =====
-- The big-endian bytes that decodeBase62 pads to a fixed size, in connect/shared/apikeys.go.
use native.Mathlib.Nat.{pow-suc}
use wispers_hub.Base.{
  ℕ, zero, suc, ◌+◌, ◌-◌, ◌*◌, ◌/◌, ◌%◌, ◌^◌, ◌<◌, ◌≤◌, ◌≡◌, refl, false, some, [], ◌∷◌, ◌++◌, ◌∙◌,
  ap, sym, Bytes, length, replicate, ltb, eqb, arith, All, Bool-cases, inl, inr,
}
use wispers_hub.ApiKeys.Base62.{set_bytes, int_bytes, pad}

-- The big-endian bytes of a number below 256 ^ n, in n places.
abbrev pub place : ℕ → ℕ → Bytes → Bytes
place zero num out = out
place (suc n) num out = place n (num / 256) ((num % 256) ∷ out)

replicate_shift : (n b : ℕ) (out : Bytes) → replicate n b ++ b ∷ out ≡ b ∷ (replicate n b ++ out)
replicate_shift zero b out = refl
replicate_shift (suc n) b out = rw (replicate_shift n b out)

place_zero : (n : ℕ) (out : Bytes) → place n 0 out ≡ replicate n 0 ++ out
place_zero zero out = refl
place_zero (suc n) out = place_zero n (0 ∷ out) ∙ replicate_shift n 0 out

pub place-set_bytes :
    (size k n : ℕ) (bs out : Bytes)
    → All (λ b. b < 256) bs
    → size ≡ k + length bs
    → place size (set_bytes n bs) out ≡ place k n (bs ++ out)
unfolding set_bytes
place-set_bytes size k n [] out w e = let e' : size ≡ k = omega arith in rw e'
place-set_bytes size k n (b ∷ bs) out w e =
    place-set_bytes size (suc k) (n * 256 + b) bs out w.1 (omega arith) ∙ last
  where
    last :
        place k ((n * 256 + b) / 256) (((n * 256 + b) % 256) ∷ (bs ++ out))
        ≡ place k n (b ∷ (bs ++ out))
    last =
        let q : (n * 256 + b) / 256 ≡ n = omega arith in
        let r : (n * 256 + b) % 256 ≡ b = omega arith in rw (q, r)

scale : (n b v p q : ℕ) → b < 256 → v < (n * 256 + b + 1) * p → q ≡ p * 256 → v < (n + 1) * q
scale n b v p q h k e = rw e (grind arith)

pub set_bytes-lt :
    (n : ℕ) (bs : Bytes) → All (λ b. b < 256) bs → set_bytes n bs < (n + 1) * 256 ^ length bs
unfolding set_bytes
set_bytes-lt n [] w = omega arith
set_bytes-lt n (b ∷ bs) w =
    let ih = set_bytes-lt (n * 256 + b) bs w.1 in
    let p = pow-suc 256 (length bs) in
    scale n b (set_bytes (n * 256 + b) bs) (256 ^ length bs) (256 ^ suc (length bs)) w.0 ih p

done_place :
    (size : ℕ) (out : Bytes)
    → (length out ≤ size + length out)
      × (replicate (size + length out - length out) 0 ++ out ≡ place size 0 out)
done_place size out =
    let e : size + length out - length out ≡ size = omega arith in
    (omega arith, rw e (sym (place_zero size out)))

zero_place :
    (size num : ℕ) (out : Bytes)
    → num ≡ 0
    → (length out ≤ size + length out)
      × (replicate (size + length out - length out) 0 ++ out ≡ place size num out)
zero_place size num out e = rw e (done_place size out)

byte_quotient : (i num : ℕ) → num < 256 ^ suc i → num / 256 < 256 ^ i
byte_quotient i num h = let e = pow-suc 256 i in omega (arith, e)

one_more :
    (s l : ℕ) (x y : Bytes)
    → replicate (s + suc l - length x) 0 ++ x ≡ y
    → replicate (suc s + l - length x) 0 ++ x ≡ y
one_more s l x y h =
    let e : suc s + l - length x ≡ s + suc l - length x = omega arith in
    ap (λ k. replicate k 0 ++ x) e ∙ h

pad_lem :
    (size : ℕ) (b r : Bytes)
    → length b ≤ size + 0
    → replicate (size + 0 - length b) 0 ++ b ≡ r
    → pad size b ≡ some r
pad_lem size b r short h = elim (Bool-cases (ltb (length b) size)) [
  | inl less ↦
      let k : ltb size (length b) ≡ false = ground arith in
      let e : size - length b ≡ size + 0 - length b = omega arith in
      rw (k, less) (ap some (ap (λ k. replicate k 0 ++ b) e ∙ h))
  | inr full ↦
      let k : ltb size (length b) ≡ false = ground arith in
      let e : 0 ≡ size + 0 - length b = ground arith in
      rw (k, full) (ap some (ap (λ k. replicate k 0 ++ b) e ∙ h))
]

-- The minimal bytes, padded with zeros to `size` places.
int_bytes-place :
    (size fuel num : ℕ) (out : Bytes)
    → num < 256 ^ size
    → num < 256 ^ fuel
    → (length (int_bytes fuel num out) ≤ size + length out)
      × (replicate (size + length out - length (int_bytes fuel num out)) 0 ++ int_bytes fuel num out
          ≡ place size num out)
unfolding int_bytes
int_bytes-place zero zero num out h k = done_place zero out
int_bytes-place zero (suc fuel) num out h k =
    let e : num ≡ 0 = omega arith in rw e (done_place zero out)
int_bytes-place (suc size) zero num out h k = zero_place (suc size) num out (omega arith)
int_bytes-place (suc size) (suc fuel) num out h k = elim (Bool-cases (eqb num 0)) [
  | inl z ↦ rw z (zero_place (suc size) num out (ground arith))
  | inr nz ↦
      let (short, places) =
        int_bytes-place size fuel (num / 256) ((num % 256) ∷ out) (byte_quotient size num h)
          (byte_quotient fuel num k) in
      rw nz (omega (arith, short), one_more size (length out) _ _ places)
]

pub 62_pow-le : (n : ℕ) → 62 ^ n ≤ 256 ^ n
62_pow-le zero = omega arith
62_pow-le (suc n) = omega (arith, 62_pow-le n, pow-suc 62 n, pow-suc 256 n)

pub pad-place :
    (size fuel num : ℕ)
    → num < 256 ^ size
    → num < 256 ^ fuel
    → pad size (int_bytes fuel num []) ≡ some (place size num [])
pad-place size fuel num h k =
    let (short, places) = int_bytes-place size fuel num [] h k in
    pad_lem size (int_bytes fuel num []) (place size num []) short places
