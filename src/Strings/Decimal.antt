-- ===== src/Strings/Decimal.antt =====
-- Reading a printed number gives it back.
use native.Mathlib.Nat.{pow-suc}
use wispers_hub.Base.{
  ℕ, zero, suc, ◌+◌, ◌-◌, ◌/◌, ◌%◌, ◌^◌, ◌<◌, ◌≤◌, ◌≡◌, ◌≢◌, ◌⊎◌, inl, inr, refl, ◌∙◌, Bool-cases,
  some, [], ◌∷◌, ◌++◌, Bytes, arith, ltb, All, All-append,
}
use wispers_hub.Base.Int.{ℤ, pos, negsuc, ◌<ℤ◌, ◌≤ℤ◌}
use wispers_hub.Strings.{
  parse_digits, digits, format_nat, format_int, parse_int, unsigned, in_range,
}
use wispers_hub.Strings.Split.{Lacks}

parse_last :
    (n : ℕ) (out : Bytes) → parse_digits (n / 10) ((b'0' + n % 10) ∷ out) ≡ parse_digits n out
unfolding parse_digits
parse_last n out = ground arith

tenth : (n fuel : ℕ) → n < 10 ^ suc fuel → n / 10 < 10 ^ fuel
tenth n fuel h = let e = pow-suc 10 fuel in omega (arith, e)

parse_digits-digits :
    (fuel n : ℕ) (out : Bytes)
    → n < 10 ^ fuel
    → parse_digits 0 (digits fuel n out) ≡ parse_digits n out
unfolding digits
parse_digits-digits zero n out h = let e : n ≡ 0 = omega arith in rw e
parse_digits-digits (suc fuel) n out h = elim (Bool-cases (ltb n 10)) [
  | inl small ↦ rw small (unfold parse_digits in ground arith)
  | inr big ↦ rw big (parse_digits-digits fuel (n / 10) _ (tenth n fuel h) ∙ parse_last n out)
]

parse_digits-format_nat :
    (n : ℕ) (out : Bytes) → n < 2 ^ 64 → parse_digits 0 (format_nat n out) ≡ parse_digits n out
unfolding format_nat
parse_digits-format_nat n out h = parse_digits-digits 20 n out (omega arith)

-- The bytes of a printed number.
abbrev IsNumeral : ℕ → Type 0
IsNumeral c = (b'0' ≤ c) × (c ≤ b'9')

digits-IsNumeral :
    (fuel n : ℕ) (out : Bytes)
    → n < 10 ^ fuel
    → All IsNumeral out
    → All IsNumeral (digits fuel n out)
unfolding digits
digits-IsNumeral zero n out h w = w
digits-IsNumeral (suc fuel) n out h w = elim (Bool-cases (ltb n 10)) [
  | inl small ↦ rw small ((ground arith, ground arith), w)
  | inr big ↦
      rw big (digits-IsNumeral fuel (n / 10) _ (tenth n fuel h) ((omega arith, omega arith), w))
]

digits-ne-nil : (fuel n : ℕ) (out : Bytes) → out ≢ [] → digits fuel n out ≢ []
unfolding digits
digits-ne-nil zero n out h = h
digits-ne-nil (suc fuel) n out h =
    ground (arith, digits-ne-nil fuel (n / 10) ((b'0' + n % 10) ∷ out))

digits-append :
    (fuel n : ℕ) (out rest : Bytes) → digits fuel n (out ++ rest) ≡ digits fuel n out ++ rest
unfolding digits
digits-append zero n out rest = refl
digits-append (suc fuel) n out rest =
    ground (arith, digits-append fuel (n / 10) ((b'0' + n % 10) ∷ out) rest)

pub format_nat-append : (n : ℕ) (rest : Bytes) → format_nat n rest ≡ format_nat n [] ++ rest
unfolding format_nat
format_nat-append n rest = digits-append 20 n [] rest

pub format_int-append : (v : ℤ) (rest : Bytes) → format_int v rest ≡ format_int v [] ++ rest
unfolding format_int
format_int-append (pos n) rest = format_nat-append n rest
format_int-append (negsuc n) rest = rw (format_nat-append (suc n) rest)

numeral-Lacks : (b : ℕ) (s : Bytes) → b < b'0' ⊎ b'9' < b → All IsNumeral s → Lacks b s
numeral-Lacks b [] h w = tt
numeral-Lacks b (c ∷ s) h w = (λ e. ground arith, numeral-Lacks b s h w.1)

pub format_nat-Lacks : (b n : ℕ) → n < 2 ^ 64 → b < b'0' ⊎ b'9' < b → Lacks b (format_nat n [])
unfolding format_nat
format_nat-Lacks b n h w = numeral-Lacks b _ w (digits-IsNumeral 20 n [] (omega arith) tt)

-- An integer of 64 bits.
abbrev pub IsInt64 : ℤ → Type 0
IsInt64 v = (negsuc (2 ^ 63 - 1) ≤ℤ v) × (v <ℤ pos (2 ^ 63))

pub format_int-Lacks : (b : ℕ) (v : ℤ) → IsInt64 v → b'9' < b → Lacks b (format_int v [])
unfolding format_int
format_int-Lacks b (pos n) h w = format_nat-Lacks b n (omega arith) (inr w)
format_int-Lacks b (negsuc n) h w =
    (λ e. omega arith, format_nat-Lacks b (suc n) (omega arith) (inr w))

format_nat-ne-nil : (n : ℕ) → format_nat n [] ≢ []
unfolding format_nat digits
format_nat-ne-nil n = ground (arith, digits-ne-nil 19 (n / 10) ((b'0' + n % 10) ∷ []))

format_nat-IsNumeral : (n : ℕ) → n < 2 ^ 64 → All IsNumeral (format_nat n [])
unfolding format_nat
format_nat-IsNumeral n h = digits-IsNumeral 20 n [] (omega arith) tt

unsigned-parse_digits : (s : Bytes) → s ≢ [] → unsigned s ≡ parse_digits 0 s
unsigned-parse_digits [] h = absurd (h refl)
unsigned-parse_digits (c ∷ s) h = refl

unsigned-format_nat : (n : ℕ) → n < 2 ^ 64 → unsigned (format_nat n []) ≡ some n
unsigned-format_nat n h =
    unsigned-parse_digits _ (format_nat-ne-nil n)
    ∙ parse_digits-format_nat n [] h
    ∙ unfold parse_digits in refl

parse_int-unsigned :
    (bits : ℕ) (s : Bytes)
    → s ≢ []
    → All IsNumeral s
    → parse_int bits s ≡ in_range bits (unsigned s)
unfolding parse_int
parse_int-unsigned bits [] h w = absurd (h refl)
parse_int-unsigned bits (c ∷ s) h w = ground (arith, w.0)

-- ParseInt reads a printed 64-bit integer back.
pub parse_int-format_int : (v : ℤ) → IsInt64 v → parse_int 64 (format_int v []) ≡ some v
unfolding format_int
parse_int-format_int (pos n) h =
    rw (parse_int-unsigned 64 _ (format_nat-ne-nil n) (format_nat-IsNumeral n (omega arith)))
      (rw (unsigned-format_nat n (omega arith)) (ground arith))
parse_int-format_int (negsuc n) h =
    unfold parse_int in rw (unsigned-format_nat (suc n) (omega arith)) (ground arith)

pub format_nat-Lacks_append :
    (b n : ℕ) (rest : Bytes)
    → n < 2 ^ 64
    → b < b'0' ⊎ b'9' < b
    → Lacks b rest
    → Lacks b (format_nat n rest)
format_nat-Lacks_append b n rest h w l =
    rw (format_nat-append n rest)
      (All-append (λ c. c ≢ b) (format_nat n []) rest (format_nat-Lacks b n h w) l)
