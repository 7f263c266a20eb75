-- ===== src/Strings.antt =====
-- The functions of Go's packages strings and strconv that connect/hub and connect/shared call on
-- bytes, and the number format %d of package fmt.
pub mod Split
pub mod Decimal
use wispers_hub.Base.{
  ℕ, zero, suc, ◌+◌, ◌-◌, ◌*◌, ◌/◌, ◌%◌, ◌^◌, Bool, true, false, ◌&&◌, ◌||◌, Option, none, some,
  List, [], ◌∷◌, Bytes, ltb, leb, eqb, if◌then◌else◌,
}
use wispers_hub.Base.Int.{ℤ, pos, negsuc}

abbrev pub push_head : ℕ → List Bytes → List Bytes
push_head c [] = (c ∷ []) ∷ []
push_head c (p ∷ ps) = (c ∷ p) ∷ ps

-- strings.Split at a one-byte separator: always one part at least.
unfoldable pub split : ℕ → Bytes → List Bytes
split sep [] = [] ∷ []
split sep (c ∷ s) = let rest = split sep s in if eqb c sep then [] ∷ rest else push_head c rest

-- strings.Cut at a one-byte separator: before, after, found.
abbrev pub push_before : ℕ → Bytes × Bytes × Bool → Bytes × Bytes × Bool
push_before c (before, after, found) = (c ∷ before, after, found)

unfoldable pub cut : ℕ → Bytes → Bytes × Bytes × Bool
cut sep [] = ([], [], false)
cut sep (c ∷ s) = let rest = cut sep s in if eqb c sep then ([], s, true) else push_before c rest

-- strings.Contains for a one-byte needle.
unfoldable pub contains : ℕ → Bytes → Bool
contains b [] = false
contains b (c ∷ s) = eqb c b || contains b s

-- strings.HasPrefix and strings.TrimPrefix in one: what follows the prefix, if it is there.
unfoldable pub strip_prefix : Bytes → Bytes → Option Bytes
strip_prefix [] s = some s
strip_prefix (p ∷ ps) [] = none
strip_prefix (p ∷ ps) (c ∷ s) = if eqb p c then strip_prefix ps s else none

unfoldable pub to_lower : ℕ → ℕ
to_lower c = if leb b'A' c && leb c b'Z' then c + 32 else c

-- strings.EqualFold against letters that fold only to their other case, as those of "bearer" do.
unfoldable pub equal_fold : Bytes → Bytes → Bool
equal_fold [] [] = true
equal_fold (c ∷ s) (d ∷ t) = eqb (to_lower c) (to_lower d) && equal_fold s t
equal_fold _ _ = false

abbrev pub is_digit : ℕ → Bool
is_digit c = leb b'0' c && leb c b'9'

-- The value that digits spell behind `n`.
unfoldable pub parse_digits : ℕ → Bytes → Option ℕ
parse_digits n [] = some n
parse_digits n (c ∷ s) = if is_digit c then parse_digits (n * 10 + (c - b'0')) s else none

abbrev pub unsigned : Bytes → Option ℕ
unsigned [] = none
unsigned (c ∷ s) = parse_digits 0 (c ∷ s)

abbrev pub in_range : ℕ → Option ℕ → Option ℤ
in_range bits none = none
in_range bits (some n) = if ltb n (2 ^ (bits - 1)) then some (pos n) else none

abbrev pub negate : ℕ → ℤ
negate zero = pos 0
negate (suc n) = negsuc n

abbrev pub in_range_negated : ℕ → Option ℕ → Option ℤ
in_range_negated bits none = none
in_range_negated bits (some n) = if leb n (2 ^ (bits - 1)) then some (negate n) else none

-- strconv.ParseInt(s, 10, bits): an optional sign and digits, whose value fits; strconv.Atoi is this
-- at 64 bits. The two kinds of error are one here.
unfoldable pub parse_int : ℕ → Bytes → Option ℤ
unfolding parse_digits
parse_int bits [] = none
parse_int bits (c ∷ s) =
    if eqb c b'+'
    then in_range bits (unsigned s)
    else if eqb c b'-'
    then in_range_negated bits (unsigned s)
    else in_range bits (unsigned (c ∷ s))

-- The digits of `n` before `out`. The fuel is the number of digits that are written at most: 20 are
-- enough for every 64-bit number.
unfoldable pub digits : ℕ → ℕ → Bytes → Bytes
digits zero n out = out
digits (suc fuel) n out =
    let rest = digits fuel (n / 10) ((b'0' + n % 10) ∷ out) in
    if ltb n 10 then (b'0' + n) ∷ out else rest

-- %d before `out`, of a number that is not negative, and of an integer.
unfoldable pub format_nat : ℕ → Bytes → Bytes
format_nat n out = digits 20 n out

unfoldable pub format_int : ℤ → Bytes → Bytes
format_int (pos n) out = format_nat n out
format_int (negsuc n) out = b'-' ∷ format_nat (suc n) out
