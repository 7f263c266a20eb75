-- ===== src/Sharding.antt =====
-- connect/hub/sharding.go: the shard of a connectivity group, and the time to live of a connection
-- that has failed over. Durations are nanoseconds.
use wispers_hub.Base.{
  ℕ, ◌+◌, ◌-◌, ◌*◌, ◌≡◌, ◌⊎◌, ◌<◌, ◌≤◌, ◌&&◌, ◌||◌, [], ◌∷◌, Bytes, arith, leb, if◌then◌else◌,
}

unfoldable pub get_shard : Bytes → ℕ
get_shard [] = 2
get_shard (c ∷ cs) = if (leb b'0' c && leb c b'9') || (leb b'a' c && leb c b'c') then 1 else 2

abbrev minute : ℕ
minute = 60 * 1_000_000_000

abbrev pub ttl_min : ℕ
ttl_min = 2 * minute

abbrev pub ttl_max : ℕ
ttl_max = 5 * minute

-- `draw` is what rand.N(TTLMax - TTLMin) returns: a number below its argument.
unfoldable pub ttl : ℕ → ℕ
ttl draw = ttl_min + draw

-- A value of a lower-case hexadecimal digit.
abbrev IsHexDigit : ℕ → Type 0
IsHexDigit c = ((b'0' ≤ c) × (c ≤ b'9')) ⊎ ((b'a' ≤ c) × (c ≤ b'f'))

abbrev pub hex_value : ℕ → ℕ
hex_value c = if leb c b'9' then c - b'0' else c - b'a' + 10

-- Of a group id that begins with a lower-case hexadecimal digit the shard is 1 exactly when the digit
-- is worth at most 12, thirteen of the sixteen digits, and 2 otherwise.
get_shard-hex_value :
    (c : ℕ) (cs : Bytes)
    → IsHexDigit c
    → get_shard (c ∷ cs) ≡ (if leb (hex_value c) 12 then 1 else 2)
unfolding get_shard
get_shard-hex_value c cs h = ground arith

-- Whatever is drawn, the time to live lies between two minutes and less than five.
ttl_bounds : (draw : ℕ) → draw < ttl_max - ttl_min → (ttl_min ≤ ttl draw) × (ttl draw < ttl_max)
unfolding ttl
ttl_bounds draw h = omega arith
