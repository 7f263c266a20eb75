-- ===== src/TurnCreds.antt =====
-- connect/shared/turncreds.go: minting and verifying TURN credentials. HMAC-SHA1 in base64 is a
-- parameter, and so is the secret that it is keyed with. Times are whole Unix seconds.
pub mod RoundTrip
use wispers_hub.Base.{
  Bool, not, ◌&&◌, ◌||◌, Option, none, some, List, [], ◌∷◌, ◌++◌, Bytes, if◌then◌else◌, is_empty,
  ◌==◌, bytes_eq,
}
use wispers_hub.Base.Int.{ℤ, pos, ltb_ℤ, eqb_ℤ}
use wispers_hub.Strings.{split, contains, parse_int, format_int}

pub record Credential : Type 0 where
  pub subject : Bytes
  pub floor_bps : ℤ
  pub ceil_bps : ℤ
  pub expiry : ℤ

-- `now` and the expiry in seconds: now.After(c.Expiry).
unfoldable pub expired : Credential → ℤ → Bool
expired c now = ltb_ℤ c.expiry now

pub data Failure : Type 0 where
  bad_signature bad_floor bad_ceil bad_expiry empty_subject : Failure
  invalid_rates : ℤ → ℤ → Failure
  segments : Failure

pub data Parsed : Type 0 where
  ok : Credential → Parsed
  err : Failure → Parsed

abbrev with_expiry : Bytes → ℤ → ℤ → Option ℤ → Parsed
with_expiry subject floor ceil none = err bad_expiry
with_expiry subject floor ceil (some ts) =
    if is_empty subject
    then err empty_subject
    else ok (record { subject = subject; floor_bps = floor; ceil_bps = ceil; expiry = ts })

abbrev with_rates : Bytes → Bytes → Option ℤ → Option ℤ → Parsed
with_rates ts subject none c = err bad_floor
with_rates ts subject (some f) none = err bad_ceil
with_rates ts subject (some floor) (some ceil) =
    if ltb_ℤ floor (pos 0) || (not (eqb_ℤ ceil (pos 0)) && ltb_ℤ ceil floor)
    then err (invalid_rates floor ceil)
    else with_expiry subject floor ceil (parse_int 64 ts)

abbrev pub of_parts : List Bytes → Parsed
of_parts (ts ∷ subject ∷ []) = with_expiry subject (pos 0) (pos 0) (parse_int 64 ts)
of_parts (ts ∷ subject ∷ f ∷ c ∷ []) = with_rates ts subject (parse_int 64 f) (parse_int 64 c)
of_parts _ = err segments

unfoldable pub parse : Bytes → Parsed
parse username = of_parts (split b':' username)

abbrev pub rates : ℤ → ℤ → Bytes
rates floor ceil =
    if ltb_ℤ (pos 0) floor || ltb_ℤ (pos 0) ceil
    then b':' ∷ format_int floor (b':' ∷ format_int ceil [])
    else []

unfoldable pub username_of : Bytes → ℤ → ℤ → ℤ → Bytes
username_of subject floor ceil expiry = format_int expiry (b':' ∷ (subject ++ rates floor ceil))

module _ (sign : Bytes → Bytes) where
  -- `none` is the panic on an invalid subject.
  unfoldable pub mint : Bytes → ℤ → ℤ → ℤ → Option (Bytes × Bytes)
  mint subject floor ceil expiry =
      let username = username_of subject floor ceil expiry in
      if is_empty subject || contains b':' subject then none else some (username, sign username)

  unfoldable pub verify : Bytes → Bytes → Parsed
  verify username password = if sign username == password then parse username else err bad_signature
