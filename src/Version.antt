-- ===== src/Version.antt =====
-- connect/hub/version.go: release versions, their order, and the gate that every call passes. A
-- version's components are not negative: the parser refuses a negative one.
pub mod Order
pub mod Parse
pub mod Gate
mod Tests
use wispers_hub.Base.{
  ℕ, Bool, false, not, Option, none, some, List, [], ◌∷◌, Bytes, codes, ltb, eqb, if◌then◌else◌,
}
use wispers_hub.Base.Int.{ℤ, pos, negsuc}
use wispers_hub.Grpc.{Error, status, invalid_argument, failed_precondition, text}
use wispers_hub.Strings.{split, cut, parse_int, format_nat}

pub record Version : Type 0 where
  pub major : ℕ
  pub minor : ℕ
  pub patch : ℕ

abbrev pub hub_version : Bytes
hub_version = codes "0.5.0"

abbrev version_rejection_prefix : Bytes
version_rejection_prefix = codes "incompatible client version"

-- The three rounds of the loop.
unfoldable pub version_less : Version → Version → Bool
version_less a b =
    if not (eqb a.major b.major)
    then ltb a.major b.major
    else if not (eqb a.minor b.minor)
    then ltb a.minor b.minor
    else if not (eqb a.patch b.patch)
    then ltb a.patch b.patch
    else false

-- strconv.Atoi, and the refusal of a negative number.
abbrev pub natural : Option ℤ → Option ℕ
natural (some (pos n)) = some n
natural (some (negsuc n)) = none
natural none = none

abbrev pub component : Bytes → Option ℕ
component p = natural (parse_int 64 p)

abbrev pub with_components : Option ℕ → Option ℕ → Option ℕ → Option Version
with_components (some a) (some b) (some c) = some (record { major = a; minor = b; patch = c })
with_components _ _ _ = none

abbrev pub of_parts : List Bytes → Option Version
of_parts (a ∷ b ∷ c ∷ []) = with_components (component a) (component b) (component c)
of_parts _ = none

-- The two errors are one here: the callers use only that there is one.
unfoldable pub parse_version : Bytes → Option Version
parse_version s = of_parts (split b'.' (cut b'-' s).0)

unfoldable pub format_version : Version → Bytes
format_version v = format_nat v.major (b'.' ∷ format_nat v.minor (b'.' ∷ format_nat v.patch []))

abbrev pub zero_version : Version
zero_version = record { major = 0; minor = 0; patch = 0 }

pub data Checked (A : Type 0) : Type 0 where
  ok : A → Checked A
  err : Error → Checked A

abbrev pub malformed : Bytes → Error
malformed s = status invalid_argument "malformed wispers-client-version %q: %v" (text s ∷ [])

abbrev or_malformed : Bytes → Option Version → Checked Version
or_malformed s none = err (malformed s)
or_malformed s (some v) = ok v

-- `vals` are the values of the version header; without one the client is taken for v0.0.0.
unfoldable pub extract_client_version : List Bytes → Checked Version
extract_client_version [] = ok zero_version
extract_client_version (s ∷ more) = or_malformed s (parse_version s)

abbrev too_old : Version → Version → Error
too_old floor reported =
    status failed_precondition
      "%s: this hub (v%s) requires wispers-client v%s or newer, got v%s; please upgrade the client"
      (text version_rejection_prefix
        ∷ text hub_version
        ∷ text (format_version floor)
        ∷ text (format_version reported)
        ∷ [])

abbrev check_floor : Version → Checked Version → Option Error
check_floor floor (err e) = some e
check_floor floor (ok reported) =
    if version_less reported floor then some (too_old floor reported) else none

-- checkClientVersion with the hub's floor as an argument: `none` lets the call through.
unfoldable pub check_client_version : Version → List Bytes → Option Error
check_client_version floor vals = check_floor floor (extract_client_version vals)

-- MinClientVersion.
abbrev pub min_client_parsed : Version
min_client_parsed = zero_version

abbrev pub min_shed_client_version : Version
min_shed_client_version = record { major = 0; minor = 14; patch = 0 }

abbrev at_least : Version → Checked Version → Bool
at_least floor (err e) = false
at_least floor (ok v) = not (version_less v floor)

unfoldable pub client_is_shed_safe : List Bytes → Bool
client_is_shed_safe vals = at_least min_shed_client_version (extract_client_version vals)

-- The version interceptor: the handler runs only behind a passed check.
abbrev pub guarded : {A : Type 0} → Option Error → Checked A → Checked A
guarded (some e) handler = err e
guarded none handler = handler

unfoldable pub intercept : {A : Type 0} → List Bytes → Checked A → Checked A
intercept vals handler = guarded (check_client_version min_client_parsed vals) handler
