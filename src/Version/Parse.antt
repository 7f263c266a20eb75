-- ===== src/Version/Parse.antt =====
-- Versions read and printed by connect/hub/version.go.
use wispers_hub.Base.{ℕ, ◌<◌, ◌^◌, ◌≡◌, inl, some, [], ◌∷◌, ◌++◌, Bytes, arith}
use wispers_hub.Base.Int.{pos}
use wispers_hub.Strings.{split, format_nat, format_int}
use wispers_hub.Strings.Split.{Lacks, split-append, split-nil, cut-append, cut-nil}
use wispers_hub.Strings.Decimal.{
  format_nat-append, format_nat-Lacks, format_nat-Lacks_append, parse_int-format_int,
}
use wispers_hub.Version.{Version, parse_version, format_version, of_parts, component}

abbrev pub IsSmall : Version → Type 0
IsSmall v = (v.major < 2 ^ 63) × (v.minor < 2 ^ 63) × (v.patch < 2 ^ 63)

component-format_nat : (n : ℕ) → n < 2 ^ 63 → component (format_nat n []) ≡ some n
unfolding format_int
component-format_nat n h = rw (parse_int-format_int (pos n) (omega arith))

dotted :
    (v : Version)
    → IsSmall v
    → split b'.' (format_version v)
      ≡ format_nat v.major [] ∷ format_nat v.minor [] ∷ format_nat v.patch [] ∷ []
unfolding format_version
dotted v h =
    rw (format_nat-append v.major (b'.' ∷ format_nat v.minor (b'.' ∷ format_nat v.patch []))) (
      rw
        (split-append b'.' (format_nat v.major []) _
          (format_nat-Lacks b'.' v.major (omega arith) (inl (omega arith))))
        (rw (format_nat-append v.minor (b'.' ∷ format_nat v.patch [])) (
          rw
            (split-append b'.' (format_nat v.minor []) _
              (format_nat-Lacks b'.' v.minor (omega arith) (inl (omega arith))))
            (rw (
              split-nil b'.' (format_nat v.patch [])
                (format_nat-Lacks b'.' v.patch (omega arith) (inl (omega arith))))))))

parts :
    (v : Version)
    → IsSmall v
    → of_parts (format_nat v.major [] ∷ format_nat v.minor [] ∷ format_nat v.patch [] ∷ []) ≡ some v
parts v h = rw (
  component-format_nat v.major h.0,
  component-format_nat v.minor h.1,
  component-format_nat v.patch h.2,
)

format_version-Lacks : (v : Version) → IsSmall v → Lacks b'-' (format_version v)
unfolding format_version
format_version-Lacks v h =
    format_nat-Lacks_append b'-' v.major _ (omega arith) (inl (omega arith)) (
      omega arith,
      format_nat-Lacks_append b'-' v.minor _ (omega arith) (inl (omega arith))
          (omega arith, format_nat-Lacks b'-' v.patch (omega arith) (inl (omega arith))),
    )

-- A printed version whose components fit in an int is read back, whatever pre-release suffix follows
-- it after a dash.
pub parse_version-format_version :
    (v : Version) (suffix : Bytes)
    → IsSmall v
    → (parse_version (format_version v) ≡ some v)
      × (parse_version (format_version v ++ b'-' ∷ suffix) ≡ some v)
unfolding parse_version
parse_version-format_version v suffix h = (
  rw (cut-nil b'-' (format_version v) (format_version-Lacks v h), dotted v h, parts v h),
  rw (cut-append b'-' (format_version v) suffix (format_version-Lacks v h), dotted v h, parts v h),
)
