-- ===== src/Version/Gate.antt =====
-- The version gate of connect/hub/version.go on the header that a client sends.
use wispers_hub.Base.{
  ◌≡◌, ◌↔◌, ◌⊎◌, Option-cases, refl, true, false, none, some, List, [], ◌∷◌, ◌++◌, Bytes, arith,
  inl, inr,
}
use wispers_hub.Version.{
  Version, Checked, err, parse_version, format_version, check_client_version,
  extract_client_version, malformed, client_is_shed_safe, min_shed_client_version, intercept,
  version_less, zero_version,
}
use wispers_hub.Version.Order.{Precedes, version_less_iff}
use wispers_hub.Version.Parse.{IsSmall, parse_version-format_version}

-- A client that sends a printed version, with or without a pre-release suffix, passes the gate of a
-- floor exactly when its version does not precede the floor, and is taken for safe to shed exactly
-- when it does not precede 0.14.0.
pub check_client_version-format_version :
    (floor v : Version) (suffix : Bytes) (more : List Bytes)
    → IsSmall v
    → ((check_client_version floor (format_version v ∷ more) ≡ none) ↔ (¬ Precedes v floor))
      × ((check_client_version floor ((format_version v ++ b'-' ∷ suffix) ∷ more) ≡ none)
          ↔ (¬ Precedes v floor))
      × ((client_is_shed_safe (format_version v ∷ more) ≡ true)
          ↔ (¬ Precedes v min_shed_client_version))
unfolding check_client_version extract_client_version client_is_shed_safe
check_client_version-format_version floor v suffix more h =
    let (plain, suffixed) = parse_version-format_version v suffix h in
    rw (plain, suffixed)
      (
        ground (arith, version_less_iff v floor),
        ground (arith, version_less_iff v floor),
        ground (arith, version_less_iff v min_shed_client_version),
      )

not_version_less_zero : (v : Version) → version_less v zero_version ≡ false
unfolding version_less
not_version_less_zero v = ground arith

-- At the hub's floor 0.0.0 the handler runs for every client that sends no version or one that can be
-- read, and any other call ends with InvalidArgument; a client that sends no version is not safe to
-- shed.
intercept_lem :
    (s : Bytes) (more : List Bytes) (handler : Checked Bytes)
    → (intercept [] handler ≡ handler)
      × (client_is_shed_safe [] ≡ false)
      × (((v : Version) × (parse_version s ≡ some v) × (intercept (s ∷ more) handler ≡ handler))
          ⊎ ((parse_version s ≡ none) × (intercept (s ∷ more) handler ≡ err (malformed s))))
unfolding intercept check_client_version extract_client_version client_is_shed_safe version_less
intercept_lem s more handler = (
  refl,
  refl,
  elim (Option-cases (parse_version s)) [
    | inl e ↦ inr (e, rw e)
    | inr (v, e) ↦ inl (v, e, unfold version_less in rw e (ground arith))
  ],
)
