-- ===== src/Version/Tests.antt =====
-- Runs of the model of connect/hub/version.go, and its theorems at concrete inputs.
use wispers_hub.Base.{◌≡◌, ◌↔◌, true, none, [], ◌∷◌, ◌++◌, codes, arith}
use wispers_hub.Version.{
  Version, format_version, check_client_version, client_is_shed_safe, min_shed_client_version,
}
use wispers_hub.Version.Order.{Precedes}
use wispers_hub.Version.Gate.{check_client_version-format_version}

abbrev old : Version
old = record { major = 0; minor = 13; patch = 9 }

abbrev shed : Version
shed = record { major = 0; minor = 14; patch = 0 }

check_client_version-format_version_example :
    ((check_client_version shed (format_version old ∷ []) ≡ none) ↔ (¬ Precedes old shed))
    × ((check_client_version shed ((format_version old ++ b'-' ∷ codes "rc.1") ∷ []) ≡ none)
        ↔ (¬ Precedes old shed))
    × ((client_is_shed_safe (format_version old ∷ []) ≡ true)
        ↔ (¬ Precedes old min_shed_client_version))
check_client_version-format_version_example =
    check_client_version-format_version shed old (codes "rc.1") []
      (ground arith, ground arith, ground arith)
