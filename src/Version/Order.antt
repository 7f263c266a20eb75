-- ===== src/Version/Order.antt =====
-- The order of versions in connect/hub/version.go.
use wispers_hub.Base.{◌<◌, ◌≡◌, ◌↔◌, ◌⊎◌, true, arith}
use wispers_hub.Version.{Version, version_less}

-- The lexicographic order, written out.
abbrev pub Precedes : Version → Version → Type 0
Precedes a b =
    (a.major < b.major)
    ⊎ ((a.major ≡ b.major) × ((a.minor < b.minor) ⊎ ((a.minor ≡ b.minor) × (a.patch < b.patch))))

-- The loop decides the lexicographic order on (major, minor, patch).
pub version_less_iff : (a b : Version) → (version_less a b ≡ true) ↔ Precedes a b
unfolding version_less
version_less_iff a b = ground arith
