-- ===== src/Standalone/Backend/Versions.antt =====
-- The rows that the UPDATE statement of UpdateRoster in connect/hub/standalone_grpc.go hits.
use wispers_hub.Base.{
  ◌≡◌, refl, Updates, ◌↔◌, ◌⊎◌, none, ℕ, Option, ==_iff, true, some, List, [], ◌∷◌, Bytes, any,
  arith, bytes_eq, Bool-cases, inl, inr,
}
use wispers_hub.Base.Int.{ℤ, int_eq}
use wispers_hub.Standalone.Db.{GroupRow, is_null}
use wispers_hub.Standalone.Messages.{has_version}

-- A row of the table.
abbrev pub Row : GroupRow → List GroupRow → Type 0
Row g [] = ⊥
Row g (r ∷ gs) = (g ≡ r) ⊎ Row g gs

-- The group is live, and its roster has this version.
abbrev pub AtVersion : Bytes → ℤ → GroupRow → Type 0
AtVersion cg expected g = (g.id ≡ cg) × (g.deleted_at ≡ none) × (g.roster_version ≡ expected)

pub is_null-true : (o : Option ℕ) → is_null o ≡ true → o ≡ none
is_null-true none e = refl
is_null-true (some t) e = cc

pub has_version_iff :
    (cg : Bytes) (expected : ℤ) (g : GroupRow)
    → (has_version cg expected g ≡ true) ↔ AtVersion cg expected g
has_version_iff cg expected g = (
  λ e. (
    (==_iff g.id cg).0 (ground arith),
    is_null-true g.deleted_at (ground arith),
    (==_iff g.roster_version expected).0 (ground arith),
  ),
  λ (id, live, version).
      let a = (==_iff g.id cg).1 id in
      let b = (==_iff g.roster_version expected).1 version in ground (arith, live),
)

pub any-Row :
    (cg : Bytes) (expected : ℤ) (gs : List GroupRow)
    → any (has_version cg expected) gs ≡ true
    → (g : GroupRow) × Row g gs × AtVersion cg expected g
any-Row cg expected [] e = cc
any-Row cg expected (g ∷ gs) e = elim (Bool-cases (has_version cg expected g)) [
  | inl hit ↦ (g, inl refl, (has_version_iff cg expected g).0 hit)
  | inr miss ↦ let (r, at, good) = any-Row cg expected gs (rw miss at e) in (r, inr at, good)
]

pub Row-any :
    (cg : Bytes) (expected : ℤ) (g : GroupRow) (gs : List GroupRow)
    → Row g gs
    → AtVersion cg expected g
    → any (has_version cg expected) gs ≡ true
Row-any cg expected g [] at good = absurd at
Row-any cg expected g (r ∷ gs) (inl same) good =
    let hit = (has_version_iff cg expected g).1 good in rw (← same, hit) refl
Row-any cg expected g (r ∷ gs) (inr at) good =
    let rest = Row-any cg expected g gs at good in ground arith

-- The rows of before and after: one at the version has the new roster, any other is as it was.
abbrev pub Swaps : Bytes → ℤ → Bytes → ℤ → List GroupRow → List GroupRow → Type 0
Swaps cg expected roster new =
    Updates (AtVersion cg expected) (λ g. record g { roster = some roster; roster_version = new })
