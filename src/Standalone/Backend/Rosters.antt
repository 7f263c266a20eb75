-- ===== src/Standalone/Backend/Rosters.antt =====
-- UpdateRoster of connect/hub/standalone_grpc.go: a compare-and-swap on the roster's version.
use wispers_hub.Base.{
  ◌≡◌, refl, sym, ap, not_both, update_where-Updates, ◌⊎◌, ◌∙◌, Bool, true, false, not, some, List,
  [], ◌∷◌, Bytes, any, arith, update_where, ◌==◌, bytes_eq, if◌then◌else◌, Bool-cases, inl, inr,
}
use wispers_hub.Base.Int.{ℤ, leb_ℤ, int_eq, ◌<ℤ◌, ◌≤ℤ◌}
use wispers_hub.Standalone.Db.{GroupRow, update_groups}
use wispers_hub.Standalone.Exec.{
  Env, World, ok, err, ◌>>=◌, guard, or_raise, called, execute_returning,
}
use wispers_hub.Standalone.Exec.Inversion.{raise-bind, guard-bind, execute-bind}
use wispers_hub.Standalone.Backend.{update_roster, parse_group_id}
use wispers_hub.Standalone.Messages.{
  Externals, has_version, with_roster, bad_new_version, version_conflict,
}
use wispers_hub.Standalone.Backend.Versions.{
  Row, AtVersion, has_version_iff, any-Row, Row-any, Swaps,
}

update_where-none :
    {A : Type 0} (p : A → Bool) (f : A → A) (xs : List A)
    → any p xs ≡ false
    → update_where p f xs ≡ xs
update_where-none p f [] e = refl
update_where-none p f (a ∷ xs) e =
    let rest = update_where-none p f xs (ground arith) in
    let here : p a ≡ false = ground arith in rw (here, rest)

not-eq-true : (b : Bool) → not b ≡ true → b ≡ false
not-eq-true true e = cc
not-eq-true false e = refl

affected-eq-ok :
    (b : Bool) (w w' : World) → guard b version_conflict w ≡ (ok tt, w') → (b ≡ true) × (w' ≡ w)
unfolding guard
affected-eq-ok true w w' e = (refl, cc)
affected-eq-ok false w w' e = cc

module _ (x : Externals) (env : Env) where
  -- Every branch of UpdateRoster for a group identifier that parses and a database that answers: the
  -- new version has to be above the expected one, and the roster is written where a live group has
  -- the expected version; where none has it, the call ends with Aborted and the database is as it was.
  update_roster_lem :
      (raw roster : Bytes) (new expected : ℤ) (w : World) (cg : Bytes)
      → x.parse_uuid raw ≡ some cg
      → env.fails w.calls ≡ false
      → update_roster x env raw roster new expected w ≡ (
          if leb_ℤ new expected
          then (err bad_new_version, w)
          else if any (has_version cg expected) w.db.groups
          then (
            ok tt,
            record (called w) {
              db = update_groups (has_version cg expected) (with_roster roster new) w.db;
            },
          )
          else (err version_conflict, called w))
  unfolding update_roster parse_group_id ◌>>=◌ or_raise guard execute_returning
  update_roster_lem raw roster new expected w cg parsed up =
      elim (Bool-cases (leb_ℤ new expected)) [
        | inl low ↦ rw (parsed, low) refl
        | inr high ↦ elim (Bool-cases (any (has_version cg expected) w.db.groups)) [
          | inl there ↦ rw (parsed, high, up, there) refl
          | inr gone ↦
              rw
                (
                  parsed,
                  high,
                  up,
                  gone,
                  update_where-none (has_version cg expected) (with_roster roster new) w.db.groups
                      gone,
                )
                refl
        ]
      ]

  -- For a group identifier that parses and a database that answers, UpdateRoster is a compare-and-swap.
  -- Either the new version is above the expected one and some live group of this identifier has a roster
  -- of the expected version: then it succeeds, each such row has the new roster and version, and every
  -- other row is as it was. Or not: then it ends with an error, which says which of the two conditions
  -- failed, and the database is as it was.
  pub update_roster-Swaps :
      (raw roster : Bytes) (new expected : ℤ) (w : World) (cg : Bytes)
      → x.parse_uuid raw ≡ some cg
      → env.fails w.calls ≡ false
      → let (res, w') = update_roster x env raw roster new expected w in
        let there = (g : GroupRow) × Row g w.db.groups × AtVersion cg expected g in
        ((expected <ℤ new)
          × there
          × (res ≡ ok tt)
          × Swaps cg expected roster new w.db.groups w'.db.groups)
        ⊎ ((new ≤ℤ expected) × (res ≡ err bad_new_version) × (w'.db ≡ w.db))
        ⊎ ((expected <ℤ new) × (¬ there) × (res ≡ err version_conflict) × (w'.db ≡ w.db))
  update_roster-Swaps raw roster new expected w cg parsed up =
      elim (Bool-cases (leb_ℤ new expected)) [
        | inl low ↦
            rw (update_roster_lem raw roster new expected w cg parsed up, low)
              (inr (inl (ground arith, refl, refl)))
        | inr high ↦ elim (Bool-cases (any (has_version cg expected) w.db.groups)) [
          | inl there ↦
              rw (update_roster_lem raw roster new expected w cg parsed up, high, there)
                (inl (
                  ground arith,
                  any-Row cg expected w.db.groups there,
                  refl,
                  update_where-Updates (AtVersion cg expected) (with_roster roster new)
                      (has_version cg expected) (has_version_iff cg expected) w.db.groups,
                ))
          | inr gone ↦
              rw (update_roster_lem raw roster new expected w cg parsed up, high, gone)
                (inr (
                  inr (
                    ground arith,
                    λ (g, at, good).
                        absurd (not_both _ gone (Row-any cg expected g w.db.groups at good)),
                    refl,
                    refl,
                  )))
        ]
      ]

  update_roster-eq-ok :
      (raw roster : Bytes) (new expected : ℤ) (w w' : World)
      → update_roster x env raw roster new expected w ≡ (ok tt, w')
      → (cg : Bytes) × (x.parse_uuid raw ≡ some cg)
        × (leb_ℤ new expected ≡ false)
        × (any (has_version cg expected) w.db.groups ≡ true)
        × (w'.db.groups
            ≡ update_where (has_version cg expected) (with_roster roster new) w.db.groups)
  unfolding update_roster parse_group_id
  update_roster-eq-ok raw roster new expected w w' e =
      let (cg, parsed, e1) = raise-bind _ w' _ _ _ _ e in
      let (high, e2) = guard-bind _ w' _ _ _ _ e1 in
      let (up, e3) = execute-bind _ w' _ env _ _ _ _ e2 in
      let (there, same) = affected-eq-ok _ _ _ e3 in
      (cg, parsed, not-eq-true _ high, there, ap (λ (v : World). v.db.groups) same)

-- The swap leaves no live group with the version that it expected, where versions grow.
swapped :
    (cg roster : Bytes) (new expected : ℤ) (gs : List GroupRow)
    → leb_ℤ new expected ≡ false
    → any
        (has_version cg expected)
        (update_where (has_version cg expected) (with_roster roster new) gs)
      ≡ false
swapped cg roster new expected [] high = refl
swapped cg roster new expected (g ∷ gs) high =
    let rest = swapped cg roster new expected gs high in
    let other : (new == expected) ≡ false = ground arith in
    elim (Bool-cases (has_version cg expected g)) [
      | inl hit ↦ rw (hit, rest) (rw other (ground arith))
      | inr miss ↦ rw (miss, rest, miss) refl
    ]

collide :
    (cg cg' roster : Bytes) (new expected : ℤ) (gs gs2 : List GroupRow)
    → some cg ≡ some cg'
    → leb_ℤ new expected ≡ false
    → any (has_version cg' expected) gs2 ≡ true
    → gs2 ≡ update_where (has_version cg expected) (with_roster roster new) gs
    → ⊥
collide cg cg' roster new expected gs gs2 same high there gs_eq =
    let gone = swapped cg roster new expected gs high in
    let c : cg' ≡ cg = cc in cc (rw (c, gs_eq, gone) at there)

module _ (x : Externals) where
  -- Of two updates that expect the same version of a roster one succeeds: after the first, the second
  -- does not, whatever it writes, in any later database with the groups that the first one left.
  pub update_roster-once :
      (env env' : Env) (raw roster roster' : Bytes) (new new' expected : ℤ) (w w' w2 w3 : World)
      → update_roster x env raw roster new expected w ≡ (ok tt, w')
      → w2.db.groups ≡ w'.db.groups
      → ¬ (update_roster x env' raw roster' new' expected w2 ≡ (ok tt, w3))
  update_roster-once env env' raw roster roster' new new' expected w w' w2 w3 first same second =
      let (cg, parsed, high, there, groups_eq) =
        update_roster-eq-ok x env raw roster new expected w w' first in
      let (cg', parsed', high', there', groups_eq') =
        update_roster-eq-ok x env' raw roster' new' expected w2 w3 second in
      collide cg cg' roster new expected w.db.groups w2.db.groups (sym parsed ∙ parsed') high there'
        (same ∙ groups_eq)
