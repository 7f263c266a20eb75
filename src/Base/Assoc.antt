-- ===== src/Base/Assoc.antt =====
-- Go maps as association lists. A write to a present key replaces its entry, so a key stands once;
-- the order of a Go map's iteration is not specified, and no theorem depends on it.
use mathlib.Core.Path.{◌≡◌, refl}
use mathlib.Core.Logic.{◌≢◌}
use mathlib.Core.List.{List, [], ◌∷◌}
use mathlib.Core.Option.{Option, none, some}
use native.Mathlib.Omega.{arith}
use wispers_hub.Base.Tests.{if◌then◌else◌}
use wispers_hub.Base.Equality.{Eq, ◌==◌, ==_iff, ==_refl}

module _ {ℓ κ} {K : Type ℓ} {V : Type κ} ⦃e : Eq K⦄ where
  unfoldable pub lookup : K → List (K × V) → Option V
  lookup k [] = none
  lookup k ((j, v) ∷ m) = if j == k then some v else lookup k m

  unfoldable pub insert : K → V → List (K × V) → List (K × V)
  insert key val [] = (key, val) ∷ []
  insert key val ((j, old) ∷ rest) =
      if j == key then (key, val) ∷ rest else (j, old) ∷ insert key val rest

  unfoldable pub delete : K → List (K × V) → List (K × V)
  delete k [] = []
  delete k ((j, w) ∷ m) = if j == k then delete k m else (j, w) ∷ delete k m

  pub lookup-insert :
      (key j : K) (val : V) (entries : List (K × V))
      → lookup j (insert key val entries) ≡ (if key == j then some val else lookup j entries)
  unfolding lookup insert
  lookup-insert key j val [] = refl
  lookup-insert key j val ((i, old) ∷ rest) =
      ground (arith, lookup-insert key j val rest, ==_iff key j, ==_iff i key, ==_iff i j)

  pub lookup-delete :
      (k j : K) (m : List (K × V)) → lookup j (delete k m) ≡ (if k == j then none else lookup j m)
  unfolding lookup delete
  lookup-delete k j [] = ground arith
  lookup-delete k j ((i, w) ∷ m) =
      ground (arith, ==_iff k j, ==_iff i k, ==_iff i j, lookup-delete k j m)

  pub lookup-insert_self : (k : K) (v : V) (m : List (K × V)) → lookup k (insert k v m) ≡ some v
  lookup-insert_self k v m = simp (lookup-insert, ==_refl)

  pub lookup-insert_ne :
      (k j : K) (v : V) (m : List (K × V)) → k ≢ j → lookup j (insert k v m) ≡ lookup j m
  lookup-insert_ne k j v m h = ground (arith, lookup-insert k j v m, ==_iff k j)

  pub lookup-delete_self : (k : K) (m : List (K × V)) → lookup k (delete k m) ≡ none
  lookup-delete_self k m = simp (lookup-delete, ==_refl)

  lookup-delete_ne : (k j : K) (m : List (K × V)) → k ≢ j → lookup j (delete k m) ≡ lookup j m
  lookup-delete_ne k j m h = ground (arith, lookup-delete k j m, ==_iff k j)
