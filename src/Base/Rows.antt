-- ===== src/Base/Rows.antt =====
-- Rows of a table under the changes that statements make to it: a map and an append.
use mathlib.Core.Path.{◌≡◌, refl, ap, ◌∙◌}
use mathlib.Core.Logic.{◌⊎◌, ◌↔◌, inl, inr}
use mathlib.Core.Bool.{Bool, true, false}
use mathlib.Core.List.{List, [], ◌∷◌, ◌++◌, map}
use mathlib.Core.Option.{none, some}
use wispers_hub.Base.Tests.{Bool-cases}
use wispers_hub.Base.Lists.{any, find, All, update_where}

module _ {ℓ} {A : Type ℓ} where
  pub any-map :
      (p q : A → Bool) (f : A → A)
      → ((a : A) → q (f a) ≡ p a)
      → (xs : List A) → any q (map f xs) ≡ any p xs
  any-map p q f h [] = refl
  any-map p q f h (x ∷ xs) = rw (h x, any-map p q f h xs)

  pub any-snoc :
      (p : A → Bool) (xs : List A) (y : A)
      → any p xs ≡ false
      → p y ≡ false
      → any p (xs ++ y ∷ []) ≡ false
  any-snoc p [] y h hy = rw hy
  any-snoc p (x ∷ xs) y h hy = elim (Bool-cases (p x)) [
    | inl hit ↦ absurd (cc (rw hit at h))
    | inr miss ↦ rw (miss, any-snoc p xs y (rw miss at h) hy)
  ]

  pub find-map :
      (p : A → Bool) (f : A → A)
      → ((a : A) → p (f a) ≡ p a)
      → (xs : List A) (x : A) → find p xs ≡ some x
      → find p (map f xs) ≡ some (f x)
  find-map p f h [] x e = cc
  find-map p f h (y ∷ xs) x e = elim (Bool-cases (p y)) [
    | inl hit ↦ rw (h y, hit) (ap (λ o. elim o [ none ↦ none | some a ↦ some (f a) ]) (rw hit at e))
    | inr miss ↦ rw (h y, miss) (find-map p f h xs x (rw miss at e))
  ]

  pub find-append :
      (p : A → Bool) (xs ys : List A) (x : A) → find p xs ≡ some x → find p (xs ++ ys) ≡ some x
  find-append p [] ys x e = cc
  find-append p (y ∷ xs) ys x e = elim (Bool-cases (p y)) [
    | inl hit ↦ rw hit (rw hit at e)
    | inr miss ↦ rw miss (find-append p xs ys x (rw miss at e))
  ]

  -- No two rows have the same key.
  abbrev pub Distinct : (A → A → Bool) → List A → Type 0
  Distinct same [] = Unit
  Distinct same (x ∷ xs) = (any (same x) xs ≡ false) × Distinct same xs

  module _ (same : A → A → Bool) where
    pub Distinct-map :
        (f : A → A)
        → ((a b : A) → same (f a) (f b) ≡ same a b)
        → (xs : List A) → Distinct same xs
        → Distinct same (map f xs)
    Distinct-map f h [] d = tt
    Distinct-map f h (x ∷ xs) (new, d) =
        (any-map (same x) (same (f x)) f (h x) xs ∙ new, Distinct-map f h xs d)

    pub Distinct-snoc :
        ((a b : A) → same a b ≡ same b a)
        → (xs : List A) (y : A) → any (same y) xs ≡ false
        → Distinct same xs
        → Distinct same (xs ++ y ∷ [])
    Distinct-snoc s [] y h d = (refl, tt)
    Distinct-snoc s (x ∷ xs) y h (new, d) = elim (Bool-cases (same y x)) [
      | inl hit ↦ absurd (cc (rw hit at h))
      | inr miss ↦
          (any-snoc (same x) xs y new (s x y ∙ miss), Distinct-snoc s xs y (rw miss at h) d)
    ]

module _ {ℓ} {A : Type ℓ} where
  pub All-map :
      (P Q : A → Type 0) (f : A → A)
      → ((a : A) → P a → Q (f a))
      → (xs : List A) → All P xs
      → All Q (map f xs)
  All-map P Q f h [] a = tt
  All-map P Q f h (x ∷ xs) (p, a) = (h x p, All-map P Q f h xs a)

  pub All-weaken : (P Q : A → Type 0) → ((a : A) → P a → Q a) → (xs : List A) → All P xs → All Q xs
  All-weaken P Q h [] a = tt
  All-weaken P Q h (x ∷ xs) (p, a) = (h x p, All-weaken P Q h xs a)

pub not_both : (b : Bool) → b ≡ false → b ≡ true → ⊥
not_both b e t = cc

-- The rows before and after: each row with the property is changed, any other is as it was.
module _ {A : Type 0} (P : A → Type 0) (f : A → A) where
  abbrev pub Updates : List A → List A → Type 0
  Updates [] [] = Unit
  Updates (x ∷ xs) (y ∷ ys) = ((P x × (y ≡ f x)) ⊎ ((¬ P x) × (y ≡ x))) × Updates xs ys
  Updates xs ys = ⊥

  pub update_where-Updates :
      (p : A → Bool)
      → ((x : A) → (p x ≡ true) ↔ P x)
      → (xs : List A) → Updates xs (update_where p f xs)
  update_where-Updates p h [] = tt
  update_where-Updates p h (x ∷ xs) =
      let rest = update_where-Updates p h xs in
      elim (Bool-cases (p x)) [
        | inl hit ↦ rw hit (inl ((h x).0 hit, refl), rest)
        | inr miss ↦ rw miss (inr ((λ holds. not_both (p x) miss ((h x).1 holds)), refl), rest)
      ]
