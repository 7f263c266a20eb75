-- ===== src/Strings/Split.antt =====
-- Splitting at a separator undoes joining with it.
use wispers_hub.Base.{
  ℕ, ◌≡◌, ◌≢◌, refl, some, true, false, [], ◌∷◌, ◌++◌, Bytes, arith, All, eqb_refl,
}
use wispers_hub.Strings.{split, cut, contains, strip_prefix}

abbrev pub Lacks : ℕ → Bytes → Type 0
Lacks b = All (λ c. c ≢ b)

pub split-nil : (sep : ℕ) (p : Bytes) → Lacks sep p → split sep p ≡ p ∷ []
unfolding split
split-nil sep [] h = refl
split-nil sep (c ∷ p) h = ground (arith, split-nil sep p h.1)

pub split-append :
    (sep : ℕ) (p rest : Bytes) → Lacks sep p → split sep (p ++ sep ∷ rest) ≡ p ∷ split sep rest
unfolding split
split-append sep [] rest h = ground arith
split-append sep (c ∷ p) rest h = ground (arith, split-append sep p rest h.1)

pub cut-append :
    (sep : ℕ) (p rest : Bytes) → Lacks sep p → cut sep (p ++ sep ∷ rest) ≡ (p, rest, true)
unfolding cut
cut-append sep [] rest h = ground arith
cut-append sep (c ∷ p) rest h = ground (arith, cut-append sep p rest h.1)

pub cut-nil : (sep : ℕ) (p : Bytes) → Lacks sep p → cut sep p ≡ (p, [], false)
unfolding cut
cut-nil sep [] h = refl
cut-nil sep (c ∷ p) h = ground (arith, cut-nil sep p h.1)

pub contains-Lacks : (b : ℕ) (s : Bytes) → contains b s ≡ false → Lacks b s
unfolding contains
contains-Lacks b [] h = tt
contains-Lacks b (c ∷ s) h = (ground arith, contains-Lacks b s (ground arith))

pub strip_prefix-append : (p s : Bytes) → strip_prefix p (p ++ s) ≡ some s
unfolding strip_prefix
strip_prefix-append [] s = refl
strip_prefix-append (c ∷ p) s = rw (eqb_refl c) (strip_prefix-append p s)
