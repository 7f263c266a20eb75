-- ===== src/ApiKeys/Base62/Alphabet.antt =====
-- What a text that decodeBase62 accepts cannot hold, in connect/shared/apikeys.go.
use wispers_hub.Base.{
  ℕ, ◌+◌, ◌*◌, ◌≡◌, false, Option, none, some, [], ◌∷◌, ap, Bytes, length, eqb, arith, Bool-cases,
  Option-cases, inl, inr,
}
use wispers_hub.Strings.Split.{Lacks}
use wispers_hub.ApiKeys.Base62.{base62_indices, decode_loop, decode_base62, sized}

undecoded :
    (fuel size : ℕ) (o : Option ℕ) (src : Bytes) → o ≡ none → sized fuel size o ≡ some src → ⊥
undecoded fuel size none src n e = cc
undecoded fuel size (some v) src n e = cc

differs : (c b : ℕ) → c ≡ b → eqb (base62_indices c) 0xFF ≡ false → base62_indices b ≡ 0xFF → ⊥
differs c b same good o = ground (arith, ap base62_indices same)

decode_loop-Lacks :
    (b num : ℕ) (t : Bytes) (v : ℕ)
    → base62_indices b ≡ 0xFF
    → decode_loop num t ≡ some v
    → Lacks b t
unfolding decode_loop
decode_loop-Lacks b num [] v o e = tt
decode_loop-Lacks b num (c ∷ s) v o e = elim (Bool-cases (eqb (base62_indices c) 0xFF)) [
  | inl bad ↦ absurd (ground arith)
  | inr good ↦ (
    λ same. differs c b same good o,
    decode_loop-Lacks b (num * 62 + base62_indices c) s v o (ground arith),
  )
]

-- A text that can be decoded holds no byte outside the alphabet.
pub decode_base62-Lacks :
    (b : ℕ) (t : Bytes) (size : ℕ) (src : Bytes)
    → base62_indices b ≡ 0xFF
    → decode_base62 t size ≡ some src
    → Lacks b t
unfolding decode_base62
decode_base62-Lacks b [] size src o e = tt
decode_base62-Lacks b (c ∷ s) size src o e = elim (Option-cases (decode_loop 0 (c ∷ s))) [
  | inl n ↦ absurd (undecoded (length (c ∷ s)) size (decode_loop 0 (c ∷ s)) src n e)
  | inr (v, n) ↦ decode_loop-Lacks b 0 (c ∷ s) v o n
]
