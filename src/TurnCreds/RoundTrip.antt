-- ===== src/TurnCreds/RoundTrip.antt =====
-- What connect/shared/turncreds.go mints it also verifies and reads back.
use wispers_hub.Base.{
  ◌≡◌, refl, ◌⊎◌, inl, inr, true, false, some, [], ◌∷◌, ◌++◌, Bytes, arith, append-nil, ◌||◌, ◌∙◌,
  bytes_eqb_refl, is_empty, Bool-cases, bytes_eq,
}
use wispers_hub.Base.Int.{ltb_ℤ, ℤ, pos, ◌≤ℤ◌, ◌<ℤ◌}
use wispers_hub.Strings.{split, contains, format_int}
use wispers_hub.Strings.Split.{Lacks, split-append, split-nil, contains-Lacks}
use wispers_hub.Strings.Decimal.{format_int-append, format_int-Lacks, parse_int-format_int, IsInt64}
use wispers_hub.TurnCreds.{
  ok, err, parse, username_of, mint, verify, with_rates, with_expiry, invalid_rates,
}

-- Rates that the parser accepts: none, or a floor that is not negative and a ceiling that is zero
-- (no ceiling) or not below the floor.
abbrev pub ValidRates : ℤ → ℤ → Type 0
ValidRates floor ceil = (pos 0 ≤ℤ floor) × ((ceil ≡ pos 0) ⊎ (floor ≤ℤ ceil))

two_parts :
    (subject : Bytes) (expiry : ℤ)
    → IsInt64 expiry
    → Lacks b':' subject
    → split b':' (format_int expiry (b':' ∷ (subject ++ []))) ≡ format_int expiry [] ∷ subject ∷ []
two_parts subject expiry e l = rw (format_int-append expiry (b':' ∷ (subject ++ []))) (
    rw
      (split-append b':' (format_int expiry []) (subject ++ [])
        (format_int-Lacks b':' expiry e (omega arith)))
      (rw append-nil (rw (split-nil b':' subject l))))

four_parts :
    (subject : Bytes) (floor ceil expiry : ℤ)
    → IsInt64 expiry
    → IsInt64 floor
    → IsInt64 ceil
    → Lacks b':' subject
    → split b':' (
        format_int expiry (b':' ∷ (subject ++ b':' ∷ format_int floor (b':' ∷ format_int ceil []))))
      ≡ format_int expiry [] ∷ subject ∷ format_int floor [] ∷ format_int ceil [] ∷ []
four_parts subject floor ceil expiry e f c l =
    rw
      (format_int-append expiry
        (b':' ∷ (subject ++ b':' ∷ format_int floor (b':' ∷ format_int ceil []))))
      (rw
        (split-append b':' (format_int expiry []) _ (format_int-Lacks b':' expiry e (omega arith)))
        (rw (split-append b':' subject _ l) (
          rw (format_int-append floor (b':' ∷ format_int ceil [])) (
            rw
              (split-append b':' (format_int floor []) _
                (format_int-Lacks b':' floor f (omega arith)))
              (rw (
                split-nil b':' (format_int ceil [])
                  (format_int-Lacks b':' ceil c (omega arith))))))))

-- What the parser makes of the two forms of a printed username.
parse_rated :
    (subject : Bytes) (floor ceil expiry : ℤ)
    → IsInt64 expiry
    → IsInt64 floor
    → IsInt64 ceil
    → Lacks b':' subject
    → parse (
        format_int expiry (b':' ∷ (subject ++ b':' ∷ format_int floor (b':' ∷ format_int ceil []))))
      ≡ with_rates (format_int expiry []) subject (some floor) (some ceil)
unfolding parse
parse_rated subject floor ceil expiry e f c l =
    rw (four_parts subject floor ceil expiry e f c l)
      (rw (parse_int-format_int floor f, parse_int-format_int ceil c))

parse_unrated :
    (subject : Bytes) (expiry : ℤ)
    → IsInt64 expiry
    → Lacks b':' subject
    → parse (format_int expiry (b':' ∷ (subject ++ [])))
      ≡ with_expiry subject (pos 0) (pos 0) (some expiry)
unfolding parse
parse_unrated subject expiry e l =
    rw (two_parts subject expiry e l) (rw (parse_int-format_int expiry e))

mint-eq-some :
    (sign : Bytes → Bytes) (subject : Bytes) (floor ceil expiry : ℤ) (username password : Bytes)
    → mint sign subject floor ceil expiry ≡ some (username, password)
    → (is_empty subject ≡ false)
      × (contains b':' subject ≡ false)
      × (username ≡ username_of subject floor ceil expiry)
      × (password ≡ sign username)
unfolding mint
mint-eq-some sign subject floor ceil expiry username password m = ground arith

verify_own :
    (sign : Bytes → Bytes) (username password : Bytes)
    → password ≡ sign username
    → verify sign username password ≡ parse username
unfolding verify
verify_own sign username password e = rw (e, bytes_eqb_refl (sign username))

parse-username_of :
    (subject : Bytes) (floor ceil expiry : ℤ)
    → IsInt64 floor
    → IsInt64 ceil
    → IsInt64 expiry
    → ValidRates floor ceil
    → is_empty subject ≡ false
    → Lacks b':' subject
    → parse (username_of subject floor ceil expiry)
      ≡ ok (record { subject = subject; floor_bps = floor; ceil_bps = ceil; expiry = expiry })
unfolding username_of
parse-username_of subject floor ceil expiry f c e v n l =
    elim (Bool-cases (ltb_ℤ (pos 0) floor || ltb_ℤ (pos 0) ceil)) [
      | inl rated ↦ rw rated (
          parse_rated subject floor ceil expiry e f c l
          ∙ rw (parse_int-format_int expiry e) (ground arith))
      | inr unrated ↦ rw unrated (parse_unrated subject expiry e l ∙ rw n (ground arith))
    ]

-- A credential minted for a subject that is not empty and has no colon, with valid 64-bit rates,
-- verifies under the same secret and parses to exactly the policy that it was minted for.
pub verify-mint :
    (sign : Bytes → Bytes) (subject : Bytes) (floor ceil expiry : ℤ) (username password : Bytes)
    → IsInt64 floor
    → IsInt64 ceil
    → IsInt64 expiry
    → ValidRates floor ceil
    → mint sign subject floor ceil expiry ≡ some (username, password)
    → verify sign username password
      ≡ ok (record { subject = subject; floor_bps = floor; ceil_bps = ceil; expiry = expiry })
verify-mint sign subject floor ceil expiry username password f c e v m =
    let (n, k, u, p) = mint-eq-some sign subject floor ceil expiry username password m in
    verify_own sign username password p
    ∙ rw u (parse-username_of subject floor ceil expiry f c e v n (contains-Lacks b':' subject k))

-- For a subject that is not empty and has no colon, a negative floor with a positive ceiling, or a
-- positive ceiling below its floor, is minted without complaint, and the credential is then refused by
-- the verifier for its rates.
pub verify-mint_invalid :
    (sign : Bytes → Bytes) (subject : Bytes) (floor ceil expiry : ℤ)
    → IsInt64 floor
    → IsInt64 ceil
    → IsInt64 expiry
    → pos 0 <ℤ ceil
    → (floor <ℤ pos 0) ⊎ (ceil <ℤ floor)
    → is_empty subject ≡ false
    → contains b':' subject ≡ false
    → (username : Bytes) × (password : Bytes) × (mint sign subject floor ceil expiry
        ≡ some (username, password))
      × (verify sign username password ≡ err (invalid_rates floor ceil))
unfolding username_of mint
verify-mint_invalid sign subject floor ceil expiry f c e z v n k = (
  username_of subject floor ceil expiry,
  sign (username_of subject floor ceil expiry),
  rw (n, k) refl,
  verify_own sign (username_of subject floor ceil expiry)
        (sign (username_of subject floor ceil expiry)) refl
      ∙ rw (ceil_positive floor ceil z) (
          parse_rated subject floor ceil expiry e f c (contains-Lacks b':' subject k)
          ∙ ground arith),
)
  where
    ceil_positive :
        (floor ceil : ℤ) → pos 0 <ℤ ceil → (ltb_ℤ (pos 0) floor || ltb_ℤ (pos 0) ceil) ≡ true
    ceil_positive floor ceil z = ground arith
