-- ===== src/Standalone/Rest/Stamped.antt =====
-- The rows after the statements of connect/hub/standalone_rest.go that stamp them as deleted.
use wispers_hub.Base.{
  ℕ, ◌≡◌, refl, sym, ◌∙◌, Bool, true, false, none, some, List, [], ◌∷◌, Bytes, any, find, arith,
  update_where, bytes_eq, Bool-cases, inl, inr,
}
use wispers_hub.Base.Int.{ℤ, int_eq}
use wispers_hub.Standalone.Db.{
  Db, GroupRow, NodeRow, TokenRow, is_live_group, is_live_node, is_live_in, is_usable,
}
use wispers_hub.Standalone.Exec.{Env, World, ok, guard, execute_returning, execute}
use wispers_hub.Standalone.Backend.{complete_node_registration}
use wispers_hub.Standalone.Messages.{stamp, invalid_credentials, Registration}
use wispers_hub.Standalone.Messages
use wispers_hub.Standalone.Backend.Tokens.{complete_node_registration-eq-ok}
use wispers_hub.Standalone.Answers.{Failure, internal, bury}

pub find-emptied :
    (cg : Bytes) (n : ℤ) (now : ℕ) (rows : List NodeRow)
    → find (is_live_node cg n) (update_where (is_live_in cg) (stamp now) rows) ≡ none
find-emptied cg n now [] = refl
find-emptied cg n now (r ∷ rows) =
    let rest = find-emptied cg n now rows in
    elim (Bool-cases (is_live_in cg r)) [
      | inl hit ↦ rw (hit, rest) (ground arith)
      | inr miss ↦
          let other : is_live_node cg n r ≡ false = ground arith in rw (miss, rest, other) refl
    ]

pub find-stamped_node :
    (cg : Bytes) (n : ℤ) (now : ℕ) (rows : List NodeRow)
    → find (is_live_node cg n) (update_where (is_live_node cg n) (stamp now) rows) ≡ none
find-stamped_node cg n now [] = refl
find-stamped_node cg n now (r ∷ rows) =
    let rest = find-stamped_node cg n now rows in
    elim (Bool-cases (is_live_node cg n r)) [
      | inl hit ↦ rw (hit, rest) (ground arith)
      | inr miss ↦ rw (miss, rest, miss) refl
    ]

any-buried :
    (cg : Bytes) (now : ℕ) (gs : List GroupRow)
    → any (is_live_group cg) (update_where (is_live_group cg) (bury now) gs) ≡ false
any-buried cg now [] = refl
any-buried cg now (g ∷ gs) =
    let rest = any-buried cg now gs in
    elim (Bool-cases (is_live_group cg g)) [
      | inl hit ↦ rw (hit, rest) (ground arith)
      | inr miss ↦ rw (miss, rest, miss) refl
    ]

find-is_usable :
    (db : Db) (hash : Bytes) (now : ℕ) (rs : List TokenRow) (t : TokenRow)
    → find (is_usable db hash now) rs ≡ some t
    → any (is_live_group t.group_id) db.groups ≡ true
find-is_usable db hash now [] t e = cc
find-is_usable db hash now (r ∷ rs) t e = elim (Bool-cases (is_usable db hash now r)) [
  | inl this ↦ let same : r ≡ t = cc (rw this at e) in rw (sym same) (ground arith)
  | inr other ↦ find-is_usable db hash now rs t (rw other at e)
]

pub some_inj : {a c : Bytes} → some a ≡ some c → a ≡ c
some_inj e = cc

pub execute-eq-ok :
    (env : Env) (g : Db → Db) (w w' : World)
    → execute env {E = Failure} internal g w ≡ (ok tt, w')
    → w'.db ≡ g w.db
unfolding execute_returning
execute-eq-ok env g w w' e = elim (Bool-cases (env.fails w.calls)) [
  | inl bad ↦ absurd (cc (rw bad at e))
  | inr good ↦ let e' = rw good at e in cc
]

pub number_inj : {a c : ℤ} → some a ≡ some c → a ≡ c
number_inj e = cc

pub guard-eq-ok : (c : Bool) (e : Failure) (w w' : World) → guard c e w ≡ (ok tt, w') → w'.db ≡ w.db
unfolding guard
guard-eq-ok true e w w' h = cc
guard-eq-ok false e w w' h = cc

pub guard-true : (c : Bool) (e : Failure) (w w' : World) → guard c e w ≡ (ok tt, w') → c ≡ true
unfolding guard
guard-true true e w w' h = refl
guard-true false e w w' h = cc

dead :
    (cg id : Bytes) (now : ℕ) (gs gs' : List GroupRow)
    → cg ≡ id
    → gs' ≡ update_where (is_live_group cg) (bury now) gs
    → any (is_live_group id) gs' ≡ true
    → ⊥
dead cg id now gs gs' same e live =
    let gone = any-buried cg now gs in cc (rw (sym same, e, gone) at live)

pub unregistrable :
    (b : Messages.Externals) (env : Env) (blob cg : Bytes) (now : ℕ) (gs : List GroupRow)
    (w w' : World) (r : Registration)
    → w.db.groups ≡ update_where (is_live_group cg) (bury now) gs
    → complete_node_registration b env blob w ≡ (ok r, w')
    → r.connectivity_group_id ≡ cg
    → ⊥
unregistrable b env blob cg now gs w w' r groups_eq done into =
    let (t, n, found, cg_eq, c, d, f, rows) =
      complete_node_registration-eq-ok b env blob w w' r done in
    let live = find-is_usable w.db _ _ w.db.tokens t found in
    dead cg t.group_id now gs w.db.groups (sym into ∙ cg_eq) groups_eq live
