-- ===== src/Standalone/Backend/OneShot.antt =====
-- What a registration of connect/hub/standalone_grpc.go leaves for later calls: its token is dead
-- and its node authenticates.
use wispers_hub.Base.{
  ℕ, suc, sym, ap, subst, ◌∙◌, ◌≡◌, refl, Bool, true, false, not, ◌&&◌, none, some, List, [], ◌∷◌,
  ◌++◌, Bytes, any, find, update_where, ◌==◌, ==_iff, ==_refl, bytes_eq, Bool-cases, inl, inr,
  arith,
}
use wispers_hub.Base.Int.{ℤ, pos, int_eq}
use wispers_hub.Standalone.Db.{Db, NodeRow, TokenRow, is_usable, is_node, is_live_node}
use wispers_hub.Standalone.Exec.{Env, World, ok, ◌>>=◌, guard, or_raise, query, called}
use wispers_hub.Standalone.Backend.{
  complete_node_registration, authenticate_node, new_node, parse_group_id,
}
use wispers_hub.Standalone.Messages.{Externals, Registration}
use wispers_hub.Standalone.Backend.Tokens.{complete_node_registration-eq-ok}

-- Every token with the hash has the same id.
abbrev pub has_other_id : Bytes → Bytes → TokenRow → Bool
has_other_id hash id r = (r.token_hash == hash) && not (r.id == id)

module _ (hash id : Bytes) where
  find-hash :
      (db : Db) (now : ℕ) (rs : List TokenRow) (t : TokenRow)
      → any (has_other_id hash id) rs ≡ false
      → find (is_usable db hash now) rs ≡ some t
      → (t.id == id) ≡ true
  find-hash db now [] t u e = cc
  find-hash db now (r ∷ rs) t u e = elim (Bool-cases (is_usable db hash now r)) [
    | inl this ↦ let same : r ≡ t = cc (rw this at e) in rw (sym same) (ground arith)
    | inr other ↦ find-hash db now rs t (ground arith) (rw other at e)
  ]

  -- Once the tokens with that id are used, none with the hash is found.
  find-used :
      (db : Db) (now used : ℕ) (rs : List TokenRow)
      → any (has_other_id hash id) rs ≡ false
      → find
          (is_usable db hash now)
          (update_where (λ (r : TokenRow). r.id == id) (λ r. record r { used_at = some used }) rs)
        ≡ none
  find-used db now used [] u = refl
  find-used db now used (r ∷ rs) u =
      let rest = find-used db now used rs (ground arith) in
      elim (Bool-cases (r.id == id)) [
        | inl this ↦ elim (Bool-cases (r.token_hash == hash)) [
          | inl ours ↦ rw (this, rest, ours) refl
          | inr theirs ↦ rw (this, rest, theirs) refl
        ]
        | inr other ↦
            let theirs : (r.token_hash == hash) ≡ false = ground arith in
            rw (other, rest, theirs) refl
      ]

  never :
      (db db2 : Db) (now now' used : ℕ) (rs : List TokenRow) (t t' : TokenRow)
      → any (has_other_id hash id) rs ≡ false
      → find (is_usable db hash now) rs ≡ some t
      → find
          (is_usable db2 hash now')
          (update_where (λ (r : TokenRow). r.id == t.id) (λ r. record r { used_at = some used }) rs)
        ≡ some t'
      → ⊥
  never db db2 now now' used rs t t' unique found again =
      let same : t.id ≡ id = (==_iff t.id id).0 (find-hash db now rs t unique found) in
      let gone = find-used db2 now' used rs unique in cc (rw (same, gone) at again)

find-free :
    (cg : Bytes) (n : ℤ) (rs : List NodeRow) (row : NodeRow)
    → any (is_node cg n) rs ≡ false
    → is_live_node cg n row ≡ true
    → find (is_live_node cg n) (rs ++ row ∷ []) ≡ some row
find-free cg n [] row free live = rw live
find-free cg n (r ∷ rs) row free live =
    let rest = find-free cg n rs row (ground arith) live in
    let other : is_node cg n r ≡ false = ground arith in rw (other, rest)

module _ (x : Externals) (env env' : Env) where
  authenticate-new :
      (raw : Bytes) (w : World) (nodes : List NodeRow) (t : TokenRow) (n : ℕ) (a : Bytes) (now : ℕ)
      → x.parse_uuid raw ≡ some t.group_id
      → any (is_node t.group_id (pos n)) nodes ≡ false
      → w.db.nodes ≡ nodes ++ new_node x env t n a now ∷ []
      → env'.fails w.calls ≡ false
      → authenticate_node x env' raw (pos n) a w ≡ (ok tt, called w)
  unfolding authenticate_node parse_group_id ◌>>=◌ query or_raise guard
  authenticate-new raw w nodes t n a now parsed free nodes_eq up =
      let row = new_node x env t n a now in
      let found =
        find-free t.group_id (pos n) nodes row free (rw (==_refl t.group_id, ==_refl (pos n))) in
      rw (parsed, up, nodes_eq, found, ==_refl (x.hash_token a)) refl

module _ (x : Externals) where
  -- A token registers one node: after a registration by a token whose hash no token with another id
  -- has, no registration by it succeeds, in any environment and any later database that has the
  -- tokens which the first one left.
  pub complete_node_registration-once :
      (env env' : Env) (token id : Bytes) (w w' w2 w3 : World) (r r' : Registration)
      → any (has_other_id (x.hash_token token) id) w.db.tokens ≡ false
      → complete_node_registration x env token w ≡ (ok r, w')
      → w2.db.tokens ≡ w'.db.tokens
      → ¬ (complete_node_registration x env' token w2 ≡ (ok r', w3))
  complete_node_registration-once env env' token id w w' w2 w3 r r' unique first same second =
      let (t, n, found, b, c, number, free, rows) =
        complete_node_registration-eq-ok x env token w w' r first in
      let (t', n', found', b', c', number', free', rows') =
        complete_node_registration-eq-ok x env' token w2 w3 r' second in
      never (x.hash_token token) id w.db w2.db _ _ _ w.db.tokens t t' unique found (
        subst
          (λ (rs : List TokenRow).
            find (is_usable w2.db (x.hash_token token) (env'.now (suc (suc w2.calls)))) rs
            ≡ some t')
          (same ∙ rows.2) found')

  -- A node that has registered authenticates with the token that it was given, in any later database
  -- that has the nodes which the registration left.
  pub authenticate_node-complete_node_registration :
      (env env' : Env) (token raw : Bytes) (w w' w2 : World) (r : Registration)
      → complete_node_registration x env token w ≡ (ok r, w')
      → x.parse_uuid raw ≡ some r.connectivity_group_id
      → w2.db.nodes ≡ w'.db.nodes
      → env'.fails w2.calls ≡ false
      → authenticate_node x env' raw r.node_number r.auth_token w2 ≡ (ok tt, called w2)
  authenticate_node-complete_node_registration env env' token raw w w' w2 r first parsed same up =
      let (t, n, found, b, c, number, free, rows) =
        complete_node_registration-eq-ok x env token w w' r first in
      rw c (
        authenticate-new x env env' raw w2 w.db.nodes t n r.auth_token _ (parsed ∙ ap some b) free
          (same ∙ rows.1) up)
