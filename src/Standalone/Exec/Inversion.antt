-- ===== src/Standalone/Exec/Inversion.antt =====
-- What a method that ended well has done, one step at a time; and the states that it can end in.
use wispers_hub.Base.{
  ℕ, ◌≡◌, refl, Bool, true, false, Option, none, some, Bytes, arith, Bool-cases, Option-cases, inl,
  inr,
}
use wispers_hub.Standalone.Db.{Db}
use wispers_hub.Standalone.Exec.{
  Env, World, Result, ok, err, Exec, called, continue, ◌>>=◌, guard, or_raise, stored, query,
  execute_returning, try_insert, read_clock, draw, settle, transaction,
}

module _ {E B : Type 0} (w w' : World) (b : B) where
  pub query-bind :
      {A : Type 0} (env : Env) (e : E) (f : Db → A) (k : A → Exec E B)
      → (query env e f >>= k) w ≡ (ok b, w')
      → (env.fails w.calls ≡ false) × (k (f w.db) (called w) ≡ (ok b, w'))
  unfolding query ◌>>=◌
  query-bind env e f k h = elim (Bool-cases (env.fails w.calls)) [
    | inl bad ↦ absurd (ground arith)
    | inr good ↦ (good, rw good at h)
  ]

  pub execute-bind :
      {A : Type 0} (env : Env) (e : E) (f : Db → A) (g : Db → Db) (k : A → Exec E B)
      → (execute_returning env e f g >>= k) w ≡ (ok b, w')
      → (env.fails w.calls ≡ false) × (k (f w.db) (record (called w) { db = g w.db }) ≡ (ok b, w'))
  unfolding execute_returning ◌>>=◌
  execute-bind env e f g k h = elim (Bool-cases (env.fails w.calls)) [
    | inl bad ↦ absurd (ground arith)
    | inr good ↦ (good, rw good at h)
  ]

  pub clock-bind :
      (env : Env) (k : ℕ → Exec E B)
      → (read_clock env >>= k) w ≡ (ok b, w')
      → k (env.now w.calls) (called w) ≡ (ok b, w')
  unfolding read_clock ◌>>=◌
  clock-bind env k h = h

  pub draw-bind :
      (env : Env) (n : ℕ) (k : Option Bytes → Exec E B)
      → (draw env n >>= k) w ≡ (ok b, w')
      → k (env.random w.calls n) (called w) ≡ (ok b, w')
  unfolding draw ◌>>=◌
  draw-bind env n k h = h

  pub insert-bind :
      (env : Env) (r e : E) (f : Db → Option Db) (k : Unit {0} → Exec E B)
      → (try_insert env r e f >>= k) w ≡ (ok b, w')
      → (db : Db) × (f w.db ≡ some db)
        × (env.fails w.calls ≡ false)
        × (k tt (record (called w) { db = db }) ≡ (ok b, w'))
  unfolding try_insert ◌>>=◌
  insert-bind env r e f k h = elim (Bool-cases (env.fails w.calls)) [
    | inl bad ↦ absurd (ground arith)
    | inr good ↦ elim (Option-cases (f w.db)) [
      | inl n ↦ absurd (cc (rw (good, n, stored) at h))
      | inr (db, s) ↦ (db, s, good, rw (good, s, stored) at h)
    ]
  ]

  pub raise-bind :
      {A : Type 0} (o : Option A) (e : E) (k : A → Exec E B)
      → (or_raise o e >>= k) w ≡ (ok b, w')
      → (a : A) × (o ≡ some a) × (k a w ≡ (ok b, w'))
  unfolding or_raise ◌>>=◌
  raise-bind none e k h = cc
  raise-bind (some a) e k h = (a, refl, h)

  pub guard-bind :
      (c : Bool) (e : E) (k : Unit {0} → Exec E B)
      → (guard c e >>= k) w ≡ (ok b, w')
      → (c ≡ true) × (k tt w ≡ (ok b, w'))
  unfolding guard ◌>>=◌
  guard-bind true e k h = (refl, h)
  guard-bind false e k h = cc

  continue-eq-ok :
      {A : Type 0} (p : Result E A × World) (k : A → Exec E B)
      → continue p.0 k p.1 ≡ (ok b, w')
      → (a : A) × (w1 : World) × (p ≡ (ok a, w1)) × (k a w1 ≡ (ok b, w'))
  continue-eq-ok (ok a, w1) k h = (a, w1, refl, h)
  continue-eq-ok (err e, w1) k h = cc

  pub >>=-eq-ok :
      {A : Type 0} (m : Exec E A) (k : A → Exec E B)
      → (m >>= k) w ≡ (ok b, w')
      → (a : A) × (w1 : World) × (m w ≡ (ok a, w1)) × (k a w1 ≡ (ok b, w'))
  unfolding ◌>>=◌
  >>=-eq-ok m k h = continue-eq-ok (m w) k h

  settle-eq-ok :
      {A : Type 0} (db : Db) (p : Result E A × World) (k : A → Exec E B)
      → continue (settle db p).0 k (settle db p).1 ≡ (ok b, w')
      → (a : A) × (w1 : World) × (p ≡ (ok a, w1)) × (k a w1 ≡ (ok b, w'))
  settle-eq-ok db (ok a, w1) k h = (a, w1, refl, h)
  settle-eq-ok db (err e, w1) k h = cc

  pub transaction-bind :
      {A : Type 0} (m : Exec E A) (k : A → Exec E B)
      → (transaction m >>= k) w ≡ (ok b, w')
      → (a : A) × (w1 : World) × (m w ≡ (ok a, w1)) × (k a w1 ≡ (ok b, w'))
  unfolding transaction ◌>>=◌
  transaction-bind m k h = settle-eq-ok w.db (m w) k h
