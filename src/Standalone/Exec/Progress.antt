-- ===== src/Standalone/Exec/Progress.antt =====
-- When a method ends well: each part goes on where its environment lets it.
use wispers_hub.Base.{ℕ, ◌≡◌, refl, Bool, true, false, Option, some, Bytes}
use wispers_hub.Standalone.Db.{Db}
use wispers_hub.Standalone.Exec.{
  Env, World, ok, Exec, called, ◌>>=◌, pure, guard, or_raise, stored, query, execute_returning,
  try_insert, read_clock, draw, allow, settle, transaction,
}

abbrev pub Succeeds : {E A : Type 0} → Exec E A → World → Type 0
Succeeds {A = A} m w = (a : A) × (w' : World) × (m w ≡ (ok a, w'))

module _ {E A B : Type 0} (w : World) where
  pub query-Succeeds :
      (env : Env) (e : E) (f : Db → A) (k : A → Exec E B)
      → env.fails w.calls ≡ false
      → Succeeds (k (f w.db)) (called w)
      → Succeeds (query env e f >>= k) w
  unfolding query ◌>>=◌
  query-Succeeds env e f k up s = rw up s

  pub execute-Succeeds :
      (env : Env) (e : E) (f : Db → A) (g : Db → Db) (k : A → Exec E B)
      → env.fails w.calls ≡ false
      → Succeeds (k (f w.db)) (record (called w) { db = g w.db })
      → Succeeds (execute_returning env e f g >>= k) w
  unfolding execute_returning ◌>>=◌
  execute-Succeeds env e f g k up s = rw up s

  pub raise-Succeeds :
      (o : Option A) (e : E) (a : A) (k : A → Exec E B)
      → o ≡ some a
      → Succeeds (k a) w
      → Succeeds (or_raise o e >>= k) w
  unfolding or_raise ◌>>=◌
  raise-Succeeds o e a k there s = rw there s

module _ {E B : Type 0} (w : World) where
  pub clock-Succeeds :
      (env : Env) (k : ℕ → Exec E B)
      → Succeeds (k (env.now w.calls)) (called w)
      → Succeeds (read_clock env >>= k) w
  unfolding read_clock ◌>>=◌
  clock-Succeeds env k s = s

  pub draw-Succeeds :
      (env : Env) (n : ℕ) (k : Option Bytes → Exec E B)
      → Succeeds (k (env.random w.calls n)) (called w)
      → Succeeds (draw env n >>= k) w
  unfolding draw ◌>>=◌
  draw-Succeeds env n k s = s

  pub allow-Succeeds :
      (env : Env) (k : Bool → Exec E B)
      → Succeeds (k (env.allows w.calls)) (called w)
      → Succeeds (allow env >>= k) w
  unfolding allow ◌>>=◌
  allow-Succeeds env k s = s

  pub guard-Succeeds :
      (c : Bool) (e : E) (k : Unit {0} → Exec E B)
      → c ≡ true
      → Succeeds (k tt) w
      → Succeeds (guard c e >>= k) w
  unfolding guard ◌>>=◌
  guard-Succeeds c e k holds s = rw holds s

  pub insert-Succeeds :
      (env : Env) (r e : E) (f : Db → Option Db) (db : Db) (k : Unit {0} → Exec E B)
      → env.fails w.calls ≡ false
      → f w.db ≡ some db
      → Succeeds (k tt) (record (called w) { db = db })
      → Succeeds (try_insert env r e f >>= k) w
  unfolding try_insert ◌>>=◌
  insert-Succeeds env r e f db k up fits s = rw (up, fits, stored) s

  pub transaction-Succeeds :
      {A : Type 0} (m : Exec E A) (k : A → Exec E B)
      → Succeeds m w
      → ((a : A) (w' : World) → Succeeds (k a) w')
      → Succeeds (transaction m >>= k) w
  unfolding transaction ◌>>=◌
  transaction-Succeeds m k (a, w1, e) s = rw (e, settle) (s a w1)

pub pure-Succeeds : (E : Type 0) {A : Type 0} (a : A) (w : World) → Succeeds (pure {E = E} a) w
unfolding pure
pure-Succeeds E a w = (a, w, refl)
