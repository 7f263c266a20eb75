-- ===== src/Standalone/Exec.antt =====
-- How the standalone hub runs: methods over the database that may fail, in an environment whose
-- every answer the program has to take. Each clock reading, random read and SQL statement is a call;
-- the environment says, by the number of the call, what it gives or that it fails.
pub mod Inversion
pub mod Progress
use wispers_hub.Base.{ℕ, suc, Bool, Option, none, some, Bytes, if◌then◌else◌}
use wispers_hub.Standalone.Db.{Db}

-- `fails` is the failure of a statement that has nothing to do with its constraints (I/O, a
-- cancelled context).
pub record Env : Type 0 where
  pub fails : ℕ → Bool
  pub now : ℕ → ℕ
  pub random : ℕ → ℕ → Option Bytes
  pub new_uuid : ℕ → Bytes
  pub allows : ℕ → Bool

pub record World : Type 0 where
  pub db : Db
  pub calls : ℕ

pub data Result (E A : Type 0) : Type 0 where
  ok : A → Result E A
  err : E → Result E A

abbrev pub Exec : Type 0 → Type 0 → Type 0
Exec E A = World → Result E A × World

abbrev pub called : World → World
called w = record w { calls = suc w.calls }

abbrev pub continue : {E A B : Type 0} → Result E A → (A → Exec E B) → Exec E B
continue (ok a) f w = f a w
continue (err e) f w = (err e, w)

infixl 5 ◌>>=◌ ◌>>◌
unfoldable pub ◌>>=◌ : {E A B : Type 0} → Exec E A → (A → Exec E B) → Exec E B
◌>>=◌ m f w = let (r, w') = m w in continue r f w'

abbrev pub ◌>>◌ : {E A B : Type 0} → Exec E A → Exec E B → Exec E B
m >> n = m >>= λ _. n

unfoldable pub pure : {E A : Type 0} → A → Exec E A
pure a w = (ok a, w)

abbrev pub raise : {E A : Type 0} → E → Exec E A
raise e w = (err e, w)

unfoldable pub guard : {E : Type 0} → Bool → E → Exec E (Unit {0})
guard b e w = if b then (ok tt, w) else (err e, w)

abbrev pub chosen : {E A : Type 0} → Option A → E → World → Result E A × World
chosen none e w = (err e, w)
chosen (some a) e w = (ok a, w)

unfoldable pub or_raise : {E A : Type 0} → Option A → E → Exec E A
or_raise o e w = chosen o e w

abbrev pub stored : {E : Type 0} → E → Option Db → World → Result E (Unit {0}) × World
stored e none w = (err e, w)
stored e (some db) w = (ok tt, record w { db = db })

-- Work that cannot fail its caller.
unfoldable pub quietly : {E : Type 0} → (World → World) → Exec E (Unit {0})
quietly f w = (ok tt, f w)

module _ (env : Env) where
  -- A query, with the error that its failure becomes.
  unfoldable pub query : {E A : Type 0} → E → (Db → A) → Exec E A
  query e f w = if env.fails w.calls then (err e, called w) else (ok (f w.db), called w)

  -- A statement that writes and says something of the rows that it met (RETURNING, RowsAffected).
  unfoldable pub execute_returning : {E A : Type 0} → E → (Db → A) → (Db → Db) → Exec E A
  execute_returning e f g w =
      if env.fails w.calls
      then (err e, called w)
      else (ok (f w.db), record (called w) { db = g w.db })

  -- A statement that writes.
  abbrev pub execute : {E : Type 0} → E → (Db → Db) → Exec E (Unit {0})
  execute e f = execute_returning e (λ _. tt) f

  -- An insert that a constraint may refuse, with the error of a refusal and of a failure.
  unfoldable pub try_insert : {E : Type 0} → E → E → (Db → Option Db) → Exec E (Unit {0})
  try_insert refused e f w =
      if env.fails w.calls then (err e, called w) else stored refused (f w.db) (called w)

  unfoldable pub read_clock : {E : Type 0} → Exec E ℕ
  read_clock w = (ok (env.now w.calls), called w)

  unfoldable pub draw : {E : Type 0} → ℕ → Exec E (Option Bytes)
  draw n w = (ok (env.random w.calls n), called w)

  unfoldable pub uuid : {E : Type 0} → Exec E Bytes
  uuid w = (ok (env.new_uuid w.calls), called w)

  unfoldable pub allow : {E : Type 0} → Exec E Bool
  allow w = (ok (env.allows w.calls), called w)

  -- A failure is logged and passed over.
  unfoldable pub best_effort : (Db → Db) → World → World
  best_effort f w = if env.fails w.calls then called w else record (called w) { db = f w.db }

-- A transaction that fails leaves the database as it was.
abbrev pub settle : {E A : Type 0} → Db → Result E A × World → Result E A × World
settle db (ok a, w) = (ok a, w)
settle db (err e, w) = (err e, record w { db = db })

unfoldable pub transaction : {E A : Type 0} → Exec E A → Exec E A
transaction m w = settle w.db (m w)
