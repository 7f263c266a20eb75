-- ===== src/Standalone/Steps/Methods.antt =====
-- How the steps of a method come from its parts: each part of the method monad reaches what it leaves.
use wispers_hub.Base.{
  ℕ, ◌≡◌, refl, Bool, true, false, not, ◌&&◌, Option, none, some, List, [], ◌∷◌, map, update_where,
  if◌then◌else◌, Bool-cases, Option-cases, inl, inr, arith,
}
use wispers_hub.Standalone.Db.{Db, GroupRow, NodeRow, is_null, update_nodes, update_groups}
use wispers_hub.Standalone.Exec.{
  Env, World, Exec, Result, ok, err, continue, ◌>>=◌, pure, guard, or_raise, stored, query,
  execute_returning, try_insert, read_clock, draw, uuid, allow,
}
use wispers_hub.Standalone.Steps.{
  Step, changes_nodes, changes_groups, Reach, here, next, KeepsNode, KeepsGroup,
}

pub Reach-trans : {a b c : Db} → Reach a b → Reach b c → Reach a c
Reach-trans p here = p
Reach-trans p (next q s) = next (Reach-trans p q) s

pub Reach-step : {a b : Db} → Step a b → Reach a b
Reach-step s = next here s

abbrev pub Reaches : {E A : Type 0} → Exec E A → Type 0
Reaches m = (w : World) → Reach w.db (m w).1.db

continue-Reaches :
    {E A B : Type 0} (db : Db) (p : Result E A × World) (k : A → Exec E B)
    → Reach db p.1.db
    → ((a : A) → Reaches (k a))
    → Reach db (continue p.0 k p.1).1.db
continue-Reaches db (ok a, w) k h g = Reach-trans h (g a w)
continue-Reaches db (err e, w) k h g = h

pub >>=-Reaches :
    {E A B : Type 0} (m : Exec E A) (k : A → Exec E B)
    → Reaches m
    → ((a : A) → Reaches (k a))
    → Reaches (m >>= k)
unfolding ◌>>=◌
>>=-Reaches m k h g w = continue-Reaches w.db (m w) k (h w) g

pub pure-Reaches : (E : Type 0) {A : Type 0} (a : A) → Reaches (pure {E = E} a)
unfolding pure
pure-Reaches E a w = here

pub guard-Reaches : {E : Type 0} (b : Bool) (e : E) → Reaches (guard b e)
unfolding guard
guard-Reaches true e w = here
guard-Reaches false e w = here

pub or_raise-Reaches : {E A : Type 0} (o : Option A) (e : E) → Reaches (or_raise o e)
unfolding or_raise
or_raise-Reaches none e w = here
or_raise-Reaches (some a) e w = here

module _ (env : Env) (E : Type 0) where
  pub query-Reaches : {A : Type 0} (e : E) (f : Db → A) → Reaches (query env e f)
  unfolding query
  query-Reaches e f w = elim (Bool-cases (env.fails w.calls)) [
    | inl bad ↦ rw bad here
    | inr good ↦ rw good here
  ]

  pub execute_returning-Reaches :
      {A : Type 0} (e : E) (f : Db → A) (g : Db → Db)
      → ((db : Db) → Step db (g db))
      → Reaches (execute_returning env e f g)
  unfolding execute_returning
  execute_returning-Reaches e f g s w = elim (Bool-cases (env.fails w.calls)) [
    | inl bad ↦ rw bad here
    | inr good ↦ rw good (Reach-step (s w.db))
  ]

  pub try_insert-Reaches :
      (r e : E) (f : Db → Option Db)
      → ((db db' : Db) → f db ≡ some db' → Step db db')
      → Reaches (try_insert env r e f)
  unfolding try_insert
  try_insert-Reaches r e f s w = elim (Bool-cases (env.fails w.calls)) [
    | inl bad ↦ rw bad here
    | inr good ↦ elim (Option-cases (f w.db)) [
      | inl n ↦ rw (good, n, stored) here
      | inr (db, y) ↦ rw (good, y, stored) (Reach-step (s w.db db y))
    ]
  ]

  pub read_clock-Reaches : Reaches (read_clock env {E = E})
  unfolding read_clock
  read_clock-Reaches w = here

  draw-Reaches : (n : ℕ) → Reaches (draw env {E = E} n)
  unfolding draw
  draw-Reaches n w = here

  pub uuid-Reaches : Reaches (uuid env {E = E})
  unfolding uuid
  uuid-Reaches w = here

  allow-Reaches : Reaches (allow env {E = E})
  unfolding allow
  allow-Reaches w = here

-- An UPDATE is a map.
pub update_where-map :
    {A : Type 0} (p : A → Bool) (f : A → A) (xs : List A)
    → update_where p f xs ≡ map (λ a. if p a then f a else a) xs
update_where-map p f [] = refl
update_where-map p f (a ∷ xs) = rw (update_where-map p f xs)

pub update_nodes-Step :
    (p : NodeRow → Bool) (f : NodeRow → NodeRow) (db : Db)
    → KeepsNode f
    → Step db (update_nodes p f db)
update_nodes-Step p f db k =
    changes_nodes (λ r. if p r then f r else r) (λ r. only_if r (p r)) refl
      (update_where-map p f db.nodes)
  where
    only_if :
        (r : NodeRow) (b : Bool)
        → ((if b then f r else r).group_id ≡ r.group_id)
          × ((if b then f r else r).node_number ≡ r.node_number)
          × ((not (is_null r.deleted_at) && is_null (if b then f r else r).deleted_at) ≡ false)
    only_if r true = k r
    only_if r false = (refl, refl, ground arith)

pub update_groups-Step :
    (p : GroupRow → Bool) (f : GroupRow → GroupRow) (db : Db)
    → KeepsGroup f
    → Step db (update_groups p f db)
update_groups-Step p f db k =
    changes_groups (λ g. if p g then f g else g) (λ g. only_if g (p g))
      (update_where-map p f db.groups) refl
  where
    only_if :
        (g : GroupRow) (b : Bool)
        → ((if b then f g else g).id ≡ g.id)
          × ((if b then f g else g).next_node_number ≡ g.next_node_number)
          × ((not (is_null g.deleted_at) && is_null (if b then f g else g).deleted_at) ≡ false)
    only_if g true = k g
    only_if g false = (refl, refl, ground arith)
