-- ===== src/Standalone/Backend/Progress.antt =====
-- CompleteNodeRegistration of connect/hub/standalone_grpc.go gets through.
use wispers_hub.Base.{
  ℕ, suc, ◌<◌, ◌^◌, ◌≡◌, refl, ap, subst, ◌∙◌, Bool, true, false, some, List, [], ◌∷◌, ◌++◌, Bytes,
  any, find, lt→ltb, ◌==◌, ==_iff, bytes_eq, All, update_where, Bool-cases, inl, inr, arith,
}
use wispers_hub.Base.Int.{pos, int_eq}
use wispers_hub.Grpc.{Error}
use wispers_hub.Standalone.Db.{
  Db, GroupRow, NodeRow, TokenRow, is_node, is_live_group, is_usable, insert_node,
}
use wispers_hub.Standalone.Exec.{Env, World, called}
use wispers_hub.Standalone.Exec.Progress.{
  Succeeds, query-Succeeds, execute-Succeeds, raise-Succeeds, clock-Succeeds, draw-Succeeds,
  allow-Succeeds, guard-Succeeds, insert-Succeeds, transaction-Succeeds, pure-Succeeds,
}
use wispers_hub.Standalone.Messages.{Externals, number_of, bump_number}
use wispers_hub.Standalone.Steps.{has_id}
use wispers_hub.Standalone.Steps.Invariant.{IsValid, Numbered}
use wispers_hub.Standalone.Backend.{complete_node_registration, register_node, registered}

find-any :
    {A : Type 0} (p : A → Bool) (xs : List A)
    → any p xs ≡ true
    → (a : A) × (find p xs ≡ some a) × (p a ≡ true)
find-any p [] h = cc
find-any p (x ∷ xs) h = elim (Bool-cases (p x)) [
  | inl hit ↦ (x, rw hit refl, hit)
  | inr miss ↦ let (a, e, pa) = find-any p xs (rw miss at h) in (a, rw miss e, pa)
]

any-imp :
    {A : Type 0} (p q : A → Bool)
    → ((a : A) → p a ≡ true → q a ≡ true)
    → (xs : List A) → any p xs ≡ true
    → any q xs ≡ true
any-imp p q h [] e = e
any-imp p q h (x ∷ xs) e = elim (Bool-cases (p x)) [
  | inl hit ↦ rw (h x hit) refl
  | inr miss ↦ (let rest = any-imp p q h xs (rw miss at e) in ground arith)
]

All-find :
    {A : Type 0} (P : A → Type 0) (p : A → Bool) (xs : List A) (a : A)
    → All P xs
    → find p xs ≡ some a
    → P a
All-find P p [] a h e = cc
All-find P p (x ∷ xs) a (px, h) e = elim (Bool-cases (p x)) [
  | inl hit ↦ (let same : x ≡ a = cc (rw hit at e) in subst P same px)
  | inr miss ↦ All-find P p xs a h (rw miss at e)
]

-- A group's next number is free.
next_number-free :
    (groups : List GroupRow) (cg : Bytes) (g : GroupRow) (rows : List NodeRow)
    → find (has_id cg) groups ≡ some g
    → All (Numbered groups) rows
    → any (is_node cg (pos g.next_node_number)) rows ≡ false
next_number-free groups cg g [] there a = refl
next_number-free groups cg g (r ∷ rows) there ((h, found, below), a) =
    elim (Bool-cases (is_node cg (pos g.next_node_number) r)) [
      | inl hit ↦
          let same_id : r.group_id ≡ cg = ground (arith, ==_iff r.group_id cg) in
          let same_number : r.node_number ≡ pos g.next_node_number =
            ground (arith, ==_iff r.node_number (pos g.next_node_number)) in
          let same : h ≡ g = cc in absurd (omega (arith, rw (same_number, same) at below))
      | inr miss ↦ rw miss (next_number-free groups cg g rows there a)
    ]

any-update_where :
    (cg : Bytes) (groups : List GroupRow)
    → any (has_id cg) (update_where (λ (g : GroupRow). g.id == cg) bump_number groups)
      ≡ any (has_id cg) groups
any-update_where cg [] = refl
any-update_where cg (g ∷ groups) = elim (Bool-cases (has_id cg g)) [
  | inl hit ↦ rw (hit, any-update_where cg groups, hit) refl
  | inr miss ↦ rw (miss, any-update_where cg groups, miss) refl
]

insert_node-fits :
    (db : Db) (r : NodeRow)
    → any (is_node r.group_id r.node_number) db.nodes ≡ false
    → any (has_id r.group_id) db.groups ≡ true
    → insert_node r db ≡ some (record db { nodes = db.nodes ++ r ∷ [] })
unfolding insert_node
insert_node-fits db r free there = rw (free, there) refl

number_of-small :
    (g : GroupRow) → g.next_node_number < 2 ^ 31 → number_of (some g) ≡ some g.next_node_number
number_of-small g h = rw (lt→ltb g.next_node_number (2 ^ 31) h) refl

usable-group :
    (db : Db) (hash : Bytes) (now : ℕ) (t : TokenRow)
    → is_usable db hash now t ≡ true
    → any (has_id t.group_id) db.groups ≡ true
usable-group db hash now t h =
    any-imp (is_live_group t.group_id) (has_id t.group_id) (λ g e. ground arith) db.groups
      (ground arith)

module _ (x : Externals) (env : Env) where
  register_node-Succeeds :
      (hash : Bytes) (w : World) (t : TokenRow) (g : GroupRow) (bytes : ℕ → Bytes)
      → ((i : ℕ) → env.fails i ≡ false)
      → ((i : ℕ) → env.random i 32 ≡ some (bytes i))
      → find (is_usable w.db hash (env.now (suc w.calls))) w.db.tokens ≡ some t
      → find (has_id t.group_id) w.db.groups ≡ some g
      → any (has_id t.group_id) w.db.groups ≡ true
      → number_of (some g) ≡ some g.next_node_number
      → any (is_node t.group_id (pos g.next_node_number)) w.db.nodes ≡ false
      → Succeeds (register_node x env hash) w
  unfolding register_node
  register_node-Succeeds hash w t g bytes up drawn found row there number free =
      execute-Succeeds w env _ _ _ _ (up _) (
        clock-Succeeds _ env _ (
          query-Succeeds _ env _ _ _ (up _) (
            raise-Succeeds _ _ _ t _ found (
              draw-Succeeds _ env 32 _ (
                raise-Succeeds _ _ _ (bytes _) _ (drawn _) (
                  execute-Succeeds _ env _ _ _ _ (up _) (
                    raise-Succeeds _ _ _ g.next_node_number _ (ap number_of row ∙ number) (
                      clock-Succeeds _ env _ (
                        insert-Succeeds _ env _ _ _ _ _ (up _)
                          (insert_node-fits _ _ free
                            (any-update_where t.group_id w.db.groups ∙ there))
                          (clock-Succeeds _ env _ (
                            execute-Succeeds _ env _ _ _ _ (up _) (
                              execute-Succeeds _ env _ _ _ _ (up _)
                                (pure-Succeeds Error _ _)))))))))))))

  registered-Succeeds : (r : Bytes × ℕ × Bytes) (w : World) → Succeeds (registered x env r) w
  registered-Succeeds (cg, n, auth_token) w = (_, _, refl)

  -- A registration gets through: over valid tables, where the rate limit lets it, nothing fails, random
  -- bytes are there, a token with this hash is usable, and no group's next number has left an int32.
  pub complete_node_registration-Succeeds :
      (token : Bytes) (w : World) (bytes : ℕ → Bytes)
      → IsValid w.db
      → env.allows w.calls ≡ true
      → ((i : ℕ) → env.fails i ≡ false)
      → ((i : ℕ) → env.random i 32 ≡ some (bytes i))
      → any (is_usable w.db (x.hash_token token) (env.now (suc (suc w.calls)))) w.db.tokens ≡ true
      → All (λ (g : GroupRow). g.next_node_number < 2 ^ 31) w.db.groups
      → Succeeds (complete_node_registration x env token) w
  unfolding complete_node_registration
  complete_node_registration-Succeeds token w bytes v allowed up drawn usable small =
      let (t, found, is_good) =
        find-any (is_usable w.db (x.hash_token token) (env.now (suc (suc w.calls)))) w.db.tokens
          usable in
      let there = usable-group w.db (x.hash_token token) (env.now (suc (suc w.calls))) t is_good in
      let (g, row, _) = find-any (has_id t.group_id) w.db.groups there in
      allow-Succeeds w env _ (
        guard-Succeeds _ _ _ _ allowed (
          transaction-Succeeds _ _ _
            (register_node-Succeeds (x.hash_token token) (called w) t g bytes up drawn found row
              there (number_of-small g (All-find _ (has_id t.group_id) w.db.groups g small row))
              (next_number-free w.db.groups t.group_id g w.db.nodes row v.numbered))
            (registered-Succeeds)))
