-- ===== src/Routing/Clear.antt =====
-- The futures map of a connectivity group and its heap: what clearFutures, a resolution and a
-- registration keep. An entry is pending when its future is open and its call has returned.
use wispers_hub.Base.{
  ℕ, ◌≤◌, ◌≡◌, refl, sym, ◌≢◌, some, List, [], ◌∷◌, arith, Bool-cases, inl, inr, ◌==◌, ==_iff,
  nat_eq, All,
}
use wispers_hub.Base.Int.{ℤ, int_eq}
use wispers_hub.Base.Assoc.{lookup, insert, delete}
use wispers_hub.Routing.{FutureResponse, write, kept, failed}
use wispers_hub.Routing.System.{Flight, returned}

-- No entry of the map points to `p`.
abbrev pub Absent : ℕ → List (ℕ × ℕ) → Type 0
Absent p = All (λ e. e.1 ≢ p)

-- Every entry points to a future of its own, which is open, of a call that has returned.
abbrev pub Pending : (ℕ → FutureResponse) → (ℕ → Flight) → List (ℕ × ℕ) → Type 0
Pending h fl [] = Unit
Pending h fl ((id, p) ∷ m) = ((h p).closes ≡ 0) × (fl p ≡ returned) × Absent p m × Pending h fl m

-- No done channel is closed twice.
abbrev pub NoPanic : (ℕ → FutureResponse) → Type 0
NoPanic h = (p : ℕ) → (h p).closes ≤ 1

Absent-kept :
    (n : ℤ) (h : ℕ → FutureResponse) (p : ℕ) (m : List (ℕ × ℕ)) → Absent p m → Absent p (kept n h m)
unfolding kept
Absent-kept n h p [] a = tt
Absent-kept n h p ((id, q) ∷ m) a = ground (arith, Absent-kept n h p m a.1)

pub failed-Absent :
    (n : ℤ) (h : ℕ → FutureResponse) (p : ℕ) (m : List (ℕ × ℕ)) → Absent p m → failed n h m p ≡ h p
unfolding failed
failed-Absent n h p [] a = refl
failed-Absent n h p ((id, q) ∷ m) a = ground (arith, failed-Absent n h p m a.1)

-- A future of another node is left alone.
failed_ne :
    (n : ℤ) (h : ℕ → FutureResponse) (p : ℕ) (m : List (ℕ × ℕ))
    → (h p).node_num ≢ n
    → failed n h m p ≡ h p
unfolding failed
failed_ne n h p [] a = refl
failed_ne n h p ((id, q) ∷ m) a =
    ground (arith, failed_ne n h p m a, ==_iff (h q).node_num n, ==_iff (h p).node_num n)

pub failed-NoPanic :
    (n : ℤ) (h : ℕ → FutureResponse) (fl : ℕ → Flight) (m : List (ℕ × ℕ))
    → Pending h fl m
    → NoPanic h
    → NoPanic (failed n h m)
unfolding failed
failed-NoPanic n h fl [] w s p = s p
failed-NoPanic n h fl ((id, q) ∷ m) w s p =
    ground (arith, failed-NoPanic n h fl m w.3 s p, failed-Absent n h q m w.2)

-- A write to a future that no entry points to keeps the entries pending.
pub write-Pending :
    (h : ℕ → FutureResponse) (fl : ℕ → Flight) (p : ℕ) (f : FutureResponse) (m : List (ℕ × ℕ))
    → Absent p m
    → Pending h fl m
    → Pending (write h p f) fl m
write-Pending h fl p f [] a w = tt
write-Pending h fl p f ((id, q) ∷ m) a w = ground (arith, write-Pending h fl p f m a.1 w.3)

pub kept-Pending :
    (n : ℤ) (h : ℕ → FutureResponse) (fl : ℕ → Flight) (m : List (ℕ × ℕ))
    → Pending h fl m
    → Pending (failed n h m) fl (kept n h m)
unfolding kept failed
kept-Pending n h fl [] w = tt
kept-Pending n h fl ((id, q) ∷ m) w =
    let rest = kept-Pending n h fl m w.3 in
    let gone = Absent-kept n h q m w.2 in
    elim (Bool-cases ((h q).node_num == n)) [
      | inl e ↦ rw e (write-Pending (failed n h m) fl q _ (kept n h m) gone rest)
      | inr e ↦ rw e (ground (arith, failed-Absent n h q m w.2), w.1, gone, rest)
    ]

pub write_flight-Pending :
    (h : ℕ → FutureResponse) (fl : ℕ → Flight) (p : ℕ) (s : Flight) (m : List (ℕ × ℕ))
    → Absent p m
    → Pending h fl m
    → Pending h (write fl p s) m
write_flight-Pending h fl p s [] a w = tt
write_flight-Pending h fl p s ((id, q) ∷ m) a w =
    ground (arith, write_flight-Pending h fl p s m a.1 w.3)

-- A call that has not returned has no entry.
pub Absent-of_flight :
    (h : ℕ → FutureResponse) (fl : ℕ → Flight) (p : ℕ) (m : List (ℕ × ℕ))
    → Pending h fl m
    → fl p ≢ returned
    → Absent p m
Absent-of_flight h fl p [] w k = tt
Absent-of_flight h fl p ((id, q) ∷ m) w k =
    ((λ e. k (rw (← e) w.1)), Absent-of_flight h fl p m w.3 k)

delete-Absent : (id p : ℕ) (m : List (ℕ × ℕ)) → Absent p m → Absent p (delete id m)
unfolding delete
delete-Absent id p [] a = tt
delete-Absent id p ((j, q) ∷ m) a = ground (arith, delete-Absent id p m a.1)

pub delete-Pending :
    (h : ℕ → FutureResponse) (fl : ℕ → Flight) (id : ℕ) (m : List (ℕ × ℕ))
    → Pending h fl m
    → Pending h fl (delete id m)
unfolding delete
delete-Pending h fl id [] w = tt
delete-Pending h fl id ((j, q) ∷ m) w =
    ground (arith, delete-Pending h fl id m w.3, delete-Absent id q m w.2)

lookup-ne : (id p q : ℕ) (m : List (ℕ × ℕ)) → Absent q m → lookup id m ≡ some p → p ≢ q
unfolding lookup
lookup-ne id p q [] a e = cc
lookup-ne id p q ((j, r) ∷ m) a e = ground (arith, lookup-ne id p q m a.1)

-- The future that a response resolves is open, and its entry was the only one.
pub lookup-Pending :
    (h : ℕ → FutureResponse) (fl : ℕ → Flight) (id p : ℕ) (m : List (ℕ × ℕ))
    → Pending h fl m
    → lookup id m ≡ some p
    → ((h p).closes ≡ 0) × Absent p (delete id m) × (fl p ≡ returned)
unfolding lookup delete
lookup-Pending h fl id p [] w e = cc
lookup-Pending h fl id p ((j, q) ∷ m) w e =
    ground (arith, lookup-Pending h fl id p m w.3, delete-Absent id q m w.2, lookup-ne id p q m w.2)

insert-Absent : (id p q : ℕ) (m : List (ℕ × ℕ)) → p ≢ q → Absent q m → Absent q (insert id p m)
unfolding insert
insert-Absent id p q [] k a = (k, tt)
insert-Absent id p q ((j, r) ∷ m) k a = ground (arith, insert-Absent id p q m k a.1)

pub insert-Pending :
    (h : ℕ → FutureResponse) (fl : ℕ → Flight) (id p : ℕ) (m : List (ℕ × ℕ))
    → (h p).closes ≡ 0
    → fl p ≡ returned
    → Absent p m
    → Pending h fl m
    → Pending h fl (insert id p m)
unfolding insert
insert-Pending h fl id p [] o b a w = (o, b, tt, tt)
insert-Pending h fl id p ((j, q) ∷ m) o b a w =
    ground
      (arith, insert-Pending h fl id p m o b a.1 w.3, insert-Absent id p q m (λ e. a.0 (sym e)) w.2)
