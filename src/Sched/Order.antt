-- ===== src/Sched/Order.antt =====
-- Wait queues are ordered by priority, and by arrival among equals.
use rk.Base.{ℕ, ◌<◌, ◌≤◌, ◌≡◌, refl, ap, inl, inr, List, [], ◌∷◌, ◌++◌, Bool-cases, ltb, arith}
use rk.Base.Distinct.{All}
use rk.Kernel.{Kernel, QueueRef, get_queue, set_queue}
use rk.Sched.Queue.{prio_of, insert_by_prio, enq_by_prio}

-- most urgent first
abbrev pub IsOrdered : (ℕ → ℕ) → List ℕ → Type 0
IsOrdered prio [] = Unit
IsOrdered prio (x ∷ xs) = All (λ y. prio x ≤ prio y) xs × IsOrdered prio xs

abbrev pub Split : (ℕ → ℕ) → List ℕ → ℕ → Type 0
Split prio xs t =
    (before after : List ℕ) × (xs ≡ before ++ after)
    × (insert_by_prio prio xs t ≡ before ++ t ∷ after)
    × All (λ y. prio y ≤ prio t) before
    × All (λ y. prio t < prio y) after

All-map :
    (prio : ℕ → ℕ) (a b : ℕ) (xs : List ℕ)
    → a < b
    → All (λ y. b ≤ prio y) xs
    → All (λ y. a < prio y) xs
All-map prio a b [] l h = tt
All-map prio a b (x ∷ xs) l h = (omega (arith, h.0), All-map prio a b xs l h.1)

All-insert :
    (prio : ℕ → ℕ) (a : ℕ) (xs : List ℕ) (t : ℕ)
    → a ≤ prio t
    → All (λ y. a ≤ prio y) xs
    → All (λ y. a ≤ prio y) (insert_by_prio prio xs t)
unfolding insert_by_prio
All-insert prio a [] t l h = (l, tt)
All-insert prio a (x ∷ xs) t l h = elim (Bool-cases (ltb (prio t) (prio x))) [
  | inl e ↦ rw e (l, h)
  | inr e ↦ rw e (h.0, All-insert prio a xs t l h.1)
]

le-All :
    (prio : ℕ → ℕ) (a b : ℕ) (xs : List ℕ)
    → a ≤ b
    → All (λ y. b ≤ prio y) xs
    → All (λ y. a ≤ prio y) xs
le-All prio a b [] l h = tt
le-All prio a b (x ∷ xs) l h = (omega (arith, h.0), le-All prio a b xs l h.1)

pub insert-IsOrdered :
    (prio : ℕ → ℕ) (xs : List ℕ) (t : ℕ)
    → IsOrdered prio xs
    → IsOrdered prio (insert_by_prio prio xs t)
unfolding insert_by_prio
insert-IsOrdered prio [] t h = (tt, tt)
insert-IsOrdered prio (x ∷ xs) t h = elim (Bool-cases (ltb (prio t) (prio x))) [
  | inl e ↦ rw e ((ground (arith, e), le-All prio (prio t) (prio x) xs (ground (arith, e)) h.0), h)
  | inr e ↦
      rw e (All-insert prio (prio x) xs t (ground (arith, e)) h.0, insert-IsOrdered prio xs t h.1)
]

pub insert-Split : (prio : ℕ → ℕ) (xs : List ℕ) (t : ℕ) → IsOrdered prio xs → Split prio xs t
unfolding insert_by_prio
insert-Split prio [] t h = ([], [], refl, refl, tt, tt)
insert-Split prio (x ∷ xs) t h = elim (Bool-cases (ltb (prio t) (prio x))) [
  | inl e ↦ (
    [],
    x ∷ xs,
    refl,
    rw e refl,
    tt,
    (ground (arith, e), All-map prio (prio t) (prio x) xs (ground (arith, e)) h.0),
  )
  | inr e ↦
      let (b, a, s, i, l, g) = insert-Split prio xs t h.1 in
      (x ∷ b, a, ap (λ ys. x ∷ ys) s, rw e (ap (λ ys. x ∷ ys) i), (ground (arith, e), l), g)
]

set_get : (k : Kernel) (q : QueueRef) (xs : List ℕ) → get_queue (set_queue k q xs) q ≡ xs
set_get k (QueueRef.ready_queue p) xs = ground arith
set_get k (QueueRef.sema_queue a) xs = ground arith
set_get k (QueueRef.mutex_queue a) xs = ground arith
set_get k (QueueRef.sleep_queue a) xs = ground arith
set_get k (QueueRef.receivers_queue a) xs = ground arith
set_get k (QueueRef.senders_queue a) xs = ground arith

-- kTCBQEnqByPrio on a queue that is ordered by priority puts the task behind every task that
-- is at least as urgent and before every task that is less so, moves no other, and the queue
-- stays ordered.
pub enq_by_prio_position :
    (k : Kernel) (q : QueueRef) (t : ℕ)
    → IsOrdered (prio_of k) (get_queue k q)
    → let ys = get_queue (enq_by_prio k q t) q in
      IsOrdered (prio_of k) ys
      × (before after : List ℕ) × (get_queue k q ≡ before ++ after)
      × (ys ≡ before ++ t ∷ after)
      × All (λ y. prio_of k y ≤ prio_of k t) before
      × All (λ y. prio_of k t < prio_of k y) after
unfolding enq_by_prio
enq_by_prio_position k q t h =
    let (b, a, s, i, l, g) = insert-Split (prio_of k) (get_queue k q) t h in
    rw (set_get k q (insert_by_prio (prio_of k) (get_queue k q) t))
      (insert-IsOrdered (prio_of k) (get_queue k q) t h, b, a, s, i, l, g)
