-- ===== src/Sched/Inherit.antt =====
-- Priority inheritance: the effective priority is the least of the nominal one and those of the
-- waiters.
use rk.Base.{
  ℕ, ◌≤◌, ◌≡◌, refl, ap, sym, ◌∙◌, ◌⊎◌, inl, inr, List, [], ◌∷◌, ◌++◌, Bool-cases, ltb, arith,
}
use mathlib.Core.Path.{subst}
use rk.Base.Distinct.{All}
use rk.Kernel.{Kernel, Mutex, Protocol}
use rk.Sched.Queue.{prio_of}
use rk.Sched.Prio.{min_prio, mutex_prio, owned_prio, effective_prio, waiter_prio}
use rk.Sched.Order.{IsOrdered}

-- no waiter of mutex `a`, where it inherits, is more urgent than `p`
abbrev pub Bounds : Kernel → ℕ → ℕ → Type 0
Bounds k p a =
    (k.mutexes a).protocol ≡ Protocol.prio_inheritance
    → All (λ w. p ≤ prio_of k w) (k.mutexes a).waiting

-- `p` is the priority of the first waiter of one of the mutexes, which inherits
abbrev pub Inherited : Kernel → List ℕ → ℕ → Type 0
Inherited k owned p =
    (before : List ℕ) × (a : ℕ) × (after : List ℕ) × (w : ℕ) × (ws : List ℕ) × (owned
      ≡ before ++ a ∷ after)
    × ((k.mutexes a).protocol ≡ Protocol.prio_inheritance)
    × ((k.mutexes a).waiting ≡ w ∷ ws)
    × (p ≡ prio_of k w)

All-le :
    (k : Kernel) (a b : ℕ) (ws : List ℕ)
    → a ≤ b
    → All (λ w. b ≤ prio_of k w) ws
    → All (λ w. a ≤ prio_of k w) ws
All-le k a b [] l h = tt
All-le k a b (w ∷ ws) l h = (omega (arith, l, h.0), All-le k a b ws l h.1)

waiter_prio-le : (k : Kernel) (ws : List ℕ) (c : ℕ) → waiter_prio k ws c ≤ c
unfolding waiter_prio min_prio
waiter_prio-le k [] c = omega arith
waiter_prio-le k (w ∷ ws) c = ground arith

waiter_prio-bound :
    (k : Kernel) (ws : List ℕ) (c : ℕ)
    → IsOrdered (prio_of k) ws
    → All (λ w. waiter_prio k ws c ≤ prio_of k w) ws
unfolding waiter_prio min_prio
waiter_prio-bound k [] c h = tt
waiter_prio-bound k (w ∷ ws) c h =
    (ground arith, All-le k (min_prio c (prio_of k w)) (prio_of k w) ws (ground arith) h.0)

waiter_prio-cases :
    (k : Kernel) (ws : List ℕ) (c : ℕ)
    → (waiter_prio k ws c ≡ c)
      ⊎ ((w : ℕ) × (rest : List ℕ) × (ws ≡ w ∷ rest) × (waiter_prio k ws c ≡ prio_of k w))
unfolding waiter_prio min_prio
waiter_prio-cases k [] c = inl refl
waiter_prio-cases k (w ∷ ws) c = elim (Bool-cases (ltb (prio_of k w) c)) [
  | inl e ↦ inr (w, ws, refl, rw e refl)
  | inr e ↦ inl (rw e refl)
]

Protocol-cases : (p : Protocol) → (p ≡ Protocol.prio_none) ⊎ (p ≡ Protocol.prio_inheritance)
Protocol-cases Protocol.prio_none = inl refl
Protocol-cases Protocol.prio_inheritance = inr refl

mutex_prio-le : (k : Kernel) (m : Mutex) (c : ℕ) → mutex_prio k m c ≤ c
unfolding mutex_prio
mutex_prio-le k m c = elim (Protocol-cases m.protocol) [
  | inl e ↦ rw e (omega arith)
  | inr e ↦ rw e (waiter_prio-le k m.waiting c)
]

mutex_prio-inherits :
    (k : Kernel) (m : Mutex) (c : ℕ)
    → m.protocol ≡ Protocol.prio_inheritance
    → mutex_prio k m c ≡ waiter_prio k m.waiting c
unfolding mutex_prio
mutex_prio-inherits k m c e = rw (e, mutex_prio)

mutex_prio-none :
    (k : Kernel) (m : Mutex) (c : ℕ) → m.protocol ≡ Protocol.prio_none → mutex_prio k m c ≡ c
unfolding mutex_prio
mutex_prio-none k m c e = rw (e, mutex_prio)

owned_prio-le : (k : Kernel) (owned : List ℕ) (c : ℕ) → owned_prio k owned c ≤ c
unfolding owned_prio
owned_prio-le k [] c = omega arith
owned_prio-le k (a ∷ rest) c =
    omega
      (arith, owned_prio-le k rest (mutex_prio k (k.mutexes a) c), mutex_prio-le k (k.mutexes a) c)

owned_prio-Bounds :
    (k : Kernel) (owned : List ℕ) (c : ℕ)
    → All (λ a. IsOrdered (prio_of k) (k.mutexes a).waiting) owned
    → All (Bounds k (owned_prio k owned c)) owned
unfolding owned_prio
owned_prio-Bounds k [] c h = tt
owned_prio-Bounds k (a ∷ rest) c h = (
  (λ e.
      All-le k (owned_prio k rest (mutex_prio k (k.mutexes a) c)) (mutex_prio k (k.mutexes a) c)
        (k.mutexes a).waiting (owned_prio-le k rest (mutex_prio k (k.mutexes a) c))
        (subst (λ x. All (λ w. x ≤ prio_of k w) (k.mutexes a).waiting)
          (sym (mutex_prio-inherits k (k.mutexes a) c e))
          (waiter_prio-bound k (k.mutexes a).waiting c h.0))),
  owned_prio-Bounds k rest (mutex_prio k (k.mutexes a) c) h.1,
)

mutex_prio-cases :
    (k : Kernel) (a c : ℕ) (rest : List ℕ)
    → (mutex_prio k (k.mutexes a) c ≡ c) ⊎ Inherited k (a ∷ rest) (mutex_prio k (k.mutexes a) c)
mutex_prio-cases k a c rest = elim (Protocol-cases (k.mutexes a).protocol) [
  | inl e ↦ inl (mutex_prio-none k (k.mutexes a) c e)
  | inr e ↦ elim (waiter_prio-cases k (k.mutexes a).waiting c) [
    | inl f ↦ inl (mutex_prio-inherits k (k.mutexes a) c e ∙ f)
    | inr (w, ws, g, f) ↦
        inr ([], a, rest, w, ws, refl, e, g, mutex_prio-inherits k (k.mutexes a) c e ∙ f)
  ]
]

owned_prio-attained :
    (k : Kernel) (owned : List ℕ) (c : ℕ)
    → (owned_prio k owned c ≡ c) ⊎ Inherited k owned (owned_prio k owned c)
unfolding owned_prio
owned_prio-attained k [] c = inl refl
owned_prio-attained k (a ∷ rest) c =
    elim (owned_prio-attained k rest (mutex_prio k (k.mutexes a) c)) [
      | inl e ↦ elim (mutex_prio-cases k a c rest) [
        | inl f ↦ inl (e ∙ f)
        | inr i ↦ inr (subst (Inherited k (a ∷ rest)) (sym e) i)
      ]
      | inr (b, m, as', w, ws, s, p, q, e) ↦
          inr (a ∷ b, m, as', w, ws, ap (λ xs. a ∷ xs) s, p, q, e)
    ]

-- The effective priority of a task, where the wait queues of its mutexes are ordered by
-- priority, is at most its nominal one and at most that of every waiter of a mutex it owns
-- that inherits priorities; and it is the nominal one or that of the first waiter of such a
-- mutex.
pub effective_prio_least :
    (k : Kernel) (t : ℕ)
    → All (λ a. IsOrdered (prio_of k) (k.mutexes a).waiting) (k.tasks t).owned_mutexes
    → let p = effective_prio k t in
      (p ≤ (k.tasks t).prio_nominal)
      × All (Bounds k p) (k.tasks t).owned_mutexes
      × ((p ≡ (k.tasks t).prio_nominal) ⊎ Inherited k (k.tasks t).owned_mutexes p)
unfolding effective_prio
effective_prio_least k t h =
    let owned = (k.tasks t).owned_mutexes in
    let c = (k.tasks t).prio_nominal in
    (owned_prio-le k owned c, owned_prio-Bounds k owned c h, owned_prio-attained k owned c)
