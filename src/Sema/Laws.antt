-- ===== src/Sema/Laws.antt =====
-- What holds of a semaphore through its operations.
use rk.Base.{
  ℕ, ◌+◌, ◌-◌, ◌<◌, ◌≤◌, ◌≡◌, ap, sym, ◌∙◌, ◌⊎◌, inl, inr, ◌&&◌, some, [], ◌==◌, ltb, ltb→lt,
  Bool-cases, arith, fun_ext, if◌then◌else◌,
}
use mathlib.Core.Path.{subst}
use rk.Base.Word.{ulong_max}
use rk.Err.{Err, success, sema_full}
use rk.Kernel.{
  update-same, checked_wait-case, if-case, Kernel, Semaphore, Status, TimeoutType, sema_queue,
}
use rk.Sched.Queue.{prio_of, enq_by_prio, insert_by_prio}
use rk.Sched.Order.{IsOrdered, insert-IsOrdered}
use rk.Sched.Frame.{Frame, Frame-trans, pend_switch-Frame, set_status-Frame}
use rk.Sched.Resched.{pend_switch}
use rk.Sched.Switch.{set_status}
use rk.Timeout.Node.{setup, add, forget, is_bounded}
use rk.Timeout.Frame.{add-Frame, set_node-Frame}
use rk.Sema.Defs.{
  take_unit, give_unit, block, block_bounded, pend_ready, pend, sema_ready_err, set_sema,
}

-- A semaphore in order: its value is within its bound, and it has no unit while a task waits.
pub record IsSound (s : Semaphore) : Type 0 where
  pub bound : s.value ≤ s.max_value
  pub positive : 0 < s.max_value
  pub word : s.max_value ≤ ulong_max
  pub waits : (s.waiting ≡ []) ⊎ (s.value ≡ 0)

-- kSemaphorePost with no waiter, binary or counting, adds a unit below the bound and else
-- refuses.
pub give_unit_eq :
    (s : Semaphore)
    → IsSound s
    → give_unit s ≡ (
        if ltb s.value s.max_value
        then (success, record s { value = s.value + 1 })
        else (sema_full, s))
unfolding give_unit
give_unit_eq s h = ground (arith, h.bound, h.positive, h.word)

pub take_unit_eq :
    (s : Semaphore) → IsSound s → 0 < s.value → take_unit s ≡ record s { value = s.value - 1 }
unfolding take_unit
take_unit_eq s h pos = ground (arith, h.bound, pos)

pub give_unit-IsSound : (s : Semaphore) → IsSound s → s.waiting ≡ [] → IsSound (give_unit s).1
give_unit-IsSound s h e =
    subst (λ x. IsSound x.1) (sym (give_unit_eq s h))
      (elim (Bool-cases (ltb s.value s.max_value)) [
        | inl l ↦ rw l (record {
          bound = ground (arith, l);
          positive = h.positive;
          word = h.word;
          waits = inl e;
        })
        | inr l ↦ rw l h
      ])

pub take_unit-IsSound : (s : Semaphore) → IsSound s → 0 < s.value → IsSound (take_unit s)
take_unit-IsSound s h pos = subst IsSound (sym (take_unit_eq s h pos)) (record {
  bound = omega (arith, h.bound);
  positive = h.positive;
  word = h.word;
  waits = elim h.waits [ inl e ↦ inl e | inr e ↦ inr (omega (arith, e)) ];
})

-- the semaphore that a kernel holds, in order and with its waiters by priority
abbrev pub Holds : Kernel → ℕ → Type 0
Holds k a = IsSound (k.semas a) × IsOrdered (prio_of k) (k.semas a).waiting

pub Holds-Frame : (k k' : Kernel) (a : ℕ) → Frame k k' → Holds k a → Holds k' a
Holds-Frame k k' a f h = (
  subst (λ m. IsSound (m a)) (sym f.semas) h.0,
  subst (λ p. IsOrdered p (k'.semas a).waiting) (sym (fun_ext f.prio))
      (subst (λ m. IsOrdered (prio_of k) (m a).waiting) (sym f.semas) h.1),
)

pub set_sema-Holds :
    (k : Kernel) (a : ℕ) (s : Semaphore)
    → IsSound s
    → IsOrdered (prio_of k) s.waiting
    → Holds (set_sema k a s) a
set_sema-Holds k a s h o = (
  subst IsSound (sym (update-same k.semas a s)) h,
  subst (λ m. IsOrdered (prio_of k) m.waiting) (sym (update-same k.semas a s)) o,
)

-- the semaphore with the task in its queue
abbrev queued : Kernel → ℕ → ℕ → Semaphore
queued k r a = record (k.semas a) { waiting = insert_by_prio (prio_of k) (k.semas a).waiting r }

block-Holds : (k : Kernel) (r a : ℕ) → Holds k a → (k.semas a).value ≡ 0 → Holds (block k r a) a
unfolding block enq_by_prio
block-Holds k r a h z =
    let k1 = set_status k r Status.blocked in
    let h1 = Holds-Frame k k1 a (set_status-Frame k r Status.blocked) h in
    let k2 = set_sema k1 a (queued k1 r a) in
    Holds-Frame k2 (pend_switch k2) a (pend_switch-Frame k2) (
      set_sema-Holds k1 a (queued k1 r a)
        (record { bound = h.0.bound; positive = h.0.positive; word = h.0.word; waits = inr z })
        (insert-IsOrdered (prio_of k1) (k1.semas a).waiting r h1.1))

block_bounded-Holds :
    (x : Err × Kernel) (r a : ℕ)
    → Holds x.1 a
    → (x.1.semas a).value ≡ 0
    → Holds (block_bounded x r a).1 a
unfolding block_bounded
block_bounded-Holds (success, k) r a h z = block-Holds k r a h z
block_bounded-Holds (e, k) r a h z = Holds-Frame k (forget k r) a (set_node-Frame k r _) h

pend_ready-Holds : (k : Kernel) (r a ticks : ℕ) → Holds k a → Holds (pend_ready k r a ticks).1 a
unfolding pend_ready
pend_ready-Holds k r a ticks h =
    let k1 = setup k r TimeoutType.blocking (some (sema_queue a)) in
    let f = Frame-trans (set_node-Frame k r _) (add-Frame k1 r ticks) in
    elim (Bool-cases (ltb 0 (k.semas a).value)) [
      | inl l ↦
          let pos = ltb→lt 0 (k.semas a).value l in
          rw l (
            set_sema-Holds k a (take_unit (k.semas a)) (take_unit-IsSound (k.semas a) h.0 pos) (
              subst (λ s. IsOrdered (prio_of k) s.waiting) (sym (take_unit_eq (k.semas a) h.0 pos))
                h.1))
      | inr l ↦
          let z : (k.semas a).value ≡ 0 = ground (arith, l) in
          rw l (
            if-case (λ x. Holds x a) (ticks == 0) _ _ h
              (if-case (λ x. Holds x a) (is_bounded ticks) _ _
                (block_bounded-Holds (add k1 r ticks) r a (Holds-Frame k _ a f h)
                  (ap (λ m. (m a).value) f.semas ∙ z))
                (block-Holds k r a h z)))
    ]

-- The first half of kSemaphorePend, whatever its outcome, keeps a semaphore in order: the
-- value in its bound, no unit while a task waits, and the waiters by priority.
pub pend-Holds : (k : Kernel) (r a ticks : ℕ) → Holds k a → Holds (pend k r a ticks).1 a
unfolding pend
pend-Holds k r a ticks h =
    checked_wait-case (λ x. Holds x a) (sema_ready_err k a) _ k
      (if-case (λ x. Holds x a) (k.in_isr && ltb 0 ticks) _ _ h (pend_ready-Holds k r a ticks h)) h
