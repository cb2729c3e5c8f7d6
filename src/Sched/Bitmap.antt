-- ===== src/Sched/Bitmap.antt =====
-- The ready bitmap agrees with the ready queues, and the priority it yields is the most urgent.
use rk.Base.{
  ℕ, zero, suc, ◌+◌, ◌≤◌, ◌<◌, ◌≡◌, refl, sym, ap, ◌∙◌, inl, inr, Bool, true, false, List, [], ◌∷◌,
  ◌++◌, ◌==◌, Bool-cases, arith, fun_ext, ℕ_discrete,
}
use mathlib.Core.Path.{subst}
use rk.Base.Distinct.{All, All-append}
use rk.Kernel.{
  Kernel, Tcb, QueueRef, ready_queue, sema_queue, mutex_queue, sleep_queue, receivers_queue,
  senders_queue, update, set_queue,
}
use rk.Sched.Queue.{
  prio_of, enq, jam, tracks_prio, bitmask_set, bitmask_clear, is_ready_queue, clear_if_empty,
  is_nil,
}
use rk.Sched.Resched.{next_prio, first_bit}

abbrev pub has_tasks : List ℕ → Bool
has_tasks [] = false
has_tasks (x ∷ xs) = true

-- each bit tells whether its queue has a task
abbrev pub BitmapMatches : Kernel → Type 0
BitmapMatches k = (p : ℕ) → p < 32 → k.ready_bits p ≡ has_tasks (k.ready_lists p)

has_tasks-append : (xs : List ℕ) (t : ℕ) → has_tasks (xs ++ t ∷ []) ≡ true
has_tasks-append [] t = refl
has_tasks-append (x ∷ xs) t = refl

-- Adding a task at the tail of the ready queue of its own priority keeps the bitmap right.
pub enq-BitmapMatches :
    (k : Kernel) (t : ℕ) → BitmapMatches k → BitmapMatches (enq k (ready_queue (prio_of k t)) t)
unfolding enq is_ready_queue bitmask_set tracks_prio
enq-BitmapMatches k t h p lt = ground (arith, h p lt, has_tasks-append (k.ready_lists p) t)

pub jam-BitmapMatches :
    (k : Kernel) (t : ℕ) → BitmapMatches k → BitmapMatches (jam k (ready_queue (prio_of k t)) t)
unfolding jam is_ready_queue bitmask_set tracks_prio
jam-BitmapMatches k t h p lt = ground (arith, h p lt)

-- each ready queue holds tasks of its own priority
abbrev pub Filed : (ℕ → Tcb) → (ℕ → List ℕ) → Type 0
Filed tasks lists = (p : ℕ) → All (λ t. (tasks t).priority ≡ p) (lists p)

abbrev pub IsFiled : Kernel → Type 0
IsFiled k = Filed k.tasks k.ready_lists

pub Filed-update :
    (tasks : ℕ → Tcb) (lists : ℕ → List ℕ) (p : ℕ) (xs : List ℕ)
    → Filed tasks lists
    → All (λ t. (tasks t).priority ≡ p) xs
    → Filed tasks (update lists p xs)
Filed-update tasks lists p xs h a q = elim (Bool-cases (q == p)) [
  | inl w ↦
      rw w (subst (λ r. All (λ t. (tasks t).priority ≡ r) xs) {x = p} {y = q} (ground (arith, w)) a)
  | inr w ↦ rw w (h q)
]

-- A change of tasks that keeps their priorities keeps the queues filed.
pub Filed-tasks :
    (tasks tasks' : ℕ → Tcb) (lists : ℕ → List ℕ)
    → ((t : ℕ) → (tasks' t).priority ≡ (tasks t).priority)
    → Filed tasks lists
    → Filed tasks' lists
Filed-tasks tasks tasks' lists e h p =
    subst (λ f. All (λ t. f t ≡ p) (lists p)) (sym (fun_ext e)) (h p)

pub enq-lists :
    (k : Kernel) (p t : ℕ)
    → (enq k (ready_queue p) t).ready_lists ≡ update k.ready_lists p (k.ready_lists p ++ t ∷ [])
unfolding enq is_ready_queue bitmask_set tracks_prio
enq-lists k p t = ground arith

pub enq-tasks : (k : Kernel) (q : QueueRef) (t : ℕ) → (enq k q t).tasks ≡ k.tasks
unfolding enq is_ready_queue bitmask_set tracks_prio
enq-tasks k (ready_queue p) t = ground arith
enq-tasks k (sema_queue p) t = refl
enq-tasks k (mutex_queue p) t = refl
enq-tasks k (sleep_queue p) t = refl
enq-tasks k (receivers_queue p) t = refl
enq-tasks k (senders_queue p) t = refl

pub jam-lists :
    (k : Kernel) (p t : ℕ)
    → (jam k (ready_queue p) t).ready_lists ≡ update k.ready_lists p (t ∷ k.ready_lists p)
unfolding jam is_ready_queue bitmask_set tracks_prio
jam-lists k p t = ground arith

pub jam-tasks : (k : Kernel) (p t : ℕ) → (jam k (ready_queue p) t).tasks ≡ k.tasks
unfolding jam is_ready_queue bitmask_set tracks_prio
jam-tasks k p t = ground arith

pub clear-lists :
    (k : Kernel) (q : QueueRef) (p : ℕ) → (clear_if_empty k q p).ready_lists ≡ k.ready_lists
unfolding clear_if_empty is_ready_queue bitmask_clear tracks_prio is_nil
clear-lists k (ready_queue p) t = ground arith
clear-lists k (sema_queue p) t = refl
clear-lists k (mutex_queue p) t = refl
clear-lists k (sleep_queue p) t = refl
clear-lists k (receivers_queue p) t = refl
clear-lists k (senders_queue p) t = refl

pub clear-tasks : (k : Kernel) (q : QueueRef) (p : ℕ) → (clear_if_empty k q p).tasks ≡ k.tasks
unfolding clear_if_empty is_ready_queue bitmask_clear tracks_prio is_nil
clear-tasks k (ready_queue p) t = ground arith
clear-tasks k (sema_queue p) t = refl
clear-tasks k (mutex_queue p) t = refl
clear-tasks k (sleep_queue p) t = refl
clear-tasks k (receivers_queue p) t = refl
clear-tasks k (senders_queue p) t = refl

-- what the scheduler needs of its queues
pub record IsReady (k : Kernel) : Type 0 where
  pub bitmap : BitmapMatches k
  pub filed : IsFiled k

Filed-both :
    (tasks tasks' : ℕ → Tcb) (lists lists' : ℕ → List ℕ)
    → tasks' ≡ tasks
    → lists' ≡ lists
    → Filed tasks lists
    → Filed tasks' lists'
Filed-both tasks tasks' lists lists' e f h =
    subst (λ g. Filed g lists') (sym e) (subst (λ l. Filed tasks l) (sym f) h)

module _ (k : Kernel) (t : ℕ) (h : IsReady k) where
  abbrev own : ℕ
  own = (k.tasks t).priority

  -- kTCBQEnq on the ready queue of the task's priority keeps the queues and the bitmap in order.
  pub enq-IsReady : IsReady (enq k (ready_queue own) t)
  enq-IsReady = record {
    bitmap = enq-BitmapMatches k t h.bitmap;
    filed = Filed-both k.tasks _ _ _ (enq-tasks k (ready_queue own) t) (enq-lists k own t) (
        Filed-update k.tasks k.ready_lists own (k.ready_lists own ++ t ∷ []) h.filed
          (All-append _ (k.ready_lists own) (t ∷ []) (h.filed own) (refl, tt)));
  }

  pub jam-IsReady : IsReady (jam k (ready_queue own) t)
  jam-IsReady = record {
    bitmap = jam-BitmapMatches k t h.bitmap;
    filed = Filed-both k.tasks _ _ _ (jam-tasks k own t) (jam-lists k own t) (
        Filed-update k.tasks k.ready_lists own (t ∷ k.ready_lists own) h.filed (refl, h.filed own));
  }

-- Taking a task off the ready queue of its priority, which had one, keeps the bitmap right.
pub clear-BitmapMatches :
    (k : Kernel) (p : ℕ) (ts : List ℕ)
    → BitmapMatches k
    → has_tasks (k.ready_lists p) ≡ true
    → BitmapMatches (clear_if_empty (set_queue k (ready_queue p) ts) (ready_queue p) p)
unfolding clear_if_empty is_ready_queue bitmask_clear tracks_prio is_nil
clear-BitmapMatches k p [] h e q lt = ground (arith, h q lt)
clear-BitmapMatches k p (x ∷ xs) h e q lt = elim (ℕ_discrete q p) [
  | yes w ↦ ground (arith, h q lt, e, w, ap k.ready_lists w)
  | no n ↦ ground (arith, h q lt, n)
]

-- what the scan for the least bit finds
pub first_bit_least :
    (bits : ℕ → Bool) (p n : ℕ)
    → p + n ≡ 32
    → let f = first_bit bits p n in
      (p ≤ f) × (f ≤ 32) × ((q : ℕ) → p ≤ q → q < f → bits q ≡ false) × (f < 32 → bits f ≡ true)
unfolding first_bit
first_bit_least bits p zero e =
    (omega arith, omega arith, (λ q l h. ground arith), (λ h. ground arith))
first_bit_least bits p (suc n) e =
    let (a, b, c, d) = first_bit_least bits (suc p) n (omega (arith, e)) in
    elim (Bool-cases (bits p)) [
      | inl w ↦ rw w (omega arith, omega (arith, e), (λ q l h. ground arith), (λ h. w))
      | inr w ↦ rw w (
        omega (arith, a),
        b,
        (λ q l h. elim (ℕ_discrete q p) [
          | yes v ↦ ap bits v ∙ w
          | no n' ↦ c q (omega (arith, l, n')) h
        ]),
        d,
      )
    ]

-- Leaving a ready queue that had a task keeps the queues and the bitmap in order, where what
-- stays in the queue is of its priority.
pub clear-IsReady :
    (k : Kernel) (p : ℕ) (ts : List ℕ)
    → IsReady k
    → has_tasks (k.ready_lists p) ≡ true
    → All (λ t. (k.tasks t).priority ≡ p) ts
    → IsReady (clear_if_empty (set_queue k (ready_queue p) ts) (ready_queue p) p)
clear-IsReady k p ts h e a = record {
  bitmap = clear-BitmapMatches k p ts h.bitmap e;
  filed =
      Filed-both k.tasks _ _ _ (clear-tasks (set_queue k (ready_queue p) ts) (ready_queue p) p)
        (clear-lists (set_queue k (ready_queue p) ts) (ready_queue p) p)
        (Filed-update k.tasks k.ready_lists p ts h.filed a);
}

-- The priority that kCalcNextTaskPrio_ finds in a bitmap that agrees with the queues is at most
-- 32, no more urgent queue has a task, and below 32 its own queue has one.
pub next_prio_least :
    (k : Kernel)
    → BitmapMatches k
    → let p = next_prio k in
      (p ≤ 32)
      × ((q : ℕ) → q < p → has_tasks (k.ready_lists q) ≡ false)
      × (p < 32 → has_tasks (k.ready_lists p) ≡ true)
unfolding next_prio
next_prio_least k h =
    let (a, b, c, d) = first_bit_least k.ready_bits 0 32 refl in
    (
      b,
      (λ q l. sym (h q (omega (arith, b, l))) ∙ c q (omega arith) l),
      (λ l. sym (h (first_bit k.ready_bits 0 32) l) ∙ d l),
    )
