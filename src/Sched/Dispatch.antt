-- ===== src/Sched/Dispatch.antt =====
-- Making ready, preempting and switching keep the ready queues in order, and the switch runs the
-- most urgent task.
use rk.Base.{
  ℕ, ◌<◌, ◌≡◌, refl, sym, ap, ◌∙◌, inl, inr, true, false, some, List, [], ◌∷◌, ◌==◌, Bool-cases,
  arith, ℕ_discrete,
}
use mathlib.Core.Path.{subst}
use rk.Base.Distinct.{All}
use rk.Kernel.{Kernel, Status, ready_queue, set_queue, update}
use rk.Sched.Queue.{prio_of, enq, jam, deq, deq_list, clear_if_empty}
use rk.Sched.Resched.{next_prio, status_eq_running}
use rk.Sched.Switch.{
  ready_no_switch, preempt_running, put_back, switch_to, switch, set_status, postproc_tid,
}
use rk.Sched.Bitmap.{
  IsReady, has_tasks, enq-IsReady, jam-IsReady, clear-IsReady, Filed-tasks, next_prio_least,
  clear-lists,
}

-- A new record of a task that keeps its priority keeps the queues in order.
pub set_status-IsReady : (k : Kernel) (t : ℕ) (s : Status) → IsReady k → IsReady (set_status k t s)
set_status-IsReady k t s h = record {
  bitmap = h.bitmap;
  filed = Filed-tasks k.tasks (set_status k t s).tasks k.ready_lists (λ i. ground arith) h.filed;
}

-- kReadyNoSwtch keeps the bitmap and the ready queues in order.
pub ready_no_switch-IsReady : (k : Kernel) (t : ℕ) → IsReady k → IsReady (ready_no_switch k t)
unfolding ready_no_switch
ready_no_switch-IsReady k t h = elim (Bool-cases (t == postproc_tid)) [
  | inl e ↦
      rw e (
        set_status-IsReady (jam k (ready_queue (prio_of k t)) t) t Status.ready (jam-IsReady k t h))
  | inr e ↦
      rw e (
        set_status-IsReady (enq k (ready_queue (prio_of k t)) t) t Status.ready (enq-IsReady k t h))
]

-- kPreemptRunningTask_
pub preempt_running-IsReady : (k : Kernel) (r : ℕ) → IsReady k → IsReady (preempt_running k r)
unfolding preempt_running
preempt_running-IsReady k r h =
    set_status-IsReady (jam k (ready_queue (prio_of k r)) r) r Status.ready (jam-IsReady k r h)

pub put_back-IsReady : (k : Kernel) (r : ℕ) → IsReady k → IsReady (put_back k r)
unfolding put_back
put_back-IsReady k r h = elim (Bool-cases (status_eq_running (k.tasks r).status)) [
  | inl e ↦ rw e (preempt_running-IsReady k r h)
  | inr e ↦ rw e h
]

pub deq-cons :
    (k : Kernel) (p t : ℕ) (ts : List ℕ)
    → k.ready_lists p ≡ t ∷ ts
    → deq k (ready_queue p)
      ≡ some (t, clear_if_empty (set_queue k (ready_queue p) ts) (ready_queue p) (prio_of k t))
unfolding deq deq_list
deq-cons k p t ts e = ap (deq_list k (ready_queue p)) e

switch_to-IsReady : (k : Kernel) (r t : ℕ) → IsReady k → IsReady (switch_to k r t)
unfolding switch_to
switch_to-IsReady k r t h = record {
  bitmap = h.bitmap;
  filed = Filed-tasks k.tasks (switch_to k r t).tasks k.ready_lists (λ i. ground arith) h.filed;
}

-- the queue that the bitmap names is not empty, as long as the idle task's is not
some_task :
    (k : Kernel)
    → IsReady k
    → has_tasks (k.ready_lists 32) ≡ true
    → has_tasks (k.ready_lists (next_prio k)) ≡ true
some_task k h idle =
    let (a, b, c) = next_prio_least k h.bitmap in
    elim (ℕ_discrete (next_prio k) 32) [
      | yes e ↦ ap (λ p. has_tasks (k.ready_lists p)) e ∙ idle
      | no n ↦ c (omega (arith, a, n))
    ]

has_tasks-cons : (xs : List ℕ) → has_tasks xs ≡ true → (t : ℕ) × (ts : List ℕ) × (xs ≡ t ∷ ts)
has_tasks-cons [] e = ground (arith, e)
has_tasks-cons (t ∷ ts) e = (t, ts, refl)

no_tasks : (xs : List ℕ) → has_tasks xs ≡ false → xs ≡ []
no_tasks [] e = refl
no_tasks (x ∷ xs) e = ground (arith, e)

switch-deq :
    (k : Kernel) (r t : ℕ) (k' : Kernel)
    → deq (put_back k r) (ready_queue (next_prio (put_back k r))) ≡ some (t, k')
    → switch k r ≡ some (switch_to k' r t)
unfolding switch
switch-deq k r t k' e = rw (e, switch)

-- the kernel after the switch to the head of queue `p`
abbrev switched : Kernel → ℕ → ℕ → ℕ → List ℕ → Kernel
switched k r t p ts =
    switch_to (clear_if_empty (set_queue k (ready_queue p) ts) (ready_queue p) p) r t

switched-lists :
    (k : Kernel) (r t p : ℕ) (ts : List ℕ)
    → (switched k r t p ts).ready_lists ≡ update k.ready_lists p ts
unfolding switch_to
switched-lists k r t p ts = clear-lists (set_queue k (ready_queue p) ts) (ready_queue p) p

switch-run : (k : Kernel) (r t : ℕ) → (switch_to k r t).run ≡ some t
unfolding switch_to
switch-run k r t = refl

-- kSwtch, with the ready queues and the bitmap in order and the idle task ready or running,
-- finds a task. It is the head of its ready queue after the running task was put back, no
-- more urgent queue has a task, it leaves its queue and the queues and the bitmap stay in
-- order.
pub switch_most_urgent :
    (k : Kernel) (r : ℕ)
    → IsReady k
    → has_tasks ((put_back k r).ready_lists 32) ≡ true
    → let k0 = put_back k r in
      (t : ℕ) × (ts : List ℕ) × (k' : Kernel) × (switch k r ≡ some k')
      × (k'.run ≡ some t)
      × (k0.ready_lists (prio_of k0 t) ≡ t ∷ ts)
      × (k'.ready_lists ≡ update k0.ready_lists (prio_of k0 t) ts)
      × ((q : ℕ) → q < prio_of k0 t → k0.ready_lists q ≡ [])
      × IsReady k'
switch_most_urgent k r h idle =
    let k0 = put_back k r in
    let h0 = put_back-IsReady k r h in
    let p = next_prio k0 in
    let (t, ts, e) = has_tasks-cons (k0.ready_lists p) (some_task k0 h0 idle) in
    let all = subst (λ xs. All (λ i. (k0.tasks i).priority ≡ p) xs) e (h0.filed p) in
    let own = all.0 in
    let (a, b, c) = next_prio_least k0 h0.bitmap in
    (
      t,
      ts,
      switched k0 r t (prio_of k0 t) ts,
      switch-deq k r t _ (
          deq-cons k0 p t ts e
          ∙ ap
              (λ q. some (
                t,
                clear_if_empty (set_queue k0 (ready_queue q) ts) (ready_queue q) (prio_of k0 t),
              ))
              (sym own)),
      switch-run _ r t,
      ap k0.ready_lists own ∙ e,
      switched-lists k0 r t (prio_of k0 t) ts,
      (λ q l. no_tasks (k0.ready_lists q) (b q (subst (λ x. q < x) own l))),
      switch_to-IsReady _ r t (
          clear-IsReady k0 (prio_of k0 t) ts h0 (ap has_tasks (ap k0.ready_lists own ∙ e))
            (subst (λ x. All (λ i. (k0.tasks i).priority ≡ x) ts) (sym own) all.1)),
    )
