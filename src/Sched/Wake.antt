-- ===== src/Sched/Wake.antt =====
-- Where kReadySwtch puts the task that it makes ready.
use rk.Base.{ℕ, ◌≡◌, ◌≢◌, ◌&&◌, [], ◌∷◌, ◌++◌, ◌==◌, ltb, inl, inr, Bool-cases, arith}
use rk.Kernel.{Kernel, Status, update, if-case}
use rk.Sched.Queue.{prio_of}
use rk.Sched.Resched.{resched_task, pend_now, defer}
use rk.Sched.Switch.{ready_no_switch, ready_switch, postproc_tid}
use rk.Sched.Bitmap.{enq-lists}

-- kReschedTask asks for a switch and moves no task.
pub resched_task-case :
    (P : Kernel → Type 0) (k : Kernel) (r t : ℕ)
    → P k
    → P (pend_now k)
    → P (defer k)
    → P (resched_task k r t).1
unfolding resched_task
resched_task-case P k r t h n d =
    if-case P (ltb (k.tasks t).priority (k.tasks r).priority && ((k.tasks r).preempt == 1)) _ _
      (if-case P (k.sch_lock == 0) _ _ n d) h

pub ready_switch-status :
    (k : Kernel) (r t : ℕ) → ((ready_switch k r t).1.tasks t).status ≡ Status.ready
unfolding ready_switch ready_no_switch pend_now defer
ready_switch-status k r t =
    let e : ((ready_no_switch k t).tasks t).status ≡ Status.ready = ground arith in
    resched_task-case (λ x. (x.tasks t).status ≡ Status.ready) (ready_no_switch k t) r t e e e

-- as `ready_switch-lists`, without the request of a switch
pub ready_no_switch-lists :
    (k : Kernel) (t : ℕ)
    → t ≢ postproc_tid
    → (ready_no_switch k t).ready_lists
      ≡ update k.ready_lists (prio_of k t) (k.ready_lists (prio_of k t) ++ t ∷ [])
unfolding ready_no_switch
ready_no_switch-lists k t n = elim (Bool-cases (t == postproc_tid)) [
  | inl e ↦ ground (arith, n, e)
  | inr e ↦ rw e (enq-lists k (prio_of k t) t)
]

-- A task made ready that is not the post-processing task goes last in the ready queue of its
-- priority.
pub ready_switch-lists :
    (k : Kernel) (r t : ℕ)
    → t ≢ postproc_tid
    → (ready_switch k r t).1.ready_lists
      ≡ update k.ready_lists (prio_of k t) (k.ready_lists (prio_of k t) ++ t ∷ [])
unfolding ready_switch pend_now defer
ready_switch-lists k r t n =
    let e = ready_no_switch-lists k t n in
    resched_task-case
      (λ x.
        x.ready_lists ≡ update k.ready_lists (prio_of k t) (k.ready_lists (prio_of k t) ++ t ∷ []))
      (ready_no_switch k t) r t e e e
