-- ===== src/Sched/Resched.antt =====
-- Rescheduling (core/src/ksch.c): requests of a context switch, the scheduler lock, the next
-- priority, and the construction phase in which objects may be initialised.
use rk.Base.{
  ℕ, zero, suc, ◌-◌, Bool, true, false, ◌&&◌, ◌||◌, not, Option, none, some, ltb, ◌==◌,
  if◌then◌else◌,
}
use rk.Base.Word.{add_word}
use rk.Err.{Err, success, invalid_phase, resched_pending, resched_not_needed}
use rk.Kernel.{Kernel, Status, set_task}
use rk.Sched.Queue.{idle_prio, prio_limit}

-- kPendCtxSwtchNow_, kDeferCtxSwtch_
unfoldable pub pend_now : Kernel → Kernel
pend_now k = record k { pending_switch = false; switch_pended = true }

unfoldable pub defer : Kernel → Kernel
defer k = record k { pending_switch = true }

unfoldable pub status_eq_ready : Status → Bool
status_eq_ready Status.ready = true
status_eq_ready _ = false

unfoldable pub status_eq_running : Status → Bool
status_eq_running Status.running = true
status_eq_running _ = false

-- kPendCtxSwtch with a task in RK_gRunPtr
unfoldable pub pend_of : Kernel → Status → Kernel
unfolding pend_now defer status_eq_ready status_eq_running
pend_of k s =
    if status_eq_ready s && ltb 0 k.sch_lock
    then defer k
    else (if not (status_eq_running s)
        then pend_now k
        else (if k.sch_lock == 0 then pend_now k else defer k))

-- kPendCtxSwtch, RK_gRunPtr given
unfoldable pub pend_run : Kernel → Option ℕ → Kernel
unfolding pend_of pend_now defer
pend_run k none = if k.sch_lock == 0 then pend_now k else defer k
pend_run k (some t) = pend_of k (k.tasks t).status

-- kPendCtxSwtch
unfoldable pub pend_switch : Kernel → Kernel
unfolding pend_run
pend_switch k = pend_run k k.run

abbrev pub set_sch_lock : Kernel → ℕ → ℕ → Kernel
set_sch_lock k t n = set_task (record k { sch_lock = n }) t (record (k.tasks t) { sch_lock = n })

-- kSchLock: the code reads RK_gRunPtr untested
unfoldable pub lock : Kernel → ℕ → Kernel
lock k t = if (k.tasks t).preempt == 0 then k else set_sch_lock k t (add_word k.sch_lock 1)

-- kSchUnlock
unfoldable pub unlock : Kernel → ℕ → Kernel
unfolding pend_now
unlock k t =
    if k.sch_lock == 0
    then k
    else (let k' = set_sch_lock k t (k.sch_lock - 1) in
        if (k'.sch_lock == 0) && k'.pending_switch then pend_now k' else k')

-- the least set bit from `p` on, of `n` bits
unfoldable pub first_bit : (ℕ → Bool) → ℕ → ℕ → ℕ
first_bit bits p zero = idle_prio
first_bit bits p (suc n) = let rest = first_bit bits (suc p) n in if bits p then p else rest

-- kCalcNextTaskPrio_
unfoldable pub next_prio : Kernel → ℕ
unfolding first_bit
next_prio k = first_bit k.ready_bits 0 prio_limit

-- kReschedTask of task `t` while `r` runs
unfoldable pub resched_task : Kernel → ℕ → ℕ → Err × Kernel
unfolding pend_now defer
resched_task k r t =
    if ltb (k.tasks t).priority (k.tasks r).priority && ((k.tasks r).preempt == 1)
    then (if k.sch_lock == 0 then (success, pend_now k) else (resched_pending, defer k))
    else (resched_not_needed, k)

-- kReschedRunning, RK_gRunPtr given
unfoldable pub resched_run : Kernel → Option ℕ → Kernel → Err × Kernel
unfolding next_prio status_eq_running
resched_run k none pended = (resched_not_needed, k)
resched_run k (some r) pended =
    if status_eq_running (k.tasks r).status
      && ((k.tasks r).preempt == 1)
      && ltb (next_prio k) (k.tasks r).priority
    then (if pended.sch_lock == 0 then (success, pended) else (resched_pending, pended))
    else (resched_not_needed, k)

-- kReschedRunning
unfoldable pub resched_running : Kernel → Err × Kernel
unfolding pend_switch resched_run
resched_running k = resched_run k k.run (pend_switch k)

-- kKernelConstructionEnter
unfoldable pub construction_lock : Kernel → Kernel
unfolding lock
construction_lock k = elim k.run [
  | none ↦ k
  | some r ↦
      if (k.tasks r).preempt == 0
      then k
      else record (lock k r) { construction_locks = add_word k.construction_locks 1 }
]

unfoldable pub construction_enter : Kernel → Kernel
unfolding construction_lock
construction_enter k =
    let k' = construction_lock k in
    record k' {
      construction_owner = if k'.construction_depth == 0 then k'.run else k'.construction_owner;
      construction_depth = add_word k'.construction_depth 1;
    }

-- the part of kKernelConstructionExit that its `if` guards
unfoldable pub construction_leave : Kernel → Kernel
construction_leave k = record k {
  construction_locks = k.construction_locks - 1;
  construction_depth = k.construction_depth - 1;
  construction_owner = if k.construction_depth == 1 then none else k.construction_owner;
}

-- kKernelConstructionExit: kSchUnlock is called when a lock was counted, with a task running.
unfoldable pub construction_exit : Kernel → Kernel
unfolding construction_leave unlock
construction_exit k =
    if k.construction_depth == 0
    then k
    else (let k' = construction_leave k in
        if k.construction_locks == 0 then k' else elim k.run [ none ↦ k' | some r ↦ unlock k' r ])

unfoldable pub same_task : Option ℕ → Option ℕ → Bool
same_task none none = true
same_task none (some b) = false
same_task (some a) none = false
same_task (some a) (some b) = a == b

-- kKernelRawInitAllowed
unfoldable pub raw_init_allowed : Kernel → Bool
unfolding same_task
raw_init_allowed k =
    k.boot_phase || (not (k.construction_depth == 0) && same_task k.construction_owner k.run)

-- kKernelRawInitGuard
unfoldable pub raw_init_guard : Kernel → Err
unfolding raw_init_allowed
raw_init_guard k = if raw_init_allowed k then success else invalid_phase
