-- ===== src/Sched/Switch.antt =====
-- Making tasks ready and switching between them (core/src/ksch.c, "TASK SWITCHING LOGIC").
use rk.Base.{ℕ, Option, none, some, leb, ◌==◌, if◌then◌else◌}
use rk.Err.{Err}
use rk.Kernel.{Kernel, Status, ready_queue, set_task}
use rk.Sched.Queue.{enq, jam, deq, prio_of}
use rk.Sched.Resched.{status_eq_running, resched_task, next_prio, pend_now, defer}

-- RK_POSTPROC_TASK_ID
abbrev pub postproc_tid : ℕ
postproc_tid = 1

abbrev pub set_status : Kernel → ℕ → Status → Kernel
set_status k t s = set_task k t (record (k.tasks t) { status = s })

-- kReadyNoSwtch; kSyscallTaskWake has nothing to do on a task that is in no system call.
unfoldable pub ready_no_switch : Kernel → ℕ → Kernel
unfolding enq jam
ready_no_switch k t =
    let q = ready_queue (prio_of k t) in
    set_status (if t == postproc_tid then jam k q t else enq k q t) t Status.ready

-- kReadySwtch while task `r` is in RK_gRunPtr
unfoldable pub ready_switch : Kernel → ℕ → ℕ → Err × Kernel
unfolding ready_no_switch resched_task
ready_switch k r t = resched_task (ready_no_switch k t) r t

-- kPreemptRunningTask_
unfoldable pub preempt_running : Kernel → ℕ → Kernel
unfolding jam
preempt_running k r = set_status (jam k (ready_queue (prio_of k r)) r) r Status.ready

-- kYieldRunningTask_
unfoldable pub yield_running : Kernel → ℕ → Kernel
unfolding enq next_prio pend_now defer
yield_running k r =
    if leb (next_prio k) (prio_of k r)
    then (let k' = set_status (enq k (ready_queue (prio_of k r)) r) r Status.ready in
        if k'.sch_lock == 0 then pend_now k' else defer k')
    else k

-- the start of kSwtch
unfoldable pub put_back : Kernel → ℕ → Kernel
unfolding preempt_running status_eq_running
put_back k r = if status_eq_running (k.tasks r).status then preempt_running k r else k

-- the end of kSwtch: the lock depth is saved in the old task and taken from the new one
unfoldable pub switch_to : Kernel → ℕ → ℕ → Kernel
switch_to k r t =
    let k' = set_task k r (record (k.tasks r) { sch_lock = k.sch_lock }) in
    record k' { run = some t; sch_lock = (k'.tasks t).sch_lock }

-- kSwtch from task `r`; `none` where the queue that the bitmap names is empty
unfoldable pub switch : Kernel → ℕ → Option Kernel
unfolding put_back next_prio deq switch_to
switch k r =
    let k' = put_back k r in
    elim (deq k' (ready_queue (next_prio k'))) [
      | none ↦ none
      | some (t, k'') ↦ some (switch_to k'' r t)
    ]
