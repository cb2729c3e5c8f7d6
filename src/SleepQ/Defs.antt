-- ===== src/SleepQ/Defs.antt =====
-- The operations of core/src/ksleepq.c on the queue at address `a`, called by the task `r` that is
-- in RK_gRunPtr, after the handles were resolved. Condition variables are left out.
use rk.Base.{
  ℕ, zero, suc, Bool, true, ◌||◌, not, Option, none, some, List, [], ◌∷◌, length, ltb, ◌==◌,
  if◌then◌else◌,
}
use rk.Err.{
  Err, success, obj_null, obj_double_init, invalid_param, invalid_isr_primitive, nowait,
  empty_waiting_queue,
}
use rk.Obj.{object_ready_err, owner_domain_set}
use rk.Kernel.{
  Kernel, SleepQueue, Status, TimeoutType, sleep_queue, ready_queue, update, run_domain, Outcome,
  returns, blocks, checked, checked_wait, JobType,
}
use rk.Sched.Queue.{deq, rem, enq_by_prio, prio_of}
use rk.Sched.Resched.{raw_init_guard, pend_switch, resched_task, lock, unlock, status_eq_ready}
use rk.Sched.Switch.{ready_switch, ready_no_switch, set_status}
use rk.PostProc.{job_enq}
use rk.Timeout.Node.{setup, add, forget, stop_timeout, is_bounded}

-- RK_SLEEPQ_KOBJ_ID
abbrev pub sleepq_kobj_id : ℕ
sleepq_kobj_id = 3490709250

abbrev pub set_sleepq : Kernel → ℕ → SleepQueue → Kernel
set_sleepq k a s = record k { sleepqs = update k.sleepqs a s }

-- kSleepQueueInit
unfoldable pub init_at : Kernel → Option ℕ → Err × Kernel
unfolding owner_domain_set
init_at k none = (obj_null, k)
init_at k (some a) =
    let h = (k.sleepqs a).header in
    if h.init then (obj_double_init, k) else (
      success,
      set_sleepq k a (record {
        header =
            owner_domain_set (record h { init = true; obj_id = sleepq_kobj_id }) (run_domain k);
        waiting = [];
      }),
    )

unfoldable pub init : Kernel → Option ℕ → Err × Kernel
unfolding raw_init_guard init_at
init k p = checked (raw_init_guard k) (init_at k p) k

-- kSleepQueueReadyErr_
unfoldable pub sleepq_ready_err : Kernel → ℕ → Err
unfolding object_ready_err
sleepq_ready_err k a = object_ready_err (some (k.sleepqs a).header) sleepq_kobj_id (run_domain k)

-- the wait of kSleepQueueSleep, with the timeout armed or not needed
unfoldable pub block : Kernel → ℕ → ℕ → Kernel
unfolding enq_by_prio pend_switch
block k r a = pend_switch (enq_by_prio (set_status k r Status.sleeping) (sleep_queue a) r)

unfoldable pub block_bounded : Err × Kernel → ℕ → ℕ → Outcome × Kernel
unfolding block
block_bounded (success, k) r a = (blocks, block k r a)
block_bounded (e, k) r a = (returns e, forget k r)

unfoldable pub sleep_ready : Kernel → ℕ → ℕ → ℕ → Outcome × Kernel
unfolding is_bounded add block_bounded block
sleep_ready k r a ticks =
    if k.in_isr
    then (returns invalid_isr_primitive, k)
    else (if ticks == 0
        then (returns nowait, k)
        else (if is_bounded ticks
            then block_bounded (add (setup k r TimeoutType.blocking (some (sleep_queue a))) r ticks)
                r a
            else (blocks, block k r a)))

-- the first half of kSleepQueueSleep; the second is `resume` of Sema/Defs
unfoldable pub sleep : Kernel → ℕ → ℕ → ℕ → Outcome × Kernel
unfolding sleepq_ready_err sleep_ready
sleep k r a ticks = checked_wait (sleepq_ready_err k a) (sleep_ready k r a ticks) k

-- kSleepQueueSignal
unfoldable pub signal_deq : Kernel → ℕ → Option (ℕ × Kernel) → Err × Kernel
unfolding stop_timeout ready_switch
signal_deq k r none = (empty_waiting_queue, k)
signal_deq k r (some (t, k')) =
    (success, (ready_switch (stop_timeout k' t TimeoutType.blocking) r t).1)

unfoldable pub signal : Kernel → ℕ → ℕ → Err × Kernel
unfolding sleepq_ready_err deq signal_deq
signal k r a = checked (sleepq_ready_err k a) (signal_deq k r (deq k (sleep_queue a))) k

-- kSleepQueueReady of a task that the queue links: the code takes the task out of this queue
-- without a look at whether it is there.
unfoldable pub ready_task : Kernel → ℕ → ℕ → ℕ → Err × Kernel
unfolding rem stop_timeout ready_switch
ready_task k r a t = if length (k.sleepqs a).waiting == 0 then (empty_waiting_queue, k) else (
  success,
  (ready_switch (stop_timeout (rem k (sleep_queue a) t) t TimeoutType.blocking) r t).1,
)

unfoldable pub ready : Kernel → ℕ → ℕ → ℕ → Err × Kernel
unfolding sleepq_ready_err ready_task
ready k r a t = checked (sleepq_ready_err k a) (ready_task k r a t) k

-- kSleepQueueQuery; whether `nTasksPtr` is there
unfoldable pub query : Kernel → ℕ → Bool → Err × Option ℕ
unfolding sleepq_ready_err
query k a there = elim (sleepq_ready_err k a) [
  | success ↦ if there then (success, some (length (k.sleepqs a).waiting)) else (obj_null, none)
  | e ↦ (e, none)
]

-- `chosenTCBPtr`: the most urgent of the woken tasks, the first among equals
unfoldable pub choose : Kernel → Option ℕ → ℕ → Option ℕ
choose k none t = some t
choose k (some c) t = if ltb (prio_of k t) (prio_of k c) then some t else some c

-- the `for` of kSleepQueueWake: `n` turns at most
unfoldable pub wake_loop : ℕ → Kernel → ℕ → List ℕ → Option ℕ → Option ℕ × Kernel
unfolding deq stop_timeout ready_no_switch choose
wake_loop zero k a ts chosen = (chosen, k)
wake_loop (suc n) k a [] chosen = (chosen, k)
wake_loop (suc n) k a (t ∷ ts) chosen =
    let k' = set_sleepq k a (record (k.sleepqs a) { waiting = ts }) in
    let k'' = ready_no_switch (stop_timeout k' t TimeoutType.blocking) t in
    wake_loop n k'' a ts (choose k'' chosen t)

-- `toWake`: 0 stands for all
unfoldable pub to_wake : ℕ → ℕ → ℕ
to_wake tasks waiting =
    if tasks == 0 then waiting else (if ltb tasks waiting then tasks else waiting)

unfoldable pub resched_chosen : Kernel → ℕ → Option ℕ → Kernel
unfolding resched_task
resched_chosen k r none = k
resched_chosen k r (some t) = (resched_task k r t).1

-- the end of kSleepQueueWake, from a task: no interrupt comes between the turns of its loop
unfoldable pub wake_now : Kernel → ℕ → ℕ → ℕ → Kernel
unfolding lock unlock wake_loop resched_chosen
wake_now k r a n =
    let (chosen, k') = wake_loop n (lock k r) a (k.sleepqs a).waiting none in
    unlock (resched_chosen k' r chosen) r

-- from an interrupt: deferred, where no number is asked for
unfoldable pub wake_deferred : Kernel → ℕ → ℕ → ℕ → Bool → Err × Kernel
unfolding job_enq
wake_deferred k r a n there =
    if there
    then (invalid_param, k)
    else job_enq k r (record { job_type = JobType.sleepq_wake; obj = a; n_tasks = n })

-- what is written to `uTasksPtr`, where it is there
abbrev pub written : Bool → ℕ → Option ℕ
written there n = if there then some n else none

-- kSleepQueueWake, whether `uTasksPtr` is there given: the error, the number of tasks left
-- waiting where it is written, the kernel
unfoldable pub wake_ready : Kernel → ℕ → ℕ → ℕ → Bool → Err × Option ℕ × Kernel
unfolding to_wake wake_now wake_deferred
wake_ready k r a tasks there =
    let waiting = (k.sleepqs a).waiting in
    let n = to_wake tasks (length waiting) in
    let (e, deferred) = wake_deferred k r a n there in
    let k' = wake_now k r a n in
    if length waiting == 0
    then (empty_waiting_queue, written there 0, k)
    else (if k.in_isr
        then (e, none, deferred)
        else (success, written there (length (k'.sleepqs a).waiting), k'))

unfoldable pub wake : Kernel → ℕ → ℕ → ℕ → Bool → Err × Option ℕ × Kernel
unfolding sleepq_ready_err wake_ready
wake k r a tasks there = elim (sleepq_ready_err k a) [
  | success ↦ wake_ready k r a tasks there
  | e ↦ (e, none, k)
]

-- kSleepQueueUnready of task `t` that its ready queue links
unfoldable pub unready_task : Kernel → ℕ → ℕ → ℕ → Err × Kernel
unfolding status_eq_ready rem enq_by_prio
unready_task k r a t =
    if (t == r) || not (status_eq_ready (k.tasks t).status) then (invalid_param, k) else (
      success,
      set_status (enq_by_prio (rem k (ready_queue (prio_of k t)) t) (sleep_queue a) t) t
          Status.sleepq_blocked,
    )

unfoldable pub unready : Kernel → ℕ → ℕ → ℕ → Err × Kernel
unfolding sleepq_ready_err unready_task
unready k r a t = checked (sleepq_ready_err k a) (unready_task k r a t) k
