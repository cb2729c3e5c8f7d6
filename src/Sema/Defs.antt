-- ===== src/Sema/Defs.antt =====
-- The operations of core/src/ksema.c on the semaphore at address `a`, called by the task `r` that
-- is in RK_gRunPtr, after the handle was resolved. A blocking call has two halves: the first
-- returns or ends in the switch, the second runs when the task is dispatched again.
use rk.Base.{
  ℕ, ◌-◌, Bool, true, false, ◌&&◌, Option, none, some, [], length, ltb, ◌==◌, if◌then◌else◌,
}
use rk.Base.Word.{add_word}
use rk.Err.{
  Err, success, obj_null, obj_double_init, invalid_param, invalid_isr_primitive, sema_blocked,
  sema_full, timeout, resched_pending, resched_not_needed,
}
use rk.Obj.{object_ready_err, owner_domain_set}
use rk.Kernel.{
  Outcome, returns, blocks, checked, checked_wait, Kernel, Semaphore, Status, TimeoutType,
  sema_queue, update, set_task, run_domain,
}
use rk.Sched.Queue.{deq, enq_by_prio}
use rk.Sched.Resched.{raw_init_guard, pend_switch}
use rk.Sched.Switch.{ready_switch, set_status}
use rk.Timeout.Node.{setup, add, forget, stop_timeout, node_of, is_bounded, set_node}

-- RK_SEMAPHORE_KOBJ_ID
abbrev pub semaphore_kobj_id : ℕ
semaphore_kobj_id = 3490709249

abbrev pub set_sema : Kernel → ℕ → Semaphore → Kernel
set_sema k a s = record k { semas = update k.semas a s }

-- kSemaphoreInit: `s` is what the object's storage holds, `none` a null pointer
unfoldable pub init_checked : Option ℕ → Semaphore → ℕ → ℕ → Err × Semaphore
unfolding owner_domain_set
init_checked domain s value max =
    if s.header.init
    then (obj_double_init, s)
    else (if max == 0
        then (invalid_param, s)
        else (if ltb max value then (invalid_param, s) else (
          success,
          record {
            header =
                owner_domain_set (record s.header { init = true; obj_id = semaphore_kobj_id })
                  domain;
            value = value;
            max_value = max;
            waiting = [];
          },
        )))

unfoldable pub init_at : Kernel → Option ℕ → ℕ → ℕ → Err × Kernel
unfolding init_checked
init_at k none value max = (obj_null, k)
init_at k (some a) value max =
    let (e, s) = init_checked (run_domain k) (k.semas a) value max in (e, set_sema k a s)

unfoldable pub init : Kernel → Option ℕ → ℕ → ℕ → Err × Kernel
unfolding raw_init_guard init_at
init k p value max = checked (raw_init_guard k) (init_at k p value max) k

-- kSemaphoreReadyErr_
unfoldable pub sema_ready_err : Kernel → ℕ → Err
unfolding object_ready_err
sema_ready_err k a = object_ready_err (some (k.semas a).header) semaphore_kobj_id (run_domain k)

-- a semaphore that has units: one is taken
unfoldable pub take_unit : Semaphore → Semaphore
take_unit s = record s { value = if s.max_value == 1 then 0 else s.value - 1 }

-- the wait of kSemaphorePend, with the timeout armed or not needed
unfoldable pub block : Kernel → ℕ → ℕ → Kernel
unfolding enq_by_prio pend_switch
block k r a = pend_switch (enq_by_prio (set_status k r Status.blocked) (sema_queue a) r)

unfoldable pub block_bounded : Err × Kernel → ℕ → ℕ → Outcome × Kernel
unfolding block
block_bounded (success, k) r a = (blocks, block k r a)
block_bounded (e, k) r a = (returns e, forget k r)

-- kSemaphorePend of a semaphore that is ready
unfoldable pub pend_ready : Kernel → ℕ → ℕ → ℕ → Outcome × Kernel
unfolding take_unit block block_bounded add is_bounded
pend_ready k r a ticks =
    if ltb 0 (k.semas a).value
    then (returns success, set_sema k a (take_unit (k.semas a)))
    else (if ticks == 0
        then (returns sema_blocked, k)
        else (if is_bounded ticks
            then block_bounded (add (setup k r TimeoutType.blocking (some (sema_queue a))) r ticks)
                r a
            else (blocks, block k r a)))

-- the first half of kSemaphorePend
unfoldable pub pend : Kernel → ℕ → ℕ → ℕ → Outcome × Kernel
unfolding sema_ready_err pend_ready
pend k r a ticks =
    checked_wait (sema_ready_err k a)
      (if k.in_isr && ltb 0 ticks
        then (returns invalid_isr_primitive, k)
        else pend_ready k r a ticks)
      k

-- The second half of the blocking calls: a wait that timed out says so, and a bounded one stops
-- its timeout.
unfoldable pub resume : Kernel → ℕ → ℕ → Err × Kernel
unfolding is_bounded stop_timeout
resume k r ticks =
    let c = k.tasks r in
    if c.time_out
    then (timeout, set_task k r (record c { time_out = false }))
    else (success, if is_bounded ticks then stop_timeout k r TimeoutType.blocking else k)

-- kSemaphorePendSyscall of a semaphore that is ready: without a bound it records the queue
unfoldable pub pend_syscall : Kernel → ℕ → ℕ → ℕ → Outcome × Kernel
unfolding take_unit block block_bounded add is_bounded
pend_syscall k r a ticks =
    if ltb 0 (k.semas a).value
    then (returns success, set_sema k a (take_unit (k.semas a)))
    else (if ticks == 0
        then (returns sema_blocked, k)
        else (if is_bounded ticks
            then block_bounded (add (setup k r TimeoutType.blocking (some (sema_queue a))) r ticks)
                r a
            else (
              blocks,
              block (set_node k r (record (node_of k r) { waiting_queue = some (sema_queue a) })) r
                  a,
            )))

-- kSemaphorePublicReadyErr_
unfoldable pub public_ready_err : Err → Err
public_ready_err resched_pending = success
public_ready_err resched_not_needed = success
public_ready_err e = e

-- kSemaphorePost with nobody waiting
unfoldable pub give_unit : Semaphore → Err × Semaphore
give_unit s =
    if s.max_value == 1
    then (if s.value == 0 then (success, record s { value = 1 }) else (sema_full, s))
    else (if s.value == s.max_value
        then (sema_full, s)
        else (success, record s { value = add_word s.value 1 }))

-- kSemaphorePost to the first waiter
unfoldable pub wake_waiter : Kernel → ℕ → ℕ → Err × Kernel
unfolding stop_timeout ready_switch public_ready_err
wake_waiter k r t =
    let (e, k') = ready_switch (stop_timeout k t TimeoutType.blocking) r t in
    (public_ready_err e, k')

-- the `if` of kSemaphorePost on the wait queue, with what kTCBQDeq takes off it
unfoldable pub post_deq : Kernel → ℕ → ℕ → Option (ℕ × Kernel) → Err × Kernel
unfolding wake_waiter give_unit
post_deq k r a none = let (e, s) = give_unit (k.semas a) in (e, set_sema k a s)
post_deq k r a (some (t, k')) = wake_waiter k' r t

-- kSemaphorePost
unfoldable pub post : Kernel → ℕ → ℕ → Err × Kernel
unfolding sema_ready_err post_deq deq
post k r a = checked (sema_ready_err k a) (post_deq k r a (deq k (sema_queue a))) k

-- what kSemaphoreQuery writes: the value, or the waiters counted below zero
pub data Count : Type 0 where
  units : ℕ → Count
  minus : ℕ → Count

-- kSemaphoreQuery; whether `countPtr` is there
unfoldable pub query : Kernel → ℕ → Bool → Err × Option Count
unfolding sema_ready_err
query k a there = elim (sema_ready_err k a) [
  | success ↦
      if there
      then (
        success,
        some (
            if length (k.semas a).waiting == 0
            then units (k.semas a).value
            else minus (length (k.semas a).waiting)),
      )
      else (obj_null, none)
  | e ↦ (e, none)
]
