-- ===== src/Mutex/Defs.antt =====
-- The operations of core/src/kmutex.c on the mutex at address `a`, called by the task `r` that is
-- in RK_gRunPtr, after the handle was resolved. The two halves of kMutexLock are as in Sema/Defs.
use rk.Base.{ℕ, Bool, true, false, Option, none, some, [], ◌∷◌, ◌++◌, ◌==◌, if◌then◌else◌}
use rk.Err.{
  Err, success, obj_null, obj_double_init, invalid_param, invalid_isr_primitive, mutex_rec_lock,
  mutex_not_owner, mutex_locked, mutex_not_locked, mutex_owner_faulted, timeout,
}
use rk.Obj.{object_ready_err, owner_domain_set}
use rk.Kernel.{
  Kernel, Mutex, Protocol, Status, TimeoutType, mutex_queue, update, set_task, run_domain, Outcome,
  returns, blocks, checked, checked_wait,
}
use rk.Sched.Queue.{deq, enq_by_prio, remove_tid}
use rk.Sched.Resched.{raw_init_guard, pend_switch}
use rk.Sched.Prio.{next_owner}
use rk.Sched.Switch.{ready_switch, set_status}
use rk.Timeout.Node.{setup, add, forget, stop_timeout, node_of, is_bounded, set_node}
use rk.Timeout.Expire.{update_owner_prio}

-- RK_MUTEX_KOBJ_ID
abbrev pub mutex_kobj_id : ℕ
mutex_kobj_id = 3490709252

abbrev pub set_mutex : Kernel → ℕ → Mutex → Kernel
set_mutex k a m = record k { mutexes = update k.mutexes a m }

-- `RK_PRIO_NONE` and `RK_PRIO_INHERITANCE` among the numbers a caller may pass
unfoldable pub protocol_of : ℕ → Option Protocol
protocol_of n =
    if n == 0
    then some Protocol.prio_none
    else (if n == 1 then some Protocol.prio_inheritance else none)

-- kMutexInit: `m` is what the object's storage holds
unfoldable pub init_protocol : Option ℕ → Mutex → Option Protocol → Err × Mutex
unfolding owner_domain_set
init_protocol domain m none = (invalid_param, m)
init_protocol domain m (some p) = (
  success,
  record {
    header = owner_domain_set (record m.header { init = true; obj_id = mutex_kobj_id }) domain;
    lock = false;
    protocol = p;
    owner_faulted = false;
    waiting = [];
    owner = none;
  },
)

unfoldable pub init_at : Kernel → Option ℕ → ℕ → Err × Kernel
unfolding init_protocol protocol_of
init_at k none protocol = (obj_null, k)
init_at k (some a) protocol =
    if (k.mutexes a).header.init
    then (obj_double_init, k)
    else (let (e, m) = init_protocol (run_domain k) (k.mutexes a) (protocol_of protocol) in
        (e, set_mutex k a m))

unfoldable pub init : Kernel → Option ℕ → ℕ → Err × Kernel
unfolding raw_init_guard init_at
init k p protocol = checked (raw_init_guard k) (init_at k p protocol) k

-- kMutexReadyErr_
unfoldable pub mutex_ready_err : Kernel → ℕ → Err
unfolding object_ready_err
mutex_ready_err k a = object_ready_err (some (k.mutexes a).header) mutex_kobj_id (run_domain k)

-- `if (protocol == RK_PRIO_INHERITANCE) kMutexUpdateOwnerPrio_(owner)`
unfoldable pub inherit : Kernel → ℕ → Option ℕ → Kernel
unfolding next_owner update_owner_prio
inherit k a o = update_owner_prio k (next_owner (k.mutexes a).protocol o)

-- task `t` becomes the owner: kMutexListAdd on its list
unfoldable pub acquire : Kernel → ℕ → ℕ → Kernel
acquire k t a =
    let c = k.tasks t in
    set_task (set_mutex k a (record (k.mutexes a) { lock = true; owner = some t })) t
      (record c { owned_mutexes = c.owned_mutexes ++ a ∷ [] })

abbrev pub wait_on : Kernel → ℕ → Option ℕ → Kernel
wait_on k t a = set_task k t (record (k.tasks t) { waiting_for_mutex = a })

-- the wait of kMutexLock, with the timeout armed or not needed
unfoldable pub block : Kernel → ℕ → ℕ → Kernel
unfolding enq_by_prio inherit pend_switch
block k r a =
    let k' = wait_on (set_status (enq_by_prio k (mutex_queue a) r) r Status.blocked) r (some a) in
    pend_switch (inherit k' a (k'.mutexes a).owner)

unfoldable pub block_bounded : Err × Kernel → ℕ → ℕ → Outcome × Kernel
unfolding block
block_bounded (success, k) r a = (blocks, block k r a)
block_bounded (e, k) r a = (returns e, forget k r)

-- a mutex that another task owns
unfoldable pub wait_for : Kernel → ℕ → ℕ → ℕ → Outcome × Kernel
unfolding is_bounded add block_bounded block
wait_for k r a ticks =
    if ticks == 0
    then (returns mutex_locked, k)
    else (if is_bounded ticks
        then block_bounded (add (setup k r TimeoutType.blocking (some (mutex_queue a))) r ticks) r a
        else (
          blocks,
          block (set_node k r (record (node_of k r) { waiting_queue = some (mutex_queue a) })) r a,
        ))

-- a mutex that is locked, its owner given; a locked mutex without an owner is reported as taken
unfoldable pub lock_owned : Kernel → ℕ → ℕ → ℕ → Option ℕ → Outcome × Kernel
unfolding wait_for
lock_owned k r a ticks none = (returns success, k)
lock_owned k r a ticks (some o) =
    if o == r then (returns mutex_rec_lock, k) else wait_for k r a ticks

unfoldable pub lock_ready : Kernel → ℕ → ℕ → ℕ → Outcome × Kernel
unfolding acquire lock_owned
lock_ready k r a ticks =
    if k.in_isr
    then (returns invalid_isr_primitive, k)
    else (if (k.mutexes a).owner_faulted
        then (returns mutex_owner_faulted, k)
        else (if (k.mutexes a).lock
            then lock_owned k r a ticks (k.mutexes a).owner
            else (returns success, acquire k r a)))

-- the first half of kMutexLock
unfoldable pub lock : Kernel → ℕ → ℕ → ℕ → Outcome × Kernel
unfolding mutex_ready_err lock_ready
lock k r a ticks = checked_wait (mutex_ready_err k a) (lock_ready k r a ticks) k

abbrev pub end_wait : Kernel → ℕ → Kernel
end_wait k r = set_task k r (record (k.tasks r) { time_out = false; waiting_for_mutex = none })

-- the second half of kMutexLock
unfoldable pub lock_resume : Kernel → ℕ → ℕ → ℕ → Err × Kernel
unfolding inherit is_bounded stop_timeout
lock_resume k r a ticks =
    if (k.tasks r).time_out
    then (timeout, end_wait (inherit k a (k.mutexes a).owner) r)
    else (if (k.mutexes a).owner_faulted
        then (mutex_owner_faulted, wait_on k r none)
        else (success, if is_bounded ticks then stop_timeout k r TimeoutType.blocking else k))

-- the owner gives the mutex back: kMutexListRem
unfoldable pub disown : Kernel → ℕ → ℕ → Kernel
unfolding remove_tid
disown k r a =
    let c = k.tasks r in set_task k r (record c { owned_mutexes = remove_tid c.owned_mutexes a })

-- nobody waits: the mutex is free
unfoldable pub free_up : Kernel → ℕ → ℕ → Kernel
unfolding inherit
free_up k r a =
    let k' = set_mutex k a (record (k.mutexes a) { lock = false; owner = none }) in
    inherit k' a (some r)

-- the waiter stops waiting: its timeout, and its wait queue
unfoldable pub end_timeout : Kernel → ℕ → Kernel
unfolding stop_timeout
end_timeout k t =
    let k' = stop_timeout k t TimeoutType.blocking in
    set_node k' t (record (node_of k' t) { waiting_queue = none })

-- the first waiter `t` becomes the owner
unfoldable pub hand_over : Kernel → ℕ → ℕ → ℕ → Kernel
unfolding end_timeout acquire inherit ready_switch
hand_over k r a t =
    let k1 = wait_on (acquire (end_timeout k t) t a) t none in
    let k2 = inherit (inherit k1 a (some r)) a (some t) in (ready_switch k2 r t).1

unfoldable pub unlock_deq : Kernel → ℕ → ℕ → Option (ℕ × Kernel) → Kernel
unfolding free_up hand_over
unlock_deq k r a none = free_up k r a
unlock_deq k r a (some (t, k')) = hand_over k' r a t

unfoldable pub is_owner : Option ℕ → ℕ → Bool
is_owner none t = false
is_owner (some o) t = o == t

unfoldable pub unlock_ready : Kernel → ℕ → ℕ → Err × Kernel
unfolding is_owner disown deq unlock_deq
unlock_ready k r a =
    if k.in_isr
    then (invalid_isr_primitive, k)
    else (if (k.mutexes a).lock
        then (if is_owner (k.mutexes a).owner r
            then (let k' = disown k r a in (success, unlock_deq k' r a (deq k' (mutex_queue a))))
            else (mutex_not_owner, k))
        else (mutex_not_locked, k))

-- kMutexUnlock
unfoldable pub unlock : Kernel → ℕ → ℕ → Err × Kernel
unfolding mutex_ready_err unlock_ready
unlock k r a = checked (mutex_ready_err k a) (unlock_ready k r a) k

-- kMutexQuery; whether `statePtr` is there
unfoldable pub query : Kernel → ℕ → Bool → Err × Option Bool
unfolding mutex_ready_err
query k a there = elim (mutex_ready_err k a) [
  | success ↦ if there then (success, some (k.mutexes a).lock) else (obj_null, none)
  | e ↦ (e, none)
]
