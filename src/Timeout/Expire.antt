-- ===== src/Timeout/Expire.antt =====
-- What a tick does (core/src/ktimer.c, kTimeoutNodeReady and kHandleTimeoutList; core/src/ksch.c,
-- kTickHandlerRun_).
use rk.Base.{
  ℕ, zero, suc, Bool, true, false, ◌&&◌, ◌||◌, not, Option, none, some, List, [], ◌∷◌, length, ltb,
  ◌==◌, if◌then◌else◌,
}
use rk.Err.{Err, success, error}
use rk.Kernel.{Kernel, Status, TimeoutType, QueueRef, ready_queue, set_task}
use rk.Delta.{Node, dec_head}
use rk.Delta.Tick.{count_tick}
use rk.Sched.Queue.{enq, rem, prio_of}
use rk.Sched.Prio.{mutex_owner, update_chain}
use rk.Sched.Resched.{defer, status_eq_ready, status_eq_running}
use rk.Timeout.Node.{node_of, remove, reset}

-- RK_NTHREADS bounds the chains of owners, see Sched/Chain.
abbrev pub chain_fuel : ℕ
chain_fuel = 33

-- kMutexUpdateOwnerPrio_
unfoldable pub update_owner_prio : Kernel → Option ℕ → Kernel
unfolding update_chain
update_owner_prio k o = (update_chain chain_fuel k o).1

-- kMutexWaiterRemoved
unfoldable pub waiter_removed : Kernel → ℕ → Kernel
unfolding update_owner_prio mutex_owner
waiter_removed k t = update_owner_prio k (mutex_owner k (k.tasks t).waiting_for_mutex)

-- the common end of the branches of kTimeoutNodeReady
unfoldable pub wake : Kernel → ℕ → Bool → Kernel
unfolding enq reset
wake k t timed_out =
    let k' = enq k (ready_queue (prio_of k t)) t in
    reset (set_task k' t (record (k'.tasks t) { time_out = timed_out; status = Status.ready })) t

-- kTimeoutNodeReady of a task that waits in a queue: out of the queue, with its mutex's owner's
-- priority reckoned again
unfoldable pub leave_queue : Kernel → Option QueueRef → ℕ → Kernel
unfolding rem waiter_removed
leave_queue k none t = k
leave_queue k (some q) t = waiter_removed (rem k q t) t

unfoldable pub node_ready_by : Kernel → ℕ → TimeoutType → Err × Kernel
unfolding leave_queue wake
node_ready_by k t TimeoutType.unset = (error, k)
node_ready_by k t TimeoutType.blocking =
    (success, wake (leave_queue k (node_of k t).waiting_queue t) t true)
node_ready_by k t TimeoutType.event_flags = (success, wake k t true)
node_ready_by k t TimeoutType.time_event = (success, wake k t (k.tasks t).time_out)

-- kTimeoutNodeReady
unfoldable pub node_ready : Kernel → ℕ → Err × Kernel
unfolding node_ready_by
node_ready k t = node_ready_by k t (node_of k t).timeout_type

-- the `while` of kHandleTimeoutList, for at most `fuel` turns; `last` is `waitingExp`
unfoldable pub expire_loop : ℕ → Kernel → List Node → Bool → Bool × Kernel
unfolding remove node_ready
expire_loop zero k ns last = (last, k)
expire_loop (suc n) k [] last = (last, k)
expire_loop (suc n) k (c ∷ cs) last =
    let (e, k') = remove k c.id in
    let (e', k'') = node_ready k' c.id in
    let rest = expire_loop n k'' k''.timeouts (elim e' [ success ↦ true | _ ↦ false ]) in
    if c.dtick == 0 then elim e [ success ↦ rest | _ ↦ (false, k') ] else (last, k)

-- kHandleTimeoutList: whether it woke a task
unfoldable pub handle_timeouts : Kernel → Bool × Kernel
unfolding dec_head expire_loop
handle_timeouts k =
    let k' = record k { timeouts = dec_head k.timeouts } in
    expire_loop (length k'.timeouts) k' k'.timeouts false

-- the end of kTickHandlerRun_ while task `r` is in RK_gRunPtr: whether a switch is due
unfoldable pub tick_dispatch : Kernel → ℕ → Bool → Bool × Kernel
unfolding status_eq_ready status_eq_running defer
tick_dispatch k r woke =
    let c = k.tasks r in
    if not (status_eq_ready c.status) && not woke
    then (false, k)
    else (if status_eq_running c.status && (c.preempt == 0)
        then (false, k)
        else (if (status_eq_running c.status || status_eq_ready c.status) && ltb 0 k.sch_lock
            then (false, defer k)
            else (true, record k { pending_switch = false })))

-- kTickHandlerRun_ without callout timers
unfoldable pub tick_handler : Kernel → ℕ → Bool × Kernel
unfolding handle_timeouts tick_dispatch count_tick
tick_handler k r =
    let (woke, k') =
      handle_timeouts (record k { global_tick = (count_tick (k.global_tick, 0)).0 }) in
    tick_dispatch k' r woke
