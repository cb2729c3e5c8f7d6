-- ===== src/Timeout/Node.antt =====
-- Arming and disarming the timeout node of a task (core/src/ktimer.c).
use rk.Base.{ℕ, Bool, true, false, Option, none, ltb, ◌==◌, if◌then◌else◌}
use rk.Err.{Err, success, error, invalid_timeout}
use rk.Kernel.{Kernel, TimeoutNode, TimeoutType, WaitInfo, QueueRef, set_task}
use rk.Delta.{insert_delta, remove_node}
use rk.Delta.Tick.{max_period}

abbrev pub node_of : Kernel → ℕ → TimeoutNode
node_of k t = (k.tasks t).timeout_node

abbrev pub set_node : Kernel → ℕ → TimeoutNode → Kernel
set_node k t n = set_task k t (record (k.tasks t) { timeout_node = n })

-- kTimeoutNodeReset
unfoldable pub reset : Kernel → ℕ → Kernel
reset k t = set_node k t (record {
  armed = false;
  timeout_type = TimeoutType.unset;
  timeout = 0;
  waiting_queue = none;
  wait_info = WaitInfo.wait_normal;
})

-- kRemoveTimeoutNode of the node of task `t`
unfoldable pub remove : Kernel → ℕ → Err × Kernel
remove k t =
    if (node_of k t).armed
    then (
      success,
      set_node (record k { timeouts = remove_node k.timeouts t }) t
          (record (node_of k t) { armed = false }),
    )
    else (error, k)

-- kTimeoutNodeDisarm
unfoldable pub disarm : Kernel → ℕ → Err × Kernel
unfolding remove reset
disarm k t = let (e, k') = remove k t in (e, reset k' t)

-- RK_TASK_TIMEOUT_WAITINGQUEUE_SETUP, RK_TASK_TIMEOUT_EVENTFLAGS, RK_TASK_SLEEP_TIMEOUT_SETUP
abbrev pub setup : Kernel → ℕ → TimeoutType → Option QueueRef → Kernel
setup k t type q = set_node k t (record (node_of k t) { timeout_type = type; waiting_queue = q })

-- the end of kTimeoutNodeAdd, once its tests passed
unfoldable pub arm : Kernel → ℕ → ℕ → Kernel
arm k t ticks =
    let c = k.tasks t in
    record (set_task k t (record c {
      time_out = false;
      timeout_node = record c.timeout_node { armed = true; timeout = ticks };
    })) { timeouts = insert_delta k.timeouts (record { id = t; dtick = ticks }) }

unfoldable pub add_by_type : Kernel → ℕ → ℕ → TimeoutType → Err × Kernel
unfolding reset remove arm
add_by_type k t ticks TimeoutType.unset = (error, reset k t)
add_by_type k t ticks _ =
    if (node_of k t).armed then (error, reset (remove k t).1 t) else (success, arm k t ticks)

-- kTimeoutNodeAdd of the node of the running task `t`
unfoldable pub add : Kernel → ℕ → ℕ → Err × Kernel
unfolding add_by_type
add k t ticks =
    if ticks == 0
    then (invalid_timeout, k)
    else (if ltb max_period ticks
        then (invalid_timeout, k)
        else add_by_type k t ticks (node_of k t).timeout_type)

-- What the callers do where kTimeoutNodeAdd fails, and before they ready a waiting task: the type
-- and the wait queue are reset.
abbrev pub forget : Kernel → ℕ → Kernel
forget k t =
    set_node k t (record (node_of k t) { timeout_type = TimeoutType.unset; waiting_queue = none })

unfoldable pub is_type : TimeoutType → TimeoutType → Bool
is_type TimeoutType.unset TimeoutType.unset = true
is_type TimeoutType.blocking TimeoutType.blocking = true
is_type TimeoutType.event_flags TimeoutType.event_flags = true
is_type TimeoutType.time_event TimeoutType.time_event = true
is_type _ _ = false

-- `if (timeoutType == type) { kRemoveTimeoutNode(...); timeoutType = 0; waitingQueuePtr = NULL; }`
unfoldable pub stop_timeout : Kernel → ℕ → TimeoutType → Kernel
unfolding is_type remove
stop_timeout k t type =
    if is_type (node_of k t).timeout_type type then forget (remove k t).1 t else k

-- RK_WAIT_FOREVER
abbrev pub wait_forever : ℕ
wait_forever = 4294967295

-- `(timeout != RK_WAIT_FOREVER) && (timeout > 0)`
unfoldable pub is_bounded : ℕ → Bool
is_bounded timeout = if timeout == wait_forever then false else ltb 0 timeout
