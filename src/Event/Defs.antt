-- ===== src/Event/Defs.antt =====
-- The operations of core/src/ktaskevents.c, called by the task `r` that is in RK_gRunPtr, after a
-- task handle was resolved. The two halves of kEventGet are as in Sema/Defs.
use rk.Base.{ℕ, Bool, true, false, ◌&&◌, ◌||◌, not, Option, none, some, ◌==◌, if◌then◌else◌}
use rk.Base.Bits.{bit_and, bit_or, bit_clear}
use rk.Err.{Err, success, obj_null, invalid_param, invalid_isr_primitive, flags_not_met, timeout}
use rk.Kernel.{Kernel, Status, TimeoutType, set_task, Outcome, returns, blocks}
use rk.Sched.Resched.{pend_switch}
use rk.Sched.Switch.{ready_switch, set_status}
use rk.Timeout.Node.{setup, add, forget, stop_timeout, is_bounded}

-- RK_EVENT_ANY, RK_EVENT_ALL
abbrev pub event_any : ℕ
event_any = 2

abbrev pub event_all : ℕ
event_all = 4

-- `conditionMet`: ALL wants every bit of the mask, anything else wants one
unfoldable pub condition_met : ℕ → ℕ → ℕ → Bool
unfolding bit_and
condition_met current required options =
    if options == event_all
    then bit_and current required == required
    else not (bit_and current required == 0)

-- the flags a successful wait takes
unfoldable pub consume : Kernel → ℕ → Kernel
unfolding bit_clear
consume k r =
    let c = k.tasks r in
    set_task k r
      (record c { flags_curr = bit_clear c.flags_curr c.flags_req; flags_req = 0; flags_opt = 0 })

unfoldable pub block : Kernel → ℕ → Kernel
unfolding pend_switch
block k r = pend_switch (set_status k r Status.sleeping_ev_flag)

unfoldable pub block_bounded : Err × Kernel → ℕ → Outcome × Kernel
unfolding block
block_bounded (success, k) r = (blocks, block k r)
block_bounded (e, k) r = (returns e, forget k r)

-- kEventGet with its parameters in order
unfoldable pub get_valid : Kernel → ℕ → ℕ → ℕ → ℕ → Outcome × Kernel
unfolding condition_met consume is_bounded add block_bounded block
get_valid k r required options ticks =
    let k' = set_task k r (record (k.tasks r) { flags_req = required; flags_opt = options }) in
    if condition_met (k.tasks r).flags_curr required options
    then (returns success, consume k' r)
    else (if ticks == 0
        then (returns flags_not_met, k')
        else (if is_bounded ticks
            then block_bounded (add (setup k' r TimeoutType.event_flags none) r ticks) r
            else (blocks, block k' r)))

-- the first half of kEventGet; where `gotFlagsPtr` is there, it is given the current flags
unfoldable pub get : Kernel → ℕ → ℕ → ℕ → ℕ → Outcome × Kernel
unfolding get_valid
get k r required options ticks =
    if k.in_isr
    then (returns invalid_isr_primitive, k)
    else (if (required == 0) || not ((options == event_all) || (options == event_any))
        then (returns invalid_param, k)
        else get_valid k r required options ticks)

-- the second half of kEventGet: the error, the flags given to the caller
unfoldable pub get_resume : Kernel → ℕ → ℕ → Err × Option ℕ × Kernel
unfolding is_bounded stop_timeout consume
get_resume k r ticks =
    let c = k.tasks r in
    if c.time_out
    then (timeout, none, set_task k r (record c { time_out = false }))
    else (let k' = if is_bounded ticks then stop_timeout k r TimeoutType.event_flags else k in
        (success, some (k'.tasks r).flags_curr, consume k' r))

unfoldable pub is_waiting : Status → Bool
is_waiting Status.sleeping_ev_flag = true
is_waiting _ = false

-- kEventSet of task `t`, with its parameters in order
unfoldable pub set_valid : Kernel → ℕ → ℕ → ℕ → Kernel
unfolding bit_or is_waiting condition_met stop_timeout ready_switch
set_valid k r t flags =
    let c = k.tasks t in
    let k' = set_task k t (record c { flags_curr = bit_or c.flags_curr flags }) in
    if is_waiting c.status && condition_met (bit_or c.flags_curr flags) c.flags_req c.flags_opt
    then (ready_switch (stop_timeout k' t TimeoutType.event_flags) r t).1
    else k'

-- kEventSet
unfoldable pub set_flags : Kernel → ℕ → Option ℕ → ℕ → Err × Kernel
unfolding set_valid
set_flags k r none flags = (obj_null, k)
set_flags k r (some t) flags =
    if flags == 0 then (invalid_param, k) else (success, set_valid k r t flags)

unfoldable pub or_running : Option ℕ → ℕ → ℕ
or_running none r = r
or_running (some t) r = t

is_null : Option ℕ → Bool
is_null none = true
is_null (some t) = false

-- kEventClear; no handle stands for the running task
unfoldable pub clear : Kernel → ℕ → Option ℕ → ℕ → Err × Kernel
unfolding is_null or_running bit_clear
clear k r p flags =
    if k.in_isr && is_null p
    then (invalid_isr_primitive, k)
    else (if flags == 0
        then (invalid_param, k)
        else (let t = or_running p r in
            let c = k.tasks t in
            (success, set_task k t (record c { flags_curr = bit_clear c.flags_curr flags }))))

-- kEventQuery; whether `queryFlagsPtr` is there
unfoldable pub query : Kernel → ℕ → Option ℕ → Bool → Err × Option ℕ
unfolding is_null or_running
query k r p there =
    if not there
    then (obj_null, none)
    else (if k.in_isr && is_null p
        then (invalid_isr_primitive, none)
        else (success, some (k.tasks (or_running p r)).flags_curr))
