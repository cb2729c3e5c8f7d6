-- ===== src/Timeout/Sleep.antt =====
-- The sleeping calls (core/src/ktimer.c). They return to the caller when the task runs again.
use rk.Base.{ℕ, ◌-◌, ◌*◌, ◌/◌, Bool, true, ◌||◌, none, ltb, ◌==◌, if◌then◌else◌}
use rk.Base.Word.{add_word}
use rk.Err.{
  Err, success, invalid_isr_primitive, task_invalid_st, invalid_param, timeout, elapsed_period,
}
use rk.Kernel.{Kernel, Status, TimeoutType, set_task}
use rk.Delta.Tick.{
  max_period, tick_add, tick_delta, tick_is_elapsed, release_factor, release_wake, release_delay,
}
use rk.Sched.Resched.{pend_switch, status_eq_running}
use rk.Sched.Switch.{set_status}
use rk.Timeout.Node.{setup, add, reset}

-- kTimerRunningTaskErr_ with task `r` in RK_gRunPtr
unfoldable pub running_err : Kernel → ℕ → Err
unfolding status_eq_running
running_err k r =
    if k.in_isr
    then invalid_isr_primitive
    else (if status_eq_running (k.tasks r).status then success else task_invalid_st)

-- the common end: arm the node of the running task and switch
unfoldable pub sleep_result : Err × Kernel → ℕ → Status → Err × Kernel
unfolding reset pend_switch
sleep_result (success, k) r s = (success, pend_switch (set_status k r s))
sleep_result (e, k) r s = (e, reset k r)

unfoldable pub fall_asleep : Kernel → ℕ → ℕ → Status → Err × Kernel
unfolding add sleep_result
fall_asleep k r ticks s = sleep_result (add (setup k r TimeoutType.time_event none) r ticks) r s

-- kSleepDelay
unfoldable pub sleep_delay : Kernel → ℕ → ℕ → Err × Kernel
unfolding running_err fall_asleep
sleep_delay k r ticks = elim (running_err k r) [
  | success ↦
      if ltb max_period ticks
      then (invalid_param, k)
      else (if ticks == 0 then (timeout, k) else fall_asleep k r ticks Status.sleeping_delay)
  | e ↦ (e, k)
]

abbrev pub set_overrun : Kernel → ℕ → Bool → Kernel
set_overrun k r late =
    let c = k.tasks r in
    if late then set_task k r (record c { overrun_count = add_word c.overrun_count 1 }) else k

abbrev pub set_wake_time : Kernel → ℕ → ℕ → Kernel
set_wake_time k r w = set_task k r (record (k.tasks r) { wake_time = w })

-- the fallback of kSleepRelease on a delay of 0
unfoldable pub phase_delay : ℕ → ℕ → ℕ
phase_delay current period =
    let rest = current - current / period * period in if rest == 0 then period else period - rest

-- kSleepRelease with its parameter in range
unfoldable pub release : Kernel → ℕ → ℕ → Err × Kernel
unfolding release_factor release_wake release_delay phase_delay fall_asleep
release k r period =
    let base = (k.tasks r).wake_time in
    let k' = set_overrun k r (ltb 1 (release_factor base k.global_tick period)) in
    if release_delay base k.global_tick period == 0
    then (let d = phase_delay k.global_tick period in
        fall_asleep (set_wake_time k' r (tick_add k.global_tick d)) r d Status.sleeping_release)
    else fall_asleep (set_wake_time k' r (release_wake base k.global_tick period)) r
        (release_delay base k.global_tick period) Status.sleeping_release

-- kSleepRelease
unfoldable pub sleep_release : Kernel → ℕ → ℕ → Err × Kernel
unfolding running_err release
sleep_release k r period = elim (running_err k r) [
  | success ↦
      if (period == 0) || ltb max_period period then (invalid_param, k) else release k r period
  | e ↦ (e, k)
]

-- kSleepUntil with its parameters in range; the caller's tick is returned as it is left
unfoldable pub until : Kernel → ℕ → ℕ → ℕ → Err × Kernel × ℕ
unfolding tick_is_elapsed fall_asleep
until k r last ticks =
    let last' = tick_add last ticks in
    if tick_is_elapsed last' k.global_tick
    then (elapsed_period, set_overrun k r true, last')
    else (let (e, k') = fall_asleep k r (tick_delta last' k.global_tick) Status.sleeping_until in
        (e, k', last'))

-- kSleepUntil of a tick that is there
unfoldable pub sleep_until : Kernel → ℕ → ℕ → ℕ → Err × Kernel × ℕ
unfolding running_err until
sleep_until k r last ticks = elim (running_err k r) [
  | success ↦
      if (ticks == 0) || ltb max_period ticks
      then (invalid_param, k, last)
      else until k r last ticks
  | e ↦ (e, k, last)
]
