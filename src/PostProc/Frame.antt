-- ===== src/PostProc/Frame.antt =====
-- Deferring a job leaves the objects and the priorities alone (core/src/ksystasks.c).
use rk.Base.{ℕ, refl, List}
use rk.Kernel.{Kernel, Job, TimeoutType, set_task}
use rk.Timeout.Node.{stop_timeout}
use rk.Base.Bits.{bit_or}
use rk.Event.Defs.{set_flags, set_valid}
use rk.Sched.Frame.{
  Frame, Frame-refl, Frame-trans, if-Frame, if_result-Frame, set_task-Frame, ready_switch-Frame,
}
use rk.Timeout.Frame.{stop_timeout-Frame}
use rk.PostProc.{job_enq, postproc_sig}
use rk.Sched.Switch.{postproc_tid}

jobs-Frame : (k : Kernel) (js : List Job) → Frame k (record k { jobs = js })
jobs-Frame k js = record {
  semas = refl;
  mutexes = refl;
  sleepqs = refl;
  mesgqs = refl;
  memory = refl;
  prio = λ t. refl;
  owned = λ t. refl;
  domain = λ t. refl;
  run = refl;
}

set_valid-Frame : (k : Kernel) (r t flags : ℕ) → Frame k (set_valid k r t flags)
unfolding set_valid
set_valid-Frame k r t flags =
    let c = k.tasks t in
    let c' = record c { flags_curr = bit_or c.flags_curr flags } in
    let k' = set_task k t c' in
    let f = set_task-Frame k t c' refl refl refl in
    if-Frame _ k _ _
      (Frame-trans f (
        Frame-trans (stop_timeout-Frame k' t TimeoutType.event_flags)
          (ready_switch-Frame (stop_timeout k' t TimeoutType.event_flags) r t)))
      f

-- kPostProcJobEnq changes no object and no priority.
pub job_enq-Frame : (k : Kernel) (r : ℕ) (j : Job) → Frame k (job_enq k r j).1
unfolding job_enq set_flags
job_enq-Frame k r j =
    if_result-Frame _ k _ _ (Frame-refl k)
      (Frame-trans (jobs-Frame k _) (set_valid-Frame _ r postproc_tid postproc_sig))
