-- ===== src/PostProc.antt =====
-- Deferred work (core/src/ksystasks.c, kPostProcJobEnq): what an interrupt handler leaves for the
-- post-processing task.
use rk.Base.{ℕ, some, [], ◌∷◌, ◌++◌, length, leb, if◌then◌else◌}
use rk.Err.{Err, nowait}
use rk.Kernel.{Kernel, Job}
use rk.Event.Defs.{set_flags}
use rk.Sched.Switch.{postproc_tid}
pub mod Frame

-- RK_POSTPROC_Q_LEN, which is RK_NTHREADS
abbrev pub q_len : ℕ
q_len = 33

-- RK_POSTPROC_SIG
abbrev pub postproc_sig : ℕ
postproc_sig = 1

-- kPostProcJobEnq of a valid job
unfoldable pub job_enq : Kernel → ℕ → Job → Err × Kernel
unfolding set_flags
job_enq k r j =
    if leb q_len (length k.jobs)
    then (nowait, k)
    else set_flags (record k { jobs = k.jobs ++ j ∷ [] }) r (some postproc_tid) postproc_sig
