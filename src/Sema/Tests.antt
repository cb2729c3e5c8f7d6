-- ===== src/Sema/Tests.antt =====
-- The semaphore theorems at a semaphore with two waiters.
use rk.Base.{◌≡◌, ◌≢◌, refl, inr, [], ◌∷◌, ◌++◌, arith}
use rk.Err.{success}
use rk.Obj.{object_ready_err}
use rk.Kernel.{Kernel, Status, update, sample_kernel, sample_sema}
use rk.Sched.Queue.{prio_of}
use rk.Sched.Switch.{postproc_tid}
use rk.Sema.Defs.{pend, post, sema_ready_err}
use rk.Sema.Laws.{Holds, pend-Holds}
use rk.Sema.Post.{post-Holds, post_wakes_first}

-- tasks 3 and 2 wait
abbrev two_wait : Kernel
two_wait = record sample_kernel { semas = λ a. sample_sema 0 (3 ∷ 2 ∷ []) }

two_wait-Holds : Holds two_wait 8
two_wait-Holds = (
  record { bound = ground arith; positive = ground arith; word = ground arith; waits = inr refl },
  ((ground arith, tt), (tt, tt)),
)

two_wait_ready : sema_ready_err two_wait 8 ≡ success
unfolding sema_ready_err object_ready_err
two_wait_ready = refl

pend-Holds_example : Holds (pend two_wait 4 8 100).1 8
pend-Holds_example = pend-Holds two_wait 4 8 100 two_wait-Holds

post-Holds_example : Holds (post two_wait 4 8).1 8
post-Holds_example = post-Holds two_wait 4 8 two_wait-Holds

not_postproc : 3 ≢ postproc_tid
not_postproc = ground arith

post_wakes_first_example :
    let (e, k') = post two_wait 4 8 in
    (e ≡ success)
    × (k'.semas 8 ≡ record (two_wait.semas 8) { waiting = 2 ∷ [] })
    × ((k'.tasks 3).status ≡ Status.ready)
    × (k'.ready_lists
        ≡ update two_wait.ready_lists
            (prio_of two_wait 3)
            (two_wait.ready_lists (prio_of two_wait 3) ++ 3 ∷ []))
post_wakes_first_example = post_wakes_first two_wait 4 8 3 (2 ∷ []) two_wait_ready refl not_postproc
