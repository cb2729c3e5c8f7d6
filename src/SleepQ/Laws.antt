-- ===== src/SleepQ/Laws.antt =====
-- What kSleepQueueWake does to a sleep queue (core/src/ksleepq.c).
use rk.Base.{ℕ, ◌≤◌, ◌<◌, ◌≡◌, ◌⊎◌, Bool, Option, none, List, [], ◌++◌, length}
use rk.Base.Distinct.{All}
use rk.Err.{Err, success}
use rk.Kernel.{Kernel, Status}
use rk.Sched.Queue.{prio_of}
use rk.Sched.Resched.{lock}
use rk.SleepQ.Defs.{wake_loop, written}
use rk.SleepQ.Loop.{of_prio}

-- `ws` in two parts, of which the first has `tasks` members, or all where there are no more or
-- where `tasks` is 0
abbrev pub IsSplit : ℕ → List ℕ → List ℕ → List ℕ → Type 0
IsSplit tasks ws woken left =
    (ws ≡ woken ++ left)
    × (((tasks ≡ 0) × (left ≡ []))
        ⊎ ((0 < tasks) × (length woken ≤ tasks) × ((left ≡ []) ⊎ (length woken ≡ tasks))))

module _ (k : Kernel) (r a n : ℕ) where
  abbrev ws : List ℕ
  ws = (k.sleepqs a).waiting

  -- the loop on the kernel with the scheduler locked
  abbrev looped : Option ℕ × Kernel
  looped = wake_loop n (lock k r) a ws none

-- how a wake-up of `tasks` tasks ends, seen from priority `p`
abbrev pub Wakes : Kernel → ℕ → ℕ → ℕ → Bool → Err × Option ℕ × Kernel → Type 0
Wakes k a tasks p there (e, n, k') =
    (e ≡ success)
    × (woken : List ℕ) × (left : List ℕ) × IsSplit tasks (k.sleepqs a).waiting woken left
    × ((k'.sleepqs a).waiting ≡ left)
    × (n ≡ written there (length left))
    × All (λ t. (k'.tasks t).status ≡ Status.ready) woken
    × (k'.ready_lists p ≡ k.ready_lists p ++ of_prio (prio_of k) p woken)
