-- ===== src/Sched/Tests.antt =====
-- The scheduler's theorems at sample kernels.
use rk.Base.{
  ℕ, ◌<◌, ◌≤◌, ◌≡◌, refl, ◌⊎◌, true, ◌==◌, if◌then◌else◌, some, List, [], ◌∷◌, ◌++◌, arith, inl,
  inr, Bool-cases,
}
use rk.Base.Distinct.{All}
use rk.Kernel.{
  Kernel, Status, ready_queue, sema_queue, update, get_queue, sample_kernel, sample_tasks,
  sample_tcb, sample_mutex,
}
use rk.Sched.Queue.{prio_of, enq, enq_by_prio}
use rk.Sched.Resched.{status_eq_ready}
use rk.Sched.Prio.{effective_prio, update_effective_prio}
use rk.Sched.Switch.{put_back, switch}
use rk.Sched.Bitmap.{IsReady, has_tasks, enq-IsReady}
use rk.Sched.Dispatch.{switch_most_urgent}
use rk.Sched.Order.{IsOrdered, enq_by_prio_position}
use rk.Sched.Inherit.{Bounds, Inherited, effective_prio_least}
use rk.Sched.Apply.{Applied, update_effective_prio-Applied}

abbrev idle_ready : Kernel
idle_ready = enq sample_kernel (ready_queue 32) 2

-- tasks 2 and 3 are ready
abbrev two_ready : Kernel
two_ready = enq idle_ready (ready_queue 5) 3

sample-IsReady : IsReady sample_kernel
sample-IsReady = record { bitmap = λ p l. refl; filed = λ p. tt }

idle-IsReady : IsReady idle_ready
idle-IsReady = enq-IsReady sample_kernel 2 sample-IsReady

two-IsReady : IsReady two_ready
unfolding enq
two-IsReady = enq-IsReady idle_ready 3 idle-IsReady

idle_there : has_tasks ((put_back two_ready 4).ready_lists 32) ≡ true
unfolding put_back enq
idle_there = refl

switch_most_urgent_example :
    let k0 = put_back two_ready 4 in
    (t : ℕ) × (ts : List ℕ) × (k' : Kernel) × (switch two_ready 4 ≡ some k')
    × (k'.run ≡ some t)
    × (k0.ready_lists (prio_of k0 t) ≡ t ∷ ts)
    × (k'.ready_lists ≡ update k0.ready_lists (prio_of k0 t) ts)
    × ((q : ℕ) → q < prio_of k0 t → k0.ready_lists q ≡ [])
    × IsReady k'
switch_most_urgent_example = switch_most_urgent two_ready 4 two-IsReady idle_there

-- tasks 3 and 2 wait
abbrev two_wait : Kernel
two_wait = record sample_kernel {
  semas = λ a. record (sample_kernel.semas a) { waiting = 3 ∷ 2 ∷ [] };
}

wait-IsOrdered : IsOrdered (prio_of two_wait) (3 ∷ 2 ∷ [])
wait-IsOrdered = ((ground arith, tt), (tt, tt))

enq_by_prio_position_example :
    let ys = get_queue (enq_by_prio two_wait (sema_queue 8) 4) (sema_queue 8) in
    IsOrdered (prio_of two_wait) ys
    × (before after : List ℕ) × (get_queue two_wait (sema_queue 8) ≡ before ++ after)
    × (ys ≡ before ++ 4 ∷ after)
    × All (λ y. prio_of two_wait y ≤ prio_of two_wait 4) before
    × All (λ y. prio_of two_wait 4 < prio_of two_wait y) after
enq_by_prio_position_example = enq_by_prio_position two_wait (sema_queue 8) 4 wait-IsOrdered

-- task 4 owns mutex 9, for which task 3 waits
abbrev owned : Kernel
owned = record sample_kernel {
  tasks = update sample_tasks 4 (sample_tcb 7 Status.running (9 ∷ []));
  mutexes = λ a. sample_mutex true (some 4) (3 ∷ []);
}

effective_prio_least_example :
    let p = effective_prio owned 4 in
    (p ≤ 7) × All (Bounds owned p) (9 ∷ []) × ((p ≡ 7) ⊎ Inherited owned (9 ∷ []) p)
effective_prio_least_example = effective_prio_least owned 4 ((tt, tt), tt)

-- where task 4 is ready and task 2 runs
abbrev owned_ready : Kernel
owned_ready = record owned {
  tasks = λ t.
      if t == 4
      then sample_tcb 7 Status.ready (9 ∷ [])
      else (if t == 2 then sample_tcb 32 Status.running [] else sample_tcb 5 Status.blocked []);
  ready_lists = λ p. if p == 7 then 4 ∷ [] else [];
  ready_bits = λ p. p == 7;
  run = some 2;
}

owned_ready-IsReady : IsReady owned_ready
owned_ready-IsReady = record {
  bitmap = λ p l. ground arith;
  filed =
      λ p. elim (Bool-cases (p == 7)) [ inl e ↦ rw e (ground (arith, e), tt) | inr e ↦ rw e tt ];
}

update_effective_prio-Applied_example :
    Applied owned_ready 4 (effective_prio owned_ready 4) (update_effective_prio owned_ready 4).1
unfolding status_eq_ready
update_effective_prio-Applied_example =
    update_effective_prio-Applied owned_ready 4 refl owned_ready-IsReady
      (inl (refl, [], [], refl, tt, tt))

-- the priority there changes from 7 to 5
priority_raised : effective_prio owned_ready 4 ≡ 5
unfolding effective_prio
priority_raised = refl
