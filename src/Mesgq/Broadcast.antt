-- ===== src/Mesgq/Broadcast.antt =====
-- The broadcast half of core/src/kmesgq.c: receivers that wait for a broadcast are counted, marked,
-- and woken once the message is there.
use rk.Base.{
  ℕ, ◌+◌, ◌-◌, inl, inr, Bool, true, false, Option, none, List, [], ◌∷◌, ◌==◌, Bool-cases,
  if◌then◌else◌,
}
use rk.Err.{Err, success}
use rk.Kernel.{Kernel, TimeoutType, WaitInfo, receivers_queue, set_queue, checked, checked-case}
use rk.Sched.Queue.{remove_tid}
use rk.Sched.Frame.{Frame, Frame-refl, Frame-trans, ready_no_switch-Frame}
use rk.Sched.Switch.{ready_no_switch}
use rk.SleepQ.Defs.{choose, resched_chosen}
use rk.SleepQ.Loop.{resched_chosen-Frame}
use rk.Timeout.Node.{stop_timeout}
use rk.Timeout.Frame.{stop_timeout-Frame}
use rk.Mesgq.Defs.{is_broadcast, wait_info_of, set_wait_info, mesgq_ready_err}
use rk.Mesgq.Laws.{Holds, Holds-Frame, set_wait_info-Frame}
use rk.Mesgq.Keep.{remove_receiver-Holds}

-- the loop of kMesgQueueCountBroadcastWaiters_
unfoldable pub count_broadcast : (ℕ → WaitInfo) → List ℕ → ℕ
unfolding is_broadcast
count_broadcast info [] = 0
count_broadcast info (t ∷ ts) =
    let rest = count_broadcast info ts in if is_broadcast (info t) then rest + 1 else rest

-- kMesgQueueCountBroadcastWaiters_
unfoldable pub count_broadcast_waiters : Kernel → ℕ → ℕ
unfolding count_broadcast
count_broadcast_waiters k a = count_broadcast (wait_info_of k) (k.mesgqs a).waiting_receivers

abbrev mark : Kernel → ℕ → Kernel
mark k t = set_wait_info (stop_timeout k t TimeoutType.blocking) t WaitInfo.broadcast_deliver

-- the `while` of kMesgQueuePrepareBroadcastReceivers_ with `n` receivers left to mark: how many it
-- marks, and the kernel
unfoldable pub prepare : Kernel → ℕ → List ℕ → ℕ × Kernel
unfolding is_broadcast stop_timeout
prepare k n [] = (0, k)
prepare k n (t ∷ ts) = elim (n == 0) [
  | true ↦ (0, k)
  | false ↦ elim (is_broadcast (wait_info_of k t)) [
    | true ↦ let (m, k') = prepare (mark k t) (n - 1) ts in (m + 1, k')
    | false ↦ prepare k n ts
  ]
]

-- kMesgQueuePrepareBroadcastReceivers_
unfoldable pub prepare_broadcast_receivers : Kernel → ℕ → ℕ → ℕ × Kernel
unfolding prepare
prepare_broadcast_receivers k a n = prepare k n (k.mesgqs a).waiting_receivers

unfoldable pub is_marked : WaitInfo → Bool
is_marked WaitInfo.broadcast_deliver = true
is_marked _ = false

abbrev pub unlink : Kernel → ℕ → ℕ → Kernel
unlink k a t = set_queue k (receivers_queue a) (remove_tid (k.mesgqs a).waiting_receivers t)

-- the `while` of kMesgQueueBroadcastWake with `n` receivers left to wake
unfoldable pub broadcast_loop : Kernel → ℕ → ℕ → List ℕ → Option ℕ → Option ℕ × Kernel
unfolding is_marked ready_no_switch remove_tid choose
broadcast_loop k a n [] chosen = (chosen, k)
broadcast_loop k a n (t ∷ ts) chosen = elim (n == 0) [
  | true ↦ (chosen, k)
  | false ↦ elim (is_marked (wait_info_of k t)) [
    | true ↦
        let k' = ready_no_switch (unlink k a t) t in
        broadcast_loop k' a (n - 1) ts (choose k' chosen t)
    | false ↦ broadcast_loop k a n ts chosen
  ]
]

unfoldable pub broadcast_ready : Kernel → ℕ → ℕ → ℕ → Kernel
unfolding broadcast_loop resched_chosen
broadcast_ready k r a n =
    let (c, k') = broadcast_loop k a n (k.mesgqs a).waiting_receivers none in resched_chosen k' r c

-- kMesgQueueBroadcastWake
unfoldable pub broadcast_wake : Kernel → ℕ → ℕ → ℕ → Err × Kernel
unfolding mesgq_ready_err broadcast_ready
broadcast_wake k r a n = checked (mesgq_ready_err k a) (success, broadcast_ready k r a n) k

prepare-Frame : (k : Kernel) (n : ℕ) (ts : List ℕ) → Frame k (prepare k n ts).1
unfolding prepare
prepare-Frame k n [] = Frame-refl k
prepare-Frame k n (t ∷ ts) = elim (Bool-cases (n == 0)) [
  | inl e ↦ rw (e, prepare) (Frame-refl k)
  | inr e ↦
      rw (e, prepare)
        (elim (Bool-cases (is_broadcast (wait_info_of k t))) [
          | inl b ↦
              let k1 = stop_timeout k t TimeoutType.blocking in
              rw (b, prepare)
                (Frame-trans (stop_timeout-Frame k t TimeoutType.blocking) (
                  Frame-trans (set_wait_info-Frame k1 t WaitInfo.broadcast_deliver)
                    (prepare-Frame (mark k t) (n - 1) ts)))
          | inr b ↦ rw (b, prepare) (prepare-Frame k n ts)
        ])
]

pub prepare_broadcast_receivers-Holds :
    (k : Kernel) (a n : ℕ) → Holds k a → Holds (prepare_broadcast_receivers k a n).1 a
unfolding prepare_broadcast_receivers
prepare_broadcast_receivers-Holds k a n h =
    Holds-Frame k _ a (prepare-Frame k n (k.mesgqs a).waiting_receivers) h

broadcast_loop-Holds :
    (k : Kernel) (a n : ℕ) (ts : List ℕ) (c : Option ℕ)
    → Holds k a
    → Holds (broadcast_loop k a n ts c).1 a
unfolding broadcast_loop
broadcast_loop-Holds k a n [] c h = h
broadcast_loop-Holds k a n (t ∷ ts) c h = elim (Bool-cases (n == 0)) [
  | inl e ↦ rw (e, broadcast_loop) h
  | inr e ↦
      rw (e, broadcast_loop)
        (elim (Bool-cases (is_marked (wait_info_of k t))) [
          | inl b ↦
              let k1 = unlink k a t in
              let k2 = ready_no_switch k1 t in
              rw (b, broadcast_loop)
                (broadcast_loop-Holds k2 a (n - 1) ts (choose k2 c t) (
                  Holds-Frame k1 k2 a (ready_no_switch-Frame k1 t) (remove_receiver-Holds k a t h)))
          | inr b ↦ rw (b, broadcast_loop) (broadcast_loop-Holds k a n ts c h)
        ])
]

pub broadcast_wake-Holds : (k : Kernel) (r a n : ℕ) → Holds k a → Holds (broadcast_wake k r a n).1 a
unfolding broadcast_wake broadcast_ready
broadcast_wake-Holds k r a n h =
    let (c, k') = broadcast_loop k a n (k.mesgqs a).waiting_receivers none in
    checked-case (λ x. Holds x a) (mesgq_ready_err k a) (success, resched_chosen k' r c) k
      (Holds-Frame k' _ a (resched_chosen-Frame k' r c)
        (broadcast_loop-Holds k a n (k.mesgqs a).waiting_receivers none h))
      h
