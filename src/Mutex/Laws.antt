-- ===== src/Mutex/Laws.antt =====
-- Locking and unlocking keep ownership exclusive, and hand it over by priority.
use rk.Base.{
  ℕ, ◌≡◌, refl, ap, Bool, true, false, Option, none, some, List, [], ◌∷◌, ◌==◌, arith, ==_iff,
  if◌then◌else◌,
}
use rk.Err.{Err, success, mutex_not_owner}
use rk.Kernel.{
  Kernel, Status, TimeoutType, mutex_queue, Outcome, if-case, checked-case, checked_wait-case,
}
use rk.Sched.Queue.{deq, deq_list, enq_by_prio, clear_if_empty, is_ready_queue}
use rk.Sched.Prio.{next_owner}
use rk.Sched.Same.{enq_by_prio-SameChain, set_queue-SameChain}
use rk.Sched.Switch.{set_status}
use rk.Sched.Frame.{
  Frame, Frame-trans, set_task-Frame, set_status-Frame, pend_switch-Frame, ready_switch-Frame,
}
use rk.Timeout.Node.{setup, add, stop_timeout, is_bounded, set_node, node_of}
use rk.Timeout.Frame.{set_node-Frame, add-Frame, stop_timeout-Frame}
use rk.Timeout.Expire.{update_owner_prio, chain_fuel}
use rk.Mutex.Defs.{
  is_owner, acquire, disown, set_mutex, inherit, wait_on, block, block_bounded, wait_for,
  lock_owned, lock_ready, lock, mutex_ready_err, free_up, end_timeout, hand_over, unlock_deq,
  unlock_ready, unlock,
}
use rk.Mutex.Owner.{
  OwnersAgree, Released, SameOwners, SameOwners-trans, SameOwners-chain, SameOwners-Frame,
  OwnersAgree-same, Released-same, acquire-OwnersAgree,
}
use rk.Mutex.Release.{disown-Released, unlocked-Released, freed-OwnersAgree}
use rk.Sched.Chain.{update_chain-SameChain}

inherit-Same : (k : Kernel) (a : ℕ) (o : Option ℕ) → SameOwners k (inherit k a o)
unfolding inherit update_owner_prio
inherit-Same k a o =
    SameOwners-chain (update_chain-SameChain chain_fuel k (next_owner (k.mutexes a).protocol o))

wait_on-Frame : (k : Kernel) (t : ℕ) (o : Option ℕ) → Frame k (wait_on k t o)
wait_on-Frame k t o =
    set_task-Frame k t (record (k.tasks t) { waiting_for_mutex = o }) refl refl refl

block-Same : (k : Kernel) (r a : ℕ) → SameOwners k (block k r a)
unfolding block
block-Same k r a =
    let k1 = enq_by_prio k (mutex_queue a) r in
    let k2 = set_status k1 r Status.blocked in
    let k3 = wait_on k2 r (some a) in
    let k4 = inherit k3 a (k3.mutexes a).owner in
    SameOwners-trans (SameOwners-chain (enq_by_prio-SameChain k (mutex_queue a) r)) (
      SameOwners-trans
        (SameOwners-Frame
          (Frame-trans (set_status-Frame k1 r Status.blocked) (wait_on-Frame k2 r (some a))))
        (SameOwners-trans (inherit-Same k3 a (k3.mutexes a).owner)
          (SameOwners-Frame (pend_switch-Frame k4))))

block_bounded-OwnersAgree :
    (x : Err × Kernel) (r a : ℕ) → OwnersAgree x.1 → OwnersAgree (block_bounded x r a).1
unfolding block_bounded
block_bounded-OwnersAgree (success, k) r a h = OwnersAgree-same (block-Same k r a) h
block_bounded-OwnersAgree (e, k) r a h =
    OwnersAgree-same (SameOwners-Frame (set_node-Frame k r _)) h

wait_for-OwnersAgree :
    (k : Kernel) (r a ticks : ℕ) → OwnersAgree k → OwnersAgree (wait_for k r a ticks).1
unfolding wait_for
wait_for-OwnersAgree k r a ticks h =
    let k1 = setup k r TimeoutType.blocking (some (mutex_queue a)) in
    let k2 = set_node k r (record (node_of k r) { waiting_queue = some (mutex_queue a) }) in
    if-case OwnersAgree (ticks == 0) _ _ h (
      if-case OwnersAgree (is_bounded ticks) _ _
        (block_bounded-OwnersAgree (add k1 r ticks) r a (
          OwnersAgree-same
            (SameOwners-Frame (Frame-trans (set_node-Frame k r _) (add-Frame k1 r ticks))) h))
        (OwnersAgree-same
          (SameOwners-trans (SameOwners-Frame (set_node-Frame k r _)) (block-Same k2 r a)) h))

lock_owned-OwnersAgree :
    (k : Kernel) (r a ticks : ℕ) (o : Option ℕ)
    → OwnersAgree k
    → OwnersAgree (lock_owned k r a ticks o).1
unfolding lock_owned
lock_owned-OwnersAgree k r a ticks none h = h
lock_owned-OwnersAgree k r a ticks (some o) h =
    if-case OwnersAgree (o == r) _ _ h (wait_for-OwnersAgree k r a ticks h)

lock_or_take :
    (k : Kernel) (r a ticks : ℕ) (b : Bool)
    → OwnersAgree k
    → (k.mutexes a).lock ≡ b
    → OwnersAgree
        (if b
          then lock_owned k r a ticks (k.mutexes a).owner
          else (Outcome.returns success, acquire k r a)).1
lock_or_take k r a ticks true h e = lock_owned-OwnersAgree k r a ticks (k.mutexes a).owner h
lock_or_take k r a ticks false h e = acquire-OwnersAgree k r a (unlocked-Released k r a h e)

-- The first half of kMutexLock, whatever its outcome, keeps ownership in order: the tasks'
-- lists and the owner fields agree, a mutex is locked when it has an owner, and no list has
-- a mutex twice.
pub lock-OwnersAgree :
    (k : Kernel) (r a ticks : ℕ) → OwnersAgree k → OwnersAgree (lock k r a ticks).1
unfolding lock lock_ready
lock-OwnersAgree k r a ticks h =
    checked_wait-case OwnersAgree (mutex_ready_err k a) _ k
      (if-case OwnersAgree k.in_isr _ _ h (
        if-case OwnersAgree (k.mutexes a).owner_faulted _ _ h
          (lock_or_take k r a ticks (k.mutexes a).lock h refl)))
      h

is_owner-some : (o : Option ℕ) (r : ℕ) → is_owner o r ≡ true → o ≡ some r
unfolding is_owner
is_owner-some none r e = ground (arith, e)
is_owner-some (some x) r e = ap (λ y. some y) ((==_iff x r).0 e)

end_timeout-Frame : (k : Kernel) (t : ℕ) → Frame k (end_timeout k t)
unfolding end_timeout
end_timeout-Frame k t =
    Frame-trans (stop_timeout-Frame k t TimeoutType.blocking)
      (set_node-Frame (stop_timeout k t TimeoutType.blocking) t _)

-- what follows once the first waiter has the mutex
pub after_acquire :
    (k : Kernel) (r a t : ℕ) → SameOwners (acquire (end_timeout k t) t a) (hand_over k r a t)
unfolding hand_over
after_acquire k r a t =
    let k0 = acquire (end_timeout k t) t a in
    let k1 = wait_on k0 t none in
    let k2 = inherit k1 a (some r) in
    let k3 = inherit k2 a (some t) in
    SameOwners-trans (SameOwners-Frame (wait_on-Frame k0 t none)) (
      SameOwners-trans (inherit-Same k1 a (some r)) (
        SameOwners-trans (inherit-Same k2 a (some t))
          (SameOwners-Frame (ready_switch-Frame k3 r t))))

unlock_deq-OwnersAgree :
    (k : Kernel) (r a : ℕ) (xs : List ℕ)
    → Released k a
    → OwnersAgree (unlock_deq k r a (deq_list k (mutex_queue a) xs))
unfolding unlock_deq deq_list clear_if_empty is_ready_queue free_up
unlock_deq-OwnersAgree k r a [] h =
    OwnersAgree-same (inherit-Same _ a (some r)) (freed-OwnersAgree k a h)
unlock_deq-OwnersAgree k r a (t ∷ ts) h =
    let k' = set_mutex k a (record (k.mutexes a) { waiting = ts }) in
    OwnersAgree-same (after_acquire k' r a t) (
      acquire-OwnersAgree (end_timeout k' t) t a (
        Released-same
          (SameOwners-trans (SameOwners-chain (set_queue-SameChain k (mutex_queue a) ts))
            (SameOwners-Frame (end_timeout-Frame k' t)))
          h))

give_back :
    (k : Kernel) (r a : ℕ) (b : Bool)
    → OwnersAgree k
    → is_owner (k.mutexes a).owner r ≡ b
    → let k' = disown k r a in
      let x : Err × Kernel =
        if b then (success, unlock_deq k' r a (deq k' (mutex_queue a))) else (mutex_not_owner, k) in
      OwnersAgree x.1
unfolding deq
give_back k r a false h e = h
give_back k r a true h e =
    let k' = disown k r a in
    unlock_deq-OwnersAgree k' r a (k'.mutexes a).waiting
      (disown-Released k r a h (is_owner-some (k.mutexes a).owner r e))

-- kMutexUnlock, whatever its outcome, keeps ownership in order: the tasks' lists and the
-- owner fields agree, a mutex is locked when it has an owner, and no list has a mutex twice.
pub unlock-OwnersAgree : (k : Kernel) (r a : ℕ) → OwnersAgree k → OwnersAgree (unlock k r a).1
unfolding unlock unlock_ready
unlock-OwnersAgree k r a h =
    checked-case OwnersAgree (mutex_ready_err k a) _ k
      (if-case OwnersAgree k.in_isr _ _ h (
        if-case OwnersAgree (k.mutexes a).lock _ _
          (give_back k r a (is_owner (k.mutexes a).owner r) h refl) h))
      h
