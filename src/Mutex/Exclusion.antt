-- ===== src/Mutex/Exclusion.antt =====
-- A mutex has one owner, and unlocking makes the most urgent waiter the next one.
use rk.Base.{
  ℕ, ◌≡◌, refl, sym, ap, ◌∙◌, Bool, true, false, Option, none, some, List, ◌∷◌, arith, ==_iff,
  if◌then◌else◌,
}
use mathlib.Core.Path.{subst}
use rk.Err.{success, mutex_not_owner, mutex_not_locked, invalid_isr_primitive}
use rk.Kernel.{Kernel, Status, mutex_queue, checked}
use rk.Sched.Queue.{deq, deq_list, clear_if_empty, is_ready_queue}
use rk.Mutex.Defs.{
  is_owner, acquire, disown, set_mutex, inherit, wait_on, mutex_ready_err, end_timeout, hand_over,
  unlock_deq, unlock_ready, unlock,
}
use rk.Mutex.Owner.{has, is_some, OwnersAgree}
use rk.Sched.Wake.{ready_switch-status}
use rk.Mutex.Laws.{after_acquire}

is_owner-eq : (o : Option ℕ) (t u : ℕ) → is_owner o t ≡ true → is_owner o u ≡ true → t ≡ u
unfolding is_owner
is_owner-eq none t u e f = ground (arith, e)
is_owner-eq (some x) t u e f = sym ((==_iff x t).0 e) ∙ (==_iff x u).0 f

owner-is_some : (o : Option ℕ) (t : ℕ) → is_owner o t ≡ true → is_some o ≡ true
unfolding is_owner
owner-is_some none t e = ground (arith, e)
owner-is_some (some x) t e = refl

-- Where ownership is in order, a mutex stands in the list of at most one task, and a mutex that
-- stands in one is locked.
pub one_owner :
    (k : Kernel) (a t u : ℕ)
    → OwnersAgree k
    → has a (k.tasks t).owned_mutexes ≡ true
    → has a (k.tasks u).owned_mutexes ≡ true
    → (t ≡ u) × ((k.mutexes a).lock ≡ true)
one_owner k a t u h e f =
    let o = (k.mutexes a).owner in
    let m = sym (h.agree t a) ∙ e in
    (is_owner-eq o t u m (sym (h.agree u a) ∙ f), h.locked a ∙ owner-is_some o t m)

pick {ℓ} :
    {A : Type ℓ} (x y z w : A) (b c d : Bool)
    → b ≡ false
    → c ≡ true
    → d ≡ true
    → (if b then x else (if c then (if d then y else z) else w)) ≡ y
pick x y z w b c d e f g = rw (e, f, g) refl

unlock-eq :
    (k : Kernel) (r a t : ℕ) (ts : List ℕ)
    → mutex_ready_err k a ≡ success
    → k.in_isr ≡ false
    → (k.mutexes a).lock ≡ true
    → (k.mutexes a).owner ≡ some r
    → (k.mutexes a).waiting ≡ t ∷ ts
    → let k' = disown k r a in
      unlock k r a
      ≡ (success, hand_over (set_mutex k' a (record (k.mutexes a) { waiting = ts })) r a t)
unfolding unlock unlock_ready is_owner disown deq deq_list unlock_deq clear_if_empty is_ready_queue
unlock-eq k r a t ts e i l o w =
    let k' = disown k r a in
    ap (λ x. checked x (unlock_ready k r a) k) e
    ∙ pick (invalid_isr_primitive, k) (success, unlock_deq k' r a (deq k' (mutex_queue a)))
        (mutex_not_owner, k) (mutex_not_locked, k) k.in_isr (k.mutexes a).lock
        (is_owner (k.mutexes a).owner r) i l (ap (λ x. is_owner x r) o ∙ ground arith)
    ∙ ap (λ xs. (success, unlock_deq k' r a (deq_list k' (mutex_queue a) xs))) w

hand_over-status : (k : Kernel) (r a t : ℕ) → ((hand_over k r a t).tasks t).status ≡ Status.ready
unfolding hand_over
hand_over-status k r a t =
    let k1 = wait_on (acquire (end_timeout k t) t a) t none in
    ready_switch-status (inherit (inherit k1 a (some r)) a (some t)) r t

hand_over-owner :
    (k : Kernel) (r a t : ℕ)
    → (((hand_over k r a t).mutexes a).owner ≡ some t)
      × (((hand_over k r a t).mutexes a).lock ≡ true)
unfolding acquire
hand_over-owner k r a t =
    let s = after_acquire k r a t in (s.owner a ∙ ground arith, s.lock a ∙ ground arith)

-- kMutexUnlock by the owner of a locked mutex it may use, called from a task, with tasks
-- waiting: the call succeeds, the mutex stays locked, its owner is the first waiter, and
-- that task is ready.
pub unlock_hands_over :
    (k : Kernel) (r a t : ℕ) (ts : List ℕ)
    → mutex_ready_err k a ≡ success
    → k.in_isr ≡ false
    → (k.mutexes a).lock ≡ true
    → (k.mutexes a).owner ≡ some r
    → (k.mutexes a).waiting ≡ t ∷ ts
    → let (e, k') = unlock k r a in
      (e ≡ success)
      × ((k'.mutexes a).owner ≡ some t)
      × ((k'.mutexes a).lock ≡ true)
      × ((k'.tasks t).status ≡ Status.ready)
unlock_hands_over k r a t ts e i l o w =
    let k' = set_mutex (disown k r a) a (record (k.mutexes a) { waiting = ts }) in
    let (p, q) = hand_over-owner k' r a t in
    subst
      (λ x.
        (x.0 ≡ success)
        × ((x.1.mutexes a).owner ≡ some t)
        × ((x.1.mutexes a).lock ≡ true)
        × ((x.1.tasks t).status ≡ Status.ready))
      (sym (unlock-eq k r a t ts e i l o w)) (refl, p, q, hand_over-status k' r a t)
