-- ===== src/Sema/Post.antt =====
-- Posting to a semaphore: the first waiter goes on, or a unit is added.
use rk.Base.{
  ℕ, ◌+◌, ◌≡◌, ◌≢◌, refl, ap, sym, ◌∙◌, inl, inr, List, [], ◌∷◌, ◌++◌, ltb, Bool-cases, fun_ext,
  arith, if◌then◌else◌,
}
use mathlib.Core.Path.{subst}
use rk.Err.{Err, success, sema_full}
use rk.Kernel.{
  Kernel, Semaphore, Status, TimeoutType, sema_queue, update, update-same, checked, checked-case,
}
use rk.Sched.Queue.{prio_of, deq, deq_list, clear_if_empty, is_ready_queue}
use rk.Sched.Resched.{resched_task}
use rk.Sched.Order.{IsOrdered}
use rk.Sched.Frame.{Frame, Frame-trans, ready_switch-Frame}
use rk.Sched.Switch.{ready_switch, postproc_tid}
use rk.Sched.Wake.{ready_switch-status, ready_switch-lists}
use rk.Timeout.Node.{stop_timeout}
use rk.Timeout.Frame.{stop_timeout-lists, stop_timeout-Frame}
use rk.Sema.Defs.{
  give_unit, sema_ready_err, wake_waiter, post_deq, post, public_ready_err, set_sema,
}
use rk.Sema.Laws.{IsSound, Holds, Holds-Frame, set_sema-Holds, give_unit_eq, give_unit-IsSound}

give_unit-waiting : (s : Semaphore) → IsSound s → (give_unit s).1.waiting ≡ s.waiting
give_unit-waiting s h = subst (λ x. x.1.waiting ≡ s.waiting) (sym (give_unit_eq s h)) (ground arith)

wake_waiter-Frame : (k : Kernel) (r t : ℕ) → Frame k (wake_waiter k r t).1
unfolding wake_waiter
wake_waiter-Frame k r t =
    let k' = stop_timeout k t TimeoutType.blocking in
    Frame-trans (stop_timeout-Frame k t TimeoutType.blocking) (ready_switch-Frame k' r t)

-- a semaphore with a waiter has no unit
no_unit : (s : Semaphore) (t : ℕ) (ts : List ℕ) → IsSound s → s.waiting ≡ t ∷ ts → s.value ≡ 0
no_unit s t ts h e = elim h.waits [ inl f ↦ ground (arith, e, f) | inr z ↦ z ]

post_deq-Holds :
    (k : Kernel) (r a : ℕ) (xs : List ℕ)
    → Holds k a
    → (k.semas a).waiting ≡ xs
    → Holds (post_deq k r a (deq_list k (sema_queue a) xs)).1 a
unfolding post_deq deq_list clear_if_empty is_ready_queue
post_deq-Holds k r a [] h e =
    set_sema-Holds k a (give_unit (k.semas a)).1 (give_unit-IsSound (k.semas a) h.0 e)
      (subst (IsOrdered (prio_of k)) (sym (give_unit-waiting (k.semas a) h.0)) h.1)
post_deq-Holds k r a (t ∷ ts) h e =
    let s = record (k.semas a) { waiting = ts } in
    let z = no_unit (k.semas a) t ts h.0 e in
    let o = subst (IsOrdered (prio_of k)) e h.1 in
    Holds-Frame (set_sema k a s) _ a (wake_waiter-Frame (set_sema k a s) r t) (
      set_sema-Holds k a s
        (record { bound = h.0.bound; positive = h.0.positive; word = h.0.word; waits = inr z }) o.1)

-- kSemaphorePost, whatever its outcome, keeps a semaphore in order: the value in its bound,
-- no unit while a task waits, and the waiters by priority.
pub post-Holds : (k : Kernel) (r a : ℕ) → Holds k a → Holds (post k r a).1 a
unfolding post deq
post-Holds k r a h =
    checked-case (λ x. Holds x a) (sema_ready_err k a) _ k
      (post_deq-Holds k r a (k.semas a).waiting h refl) h

post-ready :
    (k : Kernel) (r a : ℕ) (xs : List ℕ)
    → sema_ready_err k a ≡ success
    → (k.semas a).waiting ≡ xs
    → post k r a ≡ post_deq k r a (deq_list k (sema_queue a) xs)
unfolding post deq
post-ready k r a xs e w =
    ap (λ x. checked x (post_deq k r a (deq k (sema_queue a))) k) e
    ∙ ap (λ ys. post_deq k r a (deq_list k (sema_queue a) ys)) w

set_sema-same : (k : Kernel) (a : ℕ) → set_sema k a (k.semas a) ≡ k
set_sema-same k a =
    ap (λ f. record k { semas = f })
      (fun_ext {f = update k.semas a (k.semas a)} {g = k.semas} (λ j. ground arith))

-- kSemaphorePost to a semaphore in order that the caller may use, with nobody waiting, adds
-- one unit, or refuses with RK_ERR_SEMA_FULL where the bound is reached; nothing else of the
-- kernel changes. A binary semaphore is no exception.
post_no_waiter :
    (k : Kernel) (r a : ℕ)
    → Holds k a
    → sema_ready_err k a ≡ success
    → (k.semas a).waiting ≡ []
    → let s = k.semas a in
      post k r a ≡ (
        if ltb s.value s.max_value
        then (success, set_sema k a (record s { value = s.value + 1 }))
        else (sema_full, k))
unfolding post_deq deq_list
post_no_waiter k r a h e w =
    post-ready k r a [] e w
    ∙ ap (λ x. (x.0, set_sema k a x.1)) (give_unit_eq (k.semas a) h.0)
    ∙ elim (Bool-cases (ltb (k.semas a).value (k.semas a).max_value)) [
      | inl l ↦ rw l refl
      | inr l ↦ rw l (ap (λ x. (sema_full, x)) (set_sema-same k a))
    ]

public_success : (k : Kernel) (r t : ℕ) → public_ready_err (ready_switch k r t).0 ≡ success
unfolding ready_switch resched_task public_ready_err
public_success k r t = ground arith

-- what a call that woke task `t` did, where `s` is the semaphore without it
abbrev Woken : Kernel → Semaphore → ℕ → ℕ → Err × Kernel → Type 0
Woken k s a t x =
    (x.0 ≡ success)
    × (x.1.semas a ≡ s)
    × ((x.1.tasks t).status ≡ Status.ready)
    × (x.1.ready_lists ≡ update k.ready_lists (prio_of k t) (k.ready_lists (prio_of k t) ++ t ∷ []))

wake_waiter-Woken :
    (k : Kernel) (s : Semaphore) (r a t : ℕ)
    → t ≢ postproc_tid
    → Woken k s a t (wake_waiter (set_sema k a s) r t)
unfolding wake_waiter
wake_waiter-Woken k s r a t n =
    let k0 = set_sema k a s in
    let k1 = stop_timeout k0 t TimeoutType.blocking in
    (
      public_success k1 r t,
      ap (λ m. m a) (wake_waiter-Frame k0 r t).semas ∙ update-same k.semas a s,
      ready_switch-status k1 r t,
      ready_switch-lists k1 r t n
          ∙ ap (λ l. update l (prio_of k1 t) (l (prio_of k1 t) ++ t ∷ []))
              (stop_timeout-lists k0 t TimeoutType.blocking)
          ∙ ap (λ p. update k.ready_lists p (k.ready_lists p ++ t ∷ []))
              ((stop_timeout-Frame k0 t TimeoutType.blocking).prio t),
    )

-- kSemaphorePost to a semaphore that the caller may use and that has waiters, the first of
-- them not the post-processing task, gives no unit: it succeeds, takes the first waiter off
-- the wait queue and puts it, ready, last in the ready queue of its priority.
pub post_wakes_first :
    (k : Kernel) (r a t : ℕ) (ts : List ℕ)
    → sema_ready_err k a ≡ success
    → (k.semas a).waiting ≡ t ∷ ts
    → t ≢ postproc_tid
    → let (e, k') = post k r a in
      (e ≡ success)
      × (k'.semas a ≡ record (k.semas a) { waiting = ts })
      × ((k'.tasks t).status ≡ Status.ready)
      × (k'.ready_lists
          ≡ update k.ready_lists (prio_of k t) (k.ready_lists (prio_of k t) ++ t ∷ []))
unfolding post_deq wake_waiter deq_list
post_wakes_first k r a t ts e w n =
    subst (Woken k (record (k.semas a) { waiting = ts }) a t) (sym (post-ready k r a (t ∷ ts) e w))
      (wake_waiter-Woken k (record (k.semas a) { waiting = ts }) r a t n)
