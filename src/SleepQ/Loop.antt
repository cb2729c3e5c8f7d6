-- ===== src/SleepQ/Loop.antt =====
-- The loop of kSleepQueueWake (core/src/ksleepq.c): what it takes off the sleep queue and makes
-- ready.
use rk.Base.{
  ℕ, zero, suc, ◌-◌, ◌≡◌, ◌≢◌, refl, sym, ap, ◌∙◌, Option, none, some, List, [], ◌∷◌, ◌++◌, ◌==◌,
  take, drop, fun_ext, arith, if◌then◌else◌,
}
use rk.Base.Distinct.{All}
use rk.Kernel.{Kernel, Status, TimeoutType, update, update-same}
use rk.Sched.Queue.{prio_of, enq, jam, is_ready_queue, bitmask_set, tracks_prio}
use rk.Sched.Resched.{lock, unlock, set_sch_lock, pend_now, defer}
use rk.Sched.Frame.{
  Frame, Frame-refl, Frame-trans, if-Frame, resched_task-Frame, ready_no_switch-Frame,
  pend_now-Frame,
}
use rk.Sched.Switch.{ready_no_switch, postproc_tid}
use rk.Sched.Wake.{resched_task-case, ready_no_switch-lists}
use rk.Timeout.Node.{stop_timeout}
use rk.Timeout.Frame.{stop_timeout-Frame, stop_timeout-lists, stop_timeout-status}
use rk.SleepQ.Defs.{set_sleepq, choose, wake_loop, resched_chosen}

set_sch_lock-Frame : (k : Kernel) (t n : ℕ) → Frame k (set_sch_lock k t n)
set_sch_lock-Frame k t n = record {
  semas = refl;
  mutexes = refl;
  sleepqs = refl;
  mesgqs = refl;
  memory = refl;
  run = refl;
  prio = λ i. ground arith;
  owned = λ i. ground arith;
  domain = λ i. ground arith;
}

pub lock-Frame : (k : Kernel) (r : ℕ) → Frame k (lock k r)
unfolding lock
lock-Frame k r = if-Frame ((k.tasks r).preempt == 0) k _ _ (Frame-refl k) (set_sch_lock-Frame k r _)

unlock-Frame : (k : Kernel) (r : ℕ) → Frame k (unlock k r)
unfolding unlock
unlock-Frame k r =
    let k' = set_sch_lock k r (k.sch_lock - 1) in
    let f = set_sch_lock-Frame k r (k.sch_lock - 1) in
    if-Frame (k.sch_lock == 0) k _ _ (Frame-refl k)
      (if-Frame _ k _ _ (Frame-trans f (pend_now-Frame k')) f)

pub resched_chosen-Frame : (k : Kernel) (r : ℕ) (o : Option ℕ) → Frame k (resched_chosen k r o)
unfolding resched_chosen
resched_chosen-Frame k r none = Frame-refl k
resched_chosen-Frame k r (some t) = resched_task-Frame k r t

-- the kernel after one turn of the loop
abbrev woken : Kernel → ℕ → ℕ → List ℕ → Kernel
woken k a t ts =
    ready_no_switch
      (stop_timeout (set_sleepq k a (record (k.sleepqs a) { waiting = ts })) t TimeoutType.blocking)
      t

woken-waiting : (k : Kernel) (a t : ℕ) (ts : List ℕ) → ((woken k a t ts).sleepqs a).waiting ≡ ts
woken-waiting k a t ts =
    let q = record (k.sleepqs a) { waiting = ts } in
    let k' = set_sleepq k a q in
    let f =
      Frame-trans (stop_timeout-Frame k' t TimeoutType.blocking)
        (ready_no_switch-Frame (stop_timeout k' t TimeoutType.blocking) t) in
    ap (λ s. (s a).waiting) f.sleepqs ∙ ap (λ s. s.waiting) (update-same k.sleepqs a q)

pub wake_loop-waiting :
    (n : ℕ) (k : Kernel) (a : ℕ) (ts : List ℕ) (o : Option ℕ)
    → (k.sleepqs a).waiting ≡ ts
    → ((wake_loop n k a ts o).1.sleepqs a).waiting ≡ drop n ts
unfolding wake_loop
wake_loop-waiting zero k a ts o e = e
wake_loop-waiting (suc n) k a [] o e = e
wake_loop-waiting (suc n) k a (t ∷ ts) o e =
    wake_loop-waiting n (woken k a t ts) a ts (choose (woken k a t ts) o t) (woken-waiting k a t ts)

-- the kernel that the wake-up leaves, with the scheduler unlocked and the chosen task looked at
abbrev pub after : ℕ → Option ℕ × Kernel → Kernel
after r (chosen, k') = unlock (resched_chosen k' r chosen) r

pub after-waiting :
    (r a : ℕ) (w : Option ℕ × Kernel) → ((after r w).sleepqs a).waiting ≡ (w.1.sleepqs a).waiting
after-waiting r a (chosen, k) =
    ap (λ s. (s a).waiting)
      (Frame-trans (resched_chosen-Frame k r chosen)
        (unlock-Frame (resched_chosen k r chosen) r)).sleepqs

-- the tasks of priority `p`, in their order
abbrev pub of_prio : (ℕ → ℕ) → ℕ → List ℕ → List ℕ
of_prio prio p [] = []
of_prio prio p (t ∷ ts) = let rest = of_prio prio p ts in if prio t == p then t ∷ rest else rest

woken-prio : (k : Kernel) (a t : ℕ) (ts : List ℕ) → prio_of (woken k a t ts) ≡ prio_of k
woken-prio k a t ts =
    let k' = set_sleepq k a (record (k.sleepqs a) { waiting = ts }) in
    fun_ext
      (Frame-trans (stop_timeout-Frame k' t TimeoutType.blocking)
        (ready_no_switch-Frame (stop_timeout k' t TimeoutType.blocking) t)).prio

append_nil : (xs : List ℕ) → xs ++ [] ≡ xs
append_nil [] = refl
append_nil (x ∷ xs) = ap (λ ys. x ∷ ys) (append_nil xs)

update_last :
    (f : ℕ → List ℕ) (q p t : ℕ)
    → update f q (f q ++ t ∷ []) p ≡ f p ++ (if q == p then t ∷ [] else [])
update_last f q p t = ground (arith, append_nil (f p))

-- one turn puts its task last in the ready queue of its priority
woken-lists :
    (k : Kernel) (a t p : ℕ) (ts : List ℕ)
    → t ≢ postproc_tid
    → (woken k a t ts).ready_lists p ≡ k.ready_lists p ++ of_prio (prio_of k) p (t ∷ [])
woken-lists k a t p ts n =
    let k1 = set_sleepq k a (record (k.sleepqs a) { waiting = ts }) in
    let k2 = stop_timeout k1 t TimeoutType.blocking in
    ap (λ f. f p) (ready_no_switch-lists k2 t n)
    ∙ ap (λ f. update f (prio_of k2 t) (f (prio_of k2 t) ++ t ∷ []) p)
        (stop_timeout-lists k1 t TimeoutType.blocking)
    ∙ ap (λ q. update k.ready_lists q (k.ready_lists q ++ t ∷ []) p)
        ((stop_timeout-Frame k1 t TimeoutType.blocking).prio t)
    ∙ update_last k.ready_lists (prio_of k t) p t

ready_no_switch-status :
    (k : Kernel) (t i : ℕ)
    → (k.tasks i).status ≡ Status.ready
    → ((ready_no_switch k t).tasks i).status ≡ Status.ready
unfolding ready_no_switch enq jam is_ready_queue bitmask_set tracks_prio
ready_no_switch-status k t i e = ground (arith, e)

woken-status :
    (k : Kernel) (a t i : ℕ) (ts : List ℕ)
    → (k.tasks i).status ≡ Status.ready
    → ((woken k a t ts).tasks i).status ≡ Status.ready
woken-status k a t i ts e =
    let k1 = set_sleepq k a (record (k.sleepqs a) { waiting = ts }) in
    let k2 = stop_timeout k1 t TimeoutType.blocking in
    let e' : (k2.tasks i).status ≡ Status.ready =
      stop_timeout-status k1 t i TimeoutType.blocking ∙ e in
    ready_no_switch-status k2 t i e'

woken-status_self :
    (k : Kernel) (a t : ℕ) (ts : List ℕ) → ((woken k a t ts).tasks t).status ≡ Status.ready
unfolding ready_no_switch
woken-status_self k a t ts = ground arith

of_prio-lists :
    (xs : List ℕ) (prio : ℕ → ℕ) (p t : ℕ) (ts : List ℕ)
    → (xs ++ of_prio prio p (t ∷ [])) ++ of_prio prio p ts ≡ xs ++ of_prio prio p (t ∷ ts)
of_prio-lists [] prio p t ts = ground arith
of_prio-lists (x ∷ xs) prio p t ts = ap (λ ys. x ∷ ys) (of_prio-lists xs prio p t ts)

pub wake_loop-lists :
    (n : ℕ) (k : Kernel) (a p : ℕ) (ts : List ℕ) (o : Option ℕ)
    → All (λ t. t ≢ postproc_tid) ts
    → (wake_loop n k a ts o).1.ready_lists p ≡ k.ready_lists p ++ of_prio (prio_of k) p (take n ts)
unfolding wake_loop
wake_loop-lists zero k a p ts o h = sym (append_nil (k.ready_lists p))
wake_loop-lists (suc n) k a p [] o h = sym (append_nil (k.ready_lists p))
wake_loop-lists (suc n) k a p (t ∷ ts) o h =
    let k' = woken k a t ts in
    wake_loop-lists n k' a p ts (choose k' o t) h.1
    ∙ ap (λ f. k'.ready_lists p ++ of_prio f p (take n ts)) (woken-prio k a t ts)
    ∙ ap (λ xs. xs ++ of_prio (prio_of k) p (take n ts)) (woken-lists k a t p ts h.0)
    ∙ of_prio-lists (k.ready_lists p) (prio_of k) p t (take n ts)

wake_loop-status :
    (n : ℕ) (k : Kernel) (a i : ℕ) (ts : List ℕ) (o : Option ℕ)
    → (k.tasks i).status ≡ Status.ready
    → ((wake_loop n k a ts o).1.tasks i).status ≡ Status.ready
unfolding wake_loop
wake_loop-status zero k a i ts o e = e
wake_loop-status (suc n) k a i [] o e = e
wake_loop-status (suc n) k a i (t ∷ ts) o e =
    wake_loop-status n (woken k a t ts) a i ts (choose (woken k a t ts) o t)
      (woken-status k a t i ts e)

pub wake_loop-ready :
    (n : ℕ) (k : Kernel) (a : ℕ) (ts : List ℕ) (o : Option ℕ)
    → All (λ t. ((wake_loop n k a ts o).1.tasks t).status ≡ Status.ready) (take n ts)
unfolding wake_loop
wake_loop-ready zero k a ts o = tt
wake_loop-ready (suc n) k a [] o = tt
wake_loop-ready (suc n) k a (t ∷ ts) o =
    let k' = woken k a t ts in
    (
      wake_loop-status n k' a t ts (choose k' o t) (woken-status_self k a t ts),
      wake_loop-ready n k' a ts (choose k' o t),
    )

resched_chosen-case :
    (P : Kernel → Type 0) (k : Kernel) (r : ℕ) (o : Option ℕ)
    → P k
    → P (pend_now k)
    → P (defer k)
    → P (resched_chosen k r o)
unfolding resched_chosen
resched_chosen-case P k r none h n d = h
resched_chosen-case P k r (some t) h n d = resched_task-case P k r t h n d

unlock-lists : (k : Kernel) (r : ℕ) → (unlock k r).ready_lists ≡ k.ready_lists
unfolding unlock pend_now
unlock-lists k r = ground arith

unlock-status : (k : Kernel) (r i : ℕ) → ((unlock k r).tasks i).status ≡ (k.tasks i).status
unfolding unlock pend_now
unlock-status k r i = ground arith

-- the end of the wake-up and its beginning move no task
pub after-lists : (r p : ℕ) (w : Option ℕ × Kernel) → (after r w).ready_lists p ≡ w.1.ready_lists p
unfolding pend_now defer
after-lists r p (chosen, k) =
    ap (λ f. f p) (unlock-lists (resched_chosen k r chosen) r)
    ∙ resched_chosen-case (λ x. x.ready_lists p ≡ k.ready_lists p) k r chosen refl refl refl

pub after-status :
    (r i : ℕ) (w : Option ℕ × Kernel) → ((after r w).tasks i).status ≡ (w.1.tasks i).status
unfolding pend_now defer
after-status r i (chosen, k) =
    unlock-status (resched_chosen k r chosen) r i
    ∙ resched_chosen-case (λ x. (x.tasks i).status ≡ (k.tasks i).status) k r chosen refl refl refl

pub lock-lists : (k : Kernel) (r : ℕ) → (lock k r).ready_lists ≡ k.ready_lists
unfolding lock
lock-lists k r = ground arith
