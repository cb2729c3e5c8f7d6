-- ===== src/Sched/Apply.antt =====
-- What kTaskUpdateEffectivePrio (core/src/ksch.c) does to the ready queues.
use rk.Base.{
  ℕ, ◌≡◌, ◌≢◌, refl, sym, ap, ◌∙◌, inl, inr, Bool, true, false, ◌&&◌, Option, none, some, List, [],
  ◌∷◌, ◌++◌, ◌==◌, ltb, arith, fun_ext, if◌then◌else◌,
}
use mathlib.Core.Path.{subst}
use rk.Base.Distinct.{All, NotIn, All-append}
use rk.Err.{Err, success, resched_pending, resched_not_needed}
use rk.Kernel.{Kernel, Status, ready_queue, update, update-same, set_queue, if-case}
use rk.Sched.Queue.{prio_of, enq, rem, remove_tid}
use rk.Sched.Resched.{
  status_eq_ready, status_eq_running, pend_now, defer, pend_of, pend_run, pend_switch, resched_run,
  resched_running, next_prio,
}
use rk.Sched.Prio.{
  set_prio, effective_prio, resched_if_any, change_ready_prio, change_prio, update_effective_prio,
}
use rk.Sched.Bitmap.{
  IsReady, has_tasks, enq-lists, enq-tasks, enq-IsReady, clear-lists, clear-tasks, clear-IsReady,
}
use rk.Sched.Wake.{resched_task-case}
use rk.Sched.Linked.{
  IsLinked, remove_tid-middle, has_tasks-middle, All-middle, NotIn-all, prio_of-set_prio,
  set_prio-IsReady,
}

-- how a change of the priority of `t` to `p` ends
abbrev pub Applied : Kernel → ℕ → ℕ → Kernel → Type 0
Applied k t p k' = IsReady k' × (prio_of k' ≡ update (prio_of k) t p) × IsLinked k' t

-- A request of a switch moves no task.
pend_now-Applied :
    (k : Kernel) (t p : ℕ) (k' : Kernel) → Applied k t p k' → Applied k t p (pend_now k')
unfolding pend_now
pend_now-Applied k t p k' (h, e, l) = (record { bitmap = h.bitmap; filed = h.filed }, e, l)

defer-Applied : (k : Kernel) (t p : ℕ) (k' : Kernel) → Applied k t p k' → Applied k t p (defer k')
unfolding defer
defer-Applied k t p k' (h, e, l) = (record { bitmap = h.bitmap; filed = h.filed }, e, l)

if_one-case : (P : Kernel → Type 0) (b : Bool) (x y : Kernel) → P x → P y → P (if b then x else y)
if_one-case P true x y f g = f
if_one-case P false x y f g = g

module _ (P : Kernel → Type 0) (k : Kernel) (h : P k) (n : P (pend_now k)) (d : P (defer k)) where
  pend_of-case : (s : Status) → P (pend_of k s)
  unfolding pend_of
  pend_of-case s = if_one-case P _ _ _ d (if_one-case P _ _ _ n (if_one-case P _ _ _ n d))

  pend_run-case : (o : Option ℕ) → P (pend_run k o)
  unfolding pend_run
  pend_run-case none = if_one-case P _ _ _ n d
  pend_run-case (some t) = pend_of-case (k.tasks t).status

  resched_run-case : (o : Option ℕ) (k' : Kernel) → P k' → P (resched_run k o k').1
  unfolding resched_run
  resched_run-case none k' g = h
  resched_run-case (some r) k' g =
      if-case {X = Err} P
        (status_eq_running (k.tasks r).status
          && ((k.tasks r).preempt == 1)
          && ltb (next_prio k) (k.tasks r).priority)
        (if k'.sch_lock == 0 then (success, k') else (resched_pending, k')) (resched_not_needed, k)
        (if-case {X = Err} P (k'.sch_lock == 0) (success, k') (resched_pending, k') g g) h

  resched_running-case : P (resched_running k).1
  unfolding resched_running pend_switch
  resched_running-case = resched_run-case k.run (pend_switch k) (pend_run-case k.run)

  resched_if_any-case : (o : Option ℕ) (t : ℕ) → P (resched_if_any k o t)
  unfolding resched_if_any
  resched_if_any-case none t = h
  resched_if_any-case (some r) t = resched_task-case P k r t h n d

-- the branch of a task that is not in a ready queue
set_prio-Applied :
    (k : Kernel) (t p : ℕ)
    → IsReady k
    → status_eq_ready (k.tasks t).status ≡ false
    → NotIn t (k.ready_lists (prio_of k t))
    → Applied k t p (set_prio k t p)
set_prio-Applied k t p h e n = (
  set_prio-IsReady k t p h n,
  prio_of-set_prio k t p,
  inr (
    ap (λ c. status_eq_ready c.status) (update-same k.tasks t (record (k.tasks t) { priority = p }))
        ∙ e,
    NotIn-all k t (prio_of (set_prio k t p) t) h n,
  ),
)

-- the branch of a ready task: its old queue, the new priority, its new queue
module _ (k : Kernel) (t p : ℕ) (h : IsReady k) (s : status_eq_ready (k.tasks t).status ≡ true)
    (before after : List ℕ) (e : k.ready_lists (prio_of k t) ≡ before ++ t ∷ after)
    (b : NotIn t before) (a : NotIn t after) where
  abbrev old : ℕ
  old = prio_of k t

  abbrev off : Kernel
  off = rem k (ready_queue old) t

  off-left : remove_tid (k.ready_lists old) t ≡ before ++ after
  off-left = ap (λ xs. remove_tid xs t) e ∙ remove_tid-middle before after t b

  off-tasks : off.tasks ≡ k.tasks
  unfolding rem
  off-tasks = clear-tasks (set_queue k (ready_queue old) _) (ready_queue old) old

  off-lists : off.ready_lists old ≡ before ++ after
  unfolding rem
  off-lists =
      ap (λ f. f old) (clear-lists (set_queue k (ready_queue old) _) (ready_queue old) old)
      ∙ update-same k.ready_lists old (remove_tid (k.ready_lists old) t)
      ∙ off-left

  off-IsReady : IsReady off
  unfolding rem
  off-IsReady =
      clear-IsReady k old (remove_tid (k.ready_lists old) t) h
        (ap has_tasks e ∙ has_tasks-middle before after t)
        (subst (All (λ x. prio_of k x ≡ old)) (sym off-left) (
          All-middle (λ x. prio_of k x ≡ old) before after t
            (subst (All (λ x. prio_of k x ≡ old)) e (h.filed old))))

  off-NotIn : NotIn t (off.ready_lists (prio_of off t))
  off-NotIn =
      subst (NotIn t) (sym (ap (λ f. off.ready_lists (f t).priority) off-tasks ∙ off-lists))
        (All-append (λ q. t ≢ q) before after b a)

  abbrev changed : Kernel
  changed = set_prio off t p

  changed-IsReady : IsReady changed
  changed-IsReady = set_prio-IsReady off t p off-IsReady off-NotIn

  changed-prio : prio_of changed t ≡ p
  changed-prio =
      ap (λ c. c.priority) (update-same off.tasks t (record (off.tasks t) { priority = p }))

  enq-Applied : Applied k t p (enq changed (ready_queue p) t)
  enq-Applied =
      let k' = enq changed (ready_queue p) t in
      let ts : k'.tasks ≡ changed.tasks = enq-tasks changed (ready_queue p) t in
      let set = update-same off.tasks t (record (off.tasks t) { priority = p }) in
      (
        subst (λ q. IsReady (enq changed (ready_queue q) t)) changed-prio
            (enq-IsReady changed t changed-IsReady),
        ap (λ f i. (f i).priority) ts
            ∙ prio_of-set_prio off t p
            ∙ ap (λ f. update (λ i. (f i).priority) t p) off-tasks,
        inl (
          ap (λ f. status_eq_ready (f t).status) ts
              ∙ ap (λ c. status_eq_ready c.status) set
              ∙ ap (λ f. status_eq_ready (f t).status) off-tasks
              ∙ s,
          changed.ready_lists p,
          [],
          ap (λ q. k'.ready_lists q) (ap (λ f. (f t).priority) ts ∙ changed-prio)
              ∙ ap (λ f. f p) (enq-lists changed p t)
              ∙ update-same changed.ready_lists p (changed.ready_lists p ++ t ∷ []),
          NotIn-all off t p off-IsReady off-NotIn,
          tt,
        ),
      )

  change_ready_prio-Applied : Applied k t p (change_ready_prio k t p)
  unfolding change_ready_prio
  change_ready_prio-Applied =
      let k' = enq changed (ready_queue p) t in
      resched_if_any-case (Applied k t p) k' enq-Applied (pend_now-Applied k t p k' enq-Applied)
        (defer-Applied k t p k' enq-Applied) k'.run t

change_prio-Applied :
    (k : Kernel) (t p : ℕ) → IsReady k → IsLinked k t → Applied k t p (change_prio k t p)
unfolding change_prio
change_prio-Applied k t p h (inl (s, before, after, e, b, a)) =
    rw s (change_ready_prio-Applied k t p h s before after e b a)
change_prio-Applied k t p h (inr (s, n)) =
    let k' = set_prio k t p in
    let v = set_prio-Applied k t p h s n in
    rw s (
      if_one-case (Applied k t p) (status_eq_running (k.tasks t).status) _ _
        (resched_running-case (Applied k t p) k' v (pend_now-Applied k t p k' v)
          (defer-Applied k t p k' v))
        v)

same-prio : (k : Kernel) (t p : ℕ) → prio_of k t ≡ p → prio_of k ≡ update (prio_of k) t p
same-prio k t p e = fun_ext (λ i. ground (arith, e))

if_known-case :
    (P : Kernel → Type 0) (b : Bool) (x y : Bool × Kernel)
    → (b ≡ true → P x.1)
    → (b ≡ false → P y.1)
    → P (if b then x else y).1
if_known-case P true x y f g = f refl
if_known-case P false x y f g = g refl

-- kTaskUpdateEffectivePrio of an initialised task, where the ready queues hold tasks of
-- their own priorities, the bitmap tells which of them are in use, and the task is once in
-- the queue of its priority if it is ready and not there if it is not: the task gets its
-- effective priority and no other task another one, and all this holds again, with the task,
-- if it is ready, in the queue of its new priority.
pub update_effective_prio-Applied :
    (k : Kernel) (t : ℕ)
    → (k.tasks t).init ≡ true
    → IsReady k
    → IsLinked k t
    → Applied k t (effective_prio k t) (update_effective_prio k t).1
unfolding update_effective_prio
update_effective_prio-Applied k t i h l =
    let p = effective_prio k t in
    let P : Kernel → Type 0 = Applied k t p in
    let y : Bool × Kernel = (true, change_prio k t p) in
    if_known-case P (k.tasks t).init (if prio_of k t == p then (false, k) else y) (false, k)
      (λ e.
        if_known-case P (prio_of k t == p) (false, k) y
          (λ q. (h, same-prio k t p (ground (arith, q)), l)) (λ q. change_prio-Applied k t p h l))
      (λ e. absurd (ground (arith, i, e)))
