-- ===== src/Sched/Same.antt =====
-- What the propagation of priorities leaves alone: who waits for which mutex, and who owns it.
use rk.Base.{
  ℕ, ◌≡◌, refl, ◌∙◌, inl, inr, Bool, true, false, Option, none, some, List, [], ltb, ◌&&◌, ◌∷◌,
  ◌++◌, ◌==◌, Bool-cases, arith, if◌then◌else◌,
}
use rk.Kernel.{
  Kernel, Status, QueueRef, ready_queue, sema_queue, mutex_queue, sleep_queue, receivers_queue,
  senders_queue, set_queue, get_queue,
}
use rk.Sched.Queue.{
  prio_of, enq, rem, enq_by_prio, clear_if_empty, bitmask_set, bitmask_clear, tracks_prio,
  is_ready_queue, is_nil,
}
use rk.Sched.Resched.{
  resched_task, resched_running, pend_switch, pend_run, resched_run, next_prio, pend_now, defer,
  pend_of, status_eq_ready, status_eq_running,
}
use rk.Sched.Prio.{
  set_prio, effective_prio, requeue_in, change_ready_prio, resched_if_any, change_prio,
  requeue_waiter, update_effective_prio,
}

-- what the chain of owners reads, unchanged
pub record SameChain (k k' : Kernel) : Type 0 where
  pub status : (t : ℕ) → (k'.tasks t).status ≡ (k.tasks t).status
  pub waits : (t : ℕ) → (k'.tasks t).waiting_for_mutex ≡ (k.tasks t).waiting_for_mutex
  pub protocol : (a : ℕ) → (k'.mutexes a).protocol ≡ (k.mutexes a).protocol
  pub owner : (a : ℕ) → (k'.mutexes a).owner ≡ (k.mutexes a).owner
  pub locked : (a : ℕ) → (k'.mutexes a).lock ≡ (k.mutexes a).lock
  pub owned : (t : ℕ) → (k'.tasks t).owned_mutexes ≡ (k.tasks t).owned_mutexes
  pub node : (t : ℕ) → (k'.tasks t).timeout_node ≡ (k.tasks t).timeout_node
  pub timeouts : k'.timeouts ≡ k.timeouts

pub SameChain-refl : (k : Kernel) → SameChain k k
SameChain-refl k = record {
  status = λ t. refl;
  waits = λ t. refl;
  protocol = λ a. refl;
  owner = λ a. refl;
  locked = λ a. refl;
  owned = λ t. refl;
  node = λ t. refl;
  timeouts = refl;
}

pub SameChain-trans : {k k' k'' : Kernel} → SameChain k k' → SameChain k' k'' → SameChain k k''
SameChain-trans f g = record {
  status = λ t. g.status t ∙ f.status t;
  waits = λ t. g.waits t ∙ f.waits t;
  protocol = λ a. g.protocol a ∙ f.protocol a;
  owner = λ a. g.owner a ∙ f.owner a;
  locked = λ a. g.locked a ∙ f.locked a;
  owned = λ t. g.owned t ∙ f.owned t;
  node = λ t. g.node t ∙ f.node t;
  timeouts = g.timeouts ∙ f.timeouts;
}

pub set_queue-SameChain : (k : Kernel) (q : QueueRef) (xs : List ℕ) → SameChain k (set_queue k q xs)
set_queue-SameChain k (ready_queue p) xs = record {
  status = λ t. refl;
  waits = λ t. refl;
  protocol = λ a. refl;
  owner = λ a. refl;
  locked = λ a. refl;
  owned = λ t. refl;
  node = λ t. refl;
  timeouts = refl;
}
set_queue-SameChain k (sema_queue p) xs = record {
  status = λ t. refl;
  waits = λ t. refl;
  protocol = λ a. refl;
  owner = λ a. refl;
  locked = λ a. refl;
  owned = λ t. refl;
  node = λ t. refl;
  timeouts = refl;
}
set_queue-SameChain k (mutex_queue p) xs = record {
  status = λ t. refl;
  waits = λ t. refl;
  protocol = λ a. ground arith;
  owner = λ a. ground arith;
  locked = λ a. ground arith;
  owned = λ t. refl;
  node = λ t. refl;
  timeouts = refl;
}
set_queue-SameChain k (sleep_queue p) xs = record {
  status = λ t. refl;
  waits = λ t. refl;
  protocol = λ a. refl;
  owner = λ a. refl;
  locked = λ a. refl;
  owned = λ t. refl;
  node = λ t. refl;
  timeouts = refl;
}
set_queue-SameChain k (receivers_queue p) xs = record {
  status = λ t. refl;
  waits = λ t. refl;
  protocol = λ a. refl;
  owner = λ a. refl;
  locked = λ a. refl;
  owned = λ t. refl;
  node = λ t. refl;
  timeouts = refl;
}
set_queue-SameChain k (senders_queue p) xs = record {
  status = λ t. refl;
  waits = λ t. refl;
  protocol = λ a. refl;
  owner = λ a. refl;
  locked = λ a. refl;
  owned = λ t. refl;
  node = λ t. refl;
  timeouts = refl;
}

if-SameChain :
    (b : Bool) (k k1 k2 : Kernel)
    → SameChain k k1
    → SameChain k k2
    → SameChain k (if b then k1 else k2)
if-SameChain true k k1 k2 f g = f
if-SameChain false k k1 k2 f g = g

if_pair-SameChain :
    (b : Bool) (k : Kernel) (x y : Bool × Kernel)
    → SameChain k x.1
    → SameChain k y.1
    → SameChain k (if b then x else y).1
if_pair-SameChain true k x y f g = f
if_pair-SameChain false k x y f g = g

pub set_prio-SameChain : (k : Kernel) (t p : ℕ) → SameChain k (set_prio k t p)
set_prio-SameChain k t p = record {
  status = λ i. ground arith;
  waits = λ i. ground arith;
  protocol = λ a. refl;
  owner = λ a. refl;
  locked = λ a. refl;
  owned = λ i. ground arith;
  node = λ i. ground arith;
  timeouts = refl;
}

same_bits : (k : Kernel) (f : ℕ → Bool) → SameChain k (record k { ready_bits = f })
same_bits k f = record {
  status = λ t. refl;
  waits = λ t. refl;
  protocol = λ a. refl;
  owner = λ a. refl;
  locked = λ a. refl;
  owned = λ t. refl;
  node = λ t. refl;
  timeouts = refl;
}

bitmask_set-SameChain : (k : Kernel) (p : ℕ) → SameChain k (bitmask_set k p)
unfolding bitmask_set
bitmask_set-SameChain k p = if-SameChain (tracks_prio p) k _ _ (same_bits k _) (SameChain-refl k)

bitmask_clear-SameChain : (k : Kernel) (p : ℕ) → SameChain k (bitmask_clear k p)
unfolding bitmask_clear
bitmask_clear-SameChain k p = if-SameChain (tracks_prio p) k _ _ (same_bits k _) (SameChain-refl k)

pub enq-SameChain : (k : Kernel) (q : QueueRef) (t : ℕ) → SameChain k (enq k q t)
unfolding enq
enq-SameChain k q t =
    let k' = set_queue k q (get_queue k q ++ t ∷ []) in
    let s = set_queue-SameChain k q (get_queue k q ++ t ∷ []) in
    if-SameChain (is_ready_queue q (prio_of k t)) k _ _
      (SameChain-trans s (bitmask_set-SameChain k' (prio_of k t))) s

pub clear-SameChain : (k : Kernel) (q : QueueRef) (p : ℕ) → SameChain k (clear_if_empty k q p)
unfolding clear_if_empty
clear-SameChain k q p =
    if-SameChain (is_ready_queue q p) k _ _
      (if-SameChain (is_nil (get_queue k q)) k _ _ (bitmask_clear-SameChain k p) (SameChain-refl k))
      (SameChain-refl k)

pub rem-SameChain : (k : Kernel) (q : QueueRef) (t : ℕ) → SameChain k (rem k q t)
unfolding rem
rem-SameChain k q t =
    SameChain-trans (set_queue-SameChain k q _) (clear-SameChain _ q (prio_of k t))

pub enq_by_prio-SameChain : (k : Kernel) (q : QueueRef) (t : ℕ) → SameChain k (enq_by_prio k q t)
unfolding enq_by_prio
enq_by_prio-SameChain k q t = set_queue-SameChain k q _

pend_now-SameChain : (k : Kernel) → SameChain k (pend_now k)
unfolding pend_now
pend_now-SameChain k = record {
  status = λ t. refl;
  waits = λ t. refl;
  protocol = λ a. refl;
  owner = λ a. refl;
  locked = λ a. refl;
  owned = λ t. refl;
  node = λ t. refl;
  timeouts = refl;
}

defer-SameChain : (k : Kernel) → SameChain k (defer k)
unfolding defer
defer-SameChain k = record {
  status = λ t. refl;
  waits = λ t. refl;
  protocol = λ a. refl;
  owner = λ a. refl;
  locked = λ a. refl;
  owned = λ t. refl;
  node = λ t. refl;
  timeouts = refl;
}

pend_of-SameChain : (k : Kernel) (s : Status) → SameChain k (pend_of k s)
unfolding pend_of
pend_of-SameChain k s = if-SameChain _ k _ _ (defer-SameChain k) (
    if-SameChain _ k _ _ (pend_now-SameChain k)
      (if-SameChain _ k _ _ (pend_now-SameChain k) (defer-SameChain k)))

pend_run-SameChain : (k : Kernel) (o : Option ℕ) → SameChain k (pend_run k o)
unfolding pend_run
pend_run-SameChain k none = if-SameChain _ k _ _ (pend_now-SameChain k) (defer-SameChain k)
pend_run-SameChain k (some t) = pend_of-SameChain k (k.tasks t).status

pub pend_switch-SameChain : (k : Kernel) → SameChain k (pend_switch k)
unfolding pend_switch
pend_switch-SameChain k = pend_run-SameChain k k.run

pub resched_task-SameChain : (k : Kernel) (r t : ℕ) → SameChain k (resched_task k r t).1
unfolding resched_task
resched_task-SameChain k r t =
    elim (Bool-cases
      (ltb (k.tasks t).priority (k.tasks r).priority && ((k.tasks r).preempt == 1))) [
        | inl e ↦
            rw (e, resched_task)
              (elim (Bool-cases (k.sch_lock == 0)) [
                | inl f ↦ rw f (pend_now-SameChain k)
                | inr f ↦ rw f (defer-SameChain k)
              ])
        | inr e ↦ rw (e, resched_task) (SameChain-refl k)
      ]

resched_run-SameChain :
    (k : Kernel) (o : Option ℕ) (k' : Kernel) → SameChain k k' → SameChain k (resched_run k o k').1
unfolding resched_run
resched_run-SameChain k none k' f = SameChain-refl k
resched_run-SameChain k (some r) k' f =
    elim (Bool-cases (
      status_eq_running (k.tasks r).status
      && ((k.tasks r).preempt == 1)
      && ltb (next_prio k) (k.tasks r).priority)) [
        | inl e ↦
            rw (e, resched_run)
              (elim (Bool-cases (k'.sch_lock == 0)) [ inl g ↦ rw g f | inr g ↦ rw g f ])
        | inr e ↦ rw (e, resched_run) (SameChain-refl k)
      ]

pub resched_running-SameChain : (k : Kernel) → SameChain k (resched_running k).1
unfolding resched_running
resched_running-SameChain k =
    resched_run-SameChain k k.run (pend_switch k) (pend_switch-SameChain k)

resched_if_any-SameChain : (k : Kernel) (o : Option ℕ) (t : ℕ) → SameChain k (resched_if_any k o t)
unfolding resched_if_any
resched_if_any-SameChain k none t = SameChain-refl k
resched_if_any-SameChain k (some r) t = resched_task-SameChain k r t

change_ready_prio-SameChain : (k : Kernel) (t p : ℕ) → SameChain k (change_ready_prio k t p)
unfolding change_ready_prio
change_ready_prio-SameChain k t p =
    SameChain-trans (rem-SameChain k (ready_queue (k.tasks t).priority) t) (
      SameChain-trans (set_prio-SameChain _ t p)
        (SameChain-trans (enq-SameChain _ (ready_queue p) t) (resched_if_any-SameChain _ _ t)))

change_prio-SameChain : (k : Kernel) (t p : ℕ) → SameChain k (change_prio k t p)
unfolding change_prio
change_prio-SameChain k t p =
    if-SameChain (status_eq_ready (k.tasks t).status) k _ _ (change_ready_prio-SameChain k t p) (
      if-SameChain (status_eq_running (k.tasks t).status) k _ _
        (SameChain-trans (set_prio-SameChain k t p) (resched_running-SameChain (set_prio k t p)))
        (set_prio-SameChain k t p))

pub update_effective_prio-SameChain :
    (k : Kernel) (t : ℕ) → SameChain k (update_effective_prio k t).1
unfolding update_effective_prio
update_effective_prio-SameChain k t =
    if_pair-SameChain (k.tasks t).init k _ _
      (if_pair-SameChain ((k.tasks t).priority == effective_prio k t) k _ _ (SameChain-refl k)
        (change_prio-SameChain k t (effective_prio k t)))
      (SameChain-refl k)

requeue_in-SameChain : (k : Kernel) (o : Option QueueRef) (t : ℕ) → SameChain k (requeue_in k o t)
unfolding requeue_in
requeue_in-SameChain k none t = SameChain-refl k
requeue_in-SameChain k (some q) t =
    if-SameChain _ k _ _ (SameChain-refl k)
      (SameChain-trans (rem-SameChain k q t) (enq_by_prio-SameChain (rem k q t) q t))

pub requeue_waiter-SameChain : (k : Kernel) (t : ℕ) → SameChain k (requeue_waiter k t)
unfolding requeue_waiter
requeue_waiter-SameChain k t = requeue_in-SameChain k (k.tasks t).timeout_node.waiting_queue t
