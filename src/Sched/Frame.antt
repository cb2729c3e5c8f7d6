-- ===== src/Sched/Frame.antt =====
-- What the scheduler leaves alone: the objects, and the priorities of the tasks.
use rk.Base.{
  ℕ, ◌≡◌, refl, ◌∙◌, Bool, true, false, Option, none, some, List, ◌==◌, ltb, ◌&&◌, arith,
  if◌then◌else◌,
}
use rk.Err.{Err}
use rk.Kernel.{Kernel, Tcb, Status, ready_queue, set_queue, set_task}
use rk.Sched.Queue.{prio_of, enq, jam, bitmask_set, bitmask_clear, tracks_prio, is_ready_queue}
use rk.Sched.Resched.{resched_task, pend_switch, pend_run, pend_now, defer, pend_of}
use rk.Sched.Switch.{ready_no_switch, ready_switch, set_status, postproc_tid}

pub record Frame (k k' : Kernel) : Type 0 where
  pub semas : k'.semas ≡ k.semas
  pub mutexes : k'.mutexes ≡ k.mutexes
  pub sleepqs : k'.sleepqs ≡ k.sleepqs
  pub mesgqs : k'.mesgqs ≡ k.mesgqs
  pub memory : k'.memory ≡ k.memory
  pub prio : (t : ℕ) → prio_of k' t ≡ prio_of k t
  pub owned : (t : ℕ) → (k'.tasks t).owned_mutexes ≡ (k.tasks t).owned_mutexes
  pub domain : (t : ℕ) → (k'.tasks t).domain ≡ (k.tasks t).domain
  pub run : k'.run ≡ k.run

pub Frame-refl : (k : Kernel) → Frame k k
Frame-refl k = record {
  semas = refl;
  mutexes = refl;
  sleepqs = refl;
  mesgqs = refl;
  memory = refl;
  prio = λ t. refl;
  owned = λ t. refl;
  domain = λ t. refl;
  run = refl;
}

pub Frame-trans : {k k' k'' : Kernel} → Frame k k' → Frame k' k'' → Frame k k''
Frame-trans f g = record {
  semas = g.semas ∙ f.semas;
  mutexes = g.mutexes ∙ f.mutexes;
  sleepqs = g.sleepqs ∙ f.sleepqs;
  mesgqs = g.mesgqs ∙ f.mesgqs;
  memory = g.memory ∙ f.memory;
  prio = λ t. g.prio t ∙ f.prio t;
  owned = λ t. g.owned t ∙ f.owned t;
  domain = λ t. g.domain t ∙ f.domain t;
  run = g.run ∙ f.run;
}

pub if-Frame :
    (b : Bool) (k k1 k2 : Kernel) → Frame k k1 → Frame k k2 → Frame k (if b then k1 else k2)
if-Frame true k k1 k2 f g = f
if-Frame false k k1 k2 f g = g

pub if_result-Frame :
    (b : Bool) (k : Kernel) (x y : Err × Kernel)
    → Frame k x.1
    → Frame k y.1
    → Frame k (if b then x else y).1
if_result-Frame true k x y f g = f
if_result-Frame false k x y f g = g

-- a task's record changes, its priority does not
pub set_task-Frame :
    (k : Kernel) (t : ℕ) (c : Tcb)
    → c.priority ≡ prio_of k t
    → c.owned_mutexes ≡ (k.tasks t).owned_mutexes
    → c.domain ≡ (k.tasks t).domain
    → Frame k (set_task k t c)
set_task-Frame k t c e f g = record {
  semas = refl;
  mutexes = refl;
  sleepqs = refl;
  mesgqs = refl;
  memory = refl;
  run = refl;
  prio = λ i. ground (arith, e);
  owned = λ i. ground (arith, f);
  domain = λ i. ground (arith, g);
}

pub pend_now-Frame : (k : Kernel) → Frame k (pend_now k)
unfolding pend_now
pend_now-Frame k = record {
  semas = refl;
  mutexes = refl;
  sleepqs = refl;
  mesgqs = refl;
  memory = refl;
  prio = λ t. refl;
  owned = λ t. refl;
  domain = λ t. refl;
  run = refl;
}

defer-Frame : (k : Kernel) → Frame k (defer k)
unfolding defer
defer-Frame k = record {
  semas = refl;
  mutexes = refl;
  sleepqs = refl;
  mesgqs = refl;
  memory = refl;
  prio = λ t. refl;
  owned = λ t. refl;
  domain = λ t. refl;
  run = refl;
}

pend_of-Frame : (k : Kernel) (s : Status) → Frame k (pend_of k s)
unfolding pend_of
pend_of-Frame k s =
    if-Frame _ k _ _ (defer-Frame k)
      (if-Frame _ k _ _ (pend_now-Frame k) (if-Frame _ k _ _ (pend_now-Frame k) (defer-Frame k)))

pend_run-Frame : (k : Kernel) (o : Option ℕ) → Frame k (pend_run k o)
unfolding pend_run
pend_run-Frame k none = if-Frame _ k _ _ (pend_now-Frame k) (defer-Frame k)
pend_run-Frame k (some t) = pend_of-Frame k (k.tasks t).status

pub pend_switch-Frame : (k : Kernel) → Frame k (pend_switch k)
unfolding pend_switch
pend_switch-Frame k = pend_run-Frame k k.run

pub resched_task-Frame : (k : Kernel) (r t : ℕ) → Frame k (resched_task k r t).1
unfolding resched_task
resched_task-Frame k r t =
    if_result-Frame (ltb (k.tasks t).priority (k.tasks r).priority && ((k.tasks r).preempt == 1)) k
      _ _ (if_result-Frame (k.sch_lock == 0) k _ _ (pend_now-Frame k) (defer-Frame k))
      (Frame-refl k)

bits-Frame : (k : Kernel) (f : ℕ → Bool) → Frame k (record k { ready_bits = f })
bits-Frame k f = record {
  semas = refl;
  mutexes = refl;
  sleepqs = refl;
  mesgqs = refl;
  memory = refl;
  prio = λ t. refl;
  owned = λ t. refl;
  domain = λ t. refl;
  run = refl;
}

pub bitmask_clear-Frame : (k : Kernel) (p : ℕ) → Frame k (bitmask_clear k p)
unfolding bitmask_clear
bitmask_clear-Frame k p = if-Frame (tracks_prio p) k _ _ (bits-Frame k _) (Frame-refl k)

bitmask_set-Frame : (k : Kernel) (p : ℕ) → Frame k (bitmask_set k p)
unfolding bitmask_set
bitmask_set-Frame k p = if-Frame (tracks_prio p) k _ _ (bits-Frame k _) (Frame-refl k)

lists-Frame : (k : Kernel) (p : ℕ) (xs : List ℕ) → Frame k (set_queue k (ready_queue p) xs)
lists-Frame k p xs = record {
  semas = refl;
  mutexes = refl;
  sleepqs = refl;
  mesgqs = refl;
  memory = refl;
  prio = λ t. refl;
  owned = λ t. refl;
  domain = λ t. refl;
  run = refl;
}

pub enq-Frame : (k : Kernel) (p t : ℕ) → Frame k (enq k (ready_queue p) t)
unfolding enq
enq-Frame k p t =
    if-Frame (is_ready_queue (ready_queue p) (prio_of k t)) k _ _
      (Frame-trans (lists-Frame k p _) (bitmask_set-Frame _ (prio_of k t))) (lists-Frame k p _)

pub jam-Frame : (k : Kernel) (p t : ℕ) → Frame k (jam k (ready_queue p) t)
unfolding jam
jam-Frame k p t =
    if-Frame (is_ready_queue (ready_queue p) (prio_of k t)) k _ _
      (Frame-trans (lists-Frame k p _) (bitmask_set-Frame _ (prio_of k t))) (lists-Frame k p _)

pub set_status-Frame : (k : Kernel) (t : ℕ) (s : Status) → Frame k (set_status k t s)
set_status-Frame k t s = set_task-Frame k t (record (k.tasks t) { status = s }) refl refl refl

pub ready_no_switch-Frame : (k : Kernel) (t : ℕ) → Frame k (ready_no_switch k t)
unfolding ready_no_switch
ready_no_switch-Frame k t =
    Frame-trans
      (if-Frame (t == postproc_tid) k _ _ (jam-Frame k (prio_of k t) t)
        (enq-Frame k (prio_of k t) t))
      (set_status-Frame _ t Status.ready)

-- kReadySwtch changes no object, no priority and not the running task.
pub ready_switch-Frame : (k : Kernel) (r t : ℕ) → Frame k (ready_switch k r t).1
unfolding ready_switch
ready_switch-Frame k r t =
    Frame-trans (ready_no_switch-Frame k t) (resched_task-Frame (ready_no_switch k t) r t)
