-- ===== src/Sched/Prio.antt =====
-- Effective priorities (core/src/ksch.c): the inheritance from the waiters of the mutexes that a
-- task owns, and its propagation along a chain of blocked owners.
use rk.Base.{
  ℕ, zero, suc, Bool, true, false, Option, none, some, List, [], ◌∷◌, length, ltb, leb, ◌==◌,
  if◌then◌else◌,
}
use rk.Kernel.{Kernel, Status, Mutex, Protocol, QueueRef, ready_queue, set_task, get_queue}
use rk.Sched.Queue.{enq, rem, enq_by_prio, prio_of}
use rk.Sched.Resched.{status_eq_ready, status_eq_running, resched_task, resched_running}

-- kTaskMinPrio_
unfoldable pub min_prio : ℕ → ℕ → ℕ
min_prio current candidate = if ltb candidate current then candidate else current

-- the priority of the first waiter, which bounds the owner's
unfoldable pub waiter_prio : Kernel → List ℕ → ℕ → ℕ
unfolding min_prio
waiter_prio k [] current = current
waiter_prio k (w ∷ ws) current = min_prio current (prio_of k w)

-- one turn of the `while` of kTaskOwnedMutexPipPrio_
unfoldable pub mutex_prio : Kernel → Mutex → ℕ → ℕ
unfolding waiter_prio
mutex_prio k m current = elim m.protocol [
  | Protocol.prio_none ↦ current
  | Protocol.prio_inheritance ↦ waiter_prio k m.waiting current
]

-- kTaskOwnedMutexPipPrio_
unfoldable pub owned_prio : Kernel → List ℕ → ℕ → ℕ
unfolding mutex_prio
owned_prio k [] current = current
owned_prio k (a ∷ rest) current = owned_prio k rest (mutex_prio k (k.mutexes a) current)

-- kTaskCalcEffectivePrio_ without the message services
unfoldable pub effective_prio : Kernel → ℕ → ℕ
unfolding owned_prio
effective_prio k t = owned_prio k (k.tasks t).owned_mutexes (k.tasks t).prio_nominal

abbrev pub set_prio : Kernel → ℕ → ℕ → Kernel
set_prio k t p = set_task k t (record (k.tasks t) { priority = p })

-- kTaskRequeueWaiterByPrio_ of a task that its wait queue links
unfoldable pub requeue_in : Kernel → Option QueueRef → ℕ → Kernel
unfolding rem enq_by_prio
requeue_in k none t = k
requeue_in k (some q) t = if leb (length (get_queue k q)) 1 then k else enq_by_prio (rem k q t) q t

unfoldable pub requeue_waiter : Kernel → ℕ → Kernel
unfolding requeue_in
requeue_waiter k t = requeue_in k (k.tasks t).timeout_node.waiting_queue t

-- kReschedTask where something runs
unfoldable pub resched_if_any : Kernel → Option ℕ → ℕ → Kernel
unfolding resched_task
resched_if_any k none t = k
resched_if_any k (some r) t = (resched_task k r t).1

-- the two branches of kTaskUpdateEffectivePrio that set a new priority
unfoldable pub change_ready_prio : Kernel → ℕ → ℕ → Kernel
unfolding rem enq resched_if_any
change_ready_prio k t p =
    let k' = set_prio (rem k (ready_queue (k.tasks t).priority) t) t p in
    let k'' = enq k' (ready_queue p) t in resched_if_any k'' k''.run t

unfoldable pub change_prio : Kernel → ℕ → ℕ → Kernel
unfolding change_ready_prio resched_running status_eq_ready status_eq_running
change_prio k t p =
    if status_eq_ready (k.tasks t).status
    then change_ready_prio k t p
    else (let k' = set_prio k t p in
        if status_eq_running (k.tasks t).status then (resched_running k').1 else k')

-- kTaskUpdateEffectivePrio of a task that is there
unfoldable pub update_effective_prio : Kernel → ℕ → Bool × Kernel
unfolding effective_prio change_prio
update_effective_prio k t =
    let p = effective_prio k t in
    if (k.tasks t).init
    then (if (k.tasks t).priority == p then (false, k) else (true, change_prio k t p))
    else (false, k)

-- the two tests that end a turn of kTaskUpdateEffectivePrioChain: whose priority is next
unfoldable pub next_owner : Protocol → Option ℕ → Option ℕ
next_owner Protocol.prio_none o = none
next_owner Protocol.prio_inheritance o = o

unfoldable pub mutex_owner : Kernel → Option ℕ → Option ℕ
unfolding next_owner
mutex_owner k none = none
mutex_owner k (some a) = next_owner (k.mutexes a).protocol (k.mutexes a).owner

unfoldable pub is_blocked : Status → Bool
is_blocked Status.blocked = true
is_blocked _ = false

unfoldable pub chain_next : Kernel → ℕ → Option ℕ
unfolding mutex_owner is_blocked
chain_next k t =
    if is_blocked (k.tasks t).status then mutex_owner k (k.tasks t).waiting_for_mutex else none

-- kTaskUpdateEffectivePrioChain for at most `fuel` tasks; whether it stopped by itself
unfoldable pub update_chain : ℕ → Kernel → Option ℕ → Bool × Kernel
unfolding update_effective_prio requeue_waiter chain_next
update_chain n k none = (true, k)
update_chain zero k (some t) = (false, k)
update_chain (suc n) k (some t) =
    let (changed, k') = update_effective_prio k t in
    let k'' = requeue_waiter k' t in
    let rest = update_chain n k'' (chain_next k'' t) in if changed then rest else (true, k')
