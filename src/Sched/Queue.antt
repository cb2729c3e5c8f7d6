-- ===== src/Sched/Queue.antt =====
-- The task queues and the ready bitmap (core/src/ksch.c, "TASK QUEUE MANAGEMENT"). A queue is
-- the list of the tids linked in it; core/src/klist.c, on which it stands, has its own module.
use rk.Base.{
  ℕ, Bool, true, false, Option, none, some, List, [], ◌∷◌, ◌++◌, ltb, ◌==◌, if◌then◌else◌,
}
use rk.Kernel.{
  Kernel, QueueRef, ready_queue, sema_queue, mutex_queue, sleep_queue, receivers_queue,
  senders_queue, update, get_queue, set_queue,
}

-- `readyBitmaskPrioLimit`: the bits of a ULONG
abbrev pub prio_limit : ℕ
prio_limit = 32

-- `idleTaskPrio`: what kCalcNextTaskPrio_ answers on an empty bitmap
abbrev pub idle_prio : ℕ
idle_prio = 32

-- kReadyBitmaskTracksPrio_
unfoldable pub tracks_prio : ℕ → Bool
tracks_prio p = ltb p prio_limit

-- kReadyBitmaskSet_, kReadyBitmaskClear_
unfoldable pub bitmask_set : Kernel → ℕ → Kernel
unfolding tracks_prio
bitmask_set k p = if tracks_prio p then record k { ready_bits = update k.ready_bits p true } else k

unfoldable pub bitmask_clear : Kernel → ℕ → Kernel
unfolding tracks_prio
bitmask_clear k p =
    if tracks_prio p then record k { ready_bits = update k.ready_bits p false } else k

-- `kobj == &RK_gReadyQueue[prio]`
unfoldable pub is_ready_queue : QueueRef → ℕ → Bool
is_ready_queue (ready_queue q) p = q == p
is_ready_queue (sema_queue a) p = false
is_ready_queue (mutex_queue a) p = false
is_ready_queue (sleep_queue a) p = false
is_ready_queue (receivers_queue a) p = false
is_ready_queue (senders_queue a) p = false

abbrev pub prio_of : Kernel → ℕ → ℕ
prio_of k t = (k.tasks t).priority

-- kTCBQEnq, whose result is always RK_ERR_SUCCESS
unfoldable pub enq : Kernel → QueueRef → ℕ → Kernel
unfolding bitmask_set is_ready_queue
enq k q t =
    let k' = set_queue k q (get_queue k q ++ t ∷ []) in
    if is_ready_queue q (prio_of k t) then bitmask_set k' (prio_of k t) else k'

-- kTCBQJam
unfoldable pub jam : Kernel → QueueRef → ℕ → Kernel
unfolding bitmask_set is_ready_queue
jam k q t =
    let k' = set_queue k q (t ∷ get_queue k q) in
    if is_ready_queue q (prio_of k t) then bitmask_set k' (prio_of k t) else k'

unfoldable pub is_nil : List ℕ → Bool
is_nil [] = true
is_nil (x ∷ xs) = false

-- the last `if` of kTCBQDeq and kTCBQRem: the bit goes with the last task
unfoldable pub clear_if_empty : Kernel → QueueRef → ℕ → Kernel
unfolding bitmask_clear is_ready_queue is_nil
clear_if_empty k q p =
    if is_ready_queue q p then (if is_nil (get_queue k q) then bitmask_clear k p else k) else k

-- kTCBQDeq: on an empty queue the code reads through a null node, `none` here.
unfoldable pub deq_list : Kernel → QueueRef → List ℕ → Option (ℕ × Kernel)
unfolding clear_if_empty
deq_list k q [] = none
deq_list k q (t ∷ ts) = some (t, clear_if_empty (set_queue k q ts) q (prio_of k t))

unfoldable pub deq : Kernel → QueueRef → Option (ℕ × Kernel)
unfolding deq_list
deq k q = deq_list k q (get_queue k q)

-- kListRemove on the tids: the task's node leaves the list it is linked in.
unfoldable pub remove_tid : List ℕ → ℕ → List ℕ
remove_tid [] t = []
remove_tid (x ∷ xs) t = let rest = remove_tid xs t in if x == t then xs else x ∷ rest

-- kTCBQRem of a task that is linked in this queue
unfoldable pub rem : Kernel → QueueRef → ℕ → Kernel
unfolding remove_tid clear_if_empty
rem k q t = clear_if_empty (set_queue k q (remove_tid (get_queue k q) t)) q (prio_of k t)

-- kTCBQPeek of a queue that is not empty
unfoldable pub peek : Kernel → QueueRef → Option ℕ
peek k q = elim (get_queue k q) [ [] ↦ none | t ∷ ts ↦ some t ]

-- the `while` of kTCBQEnqByPrio: behind every task that is at least as urgent
unfoldable pub insert_by_prio : (ℕ → ℕ) → List ℕ → ℕ → List ℕ
insert_by_prio prio [] t = t ∷ []
insert_by_prio prio (c ∷ cs) t =
    let rest = insert_by_prio prio cs t in if ltb (prio t) (prio c) then t ∷ c ∷ cs else c ∷ rest

-- kTCBQEnqByPrio
unfoldable pub enq_by_prio : Kernel → QueueRef → ℕ → Kernel
unfolding insert_by_prio
enq_by_prio k q t = set_queue k q (insert_by_prio (prio_of k) (get_queue k q) t)
