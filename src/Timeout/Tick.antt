-- ===== src/Timeout/Tick.antt =====
-- The loop over the expired timeouts does to the timeout list what `tick` of Delta does, and ends
-- within its fuel.
use rk.Base.{
  ℕ, zero, suc, ◌≤◌, ◌≡◌, ◌≢◌, refl, sym, ap, ◌∙◌, inl, inr, Bool, true, false, Option, none, some,
  List, [], ◌∷◌, ◌==◌, length, ltb, Bool-cases, arith,
}
use mathlib.Core.Path.{subst}
use rk.Base.Word.{ulong_max, add_word}
use rk.Base.Distinct.{All, NotIn, Distinct}
use rk.Err.{Err, success}
use rk.Kernel.{Kernel, TimeoutType, QueueRef, ready_queue, set_task}
use rk.Delta.{Node, dec_head, expire, tick, remove_node, donate}
use rk.Delta.Expiry.{ids, IsLive, tick-IsLive}
use rk.Sched.Queue.{prio_of, rem}
use rk.Sched.Prio.{mutex_owner}
use rk.Sched.Same.{SameChain, SameChain-refl, SameChain-trans, enq-SameChain, rem-SameChain}
use rk.Sched.Chain.{update_chain-SameChain}
use rk.Timeout.Node.{node_of, remove, reset}
use rk.Timeout.Expire.{
  wake, waiter_removed, update_owner_prio, leave_queue, node_ready, node_ready_by, expire_loop,
  handle_timeouts, chain_fuel,
}

-- the timeout list and the nodes of the other tasks, unchanged
record Keeps (k k' : Kernel) (t : ℕ) : Type 0 where
  timeouts : k'.timeouts ≡ k.timeouts
  node : (u : ℕ) → u ≢ t → node_of k' u ≡ node_of k u

Keeps-trans : {k k' k'' : Kernel} {t : ℕ} → SameChain k k' → Keeps k' k'' t → Keeps k k'' t
Keeps-trans s h = record { timeouts = h.timeouts ∙ s.timeouts; node = λ u n. h.node u n ∙ s.node u }

wake-Keeps : (k : Kernel) (t : ℕ) (b : Bool) → Keeps k (wake k t b) t
unfolding wake reset
wake-Keeps k t b =
    let s = enq-SameChain k (ready_queue (prio_of k t)) t in
    record { timeouts = s.timeouts; node = λ u n. ground (arith, n, s.node u) }

leave_queue-SameChain : (k : Kernel) (o : Option QueueRef) (t : ℕ) → SameChain k (leave_queue k o t)
unfolding leave_queue waiter_removed update_owner_prio
leave_queue-SameChain k none t = SameChain-refl k
leave_queue-SameChain k (some q) t =
    let k' = rem k q t in
    SameChain-trans (rem-SameChain k q t)
      (update_chain-SameChain chain_fuel k' (mutex_owner k' (k'.tasks t).waiting_for_mutex))

node_ready_by-Keeps : (k : Kernel) (t : ℕ) (y : TimeoutType) → Keeps k (node_ready_by k t y).1 t
unfolding node_ready_by
node_ready_by-Keeps k t TimeoutType.unset = record { timeouts = refl; node = λ u n. refl }
node_ready_by-Keeps k t TimeoutType.blocking =
    Keeps-trans (leave_queue-SameChain k (node_of k t).waiting_queue t) (wake-Keeps _ t true)
node_ready_by-Keeps k t TimeoutType.event_flags = wake-Keeps k t true
node_ready_by-Keeps k t TimeoutType.time_event = wake-Keeps k t (k.tasks t).time_out

node_ready-Keeps : (k : Kernel) (t : ℕ) → Keeps k (node_ready k t).1 t
unfolding node_ready
node_ready-Keeps k t = node_ready_by-Keeps k t (node_of k t).timeout_type

-- the kernel once the head `t` is unlinked
abbrev unlinked : Kernel → ℕ → Kernel
unlinked k t =
    set_task (record k { timeouts = remove_node k.timeouts t }) t
      (record (k.tasks t) { timeout_node = record (node_of k t) { armed = false } })

remove-armed :
    (k : Kernel) (t : ℕ) → (node_of k t).armed ≡ true → remove k t ≡ (success, unlinked k t)
unfolding remove
remove-armed k t e = rw (e, remove) refl

-- what the loop relies on: the linked nodes are armed, and their deltas are words
abbrev pub AllArmed : Kernel → List Node → Type 0
AllArmed k = All (λ c. ((node_of k c.id).armed ≡ true) × (c.dtick ≤ ulong_max))

AllArmed-keeps :
    (k k' : Kernel) (ns : List Node) (t : ℕ)
    → ((u : ℕ) → u ≢ t → node_of k' u ≡ node_of k u)
    → NotIn t (ids ns)
    → AllArmed k ns
    → AllArmed k' ns
AllArmed-keeps k k' [] t f n h = tt
AllArmed-keeps k k' (c ∷ cs) t f n h = (
  (ap (λ x. x.armed) (f c.id (λ e. n.0 (sym e))) ∙ h.0.0, h.0.1),
  AllArmed-keeps k k' cs t f n.1 h.1,
)

donate_none : (k : Kernel) (d : ℕ) (ns : List Node) → d ≡ 0 → AllArmed k ns → donate d ns ≡ ns
unfolding donate
donate_none k d [] z h = refl
donate_none k d (c ∷ cs) z h =
    ap (λ x. record c { dtick = x } ∷ cs) {x = add_word c.dtick d} {y = c.dtick}
      (omega (arith, z, h.0.1))

unlink-head : (c : Node) (cs : List Node) → remove_node (c ∷ cs) c.id ≡ donate c.dtick cs
unfolding remove_node
unlink-head c cs = ground arith

-- the kernel after one turn of the loop on node `t`
abbrev turned : Kernel → ℕ → Kernel
turned k t = (node_ready (unlinked k t) t).1

turned-timeouts :
    (k : Kernel) (c : Node) (cs : List Node)
    → k.timeouts ≡ c ∷ cs
    → c.dtick ≡ 0
    → AllArmed k cs
    → (turned k c.id).timeouts ≡ cs
turned-timeouts k c cs e z h =
    (node_ready-Keeps (unlinked k c.id) c.id).timeouts
    ∙ ap (λ l. remove_node l c.id) e
    ∙ unlink-head c cs
    ∙ donate_none k c.dtick cs z h

turned-node : (k : Kernel) (t u : ℕ) → u ≢ t → node_of (turned k t) u ≡ node_of k u
turned-node k t u n = (node_ready-Keeps (unlinked k t) t).node u n ∙ ground (arith, n)

abbrev is_ok : Err → Bool
is_ok success = true
is_ok _ = false

loop_step :
    (n : ℕ) (k : Kernel) (c : Node) (cs : List Node) (last : Bool)
    → (node_of k c.id).armed ≡ true
    → (c.dtick == 0) ≡ true
    → let k' = turned k c.id in
      expire_loop (suc n) k (c ∷ cs) last
      ≡ expire_loop n k' k'.timeouts (is_ok (node_ready (unlinked k c.id) c.id).0)
unfolding expire_loop
loop_step n k c cs last a z = rw z (
    ap
      (λ (x : Err × Kernel).
        let k'' = (node_ready x.1 c.id).1 in
        let rest =
          expire_loop n k'' k''.timeouts
            (elim (node_ready x.1 c.id).0 [ success ↦ true | _ ↦ false ]) in
        elim x.0 as (λ y. Bool × Kernel) [ success ↦ rest | _ ↦ (false, x.1) ])
      (remove-armed k c.id a))

loop_refines :
    (n : ℕ) (k : Kernel) (ns : List Node) (last : Bool)
    → k.timeouts ≡ ns
    → length ns ≤ n
    → Distinct (ids ns)
    → AllArmed k ns
    → (expire_loop n k ns last).1.timeouts ≡ (expire ns).1
unfolding expire_loop expire
loop_refines zero k [] last e l d h = e
loop_refines (suc n) k [] last e l d h = e
loop_refines zero k (c ∷ cs) last e l d h = ground (arith, l)
loop_refines (suc n) k (c ∷ cs) last e l d h = elim (Bool-cases (c.dtick == 0)) [
  | inl z ↦
      let k' = turned k c.id in
      let b = is_ok (node_ready (unlinked k c.id) c.id).0 in
      let w = turned-timeouts k c cs e (ground (arith, z)) h.1 in
      ap (λ x. x.1.timeouts) (loop_step n k c cs last h.0.0 z)
      ∙ ap (λ x. (expire_loop n k' x b).1.timeouts) w
      ∙ loop_refines n k' cs b w (omega (arith, l)) d.1
          (AllArmed-keeps k k' cs c.id (turned-node k c.id) d.0 h.1)
      ∙ rw z refl
  | inr z ↦ rw z e
]

ids-dec_head : (ns : List Node) → ids (dec_head ns) ≡ ids ns
unfolding dec_head
ids-dec_head [] = refl
ids-dec_head (c ∷ cs) = elim (Bool-cases (ltb 0 c.dtick)) [ inl e ↦ rw e refl | inr e ↦ rw e refl ]

AllArmed-dec_head : (k : Kernel) (ns : List Node) → AllArmed k ns → AllArmed k (dec_head ns)
unfolding dec_head
AllArmed-dec_head k [] h = tt
AllArmed-dec_head k (c ∷ cs) h = elim (Bool-cases (ltb 0 c.dtick)) [
  | inl e ↦ rw e ((h.0.0, omega (arith, h.0.1)), h.1)
  | inr e ↦ rw e h
]

-- kHandleTimeoutList, on a list that links no node twice and whose nodes are armed with
-- deltas that are words, leaves the list that a tick of the delta list leaves, in which no
-- node is due.
pub handle_timeouts_refines :
    (k : Kernel)
    → Distinct (ids k.timeouts)
    → AllArmed k k.timeouts
    → let left = (handle_timeouts k).1.timeouts in (left ≡ (tick k.timeouts).1) × IsLive left
unfolding handle_timeouts tick
handle_timeouts_refines k d h =
    let ns = dec_head k.timeouts in
    let k' = record k { timeouts = ns } in
    let e =
      loop_refines (length ns) k' ns false refl (omega arith)
        (subst Distinct (sym (ids-dec_head k.timeouts)) d) (AllArmed-dec_head k k.timeouts h) in
    (e, subst IsLive (sym e) (tick-IsLive k.timeouts))
