-- ===== src/Mesgq/Reach.antt =====
-- The states that a message queue reaches.
use rk.Base.{
  ℕ, ◌+◌, ◌*◌, ◌<◌, ◌≤◌, ◌≡◌, refl, sym, inl, inr, Bool, true, false, ◌||◌, not, Option, some, ◌==◌,
  Bool-cases, arith, if◌then◌else◌,
}
use mathlib.Core.Path.{subst}
use rk.Base.Word.{ulong_max, address_mod}
use rk.RingBuf as RingBuf
use rk.RingBuf.{Ring}
use rk.RingBuf.Inv.{ReadsAt, init-ReadsAt}
use rk.Err.{Err, success}
use rk.Kernel.{Kernel, QueueRef, checked, checked-case, if-case}
use rk.Sched.Queue.{prio_of, rem, remove_tid, clear_if_empty, is_ready_queue}
use rk.Sched.Resched.{raw_init_guard}
use rk.Sched.Frame.{Frame}
use rk.PostProc.Frame.{job_enq-Frame}
use rk.Mesgq.Defs.{mesgq_ready_err, init, init_at, init_ring, ring_or, is_mesg_words}
use rk.Mesgq.Ops.{
  send, send_resume, jam, jam_resume, recv, recv_resume, peek, post_ovw, reset, reset_ready,
  reset_or_defer,
}
use rk.Mesgq.Laws.{IsSound, Holds, Holds-Frame, set_mesgq-Holds}
use rk.Mesgq.Keep.{remove_tid-IsOrdered, remove_receiver-Holds, peek-Holds, post_ovw-Holds}
use rk.Mesgq.Sound.{
  IsOf, send-Holds, send_resume-Holds, jam-Holds, jam_resume-Holds, recv-Holds, recv_resume-Holds,
}
use rk.Mesgq.Broadcast.{
  prepare_broadcast_receivers, broadcast_wake, prepare_broadcast_receivers-Holds,
  broadcast_wake-Holds,
}
use rk.Mesgq.Drain.{reset_ready_lem, emptied-IsSound}

-- A call on the queue `a`, a step of a broadcast, a timeout that takes a waiting task off it, or anything else that changes
-- neither message queues nor priorities.
pub data Step (a : ℕ) : Kernel → Kernel → Type 0 where
  sends : (k : Kernel) (r : ℕ) (p : Option ℕ) (ticks : ℕ) → Step a k (send k r a p ticks).1
  sends_on : (k : Kernel) (r src ticks : ℕ) → Step a k (send_resume k r a src ticks).1
  jams : (k : Kernel) (r : ℕ) (p : Option ℕ) (ticks : ℕ) → Step a k (jam k r a p ticks).1
  jams_on : (k : Kernel) (r src ticks : ℕ) → Step a k (jam_resume k r a src ticks).1
  receives : (k : Kernel) (r : ℕ) (p : Option ℕ) (ticks : ℕ) → Step a k (recv k r a p ticks).1
  receives_on : (k : Kernel) (r dst ticks : ℕ) → Step a k (recv_resume k r a dst ticks).1
  peeks : (k : Kernel) (p : Option ℕ) → Step a k (peek k a p).1
  overwrites : (k : Kernel) (r : ℕ) (p : Option ℕ) → Step a k (post_ovw k r a p).1
  resets : (k : Kernel) (r : ℕ) → Step a k (reset k r a).1
  marks : (k : Kernel) (n : ℕ) → Step a k (prepare_broadcast_receivers k a n).1
  wakes : (k : Kernel) (r n : ℕ) → Step a k (broadcast_wake k r a n).1
  times_out : (k : Kernel) (q : QueueRef) (t : ℕ) → IsOf q a → Step a k (rem k q t)
  goes_on : {k k' : Kernel} → Frame k k' → Step a k k'

pub data Reaches (a : ℕ) : Kernel → Type 0 where
  opens :
      (k : Kernel) (buf words n : ℕ)
      → 0 < buf
      → n ≤ ulong_max
      → buf + words * n < address_mod
      → (init k (some a) (some buf) words n).0 ≡ success
      → Reaches a (init k (some a) (some buf) words n).1
  goes : {k k' : Kernel} → Reaches a k → Step a k k' → Reaches a k'

rem-Holds : (k : Kernel) (a : ℕ) (q : QueueRef) (t : ℕ) → IsOf q a → Holds k a → Holds (rem k q t) a
unfolding rem clear_if_empty is_ready_queue
rem-Holds k a q t (inl e) h =
    subst (λ x. Holds (rem k x t) a) (sym e) (remove_receiver-Holds k a t h)
rem-Holds k a q t (inr e) h =
    let ys = remove_tid (k.mesgqs a).waiting_senders t in
    subst (λ x. Holds (rem k x t) a) (sym e)
      (set_mesgq-Holds k a (record (k.mesgqs a) { waiting_senders = ys })
        (record {
          reads_at = h.reads_at;
          receivers = h.receivers;
          senders = remove_tid-IsOrdered (prio_of k) (k.mesgqs a).waiting_senders t h.senders;
        }))

reset_ready-Holds : (k : Kernel) (r a : ℕ) → Holds k a → Holds (reset_ready k r a) a
reset_ready-Holds k r a h =
    subst (IsSound (prio_of (reset_ready k r a))) (sym (reset_ready_lem k r a))
      (emptied-IsSound (prio_of k) (prio_of (reset_ready k r a)) (k.mesgqs a) h)

reset_or_defer-Holds : (k : Kernel) (r a : ℕ) → Holds k a → Holds (reset_or_defer k r a).1 a
unfolding reset_or_defer
reset_or_defer-Holds k r a h =
    if-case (λ x. Holds x a) _ _ (success, reset_ready k r a)
      (Holds-Frame _ _ a (job_enq-Frame k r _) h) (reset_ready-Holds k r a h)

reset-Holds : (k : Kernel) (r a : ℕ) → Holds k a → Holds (reset k r a).1 a
unfolding reset
reset-Holds k r a h =
    checked-case (λ x. Holds x a) (mesgq_ready_err k a) (reset_or_defer k r a) k
      (reset_or_defer-Holds k r a h) h

Step-Holds : (a : ℕ) {k k' : Kernel} → Step a k k' → Holds k a → Holds k' a
Step-Holds a (sends k r p ticks) h = send-Holds k r a h p ticks
Step-Holds a (sends_on k r src ticks) h = send_resume-Holds k r a h src ticks
Step-Holds a (jams k r p ticks) h = jam-Holds k r a h p ticks
Step-Holds a (jams_on k r src ticks) h = jam_resume-Holds k r a h src ticks
Step-Holds a (receives k r p ticks) h = recv-Holds k r a h p ticks
Step-Holds a (receives_on k r dst ticks) h = recv_resume-Holds k r a dst ticks h
Step-Holds a (peeks k p) h = peek-Holds k a p h
Step-Holds a (overwrites k r p) h = post_ovw-Holds k r a p h
Step-Holds a (resets k r) h = reset-Holds k r a h
Step-Holds a (marks k n) h = prepare_broadcast_receivers-Holds k a n h
Step-Holds a (wakes k r n) h = broadcast_wake-Holds k r a n h
Step-Holds a (times_out k q t o) h = rem-Holds k a q t o h
Step-Holds a (goes_on f) h = Holds-Frame _ _ a f h

-- what a call that succeeded left
abbrev Opened : ℕ → Err × Kernel → Type 0
Opened a x = x.0 ≡ success → Holds x.1 a

init_ring-Holds : (k : Kernel) (a : ℕ) (r : Ring) (i : ℕ) → ReadsAt r i → Holds (init_ring k a r) a
unfolding init_ring
init_ring-Holds k a r i v =
    set_mesgq-Holds k a _ (record { reads_at = (i, v); receivers = tt; senders = tt })

-- the ring that kRingBufInit makes of storage that is there
made-ReadsAt :
    (b : Ring) (buf words n : ℕ)
    → 0 < buf
    → n ≤ ulong_max
    → buf + words * n < address_mod
    → is_mesg_words words ≡ true
    → (n == 0) ≡ false
    → ReadsAt (ring_or b (RingBuf.init b buf words n)) 0
unfolding ring_or RingBuf.init is_mesg_words
made-ReadsAt b buf words n p l u w z = elim (Bool-cases (buf == 0 || (words == 0 || n == 0))) [
  | inl c ↦ absurd (ground (arith, c, w, z, p))
  | inr c ↦ rw c (init-ReadsAt b buf words n l u (rw c refl)).0
]

if-Opened :
    (a : ℕ) (b : Bool) (x y : Err × Kernel)
    → (b ≡ true → Opened a x)
    → (b ≡ false → Opened a y)
    → Opened a (if b then x else y)
if-Opened a true x y f g = f refl
if-Opened a false x y f g = g refl

not-false : (b : Bool) → not b ≡ false → b ≡ true
not-false true e = refl
not-false false e = cc e

init_at-Opened :
    (k : Kernel) (a buf words n : ℕ)
    → 0 < buf
    → n ≤ ulong_max
    → buf + words * n < address_mod
    → Opened a (init_at k (some a) (some buf) words n)
unfolding init_at
init_at-Opened k a buf words n p l u =
    let b = (k.mesgqs a).ring_buf in
    if-Opened a (not (is_mesg_words words)) _ _ (λ w e. cc e)
      (λ w.
        if-Opened a (n == 0) _ _ (λ z e. cc e)
          (λ z.
            if-Opened a (k.mesgqs a).header.init _ _ (λ d e. cc e)
              (λ d e.
                init_ring-Holds k a (ring_or b (RingBuf.init b buf words n)) 0
                  (made-ReadsAt b buf words n p l u (not-false (is_mesg_words words) w) z))))

checked-Opened :
    (k : Kernel) (a : ℕ) (e : Err) (x : Err × Kernel) → Opened a x → Opened a (checked e x k)
checked-Opened k a success x o = o
checked-Opened k a e x o = λ q. cc q

init-Opened :
    (k : Kernel) (a buf words n : ℕ)
    → 0 < buf
    → n ≤ ulong_max
    → buf + words * n < address_mod
    → Opened a (init k (some a) (some buf) words n)
unfolding init
init-Opened k a buf words n p l u =
    checked-Opened k a (raw_init_guard k) _ (init_at-Opened k a buf words n p l u)

-- From a kMesgQueueInit that succeeds, of a buffer that is there, holds at most 2^32 - 1
-- messages and ends before the end of the address space, whatever sends, jams, receives,
-- peeks, overwrites, resets, at once or left to the post-processing task, preparations of a
-- broadcast and wake-ups by one follow, in either half, with timeouts that take waiting
-- tasks off and any steps between that change neither message queues nor priorities, nor the
-- memory, the other objects, the running task and the domains: the ring of the queue stays
-- valid, and its receivers and senders each wait by priority.
pub Reaches-Holds : (a : ℕ) {k : Kernel} → Reaches a k → Holds k a
Reaches-Holds a (opens k buf words n p l u e) = init-Opened k a buf words n p l u e
Reaches-Holds a (goes g s) = Step-Holds a s (Reaches-Holds a g)
