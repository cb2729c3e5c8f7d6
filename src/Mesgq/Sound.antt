-- ===== src/Mesgq/Sound.antt =====
-- Every call on a message queue keeps it in order.
use rk.Base.{
  ℕ, ◌+◌, ◌<◌, ◌≡◌, refl, sym, ◌⊎◌, inl, inr, false, ◌&&◌, Option, none, some, ltb, ◌==◌,
  Bool-cases, arith, if◌then◌else◌,
}
use mathlib.Core.Path.{subst}
use rk.Base.Memory.{Mem}
use rk.RingBuf.{Ring}
use rk.RingBuf as RingBuf
use rk.RingBuf.Inv.{ReadsAt, write-ReadsAt, read-ReadsAt, jam-ReadsAt, overwrite-ReadsAt}
use rk.Err.{Err, success}
use rk.Kernel.{
  Kernel, QueueRef, Status, TimeoutType, WaitInfo, receivers_queue, senders_queue, update-same,
  if-case, checked_wait-case, set_task,
}
use rk.Sched.Queue.{prio_of, enq_by_prio, insert_by_prio}
use rk.Sched.Order.{insert-IsOrdered}
use rk.Sched.Frame.{
  Frame, Frame-refl, Frame-trans, if-Frame, pend_switch-Frame, set_task-Frame, set_status-Frame,
}
use rk.Sched.Resched.{pend_switch}
use rk.Sched.Switch.{set_status}
use rk.Timeout.Node.{setup, add, forget, is_bounded, stop_timeout}
use rk.Timeout.Frame.{add-Frame, set_node-Frame, stop_timeout-Frame}
use rk.Mesgq.Defs.{mesgq_ready_err, set_ring, set_recv_buf, set_wait_info, wait_info_of}
use rk.Mesgq.Ops.{
  block, block_bounded, wait, is_full, has_none, Put, put_or_deliver, deposit, send_wait,
  send_ready, send_by, send_by_resume, send, jam, send_resume, jam_resume, take, recv_mark,
  recv_wait, recv_ready, recv, is_direct, recv_resume,
}
use rk.Mesgq.Laws.{
  IsSound, Holds, Holds-Frame, set_mesgq-Holds, set_wait_info-Frame, set_recv_buf-Frame,
  wake_normal_receiver-Holds, wake_sender-Holds, direct_send-Holds, Sent,
}

-- one of the two queues of the message queue
abbrev pub IsOf : QueueRef → ℕ → Type 0
IsOf q a = (q ≡ receivers_queue a) ⊎ (q ≡ senders_queue a)

enq_by_prio-Holds :
    (k : Kernel) (a : ℕ) (q : QueueRef) (r : ℕ) → IsOf q a → Holds k a → Holds (enq_by_prio k q r) a
unfolding enq_by_prio
enq_by_prio-Holds k a q r (inl e) h =
    let ys = insert_by_prio (prio_of k) (k.mesgqs a).waiting_receivers r in
    subst (λ x. Holds (enq_by_prio k x r) a) (sym e)
      (set_mesgq-Holds k a (record (k.mesgqs a) { waiting_receivers = ys })
        (record {
          reads_at = h.reads_at;
          receivers = insert-IsOrdered (prio_of k) (k.mesgqs a).waiting_receivers r h.receivers;
          senders = h.senders;
        }))
enq_by_prio-Holds k a q r (inr e) h =
    let ys = insert_by_prio (prio_of k) (k.mesgqs a).waiting_senders r in
    subst (λ x. Holds (enq_by_prio k x r) a) (sym e)
      (set_mesgq-Holds k a (record (k.mesgqs a) { waiting_senders = ys })
        (record {
          reads_at = h.reads_at;
          receivers = h.receivers;
          senders = insert-IsOrdered (prio_of k) (k.mesgqs a).waiting_senders r h.senders;
        }))

module _ (a : ℕ) (mark : Kernel → Kernel) (marks : (k : Kernel) → Frame k (mark k)) where
  block-Holds :
      (k : Kernel) (r : ℕ) (q : QueueRef) → IsOf q a → Holds k a → Holds (block (mark k) r q) a
  unfolding block
  block-Holds k r q o h =
      let k1 = enq_by_prio (mark k) q r in
      Holds-Frame k1 (pend_switch k1) a (pend_switch-Frame k1)
        (enq_by_prio-Holds (mark k) a q r o (Holds-Frame k _ a (marks k) h))

  block_bounded-Holds :
      (x : Err × Kernel) (r : ℕ) (q : QueueRef)
      → IsOf q a
      → Holds x.1 a
      → Holds (block_bounded mark x r q).1 a
  unfolding block_bounded
  block_bounded-Holds (success, k) r q o h = block-Holds k r q o h
  block_bounded-Holds (e, k) r q o h = Holds-Frame k (forget k r) a (set_node-Frame k r _) h

  wait-Holds :
      (k : Kernel) (r : ℕ) (q : QueueRef) (ticks : ℕ)
      → IsOf q a
      → Holds k a
      → Holds (wait mark k r q ticks).1 a
  unfolding wait
  wait-Holds k r q ticks o h =
      let k1 = setup k r TimeoutType.blocking (some q) in
      if-case (λ x. Holds x a) (is_bounded ticks) _ _
        (block_bounded-Holds (add k1 r ticks) r q o
          (Holds-Frame k _ a (Frame-trans (set_node-Frame k r _) (add-Frame k1 r ticks)) h))
        (block-Holds k r q o h)

pub set_ring-Holds :
    (k : Kernel) (a : ℕ) (x : Ring × Mem)
    → (i : ℕ) × ReadsAt x.0 i
    → Holds k a
    → Holds (set_ring k a x) a
set_ring-Holds k a x v h =
    let s = record (k.mesgqs a) { ring_buf = x.0 } in
    let g : IsSound (prio_of k) s = record {
      reads_at = v;
      receivers = h.receivers;
      senders = h.senders;
    } in
    subst (IsSound (prio_of k)) (sym (update-same k.mesgqs a s)) g

-- an operation that adds a message to a ring in order with room keeps it so
abbrev Keeps : Put → Type 0
Keeps put =
    (r : Ring) (i : ℕ) (m : Mem) (src : ℕ)
    → ReadsAt r i
    → r.n_full < r.max_buf
    → (j : ℕ) × ReadsAt (put r m src).0 j

write-Keeps : Keeps RingBuf.write
write-Keeps r i m src v l = (i, write-ReadsAt r i m src v l)

jam-Keeps : Keeps RingBuf.jam
jam-Keeps r i m src v l = (RingBuf.Inv.prev r.max_buf i, jam-ReadsAt r i m src v l)

stopped-Frame :
    (k : Kernel) (r ticks : ℕ)
    → Frame k (if is_bounded ticks then stop_timeout k r TimeoutType.blocking else k)
stopped-Frame k r ticks =
    if-Frame (is_bounded ticks) k _ _ (stop_timeout-Frame k r TimeoutType.blocking) (Frame-refl k)

module _ (put : Put) (keeps : Keeps put) (a : ℕ) where
  put_or_deliver-Holds :
      (k : Kernel) (r src : ℕ) (o : Option Kernel)
      → Holds k a
      → (k.mesgqs a).ring_buf.n_full < (k.mesgqs a).ring_buf.max_buf
      → Sent (λ x. Holds x a) o
      → Holds (put_or_deliver put k r a src o) a
  unfolding put_or_deliver
  put_or_deliver-Holds k r src none h l s =
      let (i, v) = h.reads_at in
      wake_normal_receiver-Holds (set_ring k a (put (k.mesgqs a).ring_buf k.memory src)) r a (
        set_ring-Holds k a (put (k.mesgqs a).ring_buf k.memory src)
          (keeps (k.mesgqs a).ring_buf i k.memory src v l) h)
  put_or_deliver-Holds k r src (some k') h l s = s

  deposit-Holds :
      (k : Kernel) (r src : ℕ)
      → Holds k a
      → (k.mesgqs a).ring_buf.n_full < (k.mesgqs a).ring_buf.max_buf
      → Holds (deposit put k r a src) a
  unfolding deposit
  deposit-Holds k r src h l = put_or_deliver-Holds k r src _ h l (direct_send-Holds k r a src h)

  send_wait-Holds : (k : Kernel) (r ticks : ℕ) → Holds k a → Holds (send_wait k r a ticks).1 a
  unfolding send_wait
  send_wait-Holds k r ticks h =
      wait-Holds a _ (λ x. set_status-Frame x r Status.sending) k r (senders_queue a) ticks
        (inr refl) h

  send_by-Holds :
      (k : Kernel) (r : ℕ) (p : Option ℕ) (ticks : ℕ)
      → Holds k a
      → Holds (send_by put k r a p ticks).1 a
  unfolding send_by send_ready
  send_by-Holds k r none ticks h =
      checked_wait-case (λ x. Holds x a) (mesgq_ready_err k a) _ k
        (if-case (λ x. Holds x a) (k.in_isr && ltb 0 ticks) _ _ h h) h
  send_by-Holds k r (some src) ticks h =
      checked_wait-case (λ x. Holds x a) (mesgq_ready_err k a) _ k
        (if-case (λ x. Holds x a) (k.in_isr && ltb 0 ticks) _ _ h
          (elim (Bool-cases (is_full k a)) [
            | inl e ↦
                rw e (if-case (λ x. Holds x a) (ticks == 0) _ _ h (send_wait-Holds k r ticks h))
            | inr e ↦ rw e (deposit-Holds k r src h (ground (arith, e)))
          ]))
        h

  send_by_resume-Holds :
      (k : Kernel) (r src ticks : ℕ) → Holds k a → Holds (send_by_resume put k r a src ticks).1 a
  unfolding send_by_resume
  send_by_resume-Holds k r src ticks h =
      let k1 = if is_bounded ticks then stop_timeout k r TimeoutType.blocking else k in
      let h1 = Holds-Frame k k1 a (stopped-Frame k r ticks) h in
      if-case (λ x. Holds x a) (k.tasks r).time_out _ _
        (Holds-Frame k _ a (set_task-Frame k r _ refl refl refl) h)
        (elim (Bool-cases (is_full k1 a)) [
          | inl e ↦ rw e (send_wait-Holds k1 r ticks h1)
          | inr e ↦ rw e (deposit-Holds k1 r src h1 (ground (arith, e)))
        ])

module _ (k : Kernel) (r a : ℕ) (h : Holds k a) where
  -- kMesgQueueSend keeps a message queue in order, whatever its outcome.
  pub send-Holds : (p : Option ℕ) (ticks : ℕ) → Holds (send k r a p ticks).1 a
  unfolding send
  send-Holds p ticks = send_by-Holds RingBuf.write write-Keeps a k r p ticks h

  pub send_resume-Holds : (src ticks : ℕ) → Holds (send_resume k r a src ticks).1 a
  unfolding send_resume
  send_resume-Holds src ticks = send_by_resume-Holds RingBuf.write write-Keeps a k r src ticks h

  pub jam-Holds : (p : Option ℕ) (ticks : ℕ) → Holds (jam k r a p ticks).1 a
  unfolding jam
  jam-Holds p ticks = send_by-Holds RingBuf.jam jam-Keeps a k r p ticks h

  pub jam_resume-Holds : (src ticks : ℕ) → Holds (jam_resume k r a src ticks).1 a
  unfolding jam_resume
  jam_resume-Holds src ticks = send_by_resume-Holds RingBuf.jam jam-Keeps a k r src ticks h

  take-Holds : (dst : ℕ) → 0 < (k.mesgqs a).ring_buf.n_full → Holds (take k r a dst) a
  unfolding take
  take-Holds dst l =
      let (i, v) = h.reads_at in
      let s = (k.mesgqs a).ring_buf in
      let k1 = set_ring k a (RingBuf.read s k.memory dst) in
      let h1 =
        set_ring-Holds k a (RingBuf.read s k.memory dst)
          (RingBuf.Inv.round s.max_buf (i + 1), read-ReadsAt s i k.memory dst v l) h in
      wake_sender-Holds (set_recv_buf k1 r none) r a
        (Holds-Frame k1 _ a (set_recv_buf-Frame k1 r none) h1)

  recv_mark-Frame : (dst : ℕ) (x : Kernel) → Frame x (recv_mark r dst x)
  unfolding recv_mark
  recv_mark-Frame dst x = Frame-trans (set_status-Frame x r Status.receiving) (
      Frame-trans (set_recv_buf-Frame (set_status x r Status.receiving) r (some dst))
        (set_wait_info-Frame _ r WaitInfo.wait_normal))

  recv_wait-Holds : (dst ticks : ℕ) → Holds (recv_wait k r a dst ticks).1 a
  unfolding recv_wait
  recv_wait-Holds dst ticks =
      wait-Holds a (recv_mark r dst) (recv_mark-Frame dst) k r (receivers_queue a) ticks (inl refl)
        h

  some_there : has_none k a ≡ false → 0 < (k.mesgqs a).ring_buf.n_full
  some_there e = ground (arith, e)

  pub recv-Holds : (p : Option ℕ) (ticks : ℕ) → Holds (recv k r a p ticks).1 a
  unfolding recv recv_ready
  recv-Holds none ticks =
      checked_wait-case (λ x. Holds x a) (mesgq_ready_err k a) _ k
        (if-case (λ x. Holds x a) (k.in_isr && ltb 0 ticks) _ _ h h) h
  recv-Holds (some dst) ticks =
      checked_wait-case (λ x. Holds x a) (mesgq_ready_err k a) _ k
        (if-case (λ x. Holds x a) (k.in_isr && ltb 0 ticks) _ _ h
          (elim (Bool-cases (has_none k a)) [
            | inl e ↦ rw e (if-case (λ x. Holds x a) (ticks == 0) _ _ h (recv_wait-Holds dst ticks))
            | inr e ↦ rw e (take-Holds dst (some_there e))
          ]))
        h

pub recv_resume-Holds :
    (k : Kernel) (r a dst ticks : ℕ) → Holds k a → Holds (recv_resume k r a dst ticks).1 a
unfolding recv_resume
recv_resume-Holds k r a dst ticks h =
    let k1 = if is_bounded ticks then stop_timeout k r TimeoutType.blocking else k in
    let h1 = Holds-Frame k k1 a (stopped-Frame k r ticks) h in
    let k0 = set_task k r (record (k.tasks r) { time_out = false }) in
    if-case (λ x. Holds x a) (k.tasks r).time_out _ _
      (Holds-Frame k _ a
        (Frame-trans (set_task-Frame k r (record (k.tasks r) { time_out = false }) refl refl refl) (
          Frame-trans (set_recv_buf-Frame k0 r none)
            (set_wait_info-Frame _ r WaitInfo.wait_normal)))
        h)
      (if-case (λ x. Holds x a) (is_direct (wait_info_of k1 r)) _ _
        (Holds-Frame k1 _ a
          (Frame-trans (set_wait_info-Frame k1 r WaitInfo.wait_normal)
            (set_recv_buf-Frame (set_wait_info k1 r WaitInfo.wait_normal) r none))
          h1)
        (elim (Bool-cases (has_none k1 a)) [
          | inl e ↦ rw e (recv_wait-Holds k1 r a h1 dst ticks)
          | inr e ↦ rw e (take-Holds k1 r a h1 dst (some_there k1 r a h1 e))
        ]))
