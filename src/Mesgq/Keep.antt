-- ===== src/Mesgq/Keep.antt =====
-- kMesgQueuePeek, kMesgQueuePostOvw and the removal of a waiting task keep a message queue in order.
use rk.Base.{ℕ, ◌≤◌, inl, inr, Option, none, some, ltb, ◌==◌, Bool-cases, arith, List, [], ◌∷◌}
use rk.RingBuf.{Ring}
use rk.RingBuf as RingBuf
use rk.RingBuf.Inv.{overwrite-ReadsAt}
use rk.Kernel.{Kernel, receivers_queue, if-case, checked-case, set_queue}
use rk.Base.Distinct.{All}
use rk.Sched.Queue.{prio_of, remove_tid}
use rk.Sched.Order.{IsOrdered}
use rk.Mesgq.Defs.{mesgq_ready_err, set_ring}
use rk.Mesgq.Ops.{has_none, peek_ready, peek, overwrite_or_deliver, post_ovw_ready, post_ovw}
use rk.Mesgq.Laws.{Holds, set_mesgq-Holds, wake_normal_receiver-Holds, direct_send-Holds, Sent}
use rk.Mesgq.Sound.{set_ring-Holds}

pub peek-Holds : (k : Kernel) (a : ℕ) (p : Option ℕ) → Holds k a → Holds (peek k a p).1 a
unfolding peek peek_ready
peek-Holds k a none h = checked-case (λ x. Holds x a) (mesgq_ready_err k a) _ k h h
peek-Holds k a (some dst) h =
    let h' : Holds (record k { memory = RingBuf.peek (k.mesgqs a).ring_buf k.memory dst }) a =
      record { reads_at = h.reads_at; receivers = h.receivers; senders = h.senders } in
    checked-case (λ x. Holds x a) (mesgq_ready_err k a) _ k
      (if-case (λ x. Holds x a) (has_none k a) _ _ h h') h

overwrite_or_deliver-Holds :
    (k : Kernel) (r a src : ℕ) (o : Option Kernel)
    → Holds k a
    → (k.mesgqs a).ring_buf.max_buf ≤ 1
    → Sent (λ x. Holds x a) o
    → Holds (overwrite_or_deliver k r a src o) a
unfolding overwrite_or_deliver
overwrite_or_deliver-Holds k r a src none h l s =
    let (i, v) = h.reads_at in
    let b = (k.mesgqs a).ring_buf in
    let k1 = set_ring k a (RingBuf.overwrite b k.memory src) in
    let h1 =
      set_ring-Holds k a (RingBuf.overwrite b k.memory src)
        (0, overwrite-ReadsAt b i k.memory src v (omega (arith, l, v.inside))) h in
    elim (Bool-cases (b.n_full == 0)) [
      | inl e ↦ rw e (wake_normal_receiver-Holds k1 r a h1)
      | inr e ↦ rw e h1
    ]
overwrite_or_deliver-Holds k r a src (some k') h l s = s

pub post_ovw-Holds :
    (k : Kernel) (r a : ℕ) (p : Option ℕ) → Holds k a → Holds (post_ovw k r a p).1 a
unfolding post_ovw post_ovw_ready
post_ovw-Holds k r a none h = checked-case (λ x. Holds x a) (mesgq_ready_err k a) _ k h h
post_ovw-Holds k r a (some src) h =
    checked-case (λ x. Holds x a) (mesgq_ready_err k a) _ k
      (elim (Bool-cases (ltb 1 (k.mesgqs a).ring_buf.max_buf)) [
        | inl e ↦ rw e h
        | inr e ↦ rw e (
            if-case (λ x. Holds x a) (ltb 0 (k.mesgqs a).broadcast_receivers) _ _ h
              (overwrite_or_deliver-Holds k r a src _ h (ground (arith, e))
                (direct_send-Holds k r a src h)))
      ])
      h

remove_tid-All : (P : ℕ → Type 0) (xs : List ℕ) (t : ℕ) → All P xs → All P (remove_tid xs t)
unfolding remove_tid
remove_tid-All P [] t h = tt
remove_tid-All P (x ∷ xs) t h = elim (Bool-cases (x == t)) [
  | inl e ↦ rw e h.1
  | inr e ↦ rw e (h.0, remove_tid-All P xs t h.1)
]

pub remove_tid-IsOrdered :
    (prio : ℕ → ℕ) (xs : List ℕ) (t : ℕ) → IsOrdered prio xs → IsOrdered prio (remove_tid xs t)
unfolding remove_tid
remove_tid-IsOrdered prio [] t h = tt
remove_tid-IsOrdered prio (x ∷ xs) t h = elim (Bool-cases (x == t)) [
  | inl e ↦ rw e h.1
  | inr e ↦ rw e (remove_tid-All _ xs t h.0, remove_tid-IsOrdered prio xs t h.1)
]

pub remove_receiver-Holds :
    (k : Kernel) (a t : ℕ)
    → Holds k a
    → Holds (set_queue k (receivers_queue a) (remove_tid (k.mesgqs a).waiting_receivers t)) a
remove_receiver-Holds k a t h =
    let ys = remove_tid (k.mesgqs a).waiting_receivers t in
    set_mesgq-Holds k a (record (k.mesgqs a) { waiting_receivers = ys })
      (record {
        reads_at = h.reads_at;
        receivers = remove_tid-IsOrdered (prio_of k) (k.mesgqs a).waiting_receivers t h.receivers;
        senders = h.senders;
      })
