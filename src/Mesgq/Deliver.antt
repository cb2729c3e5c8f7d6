-- ===== src/Mesgq/Deliver.antt =====
-- A send to a queue at which a receiver waits, and a send that has to be kept.
use rk.Base.{
  ℕ, ◌<◌, ◌≡◌, ◌≢◌, refl, ap, sym, ◌∙◌, inl, inr, true, false, ◌&&◌, Option, none, some, List, [],
  ◌∷◌, ◌++◌, ltb, ◌==◌, Bool-cases, arith, if◌then◌else◌,
}
use mathlib.Core.Path.{subst}
use rk.Base.Distinct.{All}
use rk.Base.Memory.{Apart, words_at, words_at-copy_words_self}
use rk.RingBuf as RingBuf
use rk.RingBuf.{Ring}
use rk.Err.{success}
use rk.Kernel.{
  Kernel, MesgQueue, Tcb, Status, TimeoutType, WaitInfo, ready_queue, receivers_queue, update,
  update-same, set_queue, returns,
}
use rk.Sched.Queue.{prio_of, enq, jam as jam_task}
use rk.Sched.Bitmap.{enq-tasks, jam-tasks}
use rk.Sched.Frame.{Frame, Frame-trans, ready_switch-Frame}
use rk.Sched.Resched.{pend_now, defer}
use rk.Sched.Switch.{ready_switch, ready_no_switch, postproc_tid, set_status}
use rk.Sched.Wake.{resched_task-case, ready_switch-status, ready_switch-lists}
use rk.Timeout.Node.{stop_timeout, remove}
use rk.Timeout.Frame.{stop_timeout-lists, stop_timeout-Frame}
use rk.Mesgq.Defs.{
  keep, first_normal, is_broadcast, wait_info_of, set_wait_info, set_recv_buf, mesgq_ready_err,
  deq_chosen, deq_normal_receiver, copy_to, deliver, direct_send_deq, direct_send, is_busy,
}
use rk.Mesgq.Ops.{Put, is_full, put_or_deliver, deposit, send_ready, send_by, send}
use rk.Mesgq.Laws.{set_wait_info-Frame, set_recv_buf-Frame}

-- The scan of kMesgQueueDeqNormalReceiver_ takes the first that waits for no broadcast.
first_normal_lem :
    (info : ℕ → WaitInfo) (before after : List ℕ) (t : ℕ)
    → All (λ u. is_broadcast (info u) ≡ true) before
    → is_broadcast (info t) ≡ false
    → first_normal info (before ++ t ∷ after) ≡ some (t, before ++ after)
unfolding first_normal keep
first_normal_lem info [] after t h e = rw e refl
first_normal_lem info (u ∷ us) after t h e =
    rw h.0 (ap (keep u) (first_normal_lem info us after t h.1 e))

set_status-tcb :
    (x : Kernel) (c : Tcb) (t : ℕ)
    → x.tasks t ≡ c
    → (set_status x t Status.ready).tasks t ≡ record c { status = Status.ready }
set_status-tcb x c t e =
    update-same x.tasks t (record (x.tasks t) { status = Status.ready })
    ∙ ap {A = Tcb} {B = Tcb} (λ y. record y { status = Status.ready }) e

ready_no_switch-tcb :
    (k : Kernel) (t : ℕ)
    → (ready_no_switch k t).tasks t ≡ record (k.tasks t) { status = Status.ready }
unfolding ready_no_switch
ready_no_switch-tcb k t =
    let q = ready_queue (prio_of k t) in
    set_status-tcb (if t == postproc_tid then jam_task k q t else enq k q t) (k.tasks t) t
      (elim (Bool-cases (t == postproc_tid)) [
        | inl e ↦ rw e (ap (λ f. f t) (jam-tasks k (prio_of k t) t))
        | inr e ↦ rw e (ap (λ f. f t) (enq-tasks k q t))
      ])

-- kReadySwtch writes the status of the task and nothing else in it.
ready_switch-tcb :
    (k : Kernel) (r t : ℕ)
    → (ready_switch k r t).1.tasks t ≡ record (k.tasks t) { status = Status.ready }
unfolding ready_switch pend_now defer
ready_switch-tcb k r t =
    let e = ready_no_switch-tcb k t in
    resched_task-case (λ x. x.tasks t ≡ record (k.tasks t) { status = Status.ready })
      (ready_no_switch k t) r t e e e

-- what a delivery to `t` did
abbrev pub Delivered : Kernel → MesgQueue → ℕ → ℕ → ℕ → ℕ → Kernel → Type 0
Delivered k s a t src dst k' =
    (words_at k'.memory dst s.ring_buf.data_size ≡ words_at k.memory src s.ring_buf.data_size)
    × (k'.mesgqs a ≡ s)
    × ((k'.tasks t).status ≡ Status.ready)
    × ((k'.tasks t).timeout_node.wait_info ≡ WaitInfo.direct_deliver)
    × ((k'.tasks t).mesg_queue_recv_buf_ptr ≡ none)
    × (k'.ready_lists ≡ update k.ready_lists (prio_of k t) (k.ready_lists (prio_of k t) ++ t ∷ []))

stop_timeout-info :
    (k : Kernel) (t : ℕ) (y : TimeoutType) → wait_info_of (stop_timeout k t y) t ≡ wait_info_of k t
unfolding stop_timeout remove
stop_timeout-info k t y = ground arith

stop_timeout-buf :
    (k : Kernel) (t : ℕ) (y : TimeoutType)
    → ((stop_timeout k t y).tasks t).mesg_queue_recv_buf_ptr ≡ (k.tasks t).mesg_queue_recv_buf_ptr
unfolding stop_timeout remove
stop_timeout-buf k t y = ground arith

module _ (k : Kernel) (r a t src dst : ℕ) where
  abbrev size : ℕ
  size = (k.mesgqs a).ring_buf.data_size

  -- the kernel when the message is copied to the buffer `p`, and when the receiver is made ready
  abbrev copied : Option ℕ → Kernel
  copied p = copy_to k a p src

  abbrev told : Option ℕ → Kernel
  told p = set_wait_info (set_recv_buf (copied p) t none) t WaitInfo.direct_deliver

  abbrev freed : Option ℕ → Kernel
  freed p = stop_timeout (told p) t TimeoutType.blocking

  freed-Frame : (p : Option ℕ) → Frame (copied p) (freed p)
  freed-Frame p = Frame-trans (set_recv_buf-Frame (copied p) t none) (
      Frame-trans (set_wait_info-Frame (set_recv_buf (copied p) t none) t _)
        (stop_timeout-Frame (told p) t TimeoutType.blocking))

  told_info : (p : Option ℕ) → wait_info_of (told p) t ≡ WaitInfo.direct_deliver
  told_info p = ground arith

  told_buf : (p : Option ℕ) → ((told p).tasks t).mesg_queue_recv_buf_ptr ≡ none
  told_buf p = ground arith

  deliver-from :
      Apart dst size src size
      → t ≢ postproc_tid
      → Delivered k (k.mesgqs a) a t src dst (ready_switch (freed (some dst)) r t).1
  unfolding copy_to
  deliver-from o n =
      let k3 = freed (some dst) in
      let f = freed-Frame (some dst) in
      let g = Frame-trans f (ready_switch-Frame k3 r t) in
      let c = ready_switch-tcb k3 r t in
      let l : k3.ready_lists ≡ k.ready_lists =
        stop_timeout-lists (told (some dst)) t TimeoutType.blocking in
      (
        ap (λ m. words_at m dst size) g.memory ∙ words_at-copy_words_self size k.memory dst src o,
        ap (λ m. m a) g.mesgqs,
        ready_switch-status k3 r t,
        ap (λ x. x.timeout_node.wait_info) c
            ∙ stop_timeout-info (told (some dst)) t TimeoutType.blocking
            ∙ told_info (some dst),
        ap (λ x. x.mesg_queue_recv_buf_ptr) c
            ∙ stop_timeout-buf (told (some dst)) t TimeoutType.blocking
            ∙ told_buf (some dst),
        ready_switch-lists k3 r t n
            ∙ ap (λ y. update y (prio_of k3 t) (y (prio_of k3 t) ++ t ∷ [])) l
            ∙ ap (λ p. update k.ready_lists p (k.ready_lists p ++ t ∷ [])) (f.prio t),
      )

  deliver-Delivered :
      (k.tasks t).mesg_queue_recv_buf_ptr ≡ some dst
      → Apart dst size src size
      → t ≢ postproc_tid
      → Delivered k (k.mesgqs a) a t src dst (deliver k r a t src)
  unfolding deliver
  deliver-Delivered e o n =
      subst (λ p. Delivered k (k.mesgqs a) a t src dst (ready_switch (freed p) r t).1) (sym e)
        (deliver-from o n)

-- A send or jam that may go ahead, with room in the ring, deposits its message.
module _ (put : Put) (k : Kernel) (r a src ticks : ℕ) where
  pub send_by_lem :
      mesgq_ready_err k a ≡ success
      → (k.in_isr && ltb 0 ticks) ≡ false
      → (k.mesgqs a).ring_buf.n_full < (k.mesgqs a).ring_buf.max_buf
      → send_by put k r a (some src) ticks ≡ (returns success, deposit put k r a src)
  unfolding send_by send_ready
  send_by_lem e i l = let f : is_full k a ≡ false = ground (arith, l) in rw e (rw i (rw f refl))

-- the kernel with the receivers of the queue but for `t`, which waits for no broadcast
abbrev pub unlinked : Kernel → ℕ → ℕ → List ℕ → Kernel
unlinked k a t ts = set_wait_info (set_queue k (receivers_queue a) ts) t WaitInfo.wait_normal

module _ (k : Kernel) (r a src t : ℕ) (before after : List ℕ)
    (w : (k.mesgqs a).waiting_receivers ≡ before ++ t ∷ after)
    (h : All (λ u. is_broadcast (wait_info_of k u) ≡ true) before)
    (g : is_broadcast (wait_info_of k t) ≡ false) where
  abbrev shorter : MesgQueue
  shorter = record (k.mesgqs a) { waiting_receivers = before ++ after }

  abbrev without : Kernel
  without = unlinked k a t (before ++ after)

  direct_send_lem : is_busy k a ≡ false → direct_send k r a src ≡ some (deliver without r a t src)
  unfolding direct_send deq_normal_receiver deq_chosen direct_send_deq
  direct_send_lem f =
      let c : first_normal (wait_info_of k) (k.mesgqs a).waiting_receivers
          ≡ some (t, before ++ after) =
        ap (first_normal (wait_info_of k)) w
        ∙ first_normal_lem (wait_info_of k) before after t h g in
      rw f (ap (λ o. direct_send_deq r a src (deq_chosen k a o)) c)

  without-Delivered :
      (dst : ℕ)
      → (k.tasks t).mesg_queue_recv_buf_ptr ≡ some dst
      → Apart dst (k.mesgqs a).ring_buf.data_size src (k.mesgqs a).ring_buf.data_size
      → t ≢ postproc_tid
      → Delivered k shorter a t src dst (deliver without r a t src)
  without-Delivered dst u o n =
      let q : without.mesgqs a ≡ shorter = update-same k.mesgqs a shorter in
      let b : (without.tasks t).mesg_queue_recv_buf_ptr ≡ some dst = ground (arith, u) in
      let p : prio_of without t ≡ prio_of k t = ground arith in
      let (x1, x2, x3, x4, x5, x6) =
        subst (λ s. Delivered without s a t src dst (deliver without r a t src)) q
          (deliver-Delivered without r a t src dst b
            (subst {A = MesgQueue} (λ s. Apart dst s.ring_buf.data_size src s.ring_buf.data_size)
              (sym q) o)
            n) in
      (x1, x2, x3, x4, x5, x6 ∙ ap (λ y. update k.ready_lists y (k.ready_lists y ++ t ∷ [])) p)

-- kMesgQueueSend to a queue that the caller may use, without messages and broadcasts and
-- with `t` its first receiver that waits for no broadcast, not the post-processing task: the
-- send succeeds, the words of the message stand in the buffer of `t`, and `t` is off the
-- receivers, told of the delivery, ready and last in the ready queue of its priority.
-- Nothing else of the message queue changes. The caller is in no interrupt handler, or does
-- not wait; the queue has room for a message; the two buffers do not overlap.
pub send_hands_over :
    (k : Kernel) (r a src ticks t dst : ℕ) (before after : List ℕ)
    → mesgq_ready_err k a ≡ success
    → (k.in_isr && ltb 0 ticks) ≡ false
    → let s = k.mesgqs a in
      0 < s.ring_buf.max_buf
      → s.ring_buf.n_full ≡ 0
      → s.broadcast_receivers ≡ 0
      → s.waiting_receivers ≡ before ++ t ∷ after
      → All (λ u. is_broadcast (wait_info_of k u) ≡ true) before
      → is_broadcast (wait_info_of k t) ≡ false
      → (k.tasks t).mesg_queue_recv_buf_ptr ≡ some dst
      → Apart dst s.ring_buf.data_size src s.ring_buf.data_size
      → t ≢ postproc_tid
      → let (o, k') = send k r a (some src) ticks in
        (o ≡ returns success)
        × Delivered k (record s { waiting_receivers = before ++ after }) a t src dst k'
unfolding send deposit put_or_deliver
send_hands_over k r a src ticks t dst before after e i m z b w h g u o n =
    let f : is_busy k a ≡ false = ground (arith, z, b) in
    let x : send k r a (some src) ticks
        ≡ (returns success, deliver (unlinked k a t (before ++ after)) r a t src) =
      send_by_lem RingBuf.write k r a src ticks e i (omega (arith, m, z))
      ∙ ap (λ y. (returns success, put_or_deliver RingBuf.write k r a src y))
          (direct_send_lem k r a src t before after w h g f) in
    subst
      (λ y.
        (y.0 ≡ returns success)
        × Delivered k (record (k.mesgqs a) { waiting_receivers = before ++ after }) a t src dst y.1)
      (sym x) (refl, without-Delivered k r a src t before after w h g dst u o n)
