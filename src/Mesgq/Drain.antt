-- ===== src/Mesgq/Drain.antt =====
-- What kMesgQueueReset leaves of a queue.
use rk.Base.{ℕ, ◌≡◌, ap, ◌∙◌, Option, none, List, [], ◌∷◌, arith}
use rk.RingBuf as RingBuf
use rk.RingBuf.{Ring}
use rk.RingBuf.Inv.{ReadsAt}
use rk.Kernel.{
  Kernel, MesgQueue, TimeoutType, receivers_queue, senders_queue, update-same, set_queue,
}
use rk.Sched.Frame.{Frame, Frame-refl, Frame-trans, ready_no_switch-Frame}
use rk.SleepQ.Loop.{resched_chosen-Frame}
use rk.SleepQ.Defs.{choose}
use rk.Sched.Switch.{ready_no_switch}
use rk.Timeout.Node.{stop_timeout}
use rk.Timeout.Frame.{stop_timeout-Frame}
use rk.Mesgq.Defs.{set_mesgq, set_wait_info}
use rk.Mesgq.Ops.{drain, recv_clear, reset_ready}
use rk.Mesgq.Laws.{IsSound, set_wait_info-Frame, set_recv_buf-Frame}

-- the queue with the tasks `rs` and `ss` waiting
abbrev waiting : MesgQueue → List ℕ → List ℕ → MesgQueue
waiting s rs ss = record s { waiting_receivers = rs; waiting_senders = ss }

module _ (clear : ℕ → Kernel → Kernel) (clears : (t : ℕ) (k : Kernel) → Frame k (clear t k)) where
  turn-Frame :
      (k : Kernel) (t : ℕ)
      → Frame k (ready_no_switch (clear t (stop_timeout k t TimeoutType.blocking)) t)
  turn-Frame k t =
      let k1 = stop_timeout k t TimeoutType.blocking in
      Frame-trans (stop_timeout-Frame k t TimeoutType.blocking)
        (Frame-trans (clears t k1) (ready_no_switch-Frame (clear t k1) t))

  drain-receivers :
      (a : ℕ) (ts : List ℕ) (k : Kernel) (c : Option ℕ)
      → (k.mesgqs a).waiting_receivers ≡ ts
      → (drain clear k (receivers_queue a) ts c).1.mesgqs a
        ≡ waiting (k.mesgqs a) [] (k.mesgqs a).waiting_senders
  unfolding drain
  drain-receivers a [] k c e = ap (λ rs. waiting (k.mesgqs a) rs (k.mesgqs a).waiting_senders) e
  drain-receivers a (t ∷ ts) k c e =
      let k' = set_queue k (receivers_queue a) ts in
      let k'' = ready_no_switch (clear t (stop_timeout k' t TimeoutType.blocking)) t in
      let s : k''.mesgqs a ≡ waiting (k.mesgqs a) ts (k.mesgqs a).waiting_senders =
        ap (λ m. m a) (turn-Frame k' t).mesgqs ∙ update-same k.mesgqs a _ in
      drain-receivers a ts k'' (choose k'' c t) (ap (λ q. q.waiting_receivers) s)
      ∙ ap (λ q. waiting q [] q.waiting_senders) s

  drain-senders :
      (a : ℕ) (ts : List ℕ) (k : Kernel) (c : Option ℕ)
      → (k.mesgqs a).waiting_senders ≡ ts
      → (drain clear k (senders_queue a) ts c).1.mesgqs a
        ≡ waiting (k.mesgqs a) (k.mesgqs a).waiting_receivers []
  unfolding drain
  drain-senders a [] k c e = ap (λ ss. waiting (k.mesgqs a) (k.mesgqs a).waiting_receivers ss) e
  drain-senders a (t ∷ ts) k c e =
      let k' = set_queue k (senders_queue a) ts in
      let k'' = ready_no_switch (clear t (stop_timeout k' t TimeoutType.blocking)) t in
      let s : k''.mesgqs a ≡ waiting (k.mesgqs a) (k.mesgqs a).waiting_receivers ts =
        ap (λ m. m a) (turn-Frame k' t).mesgqs ∙ update-same k.mesgqs a _ in
      drain-senders a ts k'' (choose k'' c t) (ap (λ q. q.waiting_senders) s)
      ∙ ap (λ q. waiting q q.waiting_receivers []) s

recv_clear-Frame : (t : ℕ) (k : Kernel) → Frame k (recv_clear t k)
unfolding recv_clear
recv_clear-Frame t k =
    Frame-trans (set_wait_info-Frame k t _) (set_recv_buf-Frame (set_wait_info k t _) t none)

-- a queue without messages, broadcasts and waiting tasks
abbrev pub emptied : MesgQueue → MesgQueue
emptied s = record s {
  ring_buf = RingBuf.reset s.ring_buf;
  broadcast_receivers = 0;
  waiting_receivers = [];
  waiting_senders = [];
}

pub reset_ready_lem : (k : Kernel) (r a : ℕ) → (reset_ready k r a).mesgqs a ≡ emptied (k.mesgqs a)
unfolding reset_ready
reset_ready_lem k r a =
    let s = k.mesgqs a in
    let s1 = record s { ring_buf = RingBuf.reset s.ring_buf; broadcast_receivers = 0 } in
    let k1 = set_mesgq k a s1 in
    let e1 : k1.mesgqs a ≡ s1 = update-same k.mesgqs a s1 in
    let (c, k2) = drain recv_clear k1 (receivers_queue a) s.waiting_receivers none in
    let e2 : k2.mesgqs a ≡ waiting s1 [] s.waiting_senders =
      drain-receivers recv_clear recv_clear-Frame a s.waiting_receivers k1 none
        (ap (λ q. q.waiting_receivers) e1)
      ∙ ap (λ q. waiting q [] q.waiting_senders) e1 in
    let (c', k3) = drain (λ t x. x) k2 (senders_queue a) s.waiting_senders c in
    let e3 : k3.mesgqs a ≡ waiting s1 [] [] =
      drain-senders (λ t x. x) (λ t x. Frame-refl x) a s.waiting_senders k2 c
        (ap (λ q. q.waiting_senders) e2)
      ∙ ap (λ q. waiting q q.waiting_receivers []) e2 in
    ap (λ m. m a) (resched_chosen-Frame k3 r c').mesgqs ∙ e3

reset-ReadsAt : (b : Ring) (i : ℕ) → ReadsAt b i → ReadsAt (RingBuf.reset b) 0
unfolding RingBuf.reset
reset-ReadsAt b i v = ground arith

pub emptied-IsSound :
    (prio prio' : ℕ → ℕ) (s : MesgQueue) → IsSound prio s → IsSound prio' (emptied s)
emptied-IsSound prio prio' s h =
    let (i, v) = h.reads_at in
    record { reads_at = (0, reset-ReadsAt s.ring_buf i v); receivers = tt; senders = tt }
