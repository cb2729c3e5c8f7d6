-- ===== src/Mesgq/Stays.antt =====
-- What a deposit into the ring and a message taken from it leave alone.
use rk.Base.{
  ℕ, ◌≡◌, refl, ap, sym, ◌∙◌, ◌⊎◌, inl, inr, true, Option, none, some, List, [], ◌∷◌, Bool-cases,
}
use mathlib.Core.Path.{subst}
use rk.Base.Distinct.{All}
use rk.Base.Memory.{Mem}
use rk.RingBuf as RingBuf
use rk.RingBuf.{Ring}
use rk.Kernel.{Kernel, MesgQueue, TimeoutType, WaitInfo, senders_queue, update, update-same}
use rk.Sched.Queue.{deq, deq_list, clear_if_empty, is_ready_queue}
use rk.Sched.Frame.{Frame, Frame-trans, ready_switch-Frame}
use rk.Sched.Switch.{ready_switch}
use rk.Timeout.Node.{stop_timeout}
use rk.Timeout.Frame.{stop_timeout-Frame}
use rk.Mesgq.Defs.{
  keep, first_normal, is_broadcast, wait_info_of, set_wait_info, set_recv_buf, set_mesgq, set_ring,
  deq_chosen, deq_normal_receiver, direct_send_deq, direct_send, is_busy, wake_normal_receiver,
  wake_normal_receiver_deq, wake_sender, wake_sender_deq,
}
use rk.Mesgq.Ops.{Put, put_or_deliver, deposit, take}
use rk.Mesgq.Laws.{set_wait_info-Frame, set_recv_buf-Frame}
use rk.Mesgq.Deliver.{unlinked}

-- the queue `s` but for those who wait, the memory `m`, and what the scheduler leaves alone of `k`
pub record Stays (k : Kernel) (a : ℕ) (s : MesgQueue) (m : Mem) (k' : Kernel) : Type 0 where
  pub header : (k'.mesgqs a).header ≡ s.header
  pub ring : (k'.mesgqs a).ring_buf ≡ s.ring_buf
  pub broadcasts : (k'.mesgqs a).broadcast_receivers ≡ s.broadcast_receivers
  pub receivers : s.waiting_receivers ≡ [] → (k'.mesgqs a).waiting_receivers ≡ []
  pub memory : k'.memory ≡ m
  pub domain : (t : ℕ) → (k'.tasks t).domain ≡ (k.tasks t).domain
  pub run : k'.run ≡ k.run

Stays-Frame :
    (k : Kernel) (a : ℕ) (s : MesgQueue) (m : Mem) (k1 k2 : Kernel)
    → Frame k1 k2
    → Stays k a s m k1
    → Stays k a s m k2
Stays-Frame k a s m k1 k2 f h = record {
  header = ap (λ q. (q a).header) f.mesgqs ∙ h.header;
  ring = ap (λ q. (q a).ring_buf) f.mesgqs ∙ h.ring;
  broadcasts = ap (λ q. (q a).broadcast_receivers) f.mesgqs ∙ h.broadcasts;
  receivers = λ e. ap (λ q. (q a).waiting_receivers) f.mesgqs ∙ h.receivers e;
  memory = f.memory ∙ h.memory;
  domain = λ t. f.domain t ∙ h.domain t;
  run = f.run ∙ h.run;
}

set_mesgq-Stays :
    (k : Kernel) (a : ℕ) (s : MesgQueue) (m : Mem)
    → Stays k a s m (record (set_mesgq k a s) { memory = m })
set_mesgq-Stays k a s m =
    let e : update k.mesgqs a s a ≡ s = update-same k.mesgqs a s in
    record {
      header = ap (λ q. q.header) e;
      ring = ap (λ q. q.ring_buf) e;
      broadcasts = ap (λ q. q.broadcast_receivers) e;
      receivers = λ p. ap (λ q. q.waiting_receivers) e ∙ p;
      memory = refl;
      domain = λ t. refl;
      run = refl;
    }

-- the ring as an operation left it, in a queue that is otherwise as it was
abbrev pub with_ring : Kernel → ℕ → Ring → MesgQueue
with_ring k a b = record (k.mesgqs a) { ring_buf = b }

Stays-trans :
    (k : Kernel) (a : ℕ) (s : MesgQueue) (m : Mem) (k1 k2 : Kernel)
    → Stays k a s m k1
    → Stays k1 a (k1.mesgqs a) k1.memory k2
    → Stays k a s m k2
Stays-trans k a s m k1 k2 g h = record {
  header = h.header ∙ g.header;
  ring = h.ring ∙ g.ring;
  broadcasts = h.broadcasts ∙ g.broadcasts;
  receivers = λ e. h.receivers (g.receivers e);
  memory = h.memory ∙ g.memory;
  domain = λ t. h.domain t ∙ g.domain t;
  run = h.run ∙ g.run;
}

Stays-refl : (k : Kernel) (a : ℕ) → Stays k a (k.mesgqs a) k.memory k
Stays-refl k a = record {
  header = refl;
  ring = refl;
  broadcasts = refl;
  receivers = λ e. e;
  memory = refl;
  domain = λ t. refl;
  run = refl;
}

-- a queue of which fewer wait
set_fewer-Stays :
    (k : Kernel) (a : ℕ) (s : MesgQueue)
    → s.header ≡ (k.mesgqs a).header
    → s.ring_buf ≡ (k.mesgqs a).ring_buf
    → s.broadcast_receivers ≡ (k.mesgqs a).broadcast_receivers
    → ((k.mesgqs a).waiting_receivers ≡ [] → s.waiting_receivers ≡ [])
    → Stays k a (k.mesgqs a) k.memory (set_mesgq k a s)
set_fewer-Stays k a s h r b w =
    let e : update k.mesgqs a s a ≡ s = update-same k.mesgqs a s in
    record {
      header = ap (λ q. q.header) e ∙ h;
      ring = ap (λ q. q.ring_buf) e ∙ r;
      broadcasts = ap (λ q. q.broadcast_receivers) e ∙ b;
      receivers = λ p. ap (λ q. q.waiting_receivers) e ∙ w p;
      memory = refl;
      domain = λ t. refl;
      run = refl;
    }

-- a choice from an empty queue is none
abbrev Fits : List ℕ → Option (ℕ × List ℕ) → Type 0
Fits xs none = Unit
Fits xs (some (t, ts)) = xs ≡ [] → ts ≡ []

Fits-cons : (x : ℕ) (xs : List ℕ) (o : Option (ℕ × List ℕ)) → Fits (x ∷ xs) o
Fits-cons x xs none = tt
Fits-cons x xs (some (t, ts)) = λ e. cc e

first_normal-Fits : (info : ℕ → WaitInfo) (xs : List ℕ) → Fits xs (first_normal info xs)
unfolding first_normal
first_normal-Fits info [] = tt
first_normal-Fits info (x ∷ xs) = Fits-cons x xs (first_normal info (x ∷ xs))

wake_chosen-Stays :
    (k : Kernel) (r a : ℕ) (o : Option (ℕ × List ℕ))
    → Fits (k.mesgqs a).waiting_receivers o
    → Stays k a (k.mesgqs a) k.memory (wake_normal_receiver_deq k r (deq_chosen k a o))
unfolding wake_normal_receiver_deq deq_chosen
wake_chosen-Stays k r a none f = Stays-refl k a
wake_chosen-Stays k r a (some (t, ts)) f =
    let s = record (k.mesgqs a) { waiting_receivers = ts } in
    let k0 = set_mesgq k a s in
    let k1 = unlinked k a t ts in
    let k2 = stop_timeout k1 t TimeoutType.blocking in
    let k3 = set_wait_info k2 t WaitInfo.wait_normal in
    Stays-Frame k a (k.mesgqs a) k.memory k0 (ready_switch k3 r t).1
      (Frame-trans (set_wait_info-Frame k0 t WaitInfo.wait_normal) (
        Frame-trans (stop_timeout-Frame k1 t TimeoutType.blocking) (
          Frame-trans (set_wait_info-Frame k2 t WaitInfo.wait_normal) (ready_switch-Frame k3 r t))))
      (set_fewer-Stays k a s refl refl refl f)

pub wake_normal_receiver-Stays :
    (k : Kernel) (r a : ℕ) → Stays k a (k.mesgqs a) k.memory (wake_normal_receiver k r a)
unfolding wake_normal_receiver deq_normal_receiver
wake_normal_receiver-Stays k r a =
    wake_chosen-Stays k r a (first_normal (wait_info_of k) (k.mesgqs a).waiting_receivers)
      (first_normal-Fits (wait_info_of k) (k.mesgqs a).waiting_receivers)

wake_sender_from-Stays :
    (k : Kernel) (r a : ℕ) (xs : List ℕ)
    → Stays k a (k.mesgqs a) k.memory (wake_sender_deq k r (deq_list k (senders_queue a) xs))
unfolding wake_sender_deq deq_list clear_if_empty is_ready_queue
wake_sender_from-Stays k r a [] = Stays-refl k a
wake_sender_from-Stays k r a (t ∷ ts) =
    let s = record (k.mesgqs a) { waiting_senders = ts } in
    let k1 = set_mesgq k a s in
    let k2 = stop_timeout k1 t TimeoutType.blocking in
    Stays-Frame k a (k.mesgqs a) k.memory k1 (ready_switch k2 r t).1
      (Frame-trans (stop_timeout-Frame k1 t TimeoutType.blocking) (ready_switch-Frame k2 r t))
      (set_fewer-Stays k a s refl refl refl (λ e. e))

pub wake_sender-Stays : (k : Kernel) (r a : ℕ) → Stays k a (k.mesgqs a) k.memory (wake_sender k r a)
unfolding wake_sender deq
wake_sender-Stays k r a = wake_sender_from-Stays k r a (k.mesgqs a).waiting_senders

-- no receiver can be handed a message
abbrev pub NoReceiver : Kernel → ℕ → Type 0
NoReceiver k a =
    (is_busy k a ≡ true)
    ⊎ All (λ t. is_broadcast (wait_info_of k t) ≡ true) (k.mesgqs a).waiting_receivers

first_normal-none :
    (info : ℕ → WaitInfo) (xs : List ℕ)
    → All (λ t. is_broadcast (info t) ≡ true) xs
    → first_normal info xs ≡ none
unfolding first_normal keep
first_normal-none info [] h = refl
first_normal-none info (x ∷ xs) h = rw h.0 (ap (keep x) (first_normal-none info xs h.1))

direct_send-none : (k : Kernel) (r a src : ℕ) → NoReceiver k a → direct_send k r a src ≡ none
unfolding direct_send deq_normal_receiver deq_chosen direct_send_deq
direct_send-none k r a src (inl e) = rw e refl
direct_send-none k r a src (inr h) =
    let e = first_normal-none (wait_info_of k) (k.mesgqs a).waiting_receivers h in
    elim (Bool-cases (is_busy k a)) [
      | inl b ↦ rw b refl
      | inr b ↦ rw b (ap (λ o. direct_send_deq r a src (deq_chosen k a o)) e)
    ]

pub deposit-Stays :
    (put : Put) (k : Kernel) (r a src : ℕ)
    → NoReceiver k a
    → let (b, m) = put (k.mesgqs a).ring_buf k.memory src in
      Stays k a (with_ring k a b) m (deposit put k r a src)
unfolding deposit put_or_deliver
deposit-Stays put k r a src n =
    let x = put (k.mesgqs a).ring_buf k.memory src in
    let k1 = set_ring k a x in
    subst (λ o. Stays k a (with_ring k a x.0) x.1 (put_or_deliver put k r a src o))
      (sym (direct_send-none k r a src n))
      (Stays-trans k a (with_ring k a x.0) x.1 k1 (wake_normal_receiver k1 r a)
        (set_mesgq-Stays k a (with_ring k a x.0) x.1) (wake_normal_receiver-Stays k1 r a))

pub take-Stays :
    (k : Kernel) (r a dst : ℕ)
    → let (b, m) = RingBuf.read (k.mesgqs a).ring_buf k.memory dst in
      Stays k a (with_ring k a b) m (take k r a dst)
unfolding take
take-Stays k r a dst =
    let x = RingBuf.read (k.mesgqs a).ring_buf k.memory dst in
    let k1 = set_ring k a x in
    let k2 = set_recv_buf k1 r none in
    Stays-trans k a (with_ring k a x.0) x.1 k2 (wake_sender k2 r a)
      (Stays-Frame k a (with_ring k a x.0) x.1 k1 k2 (set_recv_buf-Frame k1 r none)
        (set_mesgq-Stays k a (with_ring k a x.0) x.1))
      (wake_sender-Stays k2 r a)
