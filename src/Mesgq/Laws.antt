-- ===== src/Mesgq/Laws.antt =====
-- What holds of a message queue through its operations.
use rk.Base.{
  ℕ, ◌≤◌, ◌≡◌, refl, sym, inl, inr, Option, none, some, List, [], ◌∷◌, Bool-cases, fun_ext,
}
use mathlib.Core.Path.{subst}
use rk.Base.Distinct.{All}
use rk.RingBuf.Inv.{ReadsAt}
use rk.Kernel.{Kernel, MesgQueue, TimeoutType, WaitInfo, senders_queue, update-same}
use rk.Sched.Queue.{prio_of, deq, deq_list, clear_if_empty, is_ready_queue}
use rk.Sched.Order.{IsOrdered}
use rk.Sched.Frame.{Frame, Frame-trans, ready_switch-Frame, set_task-Frame}
use rk.Timeout.Frame.{set_node-Frame, stop_timeout-Frame}
use rk.Mesgq.Defs.{
  keep, first_normal, is_broadcast, wait_info_of, set_wait_info, set_recv_buf, set_mesgq,
  deq_chosen, deq_normal_receiver, wake_normal_receiver_deq, wake_normal_receiver, wake_sender_deq,
  wake_sender, copy_to, deliver, direct_send_deq, direct_send, is_busy,
}

-- A queue in order: its ring is, and its receivers and senders wait by priority.
pub record IsSound (prio : ℕ → ℕ) (s : MesgQueue) : Type 0 where
  pub reads_at : (i : ℕ) × ReadsAt s.ring_buf i
  pub receivers : IsOrdered prio s.waiting_receivers
  pub senders : IsOrdered prio s.waiting_senders

abbrev pub Holds : Kernel → ℕ → Type 0
Holds k a = IsSound (prio_of k) (k.mesgqs a)

pub Holds-Frame : (k k' : Kernel) (a : ℕ) → Frame k k' → Holds k a → Holds k' a
Holds-Frame k k' a f h =
    subst (λ m. IsSound (prio_of k') (m a)) (sym f.mesgqs)
      (subst (λ p. IsSound p (k.mesgqs a)) (sym (fun_ext f.prio)) h)

pub set_mesgq-Holds :
    (k : Kernel) (a : ℕ) (s : MesgQueue) → IsSound (prio_of k) s → Holds (set_mesgq k a s) a
set_mesgq-Holds k a s h = subst (IsSound (prio_of k)) (sym (update-same k.mesgqs a s)) h

pub set_wait_info-Frame : (k : Kernel) (t : ℕ) (w : WaitInfo) → Frame k (set_wait_info k t w)
set_wait_info-Frame k t w = set_node-Frame k t _

pub set_recv_buf-Frame : (k : Kernel) (t : ℕ) (p : Option ℕ) → Frame k (set_recv_buf k t p)
set_recv_buf-Frame k t p = set_task-Frame k t _ refl refl refl

-- what holds of the queue that a choice leaves
abbrev Kept : (List ℕ → Type 0) → Option (ℕ × List ℕ) → Type 0
Kept P none = Unit
Kept P (some (t, ts)) = P ts

keep-Kept :
    (P Q : List ℕ → Type 0) (t : ℕ) (o : Option (ℕ × List ℕ))
    → ((ts : List ℕ) → P ts → Q (t ∷ ts))
    → Kept P o
    → Kept Q (keep t o)
unfolding keep
keep-Kept P Q t none f h = tt
keep-Kept P Q t (some (u, us)) f h = f us h

first_normal-All :
    (P : ℕ → Type 0) (info : ℕ → WaitInfo) (ts : List ℕ)
    → All P ts
    → Kept (All P) (first_normal info ts)
unfolding first_normal
first_normal-All P info [] h = tt
first_normal-All P info (t ∷ ts) h = elim (Bool-cases (is_broadcast (info t))) [
  | inl e ↦ rw e (keep-Kept (All P) (All P) t _ (λ us a. (h.0, a)) (first_normal-All P info ts h.1))
  | inr e ↦ rw e h.1
]

Kept-both :
    (P Q : List ℕ → Type 0) (o : Option (ℕ × List ℕ))
    → Kept P o
    → Kept Q o
    → Kept (λ ts. P ts × Q ts) o
Kept-both P Q none a b = tt
Kept-both P Q (some (t, ts)) a b = (a, b)

first_normal-IsOrdered :
    (prio : ℕ → ℕ) (info : ℕ → WaitInfo) (ts : List ℕ)
    → IsOrdered prio ts
    → Kept (IsOrdered prio) (first_normal info ts)
unfolding first_normal
first_normal-IsOrdered prio info [] h = tt
first_normal-IsOrdered prio info (t ∷ ts) h = elim (Bool-cases (is_broadcast (info t))) [
  | inl e ↦
      let P : List ℕ → Type 0 = All (λ y. prio t ≤ prio y) in
      rw e (
        keep-Kept (λ us. P us × IsOrdered prio us) (IsOrdered prio) t _ (λ us a. a)
          (Kept-both P (IsOrdered prio) _ (first_normal-All _ info ts h.0)
            (first_normal-IsOrdered prio info ts h.1)))
  | inr e ↦ rw e h.1
]

-- what holds after a task was taken off a queue, if one was
abbrev Left : (Kernel → Type 0) → Option (ℕ × Kernel) → Type 0
Left P none = Unit
Left P (some (t, k)) = P k

deq_chosen-Holds :
    (k : Kernel) (a : ℕ) (o : Option (ℕ × List ℕ))
    → Holds k a
    → Kept (IsOrdered (prio_of k)) o
    → Left (λ k'. Holds k' a) (deq_chosen k a o)
unfolding deq_chosen
deq_chosen-Holds k a none h c = tt
deq_chosen-Holds k a (some (t, ts)) h c =
    let s = record (k.mesgqs a) { waiting_receivers = ts } in
    Holds-Frame (set_mesgq k a s) _ a (set_wait_info-Frame (set_mesgq k a s) t _)
      (set_mesgq-Holds k a s (record { reads_at = h.reads_at; receivers = c; senders = h.senders }))

deq_normal_receiver-Holds :
    (k : Kernel) (a : ℕ) → Holds k a → Left (λ k'. Holds k' a) (deq_normal_receiver k a)
unfolding deq_normal_receiver
deq_normal_receiver-Holds k a h =
    deq_chosen-Holds k a _ h (
      first_normal-IsOrdered (prio_of k) (wait_info_of k) (k.mesgqs a).waiting_receivers
        h.receivers)

wake_normal_receiver_deq-Holds :
    (k : Kernel) (r a : ℕ) (o : Option (ℕ × Kernel))
    → Holds k a
    → Left (λ k'. Holds k' a) o
    → Holds (wake_normal_receiver_deq k r o) a
unfolding wake_normal_receiver_deq
wake_normal_receiver_deq-Holds k r a none h l = h
wake_normal_receiver_deq-Holds k r a (some (t, k')) h l =
    Holds-Frame k' _ a
      (Frame-trans (stop_timeout-Frame k' t TimeoutType.blocking)
        (Frame-trans (set_wait_info-Frame _ t _) (ready_switch-Frame _ r t)))
      l

pub wake_normal_receiver-Holds :
    (k : Kernel) (r a : ℕ) → Holds k a → Holds (wake_normal_receiver k r a) a
unfolding wake_normal_receiver
wake_normal_receiver-Holds k r a h =
    wake_normal_receiver_deq-Holds k r a _ h (deq_normal_receiver-Holds k a h)

wake_sender-from :
    (k : Kernel) (r a : ℕ) (xs : List ℕ)
    → (k.mesgqs a).waiting_senders ≡ xs
    → Holds k a
    → Holds (wake_sender_deq k r (deq_list k (senders_queue a) xs)) a
unfolding wake_sender_deq deq_list clear_if_empty is_ready_queue
wake_sender-from k r a [] e h = h
wake_sender-from k r a (t ∷ ts) e h =
    let s = record (k.mesgqs a) { waiting_senders = ts } in
    let k' = set_mesgq k a s in
    Holds-Frame k' _ a
      (Frame-trans (stop_timeout-Frame k' t TimeoutType.blocking) (ready_switch-Frame _ r t))
      (set_mesgq-Holds k a s (record {
        reads_at = h.reads_at;
        receivers = h.receivers;
        senders = (subst (IsOrdered (prio_of k)) e h.senders).1;
      }))

pub wake_sender-Holds : (k : Kernel) (r a : ℕ) → Holds k a → Holds (wake_sender k r a) a
unfolding wake_sender deq
wake_sender-Holds k r a h = wake_sender-from k r a (k.mesgqs a).waiting_senders refl h

copy_to-Holds :
    (k : Kernel) (a : ℕ) (p : Option ℕ) (src : ℕ) → Holds k a → Holds (copy_to k a p src) a
unfolding copy_to
copy_to-Holds k a none src h = h
copy_to-Holds k a (some dst) src h = record {
  reads_at = h.reads_at;
  receivers = h.receivers;
  senders = h.senders;
}

pub deliver-Holds : (k : Kernel) (r a t src : ℕ) → Holds k a → Holds (deliver k r a t src) a
unfolding deliver
deliver-Holds k r a t src h =
    let k1 = copy_to k a (k.tasks t).mesg_queue_recv_buf_ptr src in
    Holds-Frame k1 _ a
      (Frame-trans (set_recv_buf-Frame k1 t none) (
        Frame-trans (set_wait_info-Frame _ t _)
          (Frame-trans (stop_timeout-Frame _ t TimeoutType.blocking) (ready_switch-Frame _ r t))))
      (copy_to-Holds k a _ src h)

-- what holds after a direct delivery, if there was one
abbrev pub Sent : (Kernel → Type 0) → Option Kernel → Type 0
Sent P none = Unit
Sent P (some k) = P k

direct_send_deq-Holds :
    (r a src : ℕ) (o : Option (ℕ × Kernel))
    → Left (λ k'. Holds k' a) o
    → Sent (λ k'. Holds k' a) (direct_send_deq r a src o)
unfolding direct_send_deq
direct_send_deq-Holds r a src none l = tt
direct_send_deq-Holds r a src (some (t, k')) l = deliver-Holds k' r a t src l

pub direct_send-Holds :
    (k : Kernel) (r a src : ℕ) → Holds k a → Sent (λ k'. Holds k' a) (direct_send k r a src)
unfolding direct_send
direct_send-Holds k r a src h = elim (Bool-cases (is_busy k a)) [
  | inl e ↦ rw e tt
  | inr e ↦ rw e (direct_send_deq-Holds r a src _ (deq_normal_receiver-Holds k a h))
]
