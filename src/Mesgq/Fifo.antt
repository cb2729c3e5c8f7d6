-- ===== src/Mesgq/Fifo.antt =====
-- A run of sends and receives that do not wait is a run of a bounded first-in first-out queue.
use rk.Base.{
  ℕ, zero, suc, ◌+◌, ◌<◌, ◌≤◌, ◌≡◌, refl, ap, sym, ◌∙◌, inl, inr, Bool, true, false, ◌&&◌, Option,
  none, some, List, [], ◌∷◌, ◌++◌, length, ltb, ◌==◌, Bool-cases, fun_ext, arith,
}
use mathlib.Core.Path.{ap₂, subst}
use rk.Base.Distinct.{All}
use rk.Base.Memory.{Mem, words_at}
use rk.RingBuf as RingBuf
use rk.RingBuf.{Ring}
use rk.RingBuf.Inv.{ReadsAt, round, write-ReadsAt, read-ReadsAt}
use rk.RingBuf.Refine.{contents, window, Outside, write_refines, read_refines}
use rk.Err.{Err, success, buffer_empty, buffer_full}
use rk.Obj.{object_ready_err}
use rk.Kernel.{Kernel, Outcome, returns, blocks, run_domain}
use rk.Mesgq.Defs.{mesgq_ready_err, mesgq_kobj_id}
use rk.Mesgq.Ops.{is_full, has_none, deposit, send_by, send_ready, send, recv_ready, recv, take}
use rk.Mesgq.Deliver.{send_by_lem}
use rk.Mesgq.Stays.{Stays, with_ring, NoReceiver, deposit-Stays, take-Stays}
use rk.Mesgq.Buffer.{messages, recv_lem}

-- a call with RK_NO_WAIT, and its pointer
pub data Call : Type 0 where
  sends : ℕ → Call
  receives : ℕ → Call

-- what a call did, with the words that it sent or got
pub data Event : Type 0 where
  sent : List ℕ → Event
  got : List ℕ → Event
  refused : Err → Event
  waits : Event

unfoldable pub do_call : Kernel → ℕ → ℕ → Call → Outcome × Kernel
unfolding send recv
do_call k r a (sends src) = send k r a (some src) 0
do_call k r a (receives dst) = recv k r a (some dst) 0

unfoldable pub event : ℕ → Kernel → Call → Outcome × Kernel → Event
event size k c (blocks, k') = waits
event size k (sends src) (returns success, k') = sent (words_at k.memory src size)
event size k (receives dst) (returns success, k') = got (words_at k'.memory dst size)
event size k c (returns e, k') = refused e

-- the events of the calls that task `r` makes one after the other on messages of `size` words
unfoldable pub trace : Kernel → ℕ → ℕ → ℕ → List Call → List Event
unfolding do_call event
trace k r a size [] = []
trace k r a size (c ∷ cs) = event size k c (do_call k r a c) ∷ trace (do_call k r a c).1 r a size cs

-- The events are those of a queue that holds `q` and has room for `max`: it takes a message behind
-- the others and refuses one only when it is full; it gives the first, and none only when empty.
abbrev pub IsFifo : ℕ → List (List ℕ) → List Event → Type 0
IsFifo max q [] = Unit
IsFifo max q (sent m ∷ es) = (length q < max) × IsFifo max (q ++ m ∷ []) es
IsFifo max q (got m ∷ es) = (rest : List (List ℕ)) × (q ≡ m ∷ rest) × IsFifo max rest es
IsFifo max q (refused buffer_full ∷ es) = (max ≤ length q) × IsFifo max q es
IsFifo max q (refused buffer_empty ∷ es) = (q ≡ []) × IsFifo max q es
IsFifo max q (e ∷ es) = ⊥

-- the words of the call lie outside the buffer of the ring `b`
abbrev pub CallOutside : Ring → Call → Type 0
CallOutside b (sends src) = Outside b src
CallOutside b (receives dst) = Outside b dst

-- A queue that the caller may use, with no broadcast on and no waiting receiver, whose ring has the
-- buffer of `b` and reads at `i`.
pub record IsCalm (b : Ring) (a : ℕ) (k : Kernel) (i : ℕ) : Type 0 where
  pub usable : mesgq_ready_err k a ≡ success
  pub receivers : (k.mesgqs a).waiting_receivers ≡ []
  pub broadcasts : (k.mesgqs a).broadcast_receivers ≡ 0
  pub reads_at : ReadsAt (k.mesgqs a).ring_buf i
  pub size : (k.mesgqs a).ring_buf.data_size ≡ b.data_size
  pub max : (k.mesgqs a).ring_buf.max_buf ≡ b.max_buf
  pub buf : (k.mesgqs a).ring_buf.buf_ptr ≡ b.buf_ptr

abbrev domain_of : Option ℕ → (ℕ → Option ℕ) → Option ℕ
domain_of o f = elim o [ none ↦ none | some t ↦ f t ]

ready_err-Stays :
    (k k' : Kernel) (a : ℕ) (c : Ring) (m : Mem)
    → Stays k a (with_ring k a c) m k'
    → mesgq_ready_err k' a ≡ mesgq_ready_err k a
unfolding mesgq_ready_err
ready_err-Stays k k' a c m h =
    let d : run_domain k' ≡ run_domain k = ap₂ domain_of h.run (fun_ext h.domain) in
    ap₂ (λ x y. object_ready_err (some x) mesgq_kobj_id y) h.header d

IsCalm-Stays :
    (b : Ring) (a : ℕ) (k k' : Kernel) (i j : ℕ) (c : Ring) (m : Mem)
    → Stays k a (with_ring k a c) m k'
    → IsCalm b a k i
    → ReadsAt c j
    → c.data_size ≡ b.data_size
    → c.max_buf ≡ b.max_buf
    → c.buf_ptr ≡ b.buf_ptr
    → IsCalm b a k' j
IsCalm-Stays b a k k' i j c m h v r s x p = record {
  usable = ready_err-Stays k k' a c m h ∙ v.usable;
  receivers = h.receivers v.receivers;
  broadcasts = h.broadcasts ∙ v.broadcasts;
  reads_at = subst (λ y. ReadsAt y j) (sym h.ring) r;
  size = ap (λ y. y.data_size) h.ring ∙ s;
  max = ap (λ y. y.max_buf) h.ring ∙ x;
  buf = ap (λ y. y.buf_ptr) h.ring ∙ p;
}

length-window : (b d mx : ℕ) (m : Mem) (n j : ℕ) → length (window b d mx m j n) ≡ n
length-window b d mx m zero j = refl
length-window b d mx m (suc n) j = ap suc (length-window b d mx m n (round mx (j + 1)))

length-messages : (k : Kernel) (a i : ℕ) → length (messages k a i) ≡ (k.mesgqs a).ring_buf.n_full
length-messages k a i =
    let s = (k.mesgqs a).ring_buf in
    length-window s.buf_ptr s.data_size s.max_buf k.memory s.n_full i

no_isr : (b : Bool) → (b && ltb 0 0) ≡ false
no_isr true = refl
no_isr false = refl

module _ (b : Ring) (r a : ℕ) where
  send_full :
      (k : Kernel) (i src : ℕ)
      → IsCalm b a k i
      → is_full k a ≡ true
      → send k r a (some src) 0 ≡ (returns buffer_full, k)
  unfolding send send_by send_ready
  send_full k i src v f = rw v.usable (rw (no_isr k.in_isr) (rw f refl))

  recv_empty :
      (k : Kernel) (i dst : ℕ)
      → IsCalm b a k i
      → (k.mesgqs a).ring_buf.n_full ≡ 0
      → recv k r a (some dst) 0 ≡ (returns buffer_empty, k)
  unfolding recv recv_ready
  recv_empty k i dst v z =
      let f : has_none k a ≡ true = ground (arith, z) in
      rw v.usable (rw (no_isr k.in_isr) (rw f refl))

  ring-Outside :
      (k : Kernel) (i p : ℕ) → IsCalm b a k i → Outside b p → Outside (k.mesgqs a).ring_buf p
  ring-Outside k i p v o = rw v.size (rw v.max (rw v.buf o))

  nobody : (k : Kernel) (i : ℕ) → IsCalm b a k i → NoReceiver k a
  nobody k i v = inr (subst (All _) (sym v.receivers) tt)

  abbrev Runs : List Call → Type 0
  Runs cs =
      (k : Kernel) (i : ℕ)
      → IsCalm b a k i
      → IsFifo b.max_buf (messages k a i) (trace k r a b.data_size cs)

  -- the events of a call that ended as `x` says, and of those after it
  abbrev after_call : Kernel → Call → List Call → Outcome × Kernel → List Event
  after_call k c cs x = event b.data_size k c x ∷ trace x.1 r a b.data_size cs

  send_kept :
      (cs : List Call) (k : Kernel) (i src : ℕ)
      → IsCalm b a k i
      → Outside b src
      → (k.mesgqs a).ring_buf.n_full < (k.mesgqs a).ring_buf.max_buf
      → Runs cs
      → IsFifo b.max_buf
          (messages k a i)
          (after_call k (sends src) cs (returns success, deposit RingBuf.write k r a src))
  unfolding event RingBuf.write
  send_kept cs k i src v o l run =
      let s = (k.mesgqs a).ring_buf in
      let x = RingBuf.write s k.memory src in
      let k' = deposit RingBuf.write k r a src in
      let h = deposit-Stays RingBuf.write k r a src (nobody k i v) in
      let w = write-ReadsAt s i k.memory src v.reads_at l in
      let c = IsCalm-Stays b a k k' i i x.0 x.1 h v w v.size v.max v.buf in
      let e : messages k' a i ≡ messages k a i ++ words_at k.memory src b.data_size ∷ [] =
        ap₂ (λ y m. contents y m i) h.ring h.memory
        ∙ write_refines s i k.memory v.reads_at src l (ring-Outside k i src v o)
        ∙ ap (λ d. messages k a i ++ words_at k.memory src d ∷ []) v.size in
      (
        rw (length-messages k a i) (rw (sym v.max) l),
        subst (λ q. IsFifo b.max_buf q (trace k' r a b.data_size cs)) e (run k' i c),
      )

  send_step :
      (cs : List Call) (k : Kernel) (i src : ℕ)
      → IsCalm b a k i
      → Outside b src
      → Runs cs
      → IsFifo b.max_buf (messages k a i) (trace k r a b.data_size (sends src ∷ cs))
  unfolding trace do_call event send
  send_step cs k i src v o run = elim (Bool-cases (is_full k a)) [
    | inl f ↦
        let l : b.max_buf ≤ length (messages k a i) =
          rw (length-messages k a i) (rw (sym v.max) (ground (arith, f))) in
        subst (λ x. IsFifo b.max_buf (messages k a i) (after_call k (sends src) cs x))
          (sym (send_full k i src v f)) (l, run k i v)
    | inr f ↦
        let l : (k.mesgqs a).ring_buf.n_full < (k.mesgqs a).ring_buf.max_buf = ground (arith, f) in
        subst (λ x. IsFifo b.max_buf (messages k a i) (after_call k (sends src) cs x))
          (sym (send_by_lem RingBuf.write k r a src 0 v.usable (no_isr k.in_isr) l))
          (send_kept cs k i src v o l run)
  ]

  recv_given :
      (cs : List Call) (k : Kernel) (i dst : ℕ)
      → IsCalm b a k i
      → Outside b dst
      → 0 < (k.mesgqs a).ring_buf.n_full
      → Runs cs
      → IsFifo b.max_buf
          (messages k a i)
          (after_call k (receives dst) cs (returns success, take k r a dst))
  unfolding event RingBuf.read
  recv_given cs k i dst v o l run =
      let s = (k.mesgqs a).ring_buf in
      let x = RingBuf.read s k.memory dst in
      let k' = take k r a dst in
      let j = round s.max_buf (i + 1) in
      let h = take-Stays k r a dst in
      let w = read-ReadsAt s i k.memory dst v.reads_at l in
      let c = IsCalm-Stays b a k k' i j x.0 x.1 h v w v.size v.max v.buf in
      let e : messages k a i ≡ words_at k'.memory dst b.data_size ∷ messages k' a j =
        read_refines s i k.memory v.reads_at dst l (ring-Outside k i dst v o)
        ∙ ap₂ (λ y m. words_at m dst s.data_size ∷ contents y m j) (sym h.ring) (sym h.memory)
        ∙ ap (λ d. words_at k'.memory dst d ∷ messages k' a j) v.size in
      (messages k' a j, e, run k' j c)

  recv_step :
      (cs : List Call) (k : Kernel) (i dst : ℕ)
      → IsCalm b a k i
      → Outside b dst
      → Runs cs
      → IsFifo b.max_buf (messages k a i) (trace k r a b.data_size (receives dst ∷ cs))
  unfolding trace do_call event
  recv_step cs k i dst v o run = elim (Bool-cases ((k.mesgqs a).ring_buf.n_full == 0)) [
    | inl f ↦
        let z : (k.mesgqs a).ring_buf.n_full ≡ 0 = ground (arith, f) in
        let q : messages k a i ≡ [] =
          ap
            (window (k.mesgqs a).ring_buf.buf_ptr (k.mesgqs a).ring_buf.data_size
              (k.mesgqs a).ring_buf.max_buf k.memory i)
            z in
        subst (λ x. IsFifo b.max_buf (messages k a i) (after_call k (receives dst) cs x))
          (sym (recv_empty k i dst v z)) (q, run k i v)
    | inr f ↦
        let l : 0 < (k.mesgqs a).ring_buf.n_full = ground (arith, f) in
        subst (λ x. IsFifo b.max_buf (messages k a i) (after_call k (receives dst) cs x))
          (sym (recv_lem k r a i v.reads_at dst 0 v.usable (no_isr k.in_isr) l v.broadcasts))
          (recv_given cs k i dst v o l run)
  ]

-- Any sends and receives without a wait that a task makes on a message queue that it may
-- use, with a valid ring, no broadcast on and no receiver waiting, all on words outside the
-- ring's buffer, show what a first-in first-out queue shows that holds the messages of the
-- ring and has room for as many as the ring: a send adds its message behind the others and
-- is refused only when the queue is full, a receive gives the first message and is refused
-- only when the queue is empty, and no call waits or is refused for another reason. Senders
-- may wait.
pub trace-IsFifo :
    (b : Ring) (r a : ℕ) (k : Kernel) (i : ℕ) (cs : List Call)
    → IsCalm b a k i
    → All (CallOutside b) cs
    → IsFifo b.max_buf (messages k a i) (trace k r a b.data_size cs)
unfolding trace
trace-IsFifo b r a k i [] v o = tt
trace-IsFifo b r a k i (sends src ∷ cs) v o =
    send_step b r a cs k i src v o.0 (λ k' j c. trace-IsFifo b r a k' j cs c o.1)
trace-IsFifo b r a k i (receives dst ∷ cs) v o =
    recv_step b r a cs k i dst v o.0 (λ k' j c. trace-IsFifo b r a k' j cs c o.1)
