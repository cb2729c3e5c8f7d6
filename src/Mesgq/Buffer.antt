-- ===== src/Mesgq/Buffer.antt =====
-- Messages that go through the ring: what a send adds and a receive takes.
use rk.Base.{ℕ, ◌+◌, ◌<◌, ◌≡◌, refl, sym, false, ◌&&◌, some, List, [], ◌∷◌, ◌++◌, ltb, arith}
use mathlib.Core.Path.{subst}
use rk.Base.Memory.{Mem, words_at}
use rk.RingBuf as RingBuf
use rk.RingBuf.{Ring}
use rk.RingBuf.Inv.{ReadsAt, round, prev, write-ReadsAt, jam-ReadsAt, read-ReadsAt}
use rk.RingBuf.Refine.{contents, Outside, write_refines, jam_refines, read_refines}
use rk.Err.{success}
use rk.Kernel.{Kernel, returns}
use rk.Mesgq.Defs.{mesgq_ready_err}
use rk.Mesgq.Ops.{has_none, send, jam, recv, recv_ready, take}
use rk.Mesgq.Deliver.{send_by_lem}
use rk.Mesgq.Stays.{Stays, with_ring, NoReceiver, deposit-Stays, take-Stays}

-- the messages that a queue whose ring reads at `i` holds, the oldest first
abbrev pub messages : Kernel → ℕ → ℕ → List (List ℕ)
messages k a i = contents (k.mesgqs a).ring_buf k.memory i

-- the ring of the queue, in order and reading at `i`, with the messages `ms`
abbrev pub HasMessages : Kernel → ℕ → ℕ → List (List ℕ) → Type 0
HasMessages k a i ms = ReadsAt (k.mesgqs a).ring_buf i × (messages k a i ≡ ms)

HasMessages-Stays :
    (k k' : Kernel) (a : ℕ) (b : Ring) (m : Mem) (i : ℕ) (ms : List (List ℕ))
    → Stays k a (with_ring k a b) m k'
    → ReadsAt b i
    → contents b m i ≡ ms
    → HasMessages k' a i ms
HasMessages-Stays k k' a b m i ms h v e =
    subst (λ x. ReadsAt x i × (contents x k'.memory i ≡ ms)) (sym h.ring)
      (v, subst (λ y. contents b y i ≡ ms) (sym h.memory) e)

module _ (k : Kernel) (r a i : ℕ) (v : ReadsAt (k.mesgqs a).ring_buf i) where
  abbrev ring : Ring
  ring = (k.mesgqs a).ring_buf

  -- kMesgQueueSend to a queue that the caller may use, whose ring is valid and has room, and
  -- that has no receiver to hand the message to, succeeds and adds the words of the message
  -- behind the messages that wait; the ring stays valid. The caller is in no interrupt
  -- handler, or does not wait, and the message lies outside the ring's buffer.
  pub send_adds_last :
      (src ticks : ℕ)
      → mesgq_ready_err k a ≡ success
      → (k.in_isr && ltb 0 ticks) ≡ false
      → ring.n_full < ring.max_buf
      → NoReceiver k a
      → Outside ring src
      → let (o, k') = send k r a (some src) ticks in
        (o ≡ returns success)
        × HasMessages k' a i (messages k a i ++ words_at k.memory src ring.data_size ∷ [])
  unfolding send
  send_adds_last src ticks e s l n o =
      subst
        (λ x.
          (x.0 ≡ returns success)
          × HasMessages x.1 a i (messages k a i ++ words_at k.memory src ring.data_size ∷ []))
        (sym (send_by_lem RingBuf.write k r a src ticks e s l))
        (
          refl,
          HasMessages-Stays k _ a _ _ i _ (deposit-Stays RingBuf.write k r a src n)
              (write-ReadsAt ring i k.memory src v l) (write_refines ring i k.memory v src l o),
        )

  -- kMesgQueueJam under the same conditions succeeds and puts the words of the message before the
  -- messages that wait.
  jam_adds_first :
      (src ticks : ℕ)
      → mesgq_ready_err k a ≡ success
      → (k.in_isr && ltb 0 ticks) ≡ false
      → ring.n_full < ring.max_buf
      → NoReceiver k a
      → Outside ring src
      → let (o, k') = jam k r a (some src) ticks in
        (o ≡ returns success)
        × HasMessages k' a
            (prev ring.max_buf i)
            (words_at k.memory src ring.data_size ∷ messages k a i)
  unfolding jam
  jam_adds_first src ticks e s l n o =
      subst
        (λ x.
          (x.0 ≡ returns success)
          × HasMessages x.1 a (prev ring.max_buf i)
              (words_at k.memory src ring.data_size ∷ messages k a i))
        (sym (send_by_lem RingBuf.jam k r a src ticks e s l))
        (
          refl,
          HasMessages-Stays k _ a _ _ (prev ring.max_buf i) _
              (deposit-Stays RingBuf.jam k r a src n) (jam-ReadsAt ring i k.memory src v l)
              (jam_refines ring i k.memory v src l o),
        )

  pub recv_lem :
      (dst ticks : ℕ)
      → mesgq_ready_err k a ≡ success
      → (k.in_isr && ltb 0 ticks) ≡ false
      → 0 < ring.n_full
      → (k.mesgqs a).broadcast_receivers ≡ 0
      → recv k r a (some dst) ticks ≡ (returns success, take k r a dst)
  unfolding recv recv_ready
  recv_lem dst ticks e s l b =
      let f : has_none k a ≡ false = ground (arith, l, b) in rw e (rw s (rw f refl))

  -- kMesgQueueRecv from a queue that the caller may use, whose ring is valid and has a
  -- message, with no broadcast on, succeeds: the words of the oldest message stand at the
  -- destination, and the others wait, in order. The caller is in no interrupt handler, or does
  -- not wait, and the destination lies outside the ring's buffer.
  pub recv_takes_first :
      (dst ticks : ℕ)
      → mesgq_ready_err k a ≡ success
      → (k.in_isr && ltb 0 ticks) ≡ false
      → 0 < ring.n_full
      → (k.mesgqs a).broadcast_receivers ≡ 0
      → Outside ring dst
      → let (o, k') = recv k r a (some dst) ticks in
        (o ≡ returns success)
        × ((ms : List (List ℕ)) × (messages k a i ≡ words_at k'.memory dst ring.data_size ∷ ms)
            × HasMessages k' a (round ring.max_buf (i + 1)) ms)
  recv_takes_first dst ticks e s l b o =
      let x = RingBuf.read ring k.memory dst in
      let j = round ring.max_buf (i + 1) in
      let h = take-Stays k r a dst in
      let ms = contents x.0 x.1 j in
      subst
        (λ y.
          (y.0 ≡ returns success)
          × ((ms : List (List ℕ)) × (messages k a i ≡ words_at y.1.memory dst ring.data_size ∷ ms)
              × HasMessages y.1 a j ms))
        (sym (recv_lem dst ticks e s l b))
        (
          refl,
          (
            ms,
            subst (λ m. messages k a i ≡ words_at m dst ring.data_size ∷ ms) (sym h.memory)
                (read_refines ring i k.memory v dst l o),
            HasMessages-Stays k (take k r a dst) a x.0 x.1 j ms h
                (read-ReadsAt ring i k.memory dst v l) refl,
          ),
        )
