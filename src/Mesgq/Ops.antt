-- ===== src/Mesgq/Ops.antt =====
-- The calls of core/src/kmesgq.c on the queue at address `a`, made by the task `r` that is in
-- RK_gRunPtr, after the handle was resolved. A blocking call has two halves: the first returns or
-- ends in the switch, the second runs when the task is dispatched again and may wait once more.
use rk.Base.{
  ℕ, ◌+◌, Bool, true, false, ◌&&◌, ◌||◌, Option, none, some, List, [], ◌∷◌, length, ltb, leb, ◌==◌,
  if◌then◌else◌,
}
use rk.Base.Memory.{Mem}
use rk.RingBuf.{Ring}
use rk.RingBuf as RingBuf
use rk.Err.{
  Err, success, obj_null, invalid_isr_primitive, invalid_param, buffer_empty, buffer_full, timeout,
  mesgq_not_a_mbox,
}
use rk.Kernel.{
  Kernel, QueueRef, Status, TimeoutType, WaitInfo, receivers_queue, senders_queue, set_queue,
  set_task, Outcome, returns, blocks, checked, checked_wait, JobType,
}
use rk.Sched.Queue.{enq_by_prio}
use rk.Sched.Resched.{pend_switch}
use rk.Sched.Switch.{set_status, ready_no_switch}
use rk.PostProc.{job_enq}
use rk.SleepQ.Defs.{choose, resched_chosen}
use rk.Timeout.Node.{setup, add, forget, stop_timeout, is_bounded}
use rk.Mesgq.Defs.{
  mesgq_ready_err, set_mesgq, set_ring, set_wait_info, set_recv_buf, wait_info_of, direct_send,
  wake_normal_receiver, wake_sender,
}

-- a wait: the running task into the queue `q`
unfoldable pub block : Kernel → ℕ → QueueRef → Kernel
unfolding enq_by_prio pend_switch
block k r q = pend_switch (enq_by_prio k q r)

-- What a waiting call does with the result of kTimeoutNodeAdd: `mark` is what it writes in its
-- task before it joins the queue.
unfoldable pub block_bounded : (Kernel → Kernel) → Err × Kernel → ℕ → QueueRef → Outcome × Kernel
unfolding block
block_bounded mark (success, k) r q = (blocks, block (mark k) r q)
block_bounded mark (e, k) r q = (returns e, forget k r)

-- a turn of the `do` of a waiting call, up to the switch
unfoldable pub wait : (Kernel → Kernel) → Kernel → ℕ → QueueRef → ℕ → Outcome × Kernel
unfolding block_bounded add is_bounded block
wait mark k r q ticks =
    if is_bounded ticks
    then block_bounded mark (add (setup k r TimeoutType.blocking (some q)) r ticks) r q
    else (blocks, block (mark k) r q)

-- `if (kobj->ringBuf.nFull >= kobj->ringBuf.maxBuf)`
abbrev pub is_full : Kernel → ℕ → Bool
is_full k a = leb (k.mesgqs a).ring_buf.max_buf (k.mesgqs a).ring_buf.n_full

-- kRingBufWrite or kRingBufJam
abbrev pub Put : Type 0
Put = Ring → Mem → ℕ → Ring × Mem

-- the end of kMesgQueueSend and kMesgQueueJam: to a waiting receiver, or into the ring
unfoldable pub put_or_deliver : Put → Kernel → ℕ → ℕ → ℕ → Option Kernel → Kernel
unfolding wake_normal_receiver
put_or_deliver put k r a src none =
    wake_normal_receiver (set_ring k a (put (k.mesgqs a).ring_buf k.memory src)) r a
put_or_deliver put k r a src (some k') = k'

unfoldable pub deposit : Put → Kernel → ℕ → ℕ → ℕ → Kernel
unfolding put_or_deliver direct_send
deposit put k r a src = put_or_deliver put k r a src (direct_send k r a src)

unfoldable pub send_wait : Kernel → ℕ → ℕ → ℕ → Outcome × Kernel
unfolding wait
send_wait k r a ticks = wait (λ x. set_status x r Status.sending) k r (senders_queue a) ticks

unfoldable pub send_ready : Put → Kernel → ℕ → ℕ → Option ℕ → ℕ → Outcome × Kernel
unfolding send_wait deposit
send_ready put k r a none ticks = (returns obj_null, k)
send_ready put k r a (some src) ticks =
    if is_full k a
    then (if ticks == 0 then (returns buffer_full, k) else send_wait k r a ticks)
    else (returns success, deposit put k r a src)

-- the first half of kMesgQueueSend and kMesgQueueJam
unfoldable pub send_by : Put → Kernel → ℕ → ℕ → Option ℕ → ℕ → Outcome × Kernel
unfolding mesgq_ready_err send_ready
send_by put k r a p ticks =
    checked_wait (mesgq_ready_err k a)
      (if k.in_isr && ltb 0 ticks
        then (returns invalid_isr_primitive, k)
        else send_ready put k r a p ticks)
      k

-- the second half: the `while` of the wait
unfoldable pub send_by_resume : Put → Kernel → ℕ → ℕ → ℕ → ℕ → Outcome × Kernel
unfolding is_bounded stop_timeout send_wait deposit
send_by_resume put k r a src ticks =
    let c = k.tasks r in
    if c.time_out
    then (returns timeout, set_task k r (record c { time_out = false }))
    else (let k' = if is_bounded ticks then stop_timeout k r TimeoutType.blocking else k in
        if is_full k' a then send_wait k' r a ticks else (returns success, deposit put k' r a src))

-- kMesgQueueSend
unfoldable pub send : Kernel → ℕ → ℕ → Option ℕ → ℕ → Outcome × Kernel
unfolding send_by RingBuf.write
send = send_by RingBuf.write

unfoldable pub send_resume : Kernel → ℕ → ℕ → ℕ → ℕ → Outcome × Kernel
unfolding send_by_resume RingBuf.write
send_resume = send_by_resume RingBuf.write

-- kMesgQueueJam
unfoldable pub jam : Kernel → ℕ → ℕ → Option ℕ → ℕ → Outcome × Kernel
unfolding send_by RingBuf.jam
jam = send_by RingBuf.jam

unfoldable pub jam_resume : Kernel → ℕ → ℕ → ℕ → ℕ → Outcome × Kernel
unfolding send_by_resume RingBuf.jam
jam_resume = send_by_resume RingBuf.jam

-- `(kobj->ringBuf.nFull == 0) || (kobj->broadcastReceivers > 0UL)`
abbrev pub has_none : Kernel → ℕ → Bool
has_none k a = (k.mesgqs a).ring_buf.n_full == 0 || ltb 0 (k.mesgqs a).broadcast_receivers

-- the end of kMesgQueueRecv: the oldest message out of the ring
unfoldable pub take : Kernel → ℕ → ℕ → ℕ → Kernel
unfolding RingBuf.read wake_sender
take k r a dst =
    wake_sender
      (set_recv_buf (set_ring k a (RingBuf.read (k.mesgqs a).ring_buf k.memory dst)) r none) r a

-- what a receiver writes in its task before it waits
unfoldable pub recv_mark : ℕ → ℕ → Kernel → Kernel
recv_mark r dst k =
    set_wait_info (set_recv_buf (set_status k r Status.receiving) r (some dst)) r
      WaitInfo.wait_normal

unfoldable pub recv_wait : Kernel → ℕ → ℕ → ℕ → ℕ → Outcome × Kernel
unfolding wait recv_mark
recv_wait k r a dst ticks = wait (recv_mark r dst) k r (receivers_queue a) ticks

unfoldable pub recv_ready : Kernel → ℕ → ℕ → Option ℕ → ℕ → Outcome × Kernel
unfolding recv_wait take
recv_ready k r a none ticks = (returns obj_null, k)
recv_ready k r a (some dst) ticks =
    if has_none k a
    then (if ticks == 0 then (returns buffer_empty, k) else recv_wait k r a dst ticks)
    else (returns success, take k r a dst)

-- the first half of kMesgQueueRecv
unfoldable pub recv : Kernel → ℕ → ℕ → Option ℕ → ℕ → Outcome × Kernel
unfolding mesgq_ready_err recv_ready
recv k r a p ticks =
    checked_wait (mesgq_ready_err k a)
      (if k.in_isr && ltb 0 ticks
        then (returns invalid_isr_primitive, k)
        else recv_ready k r a p ticks)
      k

unfoldable pub is_direct : WaitInfo → Bool
is_direct WaitInfo.direct_deliver = true
is_direct _ = false

-- the second half of kMesgQueueRecv
unfoldable pub recv_resume : Kernel → ℕ → ℕ → ℕ → ℕ → Outcome × Kernel
unfolding is_bounded stop_timeout is_direct recv_wait take
recv_resume k r a dst ticks =
    let c = k.tasks r in
    if c.time_out
    then (
      returns timeout,
      set_wait_info (set_recv_buf (set_task k r (record c { time_out = false })) r none) r
          WaitInfo.wait_normal,
    )
    else (let k' = if is_bounded ticks then stop_timeout k r TimeoutType.blocking else k in
        if is_direct (wait_info_of k' r)
        then (returns success, set_recv_buf (set_wait_info k' r WaitInfo.wait_normal) r none)
        else (if has_none k' a
            then recv_wait k' r a dst ticks
            else (returns success, take k' r a dst)))

-- kMesgQueuePeek
unfoldable pub peek_ready : Kernel → ℕ → Option ℕ → Err × Kernel
unfolding RingBuf.peek
peek_ready k a none = (obj_null, k)
peek_ready k a (some dst) =
    if has_none k a
    then (buffer_empty, k)
    else (success, record k { memory = RingBuf.peek (k.mesgqs a).ring_buf k.memory dst })

unfoldable pub peek : Kernel → ℕ → Option ℕ → Err × Kernel
unfolding mesgq_ready_err peek_ready
peek k a p = checked (mesgq_ready_err k a) (peek_ready k a p) k

-- the end of kMesgQueuePostOvw
unfoldable pub overwrite_or_deliver : Kernel → ℕ → ℕ → ℕ → Option Kernel → Kernel
unfolding RingBuf.overwrite wake_normal_receiver
overwrite_or_deliver k r a src none =
    let k' = set_ring k a (RingBuf.overwrite (k.mesgqs a).ring_buf k.memory src) in
    if (k.mesgqs a).ring_buf.n_full == 0 then wake_normal_receiver k' r a else k'
overwrite_or_deliver k r a src (some k') = k'

unfoldable pub post_ovw_ready : Kernel → ℕ → ℕ → Option ℕ → Err × Kernel
unfolding overwrite_or_deliver direct_send
post_ovw_ready k r a none = (obj_null, k)
post_ovw_ready k r a (some src) =
    if ltb 1 (k.mesgqs a).ring_buf.max_buf
    then (mesgq_not_a_mbox, k)
    else (if ltb 0 (k.mesgqs a).broadcast_receivers
        then (buffer_full, k)
        else (success, overwrite_or_deliver k r a src (direct_send k r a src)))

-- kMesgQueuePostOvw
unfoldable pub post_ovw : Kernel → ℕ → ℕ → Option ℕ → Err × Kernel
unfolding mesgq_ready_err post_ovw_ready
post_ovw k r a p = checked (mesgq_ready_err k a) (post_ovw_ready k r a p) k

-- kMesgQueueQuery, which of its pointers are there given; what is not written is `none`
unfoldable pub query : Kernel → ℕ → Bool → Bool → Bool → Err × Option ℕ × Option ℕ × Option ℕ
unfolding mesgq_ready_err
query k a mesgs receivers senders = elim (mesgq_ready_err k a) [
  | success ↦
      let s = k.mesgqs a in
      if mesgs || (receivers || senders)
      then (
        success,
        if mesgs then some s.ring_buf.n_full else none,
        if receivers then some (length s.waiting_receivers) else none,
        if senders then some (length s.waiting_senders) else none,
      )
      else (invalid_param, none, none, none)
  | e ↦ (e, none, none, none)
]

-- one of the two `for` of kMesgQueueReset, over the tasks of the queue `q`: each leaves the queue
-- and is made ready, `clear` what else is written in it
unfoldable pub drain :
    (ℕ → Kernel → Kernel) → Kernel → QueueRef → List ℕ → Option ℕ → Option ℕ × Kernel
unfolding stop_timeout ready_no_switch choose
drain clear k q [] chosen = (chosen, k)
drain clear k q (t ∷ ts) chosen =
    let k' = clear t (stop_timeout (set_queue k q ts) t TimeoutType.blocking) in
    let k'' = ready_no_switch k' t in drain clear k'' q ts (choose k'' chosen t)

unfoldable pub recv_clear : ℕ → Kernel → Kernel
recv_clear t k = set_recv_buf (set_wait_info k t WaitInfo.wait_normal) t none

-- the rest of kMesgQueueReset, where it is not deferred
unfoldable pub reset_ready : Kernel → ℕ → ℕ → Kernel
unfolding RingBuf.reset drain recv_clear resched_chosen
reset_ready k r a =
    let s = k.mesgqs a in
    let k1 =
      set_mesgq k a (record s { ring_buf = RingBuf.reset s.ring_buf; broadcast_receivers = 0 }) in
    let (c, k2) = drain recv_clear k1 (receivers_queue a) s.waiting_receivers none in
    let (c', k3) = drain (λ t x. x) k2 (senders_queue a) s.waiting_senders c in
    resched_chosen k3 r c'

-- from an interrupt the reset of a queue where tasks wait is left to the post-processing task
unfoldable pub reset_or_defer : Kernel → ℕ → ℕ → Err × Kernel
unfolding reset_ready job_enq
reset_or_defer k r a =
    let n = length (k.mesgqs a).waiting_receivers + length (k.mesgqs a).waiting_senders in
    if ltb 0 n && k.in_isr
    then job_enq k r (record { job_type = JobType.mesgq_reset; obj = a; n_tasks = n })
    else (success, reset_ready k r a)

unfoldable pub reset : Kernel → ℕ → ℕ → Err × Kernel
unfolding mesgq_ready_err reset_or_defer
reset k r a = checked (mesgq_ready_err k a) (reset_or_defer k r a) k
