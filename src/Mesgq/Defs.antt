-- ===== src/Mesgq/Defs.antt =====
-- The parts of core/src/kmesgq.c that the calls on the queue at address `a` share: the tests,
-- kMesgQueueInit, the choice of a receiver, and what wakes receivers and senders.
use rk.Base.{
  ℕ, Bool, true, false, ◌||◌, not, Option, none, some, List, [], ◌∷◌, ltb, ◌==◌, if◌then◌else◌,
}
use rk.Base.Memory.{Mem, copy_words}
use rk.RingBuf.{Ring}
use rk.RingBuf as RingBuf
use rk.Err.{Err, success, obj_null, obj_double_init, invalid_msg_size, invalid_depth}
use rk.Obj.{object_ready_err, owner_domain_set}
use rk.Kernel.{
  Kernel, MesgQueue, TimeoutType, WaitInfo, receivers_queue, senders_queue, update, set_queue,
  set_task, run_domain, checked,
}
use rk.Sched.Queue.{deq}
use rk.Sched.Resched.{raw_init_guard}
use rk.Sched.Switch.{ready_switch}
use rk.Timeout.Node.{node_of, set_node, stop_timeout}

-- RK_MESGQQUEUE_KOBJ_ID
abbrev pub mesgq_kobj_id : ℕ
mesgq_kobj_id = 3491757825

abbrev pub set_mesgq : Kernel → ℕ → MesgQueue → Kernel
set_mesgq k a s = record k { mesgqs = update k.mesgqs a s }

-- the ring of the queue and the memory, after an operation on the ring
abbrev pub set_ring : Kernel → ℕ → Ring × Mem → Kernel
set_ring k a x = record (set_mesgq k a (record (k.mesgqs a) { ring_buf = x.0 })) { memory = x.1 }

-- kMesgQueueReadyErr_
unfoldable pub mesgq_ready_err : Kernel → ℕ → Err
unfolding object_ready_err
mesgq_ready_err k a = object_ready_err (some (k.mesgqs a).header) mesgq_kobj_id (run_domain k)

-- the sizes of a message that kMesgQueueInit takes, in words
unfoldable pub is_mesg_words : ℕ → Bool
is_mesg_words n = n == 1 || (n == 2 || (n == 4 || (n == 8 || n == 16)))

-- The end of kMesgQueueInit. A refusal of kRingBufInit, which would leave the ring as it was, is
-- asserted not to come up.
unfoldable pub ring_or : Ring → Option Ring → Ring
ring_or r none = r
ring_or r (some r') = r'

unfoldable pub init_ring : Kernel → ℕ → Ring → Kernel
unfolding owner_domain_set
init_ring k a r = set_mesgq k a (record {
  header =
      owner_domain_set (record (k.mesgqs a).header { init = true; obj_id = mesgq_kobj_id })
        (run_domain k);
  ring_buf = r;
  waiting_receivers = [];
  waiting_senders = [];
  broadcast_receivers = 0;
})

unfoldable pub init_at : Kernel → Option ℕ → Option ℕ → ℕ → ℕ → Err × Kernel
unfolding init_ring is_mesg_words RingBuf.init ring_or
init_at k (some a) (some buf) words n =
    if not (is_mesg_words words)
    then (invalid_msg_size, k)
    else (if n == 0
        then (invalid_depth, k)
        else (if (k.mesgqs a).header.init
            then (obj_double_init, k)
            else (let r = (k.mesgqs a).ring_buf in
                (success, init_ring k a (ring_or r (RingBuf.init r buf words n))))))
init_at k p buf words n = (obj_null, k)

-- kMesgQueueInit
unfoldable pub init : Kernel → Option ℕ → Option ℕ → ℕ → ℕ → Err × Kernel
unfolding raw_init_guard init_at
init k p buf words n = checked (raw_init_guard k) (init_at k p buf words n) k

unfoldable pub is_broadcast : WaitInfo → Bool
is_broadcast WaitInfo.wait_broadcast = true
is_broadcast _ = false

-- a receiver that waits for a broadcast stays in the queue
unfoldable pub keep : ℕ → Option (ℕ × List ℕ) → Option (ℕ × List ℕ)
keep t none = none
keep t (some (u, us)) = some (u, t ∷ us)

-- the `while` of kMesgQueueDeqNormalReceiver_: the first receiver that waits for no broadcast, and
-- the queue without it
unfoldable pub first_normal : (ℕ → WaitInfo) → List ℕ → Option (ℕ × List ℕ)
unfolding is_broadcast keep
first_normal info [] = none
first_normal info (t ∷ ts) =
    let rest = first_normal info ts in if is_broadcast (info t) then keep t rest else some (t, ts)

abbrev pub wait_info_of : Kernel → ℕ → WaitInfo
wait_info_of k t = (node_of k t).wait_info

abbrev pub set_wait_info : Kernel → ℕ → WaitInfo → Kernel
set_wait_info k t w = set_node k t (record (node_of k t) { wait_info = w })

abbrev pub set_recv_buf : Kernel → ℕ → Option ℕ → Kernel
set_recv_buf k t p = set_task k t (record (k.tasks t) { mesg_queue_recv_buf_ptr = p })

-- kMesgQueueDeqNormalReceiver_
unfoldable pub deq_chosen : Kernel → ℕ → Option (ℕ × List ℕ) → Option (ℕ × Kernel)
deq_chosen k a none = none
deq_chosen k a (some (t, ts)) =
    some (t, set_wait_info (set_queue k (receivers_queue a) ts) t WaitInfo.wait_normal)

unfoldable pub deq_normal_receiver : Kernel → ℕ → Option (ℕ × Kernel)
unfolding first_normal deq_chosen
deq_normal_receiver k a =
    deq_chosen k a (first_normal (wait_info_of k) (k.mesgqs a).waiting_receivers)

-- kMesgQueueWakeNormalReceiverIfAny_
unfoldable pub wake_normal_receiver_deq : Kernel → ℕ → Option (ℕ × Kernel) → Kernel
unfolding stop_timeout ready_switch
wake_normal_receiver_deq k r none = k
wake_normal_receiver_deq k r (some (t, k')) =
    (ready_switch (set_wait_info (stop_timeout k' t TimeoutType.blocking) t WaitInfo.wait_normal) r
      t).1

unfoldable pub wake_normal_receiver : Kernel → ℕ → ℕ → Kernel
unfolding wake_normal_receiver_deq deq_normal_receiver
wake_normal_receiver k r a = wake_normal_receiver_deq k r (deq_normal_receiver k a)

-- kMesgQueueWakeSenderIfAny_
unfoldable pub wake_sender_deq : Kernel → ℕ → Option (ℕ × Kernel) → Kernel
unfolding stop_timeout ready_switch
wake_sender_deq k r none = k
wake_sender_deq k r (some (t, k')) = (ready_switch (stop_timeout k' t TimeoutType.blocking) r t).1

unfoldable pub wake_sender : Kernel → ℕ → ℕ → Kernel
unfolding wake_sender_deq deq
wake_sender k r a = wake_sender_deq k r (deq k (senders_queue a))

-- kMesgQueueCopy_ to the buffer of a receiver; a null buffer is asserted not to come up
unfoldable pub copy_to : Kernel → ℕ → Option ℕ → ℕ → Kernel
unfolding copy_words
copy_to k a none src = k
copy_to k a (some dst) src = record k {
  memory = copy_words k.memory dst src (k.mesgqs a).ring_buf.data_size;
}

-- the delivery of kMesgQueueDirectSendIfAny_ to the receiver `t`
unfoldable pub deliver : Kernel → ℕ → ℕ → ℕ → ℕ → Kernel
unfolding copy_to stop_timeout ready_switch
deliver k r a t src =
    let k1 = copy_to k a (k.tasks t).mesg_queue_recv_buf_ptr src in
    let k2 = set_wait_info (set_recv_buf k1 t none) t WaitInfo.direct_deliver in
    (ready_switch (stop_timeout k2 t TimeoutType.blocking) r t).1

unfoldable pub direct_send_deq : ℕ → ℕ → ℕ → Option (ℕ × Kernel) → Option Kernel
unfolding deliver
direct_send_deq r a src none = none
direct_send_deq r a src (some (t, k')) = some (deliver k' r a t src)

-- `(kobj->ringBuf.nFull != 0UL) || (kobj->broadcastReceivers > 0UL)`
abbrev pub is_busy : Kernel → ℕ → Bool
is_busy k a = not ((k.mesgqs a).ring_buf.n_full == 0) || ltb 0 (k.mesgqs a).broadcast_receivers

-- kMesgQueueDirectSendIfAny_: `none` is RK_FALSE
unfoldable pub direct_send : Kernel → ℕ → ℕ → ℕ → Option Kernel
unfolding direct_send_deq deq_normal_receiver
direct_send k r a src =
    if is_busy k a then none else direct_send_deq r a src (deq_normal_receiver k a)
