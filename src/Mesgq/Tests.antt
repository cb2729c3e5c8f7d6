-- ===== src/Mesgq/Tests.antt =====
-- The message queue theorems at queues of two messages of two words at word 100.
use rk.Base.{ℕ, ◌≡◌, ◌≢◌, refl, inl, inr, true, false, some, List, [], ◌∷◌, arith}
use rk.Base.Memory.{words_at}
use rk.Obj.{object_ready_err}
use rk.Err.{success}
use rk.RingBuf.Inv.{ReadsAt}
use rk.Kernel.{
  Kernel, Status, WaitInfo, update, returns, sample_kernel, sample_tasks, sample_tcb, sample_mesgq,
  sample_ring, sample_header,
}
use rk.Sched.Resched.{raw_init_guard}
use rk.Sched.Switch.{postproc_tid}
use rk.Mesgq.Defs.{mesgq_ready_err, init, init_at, is_mesg_words, is_broadcast}
use rk.Mesgq.Ops.{send, recv}
use rk.Mesgq.Laws.{Holds}
use rk.Mesgq.Reach.{Reaches, opens, goes, sends, receives, Reaches-Holds}
use rk.Mesgq.Deliver.{Delivered, send_hands_over}
use rk.Mesgq.Buffer.{HasMessages, messages, send_adds_last, recv_takes_first}
use rk.Mesgq.Fifo.{Call, IsFifo, IsCalm, trace, trace-IsFifo}

sample_ready : mesgq_ready_err sample_kernel 8 ≡ success
unfolding mesgq_ready_err object_ready_err
sample_ready = refl

-- task 3 receives, to word 200
abbrev one_receiver : Kernel
one_receiver = record sample_kernel {
  tasks =
      update sample_tasks 3
        (record (sample_tcb 5 Status.receiving []) { mesg_queue_recv_buf_ptr = some 200 });
  mesgqs = λ a. sample_mesgq (3 ∷ []);
}

receiver_ready : mesgq_ready_err one_receiver 8 ≡ success
unfolding mesgq_ready_err object_ready_err
receiver_ready = refl

not_broadcast : is_broadcast WaitInfo.wait_normal ≡ false
unfolding is_broadcast
not_broadcast = refl

not_postproc : 3 ≢ postproc_tid
not_postproc = λ e. omega (arith, e)

send_hands_over_example :
    let (o, k') = send one_receiver 4 8 (some 300) 0 in
    (o ≡ returns success) × Delivered one_receiver (sample_mesgq []) 8 3 300 200 k'
send_hands_over_example =
    send_hands_over one_receiver 4 8 300 0 3 200 [] [] receiver_ready refl (ground arith) refl refl
      refl tt not_broadcast refl (inl (ground arith)) not_postproc

empty-ReadsAt : ReadsAt sample_ring 0
empty-ReadsAt = record {
  sized = ground arith;
  inside = ground arith;
  bounded = ground arith;
  in_word = ground arith;
  end_at = refl;
  read_at = refl;
  write_at = refl;
}

send_adds_last_example :
    let (o, k') = send sample_kernel 4 8 (some 200) 0 in
    (o ≡ returns success) × HasMessages k' 8 0 ((200 ∷ 201 ∷ []) ∷ [])
unfolding words_at
send_adds_last_example =
    send_adds_last sample_kernel 4 8 0 empty-ReadsAt 200 0 sample_ready refl (ground arith) (inr tt)
      (inr (ground arith))

-- one message is there
abbrev one_message : Kernel
one_message = record sample_kernel {
  mesgqs = λ a. record (sample_mesgq []) {
    ring_buf = record sample_ring { n_full = 1; write_ptr = 102 };
  };
}

message_ready : mesgq_ready_err one_message 8 ≡ success
unfolding mesgq_ready_err object_ready_err
message_ready = refl

one-ReadsAt : ReadsAt (one_message.mesgqs 8).ring_buf 0
one-ReadsAt = record {
  sized = ground arith;
  inside = ground arith;
  bounded = ground arith;
  in_word = ground arith;
  end_at = refl;
  read_at = refl;
  write_at = refl;
}

recv_takes_first_example :
    let (o, k') = recv one_message 4 8 (some 200) 7 in
    (o ≡ returns success)
    × ((ms : List (List ℕ)) × (messages one_message 8 0 ≡ words_at k'.memory 200 2 ∷ ms)
        × HasMessages k' 8 1 ms)
recv_takes_first_example =
    recv_takes_first one_message 4 8 0 one-ReadsAt 200 7 message_ready refl (ground arith) refl
      (inr (ground arith))

message-IsCalm : IsCalm sample_ring 8 one_message 0
message-IsCalm = record {
  usable = message_ready;
  receivers = refl;
  broadcasts = refl;
  reads_at = one-ReadsAt;
  size = refl;
  max = refl;
  buf = refl;
}

-- the third send finds the queue full, the third receive finds it empty
abbrev some_calls : List Call
some_calls =
    Call.sends 200 ∷ Call.sends 202 ∷ Call.receives 300 ∷ Call.receives 300 ∷ Call.receives 304 ∷ []

trace-IsFifo_example : IsFifo 2 (messages one_message 8 0) (trace one_message 4 8 2 some_calls)
trace-IsFifo_example = trace-IsFifo sample_ring 4 8 one_message 0 some_calls message-IsCalm (
  inr (ground arith),
  (inr (ground arith), (inr (ground arith), (inr (ground arith), (inr (ground arith), tt)))),
)

-- the kernel boots, and the queue is not in use
abbrev booting : Kernel
booting = record sample_kernel {
  boot_phase = true;
  mesgqs = λ a. record (sample_mesgq []) { header = record (sample_header 0) { init = false } };
}

booting_opens : (init booting (some 8) (some 100) 2 2).0 ≡ success
unfolding init raw_init_guard init_at is_mesg_words
booting_opens = refl

abbrev opened : Kernel
opened = (init booting (some 8) (some 100) 2 2).1

opened-Reaches : Reaches 8 (recv (send opened 4 8 (some 200) 0).1 4 8 (some 300) 9).1
opened-Reaches =
    goes
      (goes (opens booting 100 2 2 (ground arith) (ground arith) (ground arith) booting_opens)
        (sends opened 4 (some 200) 0))
      (receives (send opened 4 8 (some 200) 0).1 4 (some 300) 9)

Reaches-Holds_example : Holds (recv (send opened 4 8 (some 200) 0).1 4 8 (some 300) 9).1 8
Reaches-Holds_example = Reaches-Holds 8 opened-Reaches
