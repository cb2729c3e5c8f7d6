-- ===== src/Kernel/Samples.antt =====
-- Sample kernels, on which the tests run.
use rk.Base.{ℕ, Bool, true, false, Option, none, some, List, [], ◌==◌, if◌then◌else◌}
use rk.Obj.{Header, Scope}
use rk.Kernel.State.{
  Kernel, Tcb, Status, TimeoutType, Protocol, Semaphore, Mutex, WaitInfo, MesgQueue,
}
use rk.RingBuf.{Ring}

abbrev pub sample_tcb : ℕ → Status → List ℕ → Tcb
sample_tcb prio status owned = record {
  init = true;
  status = status;
  priority = prio;
  prio_nominal = prio;
  preempt = 1;
  sch_lock = 0;
  domain = none;
  wake_time = 0;
  overrun_count = 0;
  time_out = false;
  flags_curr = 0;
  flags_opt = 0;
  flags_req = 0;
  waiting_for_mutex = none;
  owned_mutexes = owned;
  mesg_queue_recv_buf_ptr = none;
  timeout_node = record {
    armed = false;
    timeout_type = TimeoutType.unset;
    timeout = 0;
    waiting_queue = none;
    wait_info = WaitInfo.wait_normal;
  };
}

abbrev pub sample_header : ℕ → Header
sample_header id = record {
  obj_id = id;
  init = true;
  scope = Scope.unassigned;
  owner_domain = none;
}

abbrev pub sample_sema : ℕ → List ℕ → Semaphore
sample_sema n ws = record {
  header = sample_header 3490709249;
  value = n;
  max_value = 3;
  waiting = ws;
}

abbrev pub sample_mutex : Bool → Option ℕ → List ℕ → Mutex
sample_mutex lock owner ws = record {
  header = sample_header 3490709252;
  lock = lock;
  protocol = Protocol.prio_inheritance;
  owner_faulted = false;
  waiting = ws;
  owner = owner;
}

-- two messages of two words, none of them there, at word 100
abbrev pub sample_ring : Ring
sample_ring = record {
  data_size = 2;
  max_buf = 2;
  n_full = 0;
  buf_ptr = 100;
  write_ptr = 100;
  read_ptr = 100;
  buf_end_ptr = 104;
}

abbrev pub sample_mesgq : List ℕ → MesgQueue
sample_mesgq ws = record {
  header = sample_header 3491757825;
  ring_buf = sample_ring;
  waiting_receivers = ws;
  waiting_senders = [];
  broadcast_receivers = 0;
}

-- task 4 runs at priority 7, task 2 has the idle priority, task 3 and the others have 5
abbrev pub sample_tasks : ℕ → Tcb
sample_tasks t =
    if t == 4
    then sample_tcb 7 Status.running []
    else (if t == 2 then sample_tcb 32 Status.ready [] else sample_tcb 5 Status.blocked [])

-- nothing is ready and no object in use
abbrev pub sample_kernel : Kernel
sample_kernel = record {
  tasks = sample_tasks;
  ready_lists = λ p. [];
  ready_bits = λ p. false;
  run = some 4;
  pending_switch = false;
  switch_pended = false;
  sch_lock = 0;
  boot_phase = false;
  construction_depth = 0;
  construction_owner = none;
  construction_locks = 0;
  timeouts = [];
  global_tick = 0;
  in_isr = false;
  semas = λ a. sample_sema 0 [];
  mutexes = λ a. sample_mutex false none [];
  sleepqs = λ a. record { header = sample_header 3490709250; waiting = [] };
  mesgqs = λ a. sample_mesgq [];
  memory = λ p. p;
  jobs = [];
}
