-- ===== src/Kernel/State.antt =====
-- The kernel state, for the configuration that the header of Lib.antt names. A task is named by
-- its `tid`, an object by its address.
use rk.Base.{ℕ, Bool, true, false, Option, none, some, List, ◌==◌, if◌then◌else◌, ◌≡◌, arith}
use rk.Err.{Err, success}
use rk.Obj.{Header}
use rk.Base.Memory.{Mem}
use rk.RingBuf.{Ring}
use rk.Delta.{Node}

-- `RK_TASK_STATUS`
pub data Status : Type 0 where
  invalid_state ready running blocked sleeping sleeping_ev_flag : Status
  sleeping_delay sleeping_release sleeping_until sleepq_blocked : Status
  sending receiving : Status

-- The wait and ready queues a `RK_TCBQ *` can point at.
pub data QueueRef : Type 0 where
  ready_queue : ℕ → QueueRef
  sema_queue : ℕ → QueueRef
  mutex_queue : ℕ → QueueRef
  sleep_queue : ℕ → QueueRef
  receivers_queue : ℕ → QueueRef
  senders_queue : ℕ → QueueRef

-- `timeoutType`; `unset` is 0
pub data TimeoutType : Type 0 where
  unset blocking event_flags time_event : TimeoutType

-- `waitInfo` of a task at a message queue; `wait_normal` is 0.
pub data WaitInfo : Type 0 where
  wait_normal wait_broadcast broadcast_deliver direct_deliver : WaitInfo

-- `struct RK_STRUCT_TIMEOUT_NODE` of a task; its links and `dtick` stand in the timeout list.
pub record TimeoutNode : Type 0 where
  pub armed : Bool
  pub timeout_type : TimeoutType
  pub timeout : ℕ
  pub waiting_queue : Option QueueRef
  pub wait_info : WaitInfo

-- `protocol` of a mutex
pub data Protocol : Type 0 where
  prio_none prio_inheritance : Protocol

-- `struct RK_OBJ_TCB`
pub record Tcb : Type 0 where
  pub init : Bool
  pub status : Status
  pub priority : ℕ
  pub prio_nominal : ℕ
  pub preempt : ℕ
  pub sch_lock : ℕ
  pub domain : Option ℕ
  pub wake_time : ℕ
  pub overrun_count : ℕ
  pub time_out : Bool
  pub flags_curr : ℕ
  pub flags_opt : ℕ
  pub flags_req : ℕ
  pub waiting_for_mutex : Option ℕ
  pub owned_mutexes : List ℕ
  pub mesg_queue_recv_buf_ptr : Option ℕ
  pub timeout_node : TimeoutNode

-- `struct RK_OBJ_SEMAPHORE`
pub record Semaphore : Type 0 where
  pub header : Header
  pub value : ℕ
  pub max_value : ℕ
  pub waiting : List ℕ

-- `struct RK_OBJ_MUTEX`
pub record Mutex : Type 0 where
  pub header : Header
  pub lock : Bool
  pub protocol : Protocol
  pub owner_faulted : Bool
  pub waiting : List ℕ
  pub owner : Option ℕ

-- `struct RK_OBJ_SLEEP_QUEUE`
pub record SleepQueue : Type 0 where
  pub header : Header
  pub waiting : List ℕ

-- `struct RK_OBJ_MESG_QUEUE`
pub record MesgQueue : Type 0 where
  pub header : Header
  pub ring_buf : Ring
  pub waiting_receivers : List ℕ
  pub waiting_senders : List ℕ
  pub broadcast_receivers : ℕ

-- `RK_POSTPROC_JOB_ENTRY`, with its job types
pub data JobType : Type 0 where
  sleepq_wake mesgq_reset task_terminate mesgq_broadcast_wake task_fault_cleanup : JobType

pub record Job : Type 0 where
  pub job_type : JobType
  pub obj : ℕ
  pub n_tasks : ℕ

-- The globals of ksch.c, and the objects. `ready_bits p` is bit p of `RK_gReadyBitmask`,
-- `switch_pended` the PendSV request, `timeouts` the list at `RK_gTimeOutListHeadPtr`, `in_isr`
-- what kIsISR() reads, `memory` the words that messages are
-- copied from and to, `jobs` RK_gPostProcQ from its head on.
pub record Kernel : Type 0 where
  pub tasks : ℕ → Tcb
  pub ready_lists : ℕ → List ℕ
  pub ready_bits : ℕ → Bool
  pub run : Option ℕ
  pub pending_switch : Bool
  pub switch_pended : Bool
  pub sch_lock : ℕ
  pub boot_phase : Bool
  pub construction_depth : ℕ
  pub construction_owner : Option ℕ
  pub construction_locks : ℕ
  pub timeouts : List Node
  pub global_tick : ℕ
  pub in_isr : Bool
  pub semas : ℕ → Semaphore
  pub mutexes : ℕ → Mutex
  pub sleepqs : ℕ → SleepQueue
  pub mesgqs : ℕ → MesgQueue
  pub memory : Mem
  pub jobs : List Job

-- a table with one entry changed
abbrev pub update {ℓ} : {A : Type ℓ} → (ℕ → A) → ℕ → A → ℕ → A
update f k v j = if j == k then v else f j

pub update-same {ℓ} : {A : Type ℓ} (f : ℕ → A) (k : ℕ) (v : A) → update f k v k ≡ v
update-same f k v = ground arith

abbrev pub set_task : Kernel → ℕ → Tcb → Kernel
set_task k t c = record k { tasks = update k.tasks t c }

-- `RK_gRunPtr->domainPtr`, NULL where nothing runs
abbrev pub run_domain : Kernel → Option ℕ
run_domain k = elim k.run [ none ↦ none | some t ↦ (k.tasks t).domain ]

abbrev pub get_queue : Kernel → QueueRef → List ℕ
get_queue k (ready_queue p) = k.ready_lists p
get_queue k (sema_queue a) = (k.semas a).waiting
get_queue k (mutex_queue a) = (k.mutexes a).waiting
get_queue k (sleep_queue a) = (k.sleepqs a).waiting
get_queue k (receivers_queue a) = (k.mesgqs a).waiting_receivers
get_queue k (senders_queue a) = (k.mesgqs a).waiting_senders

abbrev pub set_queue : Kernel → QueueRef → List ℕ → Kernel
set_queue k (ready_queue p) xs = record k { ready_lists = update k.ready_lists p xs }
set_queue k (sema_queue a) xs = record k {
  semas = update k.semas a (record (k.semas a) { waiting = xs });
}
set_queue k (mutex_queue a) xs = record k {
  mutexes = update k.mutexes a (record (k.mutexes a) { waiting = xs });
}
set_queue k (sleep_queue a) xs = record k {
  sleepqs = update k.sleepqs a (record (k.sleepqs a) { waiting = xs });
}
set_queue k (receivers_queue a) xs = record k {
  mesgqs = update k.mesgqs a (record (k.mesgqs a) { waiting_receivers = xs });
}
set_queue k (senders_queue a) xs = record k {
  mesgqs = update k.mesgqs a (record (k.mesgqs a) { waiting_senders = xs });
}

-- how the first half of a blocking call ends: it returns, or its task waits and another runs
pub data Outcome : Type 0 where
  returns : Err → Outcome
  blocks : Outcome

-- `if (err != RK_ERR_SUCCESS) { return (err); }` before the rest of a call
abbrev pub checked : Err → Err × Kernel → Kernel → Err × Kernel
checked success rest k = rest
checked e rest k = (e, k)

abbrev pub checked_wait : Err → Outcome × Kernel → Kernel → Outcome × Kernel
checked_wait success rest k = rest
checked_wait e rest k = (returns e, k)

-- A call that is refused leaves the kernel as it was.
pub checked-case {ℓ} :
    (P : Kernel → Type ℓ) (e : Err) (rest : Err × Kernel) (k : Kernel)
    → P rest.1
    → P k
    → P (checked e rest k).1
checked-case P success rest k f g = f
checked-case P _ rest k f g = g

pub checked_wait-case {ℓ} :
    (P : Kernel → Type ℓ) (e : Err) (rest : Outcome × Kernel) (k : Kernel)
    → P rest.1
    → P k
    → P (checked_wait e rest k).1
checked_wait-case P success rest k f g = f
checked_wait-case P _ rest k f g = g

pub if-case {ℓ κ} :
    {X : Type κ} (P : Kernel → Type ℓ) (b : Bool) (x y : X × Kernel)
    → P x.1
    → P y.1
    → P (if b then x else y).1
if-case P true x y f g = f
if-case P false x y f g = g
