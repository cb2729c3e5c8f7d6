-- ===== src/DynObj/Kinds.antt =====
-- The families of semaphores, mutexes, sleep queues and message queues, and the calls that create and destroy
-- them. The scoped calls pass an attribute; the plain ones pass NULL.
use rk.Base.{ℕ, Bool, false, ◌||◌, Option, none, some, [], length, ltb, ◌==◌, if◌then◌else◌}
use rk.Err.{Err, success, mutex_locked, task_invalid_st}
use rk.Obj.{Header, Scope}
use rk.Mem.{Attr}
use rk.Kernel.{Kernel, Protocol}
use rk.Sema.Defs as SemaDefs
use rk.Mutex.Defs as MutexDefs
use rk.SleepQ.Defs as SleepQDefs
use rk.Mesgq.Defs as MesgqDefs
use rk.RingBuf.{Ring}
use rk.DynObj.Family.{Family, Env, World, create, destroy}

abbrev zero_header : Header
zero_header = record { obj_id = 0; init = false; scope = Scope.unassigned; owner_domain = none }

-- semaphores: none may wait
sema_idle_err : Kernel → ℕ → Err
sema_idle_err k a = if length (k.semas a).waiting == 0 then success else task_invalid_st

unfoldable pub sema_family : Family
unfolding sema_idle_err
sema_family = record {
  kind = 2;
  obj_id = SemaDefs.semaphore_kobj_id;
  header = λ k a. (k.semas a).header;
  set_header = λ k a h. SemaDefs.set_sema k a (record (k.semas a) { header = h });
  clear = λ k a.
      SemaDefs.set_sema k a
        (record { header = zero_header; value = 0; max_value = 0; waiting = [] });
  idle_err = sema_idle_err;
}

-- mutexes: it is not locked, it has no owner and none waits
mutex_idle_err : Kernel → ℕ → Err
mutex_idle_err k a =
    let m = k.mutexes a in
    if m.lock then mutex_locked else elim m.owner [
      | some t ↦ task_invalid_st
      | none ↦ if length m.waiting == 0 then success else task_invalid_st
    ]

unfoldable pub mutex_family : Family
unfolding mutex_idle_err
mutex_family = record {
  kind = 3;
  obj_id = MutexDefs.mutex_kobj_id;
  header = λ k a. (k.mutexes a).header;
  set_header = λ k a h. MutexDefs.set_mutex k a (record (k.mutexes a) { header = h });
  clear = λ k a. MutexDefs.set_mutex k a (record {
    header = zero_header;
    lock = false;
    protocol = Protocol.prio_none;
    owner_faulted = false;
    waiting = [];
    owner = none;
  });
  idle_err = mutex_idle_err;
}

-- sleep queues: none may wait
sleepq_idle_err : Kernel → ℕ → Err
sleepq_idle_err k a = if length (k.sleepqs a).waiting == 0 then success else task_invalid_st

unfoldable pub sleepq_family : Family
unfolding sleepq_idle_err
sleepq_family = record {
  kind = 4;
  obj_id = SleepQDefs.sleepq_kobj_id;
  header = λ k a. (k.sleepqs a).header;
  set_header = λ k a h. SleepQDefs.set_sleepq k a (record (k.sleepqs a) { header = h });
  clear = λ k a. SleepQDefs.set_sleepq k a (record { header = zero_header; waiting = [] });
  idle_err = sleepq_idle_err;
}

-- kSemaphoreCreateWithAttr_
unfoldable pub semaphore_create_with_attr :
    Env → World → Bool → Option ℕ → ℕ → ℕ → Option Attr → Err × ℕ × World
unfolding create sema_family SemaDefs.init
semaphore_create_with_attr env w name cell value max attr =
    create sema_family env (λ k a. SemaDefs.init k (some a) value max) w name cell attr

-- kMutexCreateWithAttr_
unfoldable pub mutex_create_with_attr :
    Env → World → Bool → Option ℕ → ℕ → Option Attr → Err × ℕ × World
unfolding create mutex_family MutexDefs.init
mutex_create_with_attr env w name cell protocol attr =
    create mutex_family env (λ k a. MutexDefs.init k (some a) protocol) w name cell attr

-- kSleepQueueCreateWithAttr_
unfoldable pub sleepq_create_with_attr :
    Env → World → Bool → Option ℕ → Option Attr → Err × ℕ × World
unfolding create sleepq_family SleepQDefs.init
sleepq_create_with_attr env w name cell attr =
    create sleepq_family env (λ k a. SleepQDefs.init k (some a)) w name cell attr

-- the attributes of the calls with a scope; a domain with its `init` flag
abbrev pub global_attr : Option Attr
global_attr = some (record { scope = Scope.kernel_global; domain = none })

abbrev pub domain_attr : Option (ℕ × Bool) → Option Attr
domain_attr d = some (record { scope = Scope.domain_local; domain = d })

-- kSemaphoreCreate, kSemaphoreCreateGlobalScope, kSemaphoreCreateDomainScope, kSemaphoreDestroy
unfoldable pub semaphore_create : Env → World → Bool → Option ℕ → ℕ → ℕ → Err × ℕ × World
unfolding semaphore_create_with_attr
semaphore_create env w name cell value max =
    semaphore_create_with_attr env w name cell value max none

unfoldable pub semaphore_create_global_scope :
    Env → World → Bool → Option ℕ → ℕ → ℕ → Err × ℕ × World
unfolding semaphore_create_with_attr
semaphore_create_global_scope env w name cell value max =
    semaphore_create_with_attr env w name cell value max global_attr

unfoldable pub semaphore_create_domain_scope :
    Env → World → Bool → Option ℕ → ℕ → ℕ → Option (ℕ × Bool) → Err × ℕ × World
unfolding semaphore_create_with_attr
semaphore_create_domain_scope env w name cell value max d =
    semaphore_create_with_attr env w name cell value max (domain_attr d)

unfoldable pub semaphore_destroy : World → ℕ → Err × ℕ × World
unfolding destroy sema_family
semaphore_destroy w handle = destroy sema_family w handle

-- kMutexCreate, kMutexCreateGlobalScope, kMutexCreateDomainScope, kMutexDestroy
unfoldable pub mutex_create : Env → World → Bool → Option ℕ → ℕ → Err × ℕ × World
unfolding mutex_create_with_attr
mutex_create env w name cell protocol = mutex_create_with_attr env w name cell protocol none

unfoldable pub mutex_create_global_scope : Env → World → Bool → Option ℕ → ℕ → Err × ℕ × World
unfolding mutex_create_with_attr
mutex_create_global_scope env w name cell protocol =
    mutex_create_with_attr env w name cell protocol global_attr

unfoldable pub mutex_create_domain_scope :
    Env → World → Bool → Option ℕ → ℕ → Option (ℕ × Bool) → Err × ℕ × World
unfolding mutex_create_with_attr
mutex_create_domain_scope env w name cell protocol d =
    mutex_create_with_attr env w name cell protocol (domain_attr d)

unfoldable pub mutex_destroy : World → ℕ → Err × ℕ × World
unfolding destroy mutex_family
mutex_destroy w handle = destroy mutex_family w handle

-- kSleepQueueCreate, kSleepQueueCreateGlobalScope, kSleepQueueCreateDomainScope,
-- kSleepQueueDestroy
unfoldable pub sleepq_create : Env → World → Bool → Option ℕ → Err × ℕ × World
unfolding sleepq_create_with_attr
sleepq_create env w name cell = sleepq_create_with_attr env w name cell none

unfoldable pub sleepq_create_global_scope : Env → World → Bool → Option ℕ → Err × ℕ × World
unfolding sleepq_create_with_attr
sleepq_create_global_scope env w name cell = sleepq_create_with_attr env w name cell global_attr

unfoldable pub sleepq_create_domain_scope :
    Env → World → Bool → Option ℕ → Option (ℕ × Bool) → Err × ℕ × World
unfolding sleepq_create_with_attr
sleepq_create_domain_scope env w name cell d =
    sleepq_create_with_attr env w name cell (domain_attr d)

unfoldable pub sleepq_destroy : World → ℕ → Err × ℕ × World
unfolding destroy sleepq_family
sleepq_destroy w handle = destroy sleepq_family w handle

-- message queues: none may wait, no message is left and no broadcast is on
mesgq_idle_err : Kernel → ℕ → Err
mesgq_idle_err k a =
    let s = k.mesgqs a in
    if ltb 0 (length s.waiting_receivers)
      || (ltb 0 (length s.waiting_senders)
          || (ltb 0 s.ring_buf.n_full || ltb 0 s.broadcast_receivers))
    then task_invalid_st
    else success

abbrev zero_ring : Ring
zero_ring = record {
  data_size = 0;
  max_buf = 0;
  n_full = 0;
  buf_ptr = 0;
  write_ptr = 0;
  read_ptr = 0;
  buf_end_ptr = 0;
}

unfoldable pub mesgq_family : Family
unfolding mesgq_idle_err
mesgq_family = record {
  kind = 5;
  obj_id = MesgqDefs.mesgq_kobj_id;
  header = λ k a. (k.mesgqs a).header;
  set_header = λ k a h. MesgqDefs.set_mesgq k a (record (k.mesgqs a) { header = h });
  clear = λ k a. MesgqDefs.set_mesgq k a (record {
    header = zero_header;
    ring_buf = zero_ring;
    waiting_receivers = [];
    waiting_senders = [];
    broadcast_receivers = 0;
  });
  idle_err = mesgq_idle_err;
}

-- kMesgQueueCreateWithAttr_
unfoldable pub mesgq_create_with_attr :
    Env → World → Bool → Option ℕ → Option ℕ → ℕ → ℕ → Option Attr → Err × ℕ × World
unfolding create mesgq_family MesgqDefs.init
mesgq_create_with_attr env w name cell buf words depth attr =
    create mesgq_family env (λ k a. MesgqDefs.init k (some a) buf words depth) w name cell attr

-- kMesgQueueCreate, kMesgQueueCreateGlobalScope, kMesgQueueCreateDomainScope, kMesgQueueDestroy
unfoldable pub mesgq_create : Env → World → Bool → Option ℕ → Option ℕ → ℕ → ℕ → Err × ℕ × World
unfolding mesgq_create_with_attr
mesgq_create env w name cell buf words depth =
    mesgq_create_with_attr env w name cell buf words depth none

unfoldable pub mesgq_create_global_scope :
    Env → World → Bool → Option ℕ → Option ℕ → ℕ → ℕ → Err × ℕ × World
unfolding mesgq_create_with_attr
mesgq_create_global_scope env w name cell buf words depth =
    mesgq_create_with_attr env w name cell buf words depth global_attr

unfoldable pub mesgq_create_domain_scope :
    Env → World → Bool → Option ℕ → Option ℕ → ℕ → ℕ → Option (ℕ × Bool) → Err × ℕ × World
unfolding mesgq_create_with_attr
mesgq_create_domain_scope env w name cell buf words depth d =
    mesgq_create_with_attr env w name cell buf words depth (domain_attr d)

unfoldable pub mesgq_destroy : World → ℕ → Err × ℕ × World
unfolding destroy mesgq_family
mesgq_destroy w handle = destroy mesgq_family w handle
