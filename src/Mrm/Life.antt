-- ===== src/Mrm/Life.antt =====
-- Initialisation of an object of core/src/kmrm.c, and what a task that ends leaves behind.
use rk.Base.{
  ℕ, ◌*◌, ◌/◌, Bool, true, false, ◌&&◌, ◌||◌, not, Option, none, List, [], ◌∷◌, ◌==◌, ltb,
  if◌then◌else◌,
}
use rk.Base.Word.{ulong_max}
use rk.Base.Memory.{Mem}
use rk.Err.{Err, success, obj_null, obj_double_init, invalid_obj, invalid_param}
use rk.Obj.{Scope, owner_domain_set}
use rk.Mem.{Partition, Attr, init_impl}
use rk.Kernel.{Kernel, update, run_domain}
use rk.Sched.Resched.{raw_init_guard, raw_init_allowed}
use rk.Mrm.Defs.{
  Lease, State, mrm_kobj_id, mrm_buf_size, set_leases, buffer_valid, release_buffer, get_release,
}

-- memset to 0 of a partition
abbrev zero_partition : Partition
zero_partition = record {
  header = record { obj_id = 0; init = false; scope = Scope.unassigned; owner_domain = none };
  free_list_ptr = 0;
  pool_ptr = 0;
  blk_size = 0;
  n_max_blocks = 0;
  n_free_blocks = 0;
  waiting_queue = [];
  mesg_prio_ceiling_enabled = false;
}

-- the object when both partitions were initialised, or the first one cleared again
unfoldable pub init_data : Kernel → State → ℕ → ℕ → Err × Partition × Mem → Err × State
unfolding owner_domain_set
init_data k s a words (success, p, m) =
    let x = s.mrms a in
    (
      success,
      record s {
        mrms = update s.mrms a (record x {
          header =
              owner_domain_set (record (x.header) { init = true; obj_id = mrm_kobj_id })
                (run_domain k);
          data_mem = p;
          curr = 0;
          size = words;
        });
        mem = m;
      },
    )
init_data k s a words (e, p, m) = (
  e,
  record s {
    mrms = update s.mrms a (record (s.mrms a) { mrm_mem = zero_partition; data_mem = p });
    mem = m;
  },
)

unfoldable pub init_bufs :
    Kernel → State → ℕ → ℕ → ℕ → ℕ → Option Attr → Err × Partition × Mem → Err × State
unfolding init_data init_impl
init_bufs k s a pool n words attr (success, p, m) =
    let s' = record s { mrms = update s.mrms a (record (s.mrms a) { mrm_mem = p }); mem = m } in
    init_data k s' a words
      (init_impl (raw_init_allowed k) (run_domain k) (s'.mrms a).data_mem m pool (words * 4) n attr)
init_bufs k s a pool n words attr (e, p, m) =
    (e, record s { mrms = update s.mrms a (record (s.mrms a) { mrm_mem = p }); mem = m })

-- kMRMInit; `attr` is what kMemPartitionInit passes on: NULL where a task runs
unfoldable pub init_at : Kernel → State → ℕ → ℕ → ℕ → ℕ → ℕ → Option Attr → Err × State
unfolding init_bufs init_impl raw_init_allowed
init_at k s a mrm_pool data_pool n words attr =
    let x = s.mrms a in
    if a == 0
    then (obj_null, s)
    else (if x.header.init
        then (obj_double_init, s)
        else (if mrm_pool == 0 || data_pool == 0
            then (obj_null, s)
            else (if n == 0 || (words == 0 || ltb (ulong_max / 4) words)
                then (invalid_param, s)
                else init_bufs k s a data_pool n words attr (
                    init_impl (raw_init_allowed k) (run_domain k) x.mrm_mem s.mem mrm_pool
                      mrm_buf_size n attr))))

unfoldable pub init : Kernel → State → ℕ → ℕ → ℕ → ℕ → ℕ → Option Attr → Err × State
unfolding init_at raw_init_guard
init k s a mrm_pool data_pool n words attr = elim (raw_init_guard k) [
  | success ↦ init_at k s a mrm_pool data_pool n words attr
  | e ↦ (e, s)
]

-- the error of two steps of kMRMTaskCleanup: the later one that failed
abbrev later : Err → Err → Err
later e success = e
later e f = f

-- a reserved buffer of the lease goes back, unless it is the current one
unfoldable pub cleanup_reserved : Kernel → Lease → Err → Err × Bool × State → Err × State
unfolding release_buffer
cleanup_reserved k l e (f, released, s) =
    let (g, s') = release_buffer k s l.mrm l.buf in
    if l.reserved && (l.get_count == 0 && (not released && not ((s.mrms l.mrm).curr == l.buf)))
    then (later (later e f) g, s')
    else (later e f, s)

-- what kMRMTaskCleanup does for a lease of the task
unfoldable pub cleanup_lease : Kernel → State → Lease → Err → Err × State
unfolding cleanup_reserved get_release buffer_valid
cleanup_lease k s l e =
    let x = s.mrms l.mrm in
    if not x.header.init
      || (not (x.header.obj_id == mrm_kobj_id) || not (buffer_valid s l.mrm l.buf))
    then (invalid_obj, s)
    else cleanup_reserved k l e
        (if l.get_count == 0 then (success, false, s) else get_release k s l.mrm l.buf l.get_count)

abbrev empty_lease : Lease
empty_lease = record { mrm = 0; buf = 0; get_count = 0; tid = 0; reserved = false }

-- the loop of kMRMTaskCleanup: the error, the state, the leases that are left
unfoldable pub cleanup_loop : Kernel → State → ℕ → List Lease → Err → Err × State × List Lease
unfolding cleanup_lease
cleanup_loop k s t [] e = (e, s, [])
cleanup_loop k s t (l ∷ ls) e =
    let mine = not (l.mrm == 0) && (l.tid == t && not (l.buf == 0)) in
    let (e', s') = if mine then cleanup_lease k s l e else (e, s) in
    let (f, s'', rest) = cleanup_loop k s' t ls e' in
    (f, s'', (if mine then empty_lease else l) ∷ rest)

-- kMRMTaskCleanup of task `t`
unfoldable pub task_cleanup : Kernel → State → ℕ → Err × State
unfolding cleanup_loop
task_cleanup k s t = let (e, s', ls) = cleanup_loop k s t s.leases success in (e, set_leases s' ls)
