-- ===== src/Mrm/Defs.antt =====
-- The state of core/src/kmrm.c and its operations on buffers and leases. An object, a buffer and a
-- block of data are named by their addresses, NULL is 0.
use rk.Base.{
  ℕ, zero, suc, ◌+◌, ◌-◌, ◌*◌, ◌/◌, Bool, true, false, ◌&&◌, ◌||◌, not, Option, none, some, List,
  [], ◌∷◌, ◌==◌, ltb, get_elem?, set, if◌then◌else◌,
}
use rk.Base.Word.{ulong_max}
use rk.Base.Memory.{Mem}
use rk.Err.{Err, success, obj_null, invalid_param, mem_free, buffer_full, task_invalid_st}
use rk.Obj.{Header, Scope, access_err}
use rk.Mem.{Partition, alloc, free}
use rk.Kernel.{Kernel, update, run_domain}
use rk.DynObj.Defs.{part_owns_block}

-- RK_MRM_KOBJ_ID
abbrev pub mrm_kobj_id : ℕ
mrm_kobj_id = 0xD01FFF02

-- sizeof(RK_MRM_BUF): the tag, a name of eight bytes, a pointer and a count
abbrev pub mrm_buf_size : ℕ
mrm_buf_size = 20

-- `struct RK_OBJ_MRM`
pub record Mrm : Type 0 where
  pub header : Header
  pub mrm_mem : Partition
  pub data_mem : Partition
  pub curr : ℕ
  pub size : ℕ

-- `struct RK_STRUCT_MRM_LEASE`
pub record Lease : Type 0 where
  pub mrm : ℕ
  pub buf : ℕ
  pub get_count : ℕ
  pub tid : ℕ
  pub reserved : Bool

-- The objects; of the buffer at an address its `mrmData` and `nUsers`; the words of the two pools,
-- the links of free blocks among them; RK_gMrmLeasePool.
pub record State : Type 0 where
  pub mrms : ℕ → Mrm
  pub block : ℕ → ℕ
  pub users : ℕ → ℕ
  pub mem : Mem
  pub leases : List Lease

abbrev pub set_mrm : State → ℕ → Mrm → State
set_mrm s a x = record s { mrms = update s.mrms a x }

abbrev pub set_users : State → ℕ → ℕ → State
set_users s b n = record s { users = update s.users b n }

abbrev pub set_leases : State → List Lease → State
set_leases s ls = record s { leases = ls }

-- kMRMDomainLocalAccessErr_
unfoldable pub mrm_access_err : Kernel → Mrm → Err
unfolding access_err
mrm_access_err k x = elim (run_domain k) [
  | none ↦ success
  | some d ↦ elim x.header.scope [
    | Scope.domain_local ↦ access_err (some x.header) (some d)
    | _ ↦ invalid_param
  ]
]

-- kMRMUserPayloadReadValid_ and kMRMUserPayloadWriteValid_ outside of a system call
unfoldable pub payload_valid : Mrm → Bool → Err
payload_valid x there =
    if there then (if ltb (ulong_max / 4) x.size then invalid_param else success) else obj_null

-- kMRMPartFreeListContains_, with the rounds left
unfoldable pub part_free_scan : Mem → ℕ → ℕ → ℕ → Bool
part_free_scan m b zero ptr = false
part_free_scan m b (suc n) ptr =
    let more = part_free_scan m b n (m ptr) in
    if ptr == 0 then false else (if ptr == b then true else more)

-- kMRMPartOwnsAllocatedBlock_; kMRMPartOwnsBlock_ is as in the registry of dynamic objects
unfoldable pub owns_allocated : Partition → Mem → ℕ → ℕ → Bool
unfolding part_owns_block part_free_scan
owns_allocated p m b size =
    part_owns_block p b size && not (part_free_scan m b p.n_free_blocks p.free_list_ptr)

-- kMRMBufferValid_
unfoldable pub buffer_valid : State → ℕ → ℕ → Bool
unfolding owns_allocated
buffer_valid s a b =
    let x = s.mrms a in
    if b == 0 || ltb (ulong_max / 4) x.size
    then false
    else (if owns_allocated x.mrm_mem s.mem b mrm_buf_size
        then owns_allocated x.data_mem s.mem (s.block b) (x.size * 4)
        else false)

-- kMRMReleaseBuffer_: the data block first
unfoldable pub release_block : State → ℕ → ℕ → Err × Partition × Mem → Err × State
unfolding free
release_block s a b (e, p, m) =
    (e, record s { mrms = update s.mrms a (record (s.mrms a) { mrm_mem = p }); mem = m })

unfoldable pub release_data : Kernel → State → ℕ → ℕ → Err × Partition × Mem → Err × State
unfolding release_block
release_data k s a b (e, p, m) =
    let s' = record s { mrms = update s.mrms a (record (s.mrms a) { data_mem = p }); mem = m } in
    elim e [
      | success ↦ release_block s' a b (free (s'.mrms a).mrm_mem m (run_domain k) b)
      | e' ↦ (e', s')
    ]

unfoldable pub release_buffer : Kernel → State → ℕ → ℕ → Err × State
unfolding release_data
release_buffer k s a b =
    release_data k s a b (free (s.mrms a).data_mem s.mem (run_domain k) (s.block b))

-- kMRMBufferAlloc_: a buffer with no users and a block of data, or NULL
unfoldable pub alloc_data : Kernel → State → ℕ → ℕ → ℕ × Partition → ℕ × State
unfolding release_block
alloc_data k s a b (d, p) =
    let s' = record s {
      mrms = update s.mrms a (record (s.mrms a) { data_mem = p });
      block = update s.block b d;
    } in
    if d == 0
    then (0, (release_block s' a b (free (s'.mrms a).mrm_mem s.mem (run_domain k) b)).1)
    else (b, s')

unfoldable pub alloc_block : Kernel → State → ℕ → ℕ × Partition → ℕ × State
unfolding alloc_data alloc
alloc_block k s a (b, p) =
    let s' = record s {
      mrms = update s.mrms a (record (s.mrms a) { mrm_mem = p });
      users = update s.users b 0;
    } in
    if b == 0
    then (0, set_mrm s a (record (s.mrms a) { mrm_mem = p }))
    else alloc_data k s' a b (alloc (s.mrms a).data_mem s.mem (run_domain k))

unfoldable pub buffer_alloc : Kernel → State → ℕ → ℕ × State
unfolding alloc_block
buffer_alloc k s a = alloc_block k s a (alloc (s.mrms a).mrm_mem s.mem (run_domain k))

-- kMRMLeaseTask_
unfoldable pub lease_task : Kernel → Option ℕ
lease_task k = elim k.run [ none ↦ none | some t ↦ if (k.tasks t).init then some t else none ]

abbrev pub holds : ℕ → ℕ → ℕ → Lease → Bool
holds t a b l = l.tid == t && (l.mrm == a && l.buf == b)

-- an index in the rest of a list, counted from its head
abbrev pub next_index : Option ℕ → Option ℕ
next_index none = none
next_index (some i) = some (suc i)

-- kMRMLeaseFind_: the index of the lease
unfoldable pub lease_find : List Lease → ℕ → ℕ → ℕ → Option ℕ
lease_find [] t a b = none
lease_find (l ∷ ls) t a b =
    let rest = lease_find ls t a b in if holds t a b l then some 0 else next_index rest

-- kMRMLeaseFindFree_
unfoldable pub lease_find_free : List Lease → Option ℕ
lease_find_free [] = none
lease_find_free (l ∷ ls) =
    let rest = lease_find_free ls in if l.mrm == 0 then some 0 else next_index rest

-- the lease of the task on the buffer, or else a free one
unfoldable pub lease_slot : List Lease → ℕ → ℕ → ℕ → Option ℕ
unfolding lease_find lease_find_free
lease_slot ls t a b = elim (lease_find ls t a b) [ some i ↦ some i | none ↦ lease_find_free ls ]

-- kMRMLeaseReservedByOther_; a task is live when it is registered and initialised
unfoldable pub reserved_by_other : Kernel → List Lease → ℕ → ℕ → ℕ → Bool
reserved_by_other k [] t a b = false
reserved_by_other k (l ∷ ls) t a b =
    not (l.mrm == 0)
      && not (l.tid == t)
      && (k.tasks l.tid).init
      && (l.mrm == a && (l.buf == b && l.reserved))
    || reserved_by_other k ls t a b

-- kMRMBufferReserved_
unfoldable pub buffer_reserved : Kernel → List Lease → ℕ → ℕ → Bool
buffer_reserved k [] a b = false
buffer_reserved k (l ∷ ls) a b =
    l.mrm == a && l.buf == b && l.reserved && (k.tasks l.tid).init || buffer_reserved k ls a b

-- kMRMHasActiveLease
unfoldable pub has_active_lease : Kernel → List Lease → ℕ → Bool
has_active_lease k [] a = false
has_active_lease k (l ∷ ls) a =
    l.mrm == a && (k.tasks l.tid).init && (l.reserved || not (l.get_count == 0))
    || has_active_lease k ls a

-- kMRMLeaseClearIfIdle_
unfoldable pub clear_if_idle : Lease → Lease
clear_if_idle l =
    if l.get_count == 0 && not l.reserved then record l { mrm = 0; buf = 0; tid = 0 } else l

-- kMRMLeaseReserveTrack_, with the lease at index `i`
unfoldable pub reserve_at : Kernel → List Lease → ℕ → ℕ → ℕ → ℕ → Option Lease → Err × List Lease
unfolding reserved_by_other
reserve_at k ls t a b i none = (buffer_full, ls)
reserve_at k ls t a b i (some l) =
    if reserved_by_other k ls t a b || l.reserved
    then (task_invalid_st, ls)
    else (success, set ls i (record l { mrm = a; buf = b; tid = t; reserved = true }))

unfoldable pub reserve_slot : Kernel → List Lease → ℕ → ℕ → ℕ → Option ℕ → Err × List Lease
unfolding reserve_at
reserve_slot k ls t a b none = (buffer_full, ls)
reserve_slot k ls t a b (some i) = reserve_at k ls t a b i (get_elem? ls i)

unfoldable pub reserve_track : Kernel → List Lease → ℕ → ℕ → Err × List Lease
unfolding lease_task reserve_slot lease_slot
reserve_track k ls a b = elim (lease_task k) [
  | none ↦ (success, ls)
  | some t ↦ reserve_slot k ls t a b (lease_slot ls t a b)
]

-- kMRMLeaseReserveDrop_
unfoldable pub reserve_drop_at : List Lease → ℕ → Option Lease → Err × List Lease
unfolding clear_if_idle
reserve_drop_at ls i none = (mem_free, ls)
reserve_drop_at ls i (some l) =
    if l.reserved
    then (success, set ls i (clear_if_idle (record l { reserved = false })))
    else (mem_free, ls)

unfoldable pub reserve_drop_slot : List Lease → Option ℕ → Err × List Lease
unfolding reserve_drop_at
reserve_drop_slot ls none = (mem_free, ls)
reserve_drop_slot ls (some i) = reserve_drop_at ls i (get_elem? ls i)

unfoldable pub reserve_drop : Kernel → List Lease → ℕ → ℕ → Err × List Lease
unfolding lease_task reserve_drop_slot lease_find
reserve_drop k ls a b = elim (lease_task k) [
  | none ↦ (success, ls)
  | some t ↦ reserve_drop_slot ls (lease_find ls t a b)
]

-- kMRMLeaseGetTrack_; the count is a USHORT
unfoldable pub get_at : List Lease → ℕ → ℕ → ℕ → ℕ → Option Lease → Err × List Lease
get_at ls t a b i none = (buffer_full, ls)
get_at ls t a b i (some l) =
    if l.get_count == 65535
    then (buffer_full, ls)
    else (success, set ls i (record l { mrm = a; buf = b; tid = t; get_count = l.get_count + 1 }))

unfoldable pub get_slot : List Lease → ℕ → ℕ → ℕ → Option ℕ → Err × List Lease
unfolding get_at
get_slot ls t a b none = (buffer_full, ls)
get_slot ls t a b (some i) = get_at ls t a b i (get_elem? ls i)

unfoldable pub get_track : Kernel → List Lease → ℕ → ℕ → Err × List Lease
unfolding lease_task get_slot lease_slot
get_track k ls a b = elim (lease_task k) [
  | none ↦ (success, ls)
  | some t ↦ get_slot ls t a b (lease_slot ls t a b)
]

-- kMRMLeaseGetDrop_
unfoldable pub get_drop_at : List Lease → ℕ → Option Lease → Err × List Lease
unfolding clear_if_idle
get_drop_at ls i none = (mem_free, ls)
get_drop_at ls i (some l) =
    if l.get_count == 0
    then (mem_free, ls)
    else (success, set ls i (clear_if_idle (record l { get_count = l.get_count - 1 })))

unfoldable pub get_drop_slot : List Lease → Option ℕ → Err × List Lease
unfolding get_drop_at
get_drop_slot ls none = (mem_free, ls)
get_drop_slot ls (some i) = get_drop_at ls i (get_elem? ls i)

unfoldable pub get_drop : Kernel → List Lease → ℕ → ℕ → Err × List Lease
unfolding lease_task get_drop_slot lease_find
get_drop k ls a b = elim (lease_task k) [
  | none ↦ (success, ls)
  | some t ↦ get_drop_slot ls (lease_find ls t a b)
]

-- kMRMBufferGetRelease_: the error, whether the buffer was released, the state
unfoldable pub get_release : Kernel → State → ℕ → ℕ → ℕ → Err × Bool × State
unfolding release_buffer
get_release k s a b count =
    let s' = set_users s b (s.users b - count) in
    let (e, s'') = release_buffer k s' a b in
    if ltb (s.users b) count
    then (mem_free, false, s)
    else (if s'.users b == 0 && not ((s.mrms a).curr == b)
        then (e, true, s'')
        else (success, false, s'))
