-- ===== src/Mem/Defs.antt =====
-- The functions of core/src/kmem.c. A block is named by its address, NULL is 0; `cell a` is the
-- pointer stored in the first word at address `a`, where a free block keeps the next one.
use rk.Base.{
  [], ℕ, zero, suc, ◌+◌, ◌-◌, ◌*◌, ◌/◌, ◌%◌, Bool, true, false, ◌&&◌, ◌||◌, not, Option, none, some,
  List, ◌==◌, ltb, leb, if◌then◌else◌,
}
use rk.Base.Word.{ulong_max, add_word}
use rk.Base.Memory.{Mem, store}
use rk.Err.{
  Err, success, obj_null, obj_not_init, obj_double_init, invalid_param, invalid_phase, mem_free,
}
use rk.Obj.{
  Scope, unassigned, domain_local, kernel_global, Header, object_ready_err, owner_domain_set,
  scope_set,
}

-- RK_MEMALLOC_KOBJ_ID
abbrev pub memalloc_kobj_id : ℕ
memalloc_kobj_id = 0xD04FFF01

-- `struct RK_OBJ_MEM_PARTITION`; the waiting queue holds task identifiers.
pub record Partition : Type 0 where
  pub header : Header
  pub free_list_ptr : ℕ
  pub pool_ptr : ℕ
  pub blk_size : ℕ
  pub n_max_blocks : ℕ
  pub n_free_blocks : ℕ
  pub waiting_queue : List ℕ
  pub mesg_prio_ceiling_enabled : Bool

-- `RK_OBJ_ATTR`, its domain with the domain's `init` flag
pub record Attr : Type 0 where
  pub scope : Scope
  pub domain : Option (ℕ × Bool)

-- kMemPartitionBlockValid_
unfoldable pub block_valid : Partition → ℕ → Bool
block_valid p b =
    let pool_size = p.blk_size * p.n_max_blocks in
    if b == 0
      || (p.pool_ptr == 0
          || (p.blk_size == 0
              || (p.n_max_blocks == 0 || ltb (ulong_max / p.n_max_blocks) p.blk_size)))
    then false
    else if ltb (ulong_max - pool_size) p.pool_ptr
    then false
    else if ltb b p.pool_ptr || leb (p.pool_ptr + pool_size) b
    then false
    else (b - p.pool_ptr) % p.blk_size == 0

-- the loop of kMemPartitionFreeListContains_, with the rounds left
unfoldable pub free_list_scan : Partition → Mem → ℕ → ℕ → ℕ → Bool
free_list_scan p m b zero ptr = false
free_list_scan p m b (suc n) ptr =
    let more = free_list_scan p m b n (m ptr) in
    if ptr == 0
    then false
    else if not (block_valid p ptr)
    then true
    else if ptr == b
    then true
    else more

-- kMemPartitionFreeListContains_
unfoldable pub free_list_contains : Partition → Mem → ℕ → Bool
unfolding free_list_scan
free_list_contains p m b = free_list_scan p m b p.n_free_blocks p.free_list_ptr

-- kMemPartitionAlloc after kMemPartitionReadyErr_ has passed; the first number is the block.
unfoldable pub alloc_ready : Partition → Mem → ℕ × Partition
alloc_ready p m =
    let block = p.free_list_ptr in
    let next = m block in
    if ltb 0 p.n_free_blocks
    then (if not (block_valid p block)
        then (0, p)
        else if (p.n_free_blocks == 1 && not (next == 0))
            || (ltb 1 p.n_free_blocks && not (block_valid p next))
        then (0, p)
        else (block, record p { n_free_blocks = p.n_free_blocks - 1; free_list_ptr = next }))
    else (0, p)

-- kMemPartitionAlloc by a task of the domain `caller`; a null `kobj` is `none`
unfoldable pub alloc : Partition → Mem → Option ℕ → ℕ × Partition
unfolding alloc_ready
alloc p m caller = elim (object_ready_err (some p.header) memalloc_kobj_id caller) [
  | success ↦ alloc_ready p m
  | _ ↦ (0, p)
]

-- kMemPartitionFree after kMemPartitionReadyErr_ has passed
unfoldable pub free_ready : Partition → Mem → ℕ → Err × Partition × Mem
free_ready p m b =
    let all_free = p.n_free_blocks == p.n_max_blocks in
    if b == 0
    then (obj_null, p, m)
    else if not (block_valid p b) || (all_free || free_list_contains p m b)
    then (mem_free, p, m)
    else (
      success,
      record p { free_list_ptr = b; n_free_blocks = add_word p.n_free_blocks 1 },
      store m b p.free_list_ptr,
    )

-- kMemPartitionFree
unfoldable pub free : Partition → Mem → Option ℕ → ℕ → Err × Partition × Mem
unfolding free_ready
free p m caller b = elim (object_ready_err (some p.header) memalloc_kobj_id caller) [
  | success ↦ free_ready p m b
  | e ↦ (e, p, m)
]

-- the tests of kMemPartitionScopeAttrErr_ on an attribute that is there
unfoldable pub scope_err : Scope → Option (ℕ × Bool) → Err
scope_err kernel_global none = success
scope_err kernel_global (some d) = invalid_param
scope_err domain_local none = invalid_param
scope_err domain_local (some (d, i)) = if i then success else obj_not_init
scope_err unassigned d = invalid_param

-- kMemPartitionScopeAttrErr_
unfoldable pub scope_attr_err : Option Attr → Err
unfolding scope_err
scope_attr_err none = success
scope_attr_err (some a) = scope_err a.scope a.domain

-- the loop of kMemPartitionInitImpl_ that links the blocks, with the rounds left
unfoldable pub link_blocks : Mem → ℕ → ℕ → ℕ → Mem
link_blocks m size zero block = store m block 0
link_blocks m size (suc n) block = link_blocks (store m block (block + size)) size n (block + size)

-- `(blkSize + RK_WORD_SIZE - 1) & ~(RK_WORD_SIZE - 1)` for a word of four bytes
abbrev pub round_up : ℕ → ℕ
round_up n = (n + 3) / 4 * 4

-- the domain pointer of an attribute
abbrev pub domain_of : Option (ℕ × Bool) → Option ℕ
domain_of none = none
domain_of (some (d, i)) = some d

-- the scope that kMemPartitionInitImpl_ leaves: the creator's domain, then the attribute's
unfoldable pub init_scope : Header → Option ℕ → Option Attr → Err × Header
init_scope h caller none = (success, owner_domain_set h caller)
init_scope h caller (some a) = scope_set (owner_domain_set h caller) a.scope (domain_of a.domain)

-- kMemPartitionInitImpl_ once its arguments have passed
unfoldable pub init_checked :
    Option ℕ → Partition → Mem → ℕ → ℕ → ℕ → Option Attr → Err × Partition × Mem
unfolding init_scope
init_checked caller p m pool blk n attr =
    let size = round_up blk in
    let (err, header) =
      init_scope (record (p.header) { init = true; obj_id = memalloc_kobj_id }) caller attr in
    (
      err,
      record {
        header = header;
        free_list_ptr = pool;
        pool_ptr = pool;
        blk_size = size;
        n_max_blocks = n;
        n_free_blocks = n;
        waiting_queue = [];
        mesg_prio_ceiling_enabled = false;
      },
      link_blocks m size (n - 1) pool,
    )

-- kMemPartitionInitImpl_ for a `kobj` that is there; `allowed` is kKernelRawInitAllowed().
unfoldable pub init_impl :
    Bool → Option ℕ → Partition → Mem → ℕ → ℕ → ℕ → Option Attr → Err × Partition × Mem
unfolding init_checked scope_attr_err
init_impl allowed caller p m pool blk n attr = elim (scope_attr_err attr) [
  | success ↦
      if not allowed
      then (invalid_phase, p, m)
      else if pool == 0
      then (obj_null, p, m)
      else if p.header.init
      then (obj_double_init, p, m)
      else if blk == 0 || (n == 0 || (ltb (ulong_max - 3) blk || not (pool % 4 == 0)))
      then (invalid_param, p, m)
      else init_checked caller p m pool blk n attr
  | e ↦ (e, p, m)
]

-- kMemPartitionInit while `run` is in RK_gRunPtr: without a task the partition belongs to the domain
-- of the application, `app` what kApplicationDomainEnsureInit returns and that domain.
unfoldable pub init :
    Bool → Option ℕ → Option ℕ → Err × ℕ → Partition → Mem → ℕ → ℕ → ℕ → Err × Partition × Mem
unfolding init_impl
init allowed (some r) caller app p m pool blk n = init_impl allowed caller p m pool blk n none
init allowed none caller (success, d) p m pool blk n =
    init_impl allowed caller p m pool blk n
      (some (record { scope = domain_local; domain = some (d, true) }))
init allowed none caller (e, d) p m pool blk n = (e, p, m)

-- kMemPartitionInitGlobalScope, kMemPartitionInitDomainScope
unfoldable pub init_global_scope :
    Bool → Option ℕ → Partition → Mem → ℕ → ℕ → ℕ → Err × Partition × Mem
unfolding init_impl
init_global_scope allowed caller p m pool blk n =
    init_impl allowed caller p m pool blk n (some (record { scope = kernel_global; domain = none }))

unfoldable pub init_domain_scope :
    Bool → Option ℕ → Partition → Mem → ℕ → ℕ → ℕ → Option (ℕ × Bool) → Err × Partition × Mem
unfolding init_impl
init_domain_scope allowed caller p m pool blk n d =
    init_impl allowed caller p m pool blk n (some (record { scope = domain_local; domain = d }))
