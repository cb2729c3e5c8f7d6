-- ===== src/DynObj/Family.antt =====
-- Creation and destruction of the dynamic objects of one family, which core/src/kdynobjs.c writes
-- out once for each (k...CreateWithAttr_, k...Destroy). What differs is a `Family`.
use rk.Base.{ℕ, Bool, Option, none, some, ◌==◌, if◌then◌else◌}
use rk.Base.Memory.{Mem}
use rk.Err.{Err, success, obj_null, invalid_obj, invalid_param, buffer_empty}
use rk.Obj.{Header, Scope, ready, access_err, scope_set}
use rk.Mem.{Partition, Attr, alloc, free, scope_attr_err, domain_of}
use rk.Kernel.{Kernel, run_domain}
use rk.Sched.Resched.{construction_enter, construction_exit}
use rk.DynObj.Defs.{Class, Objects, set_class, check_ready, publish, resolve_dynamic, invalidate}

-- The objects of a family in the kernel: the header at an address, the memset to 0 of the object,
-- and the tests of its own that its destruction makes.
pub record Family : Type 0 where
  pub kind : ℕ
  pub obj_id : ℕ
  pub header : Kernel → ℕ → Header
  pub set_header : Kernel → ℕ → Header → Kernel
  pub clear : Kernel → ℕ → Kernel
  pub idle_err : Kernel → ℕ → Err

-- What creation gets from outside: what kTraceNameObject returns, what
-- kApplicationDomainEnsureInit returns, and kApplicationDomainGet().
pub record Env : Type 0 where
  pub named : Err
  pub app_err : Err
  pub app_domain : ℕ

-- The kernel's objects and, in `mem`, the links of the free blocks: a block is one or the other.
pub record World : Type 0 where
  pub kernel : Kernel
  pub objects : Objects
  pub mem : Mem

-- `err = f; if (err != RK_ERR_SUCCESS) return (err);` before `g`
infixr 3 ◌then_err◌
abbrev pub ◌then_err◌ : Err → Err → Err
success then_err e = e
e then_err f = e

-- kDynObjNameArgErr_; whether there is a name
unfoldable pub name_arg_err : Bool → Err
name_arg_err there = if there then success else obj_null

-- kDynObjCheckCreateHandle_; `none` is a null pointer to the handle
unfoldable pub check_create_handle : Option ℕ → Err
check_create_handle none = obj_null
check_create_handle (some h) = if h == 0 then success else invalid_param

-- kDynObjScopeAttrErr_, which makes the tests of kMemPartitionScopeAttrErr_
unfoldable pub dyn_scope_attr_err : Option Attr → Err
unfolding scope_attr_err
dyn_scope_attr_err attr = scope_attr_err attr

-- kDynObjApplyScope_
unfoldable pub apply_scope : Env → Option ℕ → Header → Option Attr → Err × Header
unfolding scope_set
apply_scope env run h (some a) = scope_set h a.scope (domain_of a.domain)
apply_scope env (some r) h none = (success, h)
apply_scope env none h none = elim env.app_err [
  | success ↦ scope_set h Scope.domain_local (some env.app_domain)
  | e ↦ (e, h)
]

-- the class of a family with the partition and the links that an operation of the allocator leaves
abbrev pub set_part : World → ℕ → Class → Partition → Mem → World
set_part w kind c p m = record w {
  objects = set_class w.objects kind (record c { part = p });
  mem = m;
}

module _ (f : Family) where
  -- memset to 0 and kMemPartitionFree of the object at `a`
  unfoldable pub free_block : World → Class → ℕ → Err × World
  unfolding free
  free_block w c a =
      let k = f.clear w.kernel a in
      let (e, p, m) = free c.part w.mem (run_domain k) a in
      (e, set_part (record w { kernel = k }) f.kind c p m)

  -- kDynObjReleaseBlock_, and the cleaning up of a creation that fails
  unfoldable pub release_block : World → ℕ → Err × World
  unfolding free_block
  release_block w a = elim (w.objects.class f.kind) [
    | none ↦ (buffer_empty, w)
    | some c ↦ free_block w c a
  ]

  -- a creation that fails with `e` after the object at `a` was allocated
  unfoldable pub give_up : World → ℕ → Err → Err × ℕ × World
  unfolding release_block
  give_up w a e = (e, 0, (release_block w a).1)

  -- the handle is published, or the block is given back
  unfoldable pub create_published : World → ℕ → Err × ℕ × Objects → Err × ℕ × World
  unfolding give_up
  create_published w a (success, h, o) = (success, h, record w { objects = o })
  create_published w a (e, h, o) = give_up (record w { objects = o }) a e

  unfoldable pub create_scoped : World → ℕ → Err × Header → Err × ℕ × World
  unfolding create_published give_up publish
  create_scoped w a (success, h) =
      let k = f.set_header w.kernel a h in
      create_published (record w { kernel = k }) a
        (publish w.objects k.in_isr (λ (b : ℕ). (f.header k b).obj_id) f.kind a)
  create_scoped w a (e, h) = give_up w a e

  -- from kDynObjApplyName_ on
  unfoldable pub create_named : Env → World → ℕ → Option Attr → Err × ℕ × World
  unfolding create_scoped apply_scope give_up
  create_named env w a attr = elim env.named [
    | success ↦ create_scoped w a (apply_scope env w.kernel.run (f.header w.kernel a) attr)
    | e ↦ give_up w a e
  ]

  unfoldable pub create_init : Env → World → ℕ → Option Attr → Err × Kernel → Err × ℕ × World
  unfolding create_named give_up construction_exit
  create_init env w a attr (e, k) =
      let w' = record w { kernel = construction_exit k } in
      elim e [ success ↦ create_named env w' a attr | e' ↦ give_up w' a e' ]

  -- the rest of a creation, with what kMemPartitionAlloc gave; `init` is the family's
  unfoldable pub create_block :
      Env
      → (Kernel → ℕ → Err × Kernel)
      → World
      → Option Attr
      → Class
      → ℕ × Partition
      → Err × ℕ × World
  unfolding create_init construction_enter
  create_block env init w attr c (a, p) =
      let w' = set_part w f.kind c p w.mem in
      if a == 0
      then (buffer_empty, 0, w')
      else create_init env w' a attr (init (construction_enter (f.clear w.kernel a)) a)

  unfoldable pub create_alloc :
      Env → (Kernel → ℕ → Err × Kernel) → World → Option Attr → Class → Err × ℕ × World
  unfolding create_block alloc
  create_alloc env init w attr c =
      create_block env init w attr c (alloc c.part w.mem (run_domain w.kernel))

  unfoldable pub create_found :
      Env → (Kernel → ℕ → Err × Kernel) → World → Option Attr → Option Class → Err × ℕ × World
  unfolding create_alloc
  create_found env init w attr none = (buffer_empty, 0, w)
  create_found env init w attr (some c) = create_alloc env init w attr c

  -- k...CreateWithAttr_: the error, what the handle's place holds then, and the world
  unfoldable pub create :
      Env → (Kernel → ℕ → Err × Kernel) → World → Bool → Option ℕ → Option Attr → Err × ℕ × World
  unfolding create_found name_arg_err check_create_handle check_ready dyn_scope_attr_err
  create env init w name cell attr =
      let e =
        name_arg_err name
        then_err dyn_scope_attr_err attr
        then_err check_create_handle cell
        then_err check_ready w.objects w.kernel.in_isr in
      let h : ℕ = elim cell [ none ↦ 0 | some h ↦ h ] in
      elim e [ success ↦ create_found env init w attr (w.objects.class f.kind) | e' ↦ (e', h, w) ]

  -- the tests of k...Destroy on the object at `a`
  unfoldable pub destroy_err : Kernel → ℕ → Err
  unfolding ready access_err
  destroy_err k a =
      (if ready (some (f.header k a)) f.obj_id then success else invalid_obj)
      then_err access_err (some (f.header k a)) (run_domain k)
      then_err f.idle_err k a

  -- the block is released, and on success the handle's place is set to NULL
  unfoldable pub destroy_invalidated : World → ℕ → ℕ → Err × Objects → Err × ℕ × World
  unfolding release_block
  destroy_invalidated w handle a (success, o) =
      let (e, w') = release_block (record w { objects = o }) a in
      (e, elim e [ success ↦ 0 | _ ↦ handle ], w')
  destroy_invalidated w handle a (e, o) = (e, handle, record w { objects = o })

  unfoldable pub destroy_resolved : World → ℕ → Err × ℕ → Err × ℕ × World
  unfolding destroy_err destroy_invalidated invalidate
  destroy_resolved w handle (success, a) =
      let k = w.kernel in
      let ids = λ (b : ℕ). (f.header k b).obj_id in
      elim (destroy_err k a) [
        | success ↦ destroy_invalidated w handle a (invalidate w.objects k.in_isr ids f.kind handle)
        | e ↦ (e, handle, w)
      ]
  destroy_resolved w handle (e, a) = (e, handle, w)

  -- k...Destroy of the handle in a place that is there
  unfoldable pub destroy : World → ℕ → Err × ℕ × World
  unfolding destroy_resolved resolve_dynamic check_ready
  destroy w handle =
      let k = w.kernel in
      let ids = λ (b : ℕ). (f.header k b).obj_id in
      if handle == 0 then (obj_null, 0, w) else elim (check_ready w.objects k.in_isr) [
        | success ↦ destroy_resolved w handle (resolve_dynamic w.objects k.in_isr ids f.kind handle)
        | e ↦ (e, handle, w)
      ]
