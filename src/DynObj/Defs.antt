-- ===== src/DynObj/Defs.antt =====
-- The registry of the dynamic objects in core/src/kdynobjs.c. Each family has a partition, and for
-- each slot of it the registered object (0 for NULL) and a generation. A handle is a word, NULL is
-- 0; a mask of a bit field is written with `/` and `%`, and `|` of disjoint fields with `+`.
use rk.Base.{
  ℕ, ◌+◌, ◌-◌, ◌*◌, ◌/◌, ◌%◌, Bool, false, ◌&&◌, ◌||◌, not, Option, none, some, ◌==◌, ltb, leb,
  if◌then◌else◌,
}
use rk.Base.Word.{word_mod}
use rk.Err.{
  Err, success, obj_null, invalid_obj, obj_not_init, obj_double_init, invalid_isr_primitive,
}
use rk.Obj.{ready}
use rk.Mem.{Partition, memalloc_kobj_id}
use rk.Kernel.{update}

-- `RK_DYN_OBJ_CLASS_`, with the tables that it points at
pub record Class : Type 0 where
  pub part : Partition
  pub registry : ℕ → ℕ
  pub generation : ℕ → ℕ
  pub max_objects : ℕ
  pub obj_size : ℕ
  pub obj_id : ℕ

-- `dynObjPartitionsInit`, and kDynObjClassByType_ as a table: `none` for a family that is not
-- configured
pub record Objects : Type 0 where
  pub parts_init : Bool
  pub class : ℕ → Option Class

abbrev pub set_class : Objects → ℕ → Class → Objects
set_class o kind c = record o { class = update o.class kind (some c) }

-- kDynObjCheckReady_; `isr` is kIsISR()
unfoldable pub check_ready : Objects → Bool → Err
check_ready o isr =
    if not o.parts_init then obj_not_init else (if isr then invalid_isr_primitive else success)

-- kDynObjPartOwnsBlock_
unfoldable pub part_owns_block : Partition → ℕ → ℕ → Bool
unfolding ready
part_owns_block p b min_size =
    if not (ready (some p.header) memalloc_kobj_id) || b == 0 || ltb p.blk_size min_size
    then false
    else (if ltb b p.pool_ptr || leb (p.pool_ptr + p.blk_size * p.n_max_blocks % word_mod) b
        then false
        else (b - p.pool_ptr) % p.blk_size == 0)

-- kDynObjPartSlot_
unfoldable pub part_slot : Partition → ℕ → ℕ → Option ℕ
unfolding part_owns_block
part_slot p b min_size =
    let slot = (b - p.pool_ptr) / p.blk_size in
    if not (part_owns_block p b min_size)
    then none
    else (if leb p.n_max_blocks slot then none else some slot)

-- the generation after `g`: 0 is skipped
unfoldable pub next_generation : ℕ → ℕ
next_generation g = let n = (g + 1) % 65536 in if n == 0 then 1 else n

-- kDynObjGenerationBump_
unfoldable pub generation_bump : Class → ℕ → Class
unfolding next_generation
generation_bump c slot =
    if leb c.max_objects slot
    then c
    else record c { generation = update c.generation slot (next_generation (c.generation slot)) }

-- kDynObjHandleEncode_
unfoldable pub encode : ℕ → ℕ → ℕ → ℕ
encode kind generation slot =
    2684354560 + (kind % 16) * 16777216 + (generation % 65536) * 256 + slot % 256

-- kDynObjHandleIsEncoded
unfoldable pub is_encoded : ℕ → Bool
is_encoded handle = handle / 268435456 % 16 == 10

-- kDynObjHandleDecode_: the slot and the generation
unfoldable pub decode : ℕ → ℕ → Class → Option (ℕ × ℕ)
unfolding is_encoded
decode kind handle c =
    if not (is_encoded handle) || not (handle / 16777216 % 16 == kind % 16)
    then none
    else (if leb c.max_objects (handle % 256)
        then none
        else some (handle % 256, handle / 256 % 65536))

-- kDynObjResolveDecoded_; `ids` gives the `objID` in the header at an address
unfoldable pub resolve_decoded : Class → (ℕ → ℕ) → ℕ → ℕ → Err × ℕ
unfolding part_owns_block
resolve_decoded c ids slot generation =
    let obj = c.registry slot in
    if leb c.max_objects slot || not (c.generation slot == generation)
    then (invalid_obj, 0)
    else (if obj == 0 || not (part_owns_block c.part obj c.obj_size) || not (ids obj == c.obj_id)
        then (invalid_obj, 0)
        else (success, obj))

-- kDynObjPublishHandle from its slot on: the error, the handle and the family
unfoldable pub publish_slot : Class → ℕ → ℕ → Option ℕ → Err × ℕ × Class
unfolding encode
publish_slot c kind obj none = (invalid_obj, 0, c)
publish_slot c kind obj (some slot) =
    if not (c.registry slot == 0) then (obj_double_init, 0, c) else (
      success,
      encode kind (c.generation slot) slot,
      record c { registry = update c.registry slot obj },
    )

unfoldable pub publish_class : (ℕ → ℕ) → ℕ → ℕ → Class → Err × ℕ × Class
unfolding part_slot publish_slot
publish_class ids kind obj c =
    if ids obj == c.obj_id
    then publish_slot c kind obj (part_slot c.part obj c.obj_size)
    else (invalid_obj, 0, c)

-- the table with the family that an operation leaves
abbrev pub put_class : Objects → ℕ → Err × ℕ × Class → Err × ℕ × Objects
put_class o kind (e, h, c) = (e, h, set_class o kind c)

unfoldable pub publish_found : Objects → (ℕ → ℕ) → ℕ → ℕ → Option Class → Err × ℕ × Objects
unfolding publish_class
publish_found o ids kind obj none = (invalid_obj, 0, o)
publish_found o ids kind obj (some c) = put_class o kind (publish_class ids kind obj c)

-- kDynObjPublishHandle, with a place for the handle
unfoldable pub publish : Objects → Bool → (ℕ → ℕ) → ℕ → ℕ → Err × ℕ × Objects
unfolding check_ready publish_found
publish o isr ids kind obj = if obj == 0 then (obj_null, 0, o) else elim (check_ready o isr) [
  | success ↦ publish_found o ids kind obj (o.class kind)
  | e ↦ (e, 0, o)
]

-- a raw pointer in kDynObjResolveHandle: refused where it is a slot's that is registered otherwise
unfoldable pub resolve_raw : Class → ℕ → Option ℕ → Err × ℕ
resolve_raw c raw none = (success, raw)
resolve_raw c raw (some slot) = if c.registry slot == raw then (success, raw) else (invalid_obj, 0)

unfoldable pub resolve_class : Class → (ℕ → ℕ) → ℕ → Option (ℕ × ℕ) → Err × ℕ
unfolding resolve_decoded resolve_raw part_slot is_encoded
resolve_class c ids handle (some (slot, generation)) = resolve_decoded c ids slot generation
resolve_class c ids handle none =
    if is_encoded handle
    then (invalid_obj, 0)
    else resolve_raw c handle (part_slot c.part handle c.obj_size)

unfoldable pub resolve_found : (ℕ → ℕ) → ℕ → ℕ → Option Class → Err × ℕ
unfolding resolve_class decode
resolve_found ids kind handle none = (success, handle)
resolve_found ids kind handle (some c) = resolve_class c ids handle (decode kind handle c)

-- kDynObjResolveHandle, with a place for the object
unfoldable pub resolve : Objects → (ℕ → ℕ) → ℕ → ℕ → Err × ℕ
unfolding resolve_found
resolve o ids kind handle =
    if handle == 0 then (obj_null, 0) else resolve_found ids kind handle (o.class kind)

-- kDynObjResolveAnyHandle: the kinds 2 to 8 are those of the objects
unfoldable pub resolve_any : Objects → (ℕ → ℕ) → ℕ → Err × ℕ
unfolding is_encoded resolve
resolve_any o ids handle =
    let kind = handle / 16777216 % 16 in
    if handle == 0
    then (obj_null, 0)
    else (if not (is_encoded handle)
        then (success, handle)
        else (if leb 2 kind && leb kind 8 then resolve o ids kind handle else (invalid_obj, 0)))

-- a raw pointer in kDynObjResolveDynamicHandle: it has to be registered
unfoldable pub resolve_dynamic_raw : Class → ℕ → Option ℕ → Err × ℕ
resolve_dynamic_raw c raw none = (invalid_obj, 0)
resolve_dynamic_raw c raw (some slot) =
    if c.registry slot == raw then (success, raw) else (invalid_obj, 0)

unfoldable pub resolve_dynamic_class : Class → (ℕ → ℕ) → ℕ → Option (ℕ × ℕ) → Err × ℕ
unfolding resolve_decoded resolve_dynamic_raw part_slot is_encoded
resolve_dynamic_class c ids handle (some (slot, generation)) = resolve_decoded c ids slot generation
resolve_dynamic_class c ids handle none =
    if is_encoded handle
    then (invalid_obj, 0)
    else resolve_dynamic_raw c handle (part_slot c.part handle c.obj_size)

unfoldable pub resolve_dynamic_found : (ℕ → ℕ) → ℕ → ℕ → Option Class → Err × ℕ
unfolding resolve_dynamic_class decode
resolve_dynamic_found ids kind handle none = (invalid_obj, 0)
resolve_dynamic_found ids kind handle (some c) =
    resolve_dynamic_class c ids handle (decode kind handle c)

-- kDynObjResolveDynamicHandle, with a place for the object
unfoldable pub resolve_dynamic : Objects → Bool → (ℕ → ℕ) → ℕ → ℕ → Err × ℕ
unfolding check_ready resolve_dynamic_found
resolve_dynamic o isr ids kind handle =
    if handle == 0 then (obj_null, 0) else elim (check_ready o isr) [
      | success ↦ resolve_dynamic_found ids kind handle (o.class kind)
      | e ↦ (e, 0)
    ]

-- the end of kDynObjInvalidateHandle, from the slot on
unfoldable pub invalidate_slot : Class → ℕ → Option ℕ → Err × Class
unfolding generation_bump
invalidate_slot c obj none = (invalid_obj, c)
invalidate_slot c obj (some slot) =
    if c.registry slot == obj
    then (success, generation_bump (record c { registry = update c.registry slot 0 }) slot)
    else (invalid_obj, c)

unfoldable pub invalidate_resolved : Class → Err × ℕ → Err × Class
unfolding invalidate_slot part_slot
invalidate_resolved c (success, obj) = invalidate_slot c obj (part_slot c.part obj c.obj_size)
invalidate_resolved c (e, obj) = (e, c)

unfoldable pub invalidate_found : Objects → Bool → (ℕ → ℕ) → ℕ → ℕ → Option Class → Err × Objects
unfolding invalidate_resolved resolve_dynamic
invalidate_found o isr ids kind handle none = (invalid_obj, o)
invalidate_found o isr ids kind handle (some c) =
    let (e, c') = invalidate_resolved c (resolve_dynamic o isr ids kind handle) in
    (e, set_class o kind c')

-- kDynObjInvalidateHandle
unfoldable pub invalidate : Objects → Bool → (ℕ → ℕ) → ℕ → ℕ → Err × Objects
unfolding invalidate_found
invalidate o isr ids kind handle =
    if handle == 0 then (obj_null, o) else invalidate_found o isr ids kind handle (o.class kind)
