-- ===== src/DynObj/Laws.antt =====
-- What the registry of the dynamic objects promises: a published handle resolves to its object, and
-- an invalidated one is refused.
use rk.Base.{
  ℕ, ◌/◌, ◌%◌, ◌≤◌, ◌<◌, ◌≡◌, ◌≢◌, refl, sym, ap, ◌∙◌, inl, inr, Bool, true, false, Option, none,
  some, ◌==◌, Bool-cases, arith, ==_iff,
}
use mathlib.Core.Path.{subst}
use rk.Err.{success}
use rk.Kernel.{update, update-same}
use rk.Mem.{Partition}
use rk.DynObj.Defs.{
  Class, Objects, set_class, check_ready, part_owns_block, part_slot, encode, is_encoded, decode,
  resolve_decoded, publish_slot, publish_class, publish_found, publish, resolve_class,
  resolve_found, resolve, resolve_any, resolve_dynamic_class, resolve_dynamic_found,
  resolve_dynamic,
}

-- The slots and the generations of a family fit their fields of a handle, its partition has no more
-- blocks than the family has slots, and an object is registered at the slot of its block.
pub record IsSound (c : Class) : Type 0 where
  pub slots : c.max_objects ≤ 256
  pub blocks : c.part.n_max_blocks ≤ c.max_objects
  pub generations : (s : ℕ) → c.generation s < 65536
  pub indexed : (s : ℕ) → c.registry s ≢ 0 → part_slot c.part (c.registry s) c.obj_size ≡ some s

decode-encode :
    (c : Class) (kind g s : ℕ)
    → c.max_objects ≤ 256
    → g < 65536
    → s < c.max_objects
    → decode kind (encode kind g s) c ≡ some (s, g)
unfolding decode encode
decode-encode c kind g s v h l = ground (arith, v, h, l)

encode-nonzero : (kind g s : ℕ) → (encode kind g s == 0) ≡ false
unfolding encode
encode-nonzero kind g s = ground arith

encode_kind : (kind g s : ℕ) → kind < 16 → encode kind g s / 16777216 % 16 ≡ kind
unfolding encode
encode_kind kind g s h = ground (arith, h)

encode-is_encoded : (kind g s : ℕ) → is_encoded (encode kind g s) ≡ true
unfolding encode is_encoded
encode-is_encoded kind g s = ground arith

-- a block with a slot is a block of the partition
pub part_slot-some :
    (p : Partition) (b m s : ℕ)
    → part_slot p b m ≡ some s
    → (s < p.n_max_blocks) × (part_owns_block p b m ≡ true)
unfolding part_slot
part_slot-some p b m s e = ground (arith, e)

owns-nonzero : (p : Partition) (b m : ℕ) → part_owns_block p b m ≡ true → (b == 0) ≡ false
unfolding part_owns_block
owns-nonzero p b m e = ground (arith, e)

-- the family after `obj` was registered at slot `s`
abbrev pub registered : Class → ℕ → ℕ → Class
registered c s obj = record c { registry = update c.registry s obj }

publish_slot-some :
    (c : Class) (kind obj : ℕ) (o : Option ℕ) (h : ℕ) (c' : Class)
    → publish_slot c kind obj o ≡ (success, h, c')
    → (s : ℕ) × (o ≡ some s) × (h ≡ encode kind (c.generation s) s) × (c' ≡ registered c s obj)
unfolding publish_slot
publish_slot-some c kind obj none h c' e = ground (arith, e)
publish_slot-some c kind obj (some s) h c' e = elim (Bool-cases (c.registry s == 0)) [
  | inl b ↦ let t = rw b at e in (s, refl, sym (ap (λ r. r.1) t), sym (ap (λ r. r.2) t))
  | inr b ↦ ground (arith, b, e)
]

publish_class-some :
    (ids : ℕ → ℕ) (kind obj : ℕ) (c : Class) (h : ℕ) (c' : Class)
    → publish_class ids kind obj c ≡ (success, h, c')
    → (s : ℕ) × (part_slot c.part obj c.obj_size ≡ some s)
      × (ids obj ≡ c.obj_id)
      × (h ≡ encode kind (c.generation s) s)
      × (c' ≡ registered c s obj)
unfolding publish_class
publish_class-some ids kind obj c h c' e = elim (Bool-cases (ids obj == c.obj_id)) [
  | inl b ↦
      let (s, p, q, r) =
        publish_slot-some c kind obj (part_slot c.part obj c.obj_size) h c' (rw b at e) in
      (s, p, (==_iff (ids obj) c.obj_id).0 b, q, r)
  | inr b ↦ ground (arith, b, e)
]

-- what a publication that succeeds found and did
pub record Published (o : Objects) (isr : Bool) (ids : ℕ → ℕ) (kind obj h : ℕ) (o' : Objects)
    : Type 0 where
  pub class : Class
  pub slot : ℕ
  pub found : o.class kind ≡ some class
  pub at_slot : part_slot class.part obj class.obj_size ≡ some slot
  pub tagged : ids obj ≡ class.obj_id
  pub handle : h ≡ encode kind (class.generation slot) slot
  pub ready : check_ready o isr ≡ success
  pub stored : o' ≡ set_class o kind (registered class slot obj)

publish_found-Published :
    (o : Objects) (isr : Bool) (ids : ℕ → ℕ) (kind obj : ℕ) (m : Option Class) (h : ℕ)
    (o' : Objects)
    → o.class kind ≡ m
    → check_ready o isr ≡ success
    → publish_found o ids kind obj m ≡ (success, h, o')
    → Published o isr ids kind obj h o'
unfolding publish_found
publish_found-Published o isr ids kind obj none h o' f q e = ground (arith, e)
publish_found-Published o isr ids kind obj (some c) h o' f ready e =
    let r = publish_class ids kind obj c in
    let (s, p, q, t, u) = publish_class-some ids kind obj c h r.2 (λ i. ((e i).0, (e i).1, r.2)) in
    record {
      class = c;
      slot = s;
      found = f;
      at_slot = p;
      tagged = q;
      handle = t;
      ready = ready;
      stored = sym (ap (λ x. x.2) e) ∙ ap (set_class o kind) u;
    }

pub publish-Published :
    (o : Objects) (isr : Bool) (ids : ℕ → ℕ) (kind obj h : ℕ) (o' : Objects)
    → publish o isr ids kind obj ≡ (success, h, o')
    → Published o isr ids kind obj h o'
unfolding publish check_ready
publish-Published o isr ids kind obj h o' e =
    publish_found-Published o isr ids kind obj (o.class kind) h o' refl (ground (arith, e))
      (ground (arith, e))

-- a registered object of its family resolves at its slot
resolve_decoded-registered :
    (c : Class) (ids : ℕ → ℕ) (s obj : ℕ)
    → s < c.max_objects
    → part_owns_block c.part obj c.obj_size ≡ true
    → ids obj ≡ c.obj_id
    → resolve_decoded (registered c s obj) ids s (c.generation s) ≡ (success, obj)
unfolding resolve_decoded
resolve_decoded-registered c ids s obj l w t =
    rw (update-same c.registry s obj) (ground (arith, l, w, t))

resolve_decoded-Published :
    (o : Objects) (isr : Bool) (ids : ℕ → ℕ) (kind obj h : ℕ) (o' : Objects)
    → (v : Published o isr ids kind obj h o') → IsSound v.class
    → resolve_decoded (registered v.class v.slot obj) ids v.slot (v.class.generation v.slot)
      ≡ (success, obj)
resolve_decoded-Published o isr ids kind obj h o' v w =
    let (l, b) = part_slot-some v.class.part obj v.class.obj_size v.slot v.at_slot in
    resolve_decoded-registered v.class ids v.slot obj (omega (arith, w.blocks)) b v.tagged

pub resolve_dynamic-ready :
    (o : Objects) (isr : Bool) (ids : ℕ → ℕ) (kind h : ℕ)
    → (h == 0) ≡ false
    → check_ready o isr ≡ success
    → resolve_dynamic o isr ids kind h ≡ resolve_dynamic_found ids kind h (o.class kind)
unfolding resolve_dynamic check_ready
resolve_dynamic-ready o isr ids kind h e r = ground (arith, e, r)

pub check_ready-set_class :
    (o : Objects) (isr : Bool) (kind : ℕ) (c : Class)
    → check_ready (set_class o kind c) isr ≡ check_ready o isr
unfolding check_ready
check_ready-set_class o isr kind c = refl

pub some-eq : (c d : Class) → some c ≡ some d → c ≡ d
some-eq c d e = ap (λ x. elim x as (λ y. Class) [ none ↦ c | some a ↦ a ]) e

module _ (o : Objects) (isr : Bool) (ids : ℕ → ℕ) (kind obj h : ℕ) (o' : Objects)
    (v : Published o isr ids kind obj h o') (w : IsSound v.class) where
  slot_lt : v.slot < v.class.max_objects
  slot_lt =
      omega (arith, w.blocks, (part_slot-some v.class.part obj v.class.obj_size v.slot v.at_slot).0)

  class-stored : o'.class kind ≡ some (registered v.class v.slot obj)
  class-stored =
      ap (λ x. x.class kind) v.stored
      ∙ update-same o.class kind (some (registered v.class v.slot obj))

  decode-handle :
      decode kind h (registered v.class v.slot obj) ≡ some (v.slot, v.class.generation v.slot)
  decode-handle =
      ap (λ x. decode kind x (registered v.class v.slot obj)) v.handle
      ∙ decode-encode (registered v.class v.slot obj) kind (v.class.generation v.slot) v.slot
          w.slots (w.generations v.slot) slot_lt

  handle-nonzero : (h == 0) ≡ false
  handle-nonzero =
      ap (λ x. x == 0) v.handle ∙ encode-nonzero kind (v.class.generation v.slot) v.slot

  resolve_found-Published : resolve_found ids kind h (o'.class kind) ≡ (success, obj)
  unfolding resolve_found resolve_class
  resolve_found-Published =
      rw (class-stored, decode-handle) (resolve_decoded-Published o isr ids kind obj h o' v w)

  resolve_dynamic_found-Published :
      resolve_dynamic_found ids kind h (o'.class kind) ≡ (success, obj)
  unfolding resolve_dynamic_found resolve_dynamic_class
  resolve_dynamic_found-Published =
      rw (class-stored, decode-handle) (resolve_decoded-Published o isr ids kind obj h o' v w)

  resolve-Published : resolve o' ids kind h ≡ (success, obj)
  unfolding resolve
  resolve-Published = rw handle-nonzero resolve_found-Published

  resolve_dynamic-Published : resolve_dynamic o' isr ids kind h ≡ (success, obj)
  resolve_dynamic-Published =
      let r : check_ready o' isr ≡ success =
        subst (λ x. check_ready x isr ≡ success) (sym v.stored)
          (check_ready-set_class o isr kind (registered v.class v.slot obj) ∙ v.ready) in
      resolve_dynamic-ready o' isr ids kind h handle-nonzero r ∙ resolve_dynamic_found-Published

  resolve_any-Published : 2 ≤ kind → kind ≤ 8 → resolve_any o' ids h ≡ (success, obj)
  unfolding resolve_any
  resolve_any-Published a b =
      let g = v.class.generation v.slot in
      let e : is_encoded h ≡ true = ap is_encoded v.handle ∙ encode-is_encoded kind g v.slot in
      let k : h / 16777216 % 16 ≡ kind =
        ap (λ x. x / 16777216 % 16) v.handle ∙ encode_kind kind g v.slot (omega arith) in
      rw (handle-nonzero, k) (ground (arith, e, resolve_found-Published))

-- When kDynObjPublishHandle succeeds for one of the seven kinds, in a family that is sound,
-- the handle that it gives resolves to the object by kDynObjResolveHandle,
-- kDynObjResolveAnyHandle and kDynObjResolveDynamicHandle.
pub publish-resolves :
    (o : Objects) (isr : Bool) (ids : ℕ → ℕ) (kind obj h : ℕ) (o' : Objects) (c : Class)
    → o.class kind ≡ some c
    → IsSound c
    → 2 ≤ kind
    → kind ≤ 8
    → publish o isr ids kind obj ≡ (success, h, o')
    → (resolve o' ids kind h ≡ (success, obj))
      × (resolve_any o' ids h ≡ (success, obj))
      × (resolve_dynamic o' isr ids kind h ≡ (success, obj))
publish-resolves o isr ids kind obj h o' c f s a b e =
    let v = publish-Published o isr ids kind obj h o' e in
    let w = subst IsSound (some-eq c v.class (sym f ∙ v.found)) s in
    (
      resolve-Published o isr ids kind obj h o' v w,
      resolve_any-Published o isr ids kind obj h o' v w a b,
      resolve_dynamic-Published o isr ids kind obj h o' v w,
    )
