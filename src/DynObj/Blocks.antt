-- ===== src/DynObj/Blocks.antt =====
-- Creation of a dynamic object takes one block of its family when it succeeds, and none when it
-- fails, at whatever step.
use rk.Base.{
  ℕ, ◌<◌, ◌≡◌, ◌≢◌, refl, sym, ap, ◌∙◌, ◌⊎◌, inl, inr, Bool, false, Option, none, some, List, [],
  ◌∷◌, length, ◌==◌, Bool-cases, arith,
}
use mathlib.Core.Path.{subst}
use rk.Base.Memory.{Mem, store}
use rk.Base.Distinct.{NotIn}
use rk.Err.{Err, success, err-case, buffer_empty}
use rk.Obj.{Header}
use rk.Kernel.{Kernel, update-same, run_domain}
use rk.Mem.{Partition, Attr, block_valid}
use rk.Mem.Chain.{HasFree, Valid, Valid-ne_zero}
use rk.Mem.Laws.{
  IsReady, taken, returned, alloc-IsReady, free-IsReady, alloc_ready-cons, alloc_ready-nil,
  taken-HasFree, free_ready-NotIn, returned-HasFree,
}
use rk.Sched.Resched.{construction_enter, construction_exit}
use rk.DynObj.Defs.{
  Class, Objects, set_class, check_ready, publish_slot, publish_class, publish_found, publish,
}
use rk.DynObj.Laws.{some-eq}
use rk.DynObj.Family.{
  Family, Env, World, set_part, free_block, release_block, give_up, create_published, create_scoped,
  create_named, create_init, create_block, create_alloc, create_found, create, apply_scope,
}

-- The partition of the family `kind` has the free blocks `bs`, and every domain may use it.
pub record HasBlocks (kind : ℕ) (o : Objects) (m : Mem) (bs : List ℕ) : Type 0 where
  pub class : Class
  pub found : o.class kind ≡ some class
  pub ready : (caller : Option ℕ) → IsReady class.part caller
  pub free : HasFree class.part m bs

-- The same with a block `b` of it that is taken.
pub record HasTaken (kind : ℕ) (o : Objects) (m : Mem) (b : ℕ) (bs : List ℕ) : Type 0 where
  pub class : Class
  pub found : o.class kind ≡ some class
  pub ready : (caller : Option ℕ) → IsReady class.part caller
  pub free : HasFree class.part m bs
  pub valid : Valid class.part b
  pub new : NotIn b bs
  pub room : length bs < class.part.n_max_blocks

taken-Valid : (p : Partition) (m : Mem) (b : ℕ) → Valid p b → Valid (taken p m) b
unfolding block_valid
taken-Valid p m b h = h

-- Publication leaves the blocks alone.
pub set_class-HasTaken :
    (kind : ℕ) (o : Objects) (m : Mem) (b : ℕ) (bs : List ℕ) (c : Class)
    → (v : HasTaken kind o m b bs) → c.part ≡ v.class.part
    → HasTaken kind (set_class o kind c) m b bs
set_class-HasTaken kind o m b bs c v e = record {
  class = c;
  found = update-same o.class kind (some c);
  ready = λ caller. rw e (v.ready caller);
  free = rw e v.free;
  valid = rw e v.valid;
  new = v.new;
  room = rw e v.room;
}

publish_class-part :
    (ids : ℕ → ℕ) (kind obj : ℕ) (c : Class) → (publish_class ids kind obj c).2.part ≡ c.part
unfolding publish_class publish_slot
publish_class-part ids kind obj c = ground arith

publish_found-HasTaken :
    (o : Objects) (ids : ℕ → ℕ) (kind obj : ℕ) (d : Option Class) (m : Mem) (b : ℕ) (bs : List ℕ)
    → o.class kind ≡ d
    → HasTaken kind o m b bs
    → HasTaken kind (publish_found o ids kind obj d).2 m b bs
unfolding publish_found
publish_found-HasTaken o ids kind obj none m b bs e v = v
publish_found-HasTaken o ids kind obj (some c) m b bs e v =
    set_class-HasTaken kind o m b bs (publish_class ids kind obj c).2 v
      (publish_class-part ids kind obj c ∙ ap (λ x. x.part) (some-eq c v.class (sym e ∙ v.found)))

publish-HasTaken :
    (o : Objects) (isr : Bool) (ids : ℕ → ℕ) (kind obj : ℕ) (m : Mem) (b : ℕ) (bs : List ℕ)
    → HasTaken kind o m b bs
    → HasTaken kind (publish o isr ids kind obj).2 m b bs
unfolding publish
publish-HasTaken o isr ids kind obj m b bs v = elim (Bool-cases (obj == 0)) [
  | inl a ↦ rw a v
  | inr a ↦ rw a (
      err-case (λ r. HasTaken kind r.2 m b bs) (check_ready o isr)
        (publish_found o ids kind obj (o.class kind)) (λ e. (e, 0, o))
        (publish_found-HasTaken o ids kind obj (o.class kind) m b bs refl v) (λ e n. v))
]

HasTaken-HasBlocks :
    (kind : ℕ) (o : Objects) (m : Mem) (b : ℕ) (bs : List ℕ)
    → HasTaken kind o m b bs
    → HasBlocks kind o m bs
HasTaken-HasBlocks kind o m b bs v = record {
  class = v.class;
  found = v.found;
  ready = v.ready;
  free = v.free;
}

module _ (f : Family) where
  -- the world with a block of the class `c` given back
  abbrev pub back : World → Class → ℕ → World
  back w c b =
      set_part (record w { kernel = f.clear w.kernel b }) f.kind c (returned c.part b)
        (store w.mem b c.part.free_list_ptr)

  pub release_block-eq :
      (w : World) (b : ℕ) (bs : List ℕ) (v : HasTaken f.kind w.objects w.mem b bs)
      → release_block f w b ≡ (success, back w v.class b)
  unfolding release_block free_block
  release_block-eq w b bs v =
      let c = v.class in
      let k = f.clear w.kernel b in
      let e =
        free-IsReady c.part w.mem (run_domain k) b (v.ready (run_domain k))
        ∙ free_ready-NotIn c.part w.mem bs b v.free v.valid v.new v.room in
      ap
        (λ m. elim m as (λ x. Err × World) [
          | none ↦ (buffer_empty, w)
          | some d ↦ free_block f w d b
        ])
        v.found
      ∙ ap (λ r. (r.0, set_part (record w { kernel = k }) f.kind c r.1 r.2)) e

  -- a taken block goes back to the front of the free list
  pub release_block-HasBlocks :
      (w : World) (b : ℕ) (bs : List ℕ)
      → HasTaken f.kind w.objects w.mem b bs
      → let w' = (release_block f w b).1 in HasBlocks f.kind w'.objects w'.mem (b ∷ bs)
  release_block-HasBlocks w b bs v =
      let c = v.class in
      let c' : Class = record c { part = returned c.part b } in
      rw (release_block-eq w b bs v) (record {
        class = c';
        found = update-same w.objects.class f.kind (some c');
        ready = v.ready;
        free = returned-HasFree c.part w.mem bs b v.free v.valid v.new v.room;
      })

  -- how a creation ends that has taken `b` off the free list
  abbrev Ends : ℕ → List ℕ → Err × ℕ × World → Type 0
  Ends b bs (e, h, w) =
      ((e ≡ success) × HasBlocks f.kind w.objects w.mem bs)
      ⊎ ((e ≢ success) × HasBlocks f.kind w.objects w.mem (b ∷ bs))

  give_up-Ends :
      (w : World) (b : ℕ) (bs : List ℕ) (e : Err)
      → HasTaken f.kind w.objects w.mem b bs
      → e ≢ success
      → Ends b bs (give_up f w b e)
  unfolding give_up
  give_up-Ends w b bs e v n = inr (n, release_block-HasBlocks w b bs v)

  create_published-Ends :
      (w : World) (b : ℕ) (bs : List ℕ) (r : Err × ℕ × Objects)
      → HasTaken f.kind r.2 w.mem b bs
      → Ends b bs (create_published f w b r)
  unfolding create_published
  create_published-Ends w b bs (success, h, o) v =
      inl (refl, HasTaken-HasBlocks f.kind o w.mem b bs v)
  create_published-Ends w b bs (e, h, o) v =
      give_up-Ends (record w { objects = o }) b bs e v (λ p. cc p)

  create_scoped-Ends :
      (w : World) (b : ℕ) (bs : List ℕ) (r : Err × Header)
      → HasTaken f.kind w.objects w.mem b bs
      → Ends b bs (create_scoped f w b r)
  unfolding create_scoped
  create_scoped-Ends w b bs (success, h) v =
      let k = f.set_header w.kernel b h in
      let ids = λ (x : ℕ). (f.header k x).obj_id in
      create_published-Ends (record w { kernel = k }) b bs (publish w.objects k.in_isr ids f.kind b)
        (publish-HasTaken w.objects k.in_isr ids f.kind b w.mem b bs v)
  create_scoped-Ends w b bs (e, h) v = give_up-Ends w b bs e v (λ p. cc p)

  create_named-Ends :
      (env : Env) (w : World) (b : ℕ) (attr : Option Attr) (bs : List ℕ)
      → HasTaken f.kind w.objects w.mem b bs
      → Ends b bs (create_named f env w b attr)
  unfolding create_named
  create_named-Ends env w b attr bs v =
      let r = apply_scope env w.kernel.run (f.header w.kernel b) attr in
      err-case (Ends b bs) env.named (create_scoped f w b r) (λ e. give_up f w b e)
        (create_scoped-Ends w b bs r v) (λ e n. give_up-Ends w b bs e v n)

  create_init-Ends :
      (env : Env) (w : World) (b : ℕ) (attr : Option Attr) (r : Err × Kernel) (bs : List ℕ)
      → HasTaken f.kind w.objects w.mem b bs
      → Ends b bs (create_init f env w b attr r)
  unfolding create_init
  create_init-Ends env w b attr (e, k) bs v =
      let w' = record w { kernel = construction_exit k } in
      err-case (Ends b bs) e (create_named f env w' b attr) (λ e'. give_up f w' b e')
        (create_named-Ends env w' b attr bs v) (λ e' n. give_up-Ends w' b bs e' v n)

  -- how a creation ends that finds the blocks `bs` free
  abbrev pub Takes : List ℕ → Err × ℕ × World → Type 0
  Takes bs (e, h, w) =
      ((e ≡ success)
        × ((b : ℕ) × (rest : List ℕ) × (bs ≡ b ∷ rest) × HasBlocks f.kind w.objects w.mem rest))
      ⊎ ((e ≢ success) × HasBlocks f.kind w.objects w.mem bs)

  Ends-Takes : (b : ℕ) (bs : List ℕ) (r : Err × ℕ × World) → Ends b bs r → Takes (b ∷ bs) r
  Ends-Takes b bs r (inl (e, v)) = inl (e, (b, bs, refl, v))
  Ends-Takes b bs r (inr (n, v)) = inr (n, v)

  create_block-Takes :
      (env : Env) (init : Kernel → ℕ → Err × Kernel) (w : World) (attr : Option Attr) (b : ℕ)
      (bs : List ℕ)
      → (v : HasBlocks f.kind w.objects w.mem (b ∷ bs))
      → Takes (b ∷ bs) (create_block f env init w attr v.class (b, taken v.class.part w.mem))
  unfolding create_block
  create_block-Takes env init w attr b bs v =
      let c = v.class in
      let c' : Class = record c { part = taken c.part w.mem } in
      let w' = set_part w f.kind c (taken c.part w.mem) w.mem in
      let t : HasTaken f.kind w'.objects w'.mem b bs = record {
        class = c';
        found = update-same w.objects.class f.kind (some c');
        ready = v.ready;
        free = taken-HasFree c.part w.mem b bs v.free;
        valid = taken-Valid c.part w.mem b v.free.valid.0;
        new = v.free.distinct.0;
        room = omega (arith, v.free.counted, v.free.within);
      } in
      let z : (b == 0) ≡ false = ground (arith, Valid-ne_zero c.part b v.free.valid.0) in
      let r = init (construction_enter (f.clear w.kernel b)) b in
      rw z (Ends-Takes b bs (create_init f env w' b attr r) (create_init-Ends env w' b attr r bs t))

  create_none-Takes :
      (env : Env) (init : Kernel → ℕ → Err × Kernel) (w : World) (attr : Option Attr)
      → (v : HasBlocks f.kind w.objects w.mem [])
      → Takes [] (create_block f env init w attr v.class (0, v.class.part))
  unfolding create_block
  create_none-Takes env init w attr v = inr (
    λ p. cc p,
    record {
      class = v.class;
      found = update-same w.objects.class f.kind (some v.class);
      ready = v.ready;
      free = v.free;
    },
  )

  create_alloc-Takes :
      (env : Env) (init : Kernel → ℕ → Err × Kernel) (w : World) (attr : Option Attr) (bs : List ℕ)
      → (v : HasBlocks f.kind w.objects w.mem bs)
      → Takes bs (create_alloc f env init w attr v.class)
  unfolding create_alloc
  create_alloc-Takes env init w attr [] v =
      let c = v.class in
      let d = run_domain w.kernel in
      let e = alloc-IsReady c.part w.mem d (v.ready d) ∙ alloc_ready-nil c.part w.mem v.free in
      subst (λ r. Takes [] (create_block f env init w attr c r)) (sym e)
        (create_none-Takes env init w attr v)
  create_alloc-Takes env init w attr (b ∷ bs) v =
      let c = v.class in
      let d = run_domain w.kernel in
      let e =
        alloc-IsReady c.part w.mem d (v.ready d)
        ∙ alloc_ready-cons c.part w.mem b bs v.free
        ∙ ap (λ x. (x, taken c.part w.mem)) v.free.chained.0 in
      subst (λ r. Takes (b ∷ bs) (create_block f env init w attr c r)) (sym e)
        (create_block-Takes env init w attr b bs v)

  create_found-Takes :
      (env : Env) (init : Kernel → ℕ → Err × Kernel) (w : World) (attr : Option Attr) (bs : List ℕ)
      → HasBlocks f.kind w.objects w.mem bs
      → Takes bs (create_found f env init w attr (w.objects.class f.kind))
  unfolding create_found
  create_found-Takes env init w attr bs v =
      subst (λ m. Takes bs (create_found f env init w attr m)) (sym v.found)
        (create_alloc-Takes env init w attr bs v)

  -- The creation of a dynamic object, of a family whose pool every domain may use and whose
  -- free list is in order: a creation that succeeds takes the first free block and leaves the
  -- others free; one that fails, with whatever code and at whatever step, leaves the same
  -- blocks free in the same order.
  pub create-Takes :
      (env : Env) (init : Kernel → ℕ → Err × Kernel) (w : World) (name : Bool) (cell : Option ℕ)
      (attr : Option Attr) (bs : List ℕ)
      → HasBlocks f.kind w.objects w.mem bs
      → Takes bs (create f env init w name cell attr)
  unfolding create
  create-Takes env init w name cell attr bs v =
      let h : ℕ = elim cell [ none ↦ 0 | some h ↦ h ] in
      err-case (Takes bs) _ (create_found f env init w attr (w.objects.class f.kind))
        (λ e. (e, h, w)) (create_found-Takes env init w attr bs v) (λ e n. inr (n, v))
