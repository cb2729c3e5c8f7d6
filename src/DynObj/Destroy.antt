-- ===== src/DynObj/Destroy.antt =====
-- Destruction of a dynamic object gives its block back when it succeeds, and leaves it taken, with
-- the handle in its place, when it fails.
use rk.Base.{
  ℕ, ◌≡◌, ◌≢◌, refl, sym, ap, ◌∙◌, ◌⊎◌, inl, inr, Bool, Option, none, some, List, ◌∷◌, ◌==◌,
  Bool-cases, arith, ==_iff,
}
use mathlib.Core.Path.{subst}
use rk.Base.Memory.{Mem}
use rk.Err.{Err, success, err-case}
use rk.DynObj.Defs.{
  Class, Objects, check_ready, part_slot, resolve_dynamic, generation_bump, invalidate_slot,
  invalidate_resolved, invalidate_found, invalidate,
}
use rk.DynObj.Family.{Family, World, destroy_err, destroy_invalidated, destroy_resolved, destroy}
use rk.DynObj.Laws.{some-eq}
use rk.DynObj.Blocks.{
  HasBlocks, HasTaken, set_class-HasTaken, release_block-HasBlocks, release_block-eq,
}

-- Invalidation leaves the blocks alone.
invalidate_slot-part :
    (c : Class) (obj : ℕ) (m : Option ℕ) → (invalidate_slot c obj m).1.part ≡ c.part
unfolding invalidate_slot generation_bump
invalidate_slot-part c obj none = refl
invalidate_slot-part c obj (some s) = ground arith

invalidate_resolved-part : (c : Class) (r : Err × ℕ) → (invalidate_resolved c r).1.part ≡ c.part
unfolding invalidate_resolved
invalidate_resolved-part c (success, obj) =
    invalidate_slot-part c obj (part_slot c.part obj c.obj_size)
invalidate_resolved-part c (e, obj) = refl

invalidate_found-HasTaken :
    (o : Objects) (isr : Bool) (ids : ℕ → ℕ) (kind h : ℕ) (d : Option Class) (m : Mem) (b : ℕ)
    (bs : List ℕ)
    → o.class kind ≡ d
    → HasTaken kind o m b bs
    → HasTaken kind (invalidate_found o isr ids kind h d).1 m b bs
unfolding invalidate_found
invalidate_found-HasTaken o isr ids kind h none m b bs e v = v
invalidate_found-HasTaken o isr ids kind h (some c) m b bs e v =
    let r = resolve_dynamic o isr ids kind h in
    set_class-HasTaken kind o m b bs (invalidate_resolved c r).1 v
      (invalidate_resolved-part c r ∙ ap (λ x. x.part) (some-eq c v.class (sym e ∙ v.found)))

invalidate-HasTaken :
    (o : Objects) (isr : Bool) (ids : ℕ → ℕ) (kind h : ℕ) (m : Mem) (b : ℕ) (bs : List ℕ)
    → HasTaken kind o m b bs
    → HasTaken kind (invalidate o isr ids kind h).1 m b bs
unfolding invalidate
invalidate-HasTaken o isr ids kind h m b bs v = elim (Bool-cases (h == 0)) [
  | inl a ↦ rw a v
  | inr a ↦ rw a (invalidate_found-HasTaken o isr ids kind h (o.class kind) m b bs refl v)
]

module _ (f : Family) where
  -- how the destruction of the object at `b` ends, where `bs` are free
  abbrev pub Frees : ℕ → ℕ → List ℕ → Err × ℕ × World → Type 0
  Frees h b bs (e, cell, w) =
      ((e ≡ success) × (cell ≡ 0) × HasBlocks f.kind w.objects w.mem (b ∷ bs))
      ⊎ ((e ≢ success) × (cell ≡ h) × HasTaken f.kind w.objects w.mem b bs)

  destroy_invalidated-Frees :
      (w : World) (h b : ℕ) (bs : List ℕ) (r : Err × Objects)
      → HasTaken f.kind r.1 w.mem b bs
      → Frees h b bs (destroy_invalidated f w h b r)
  unfolding destroy_invalidated
  destroy_invalidated-Frees w h b bs (success, o) v =
      let w' : World = record w { objects = o } in
      let e = release_block-eq f w' b bs v in
      inl (
        ap (λ x. x.0) e,
        ap (λ x. elim x.0 as (λ y. ℕ) [ success ↦ 0 | _ ↦ h ]) e,
        release_block-HasBlocks f w' b bs v,
      )
  destroy_invalidated-Frees w h b bs (e, o) v = inr (λ p. cc p, refl, v)

  destroy_resolved-Frees :
      (w : World) (h b : ℕ) (bs : List ℕ)
      → HasTaken f.kind w.objects w.mem b bs
      → Frees h b bs (destroy_resolved f w h (success, b))
  unfolding destroy_resolved
  destroy_resolved-Frees w h b bs v =
      let k = w.kernel in
      let ids = λ (x : ℕ). (f.header k x).obj_id in
      let r = invalidate w.objects k.in_isr ids f.kind h in
      err-case (Frees h b bs) (destroy_err f k b) (destroy_invalidated f w h b r) (λ e. (e, h, w))
        (destroy_invalidated-Frees w h b bs r
          (invalidate-HasTaken w.objects k.in_isr ids f.kind h w.mem b bs v))
        (λ e n. inr (n, refl, v))

  -- The destruction of the dynamic object that a handle resolves to, in a pool that every
  -- domain may use and whose free list is in order without the object's block: one that
  -- succeeds clears the handle's place and makes the block the first free one; one that fails
  -- keeps the handle in its place and the block taken.
  pub destroy-Frees :
      (w : World) (h b : ℕ) (bs : List ℕ)
      → resolve_dynamic w.objects w.kernel.in_isr (λ x. (f.header w.kernel x).obj_id) f.kind h
        ≡ (success, b)
      → HasTaken f.kind w.objects w.mem b bs
      → Frees h b bs (destroy f w h)
  unfolding destroy
  destroy-Frees w h b bs q v = elim (Bool-cases (h == 0)) [
    | inl a ↦ rw a (inr (λ p. cc p, sym ((==_iff h 0).0 a), v))
    | inr a ↦ rw a (
        err-case (Frees h b bs) (check_ready w.objects w.kernel.in_isr)
          (destroy_resolved f w h (
            resolve_dynamic w.objects w.kernel.in_isr (λ x. (f.header w.kernel x).obj_id) f.kind h))
          (λ e. (e, h, w))
          (subst (λ r. Frees h b bs (destroy_resolved f w h r)) (sym q)
            (destroy_resolved-Frees w h b bs v))
          (λ e n. inr (n, refl, v)))
  ]
