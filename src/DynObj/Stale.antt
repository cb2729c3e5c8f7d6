-- ===== src/DynObj/Stale.antt =====
-- What kDynObjInvalidateHandle leaves: the handle is refused, also after its slot is used again.
use rk.Base.{
  ℕ, ◌<◌, ◌≡◌, ◌≢◌, refl, sym, ap, ◌∙◌, inl, inr, Bool, true, false, Option, none, some, ◌==◌,
  Bool-cases, arith, ==_iff,
}
use mathlib.Core.Path.{subst}
use rk.Err.{Err, success, invalid_obj}
use rk.Kernel.{update, update-same}
use rk.DynObj.Defs.{
  Class, Objects, set_class, check_ready, part_slot, next_generation, generation_bump, is_encoded,
  decode, resolve_decoded, publish, resolve_class, resolve_found, resolve, resolve_dynamic_class,
  resolve_dynamic_found, resolve_dynamic, invalidate_slot, invalidate_resolved, invalidate_found,
  invalidate,
}
use rk.DynObj.Laws.{IsSound, registered, some-eq, publish-Published}

-- the family after slot `s` was given up
abbrev pub dropped : Class → ℕ → Class
dropped c s = record c {
  registry = update c.registry s 0;
  generation = update c.generation s (next_generation (c.generation s));
}

next_generation_lt : (g : ℕ) → next_generation g < 65536
unfolding next_generation
next_generation_lt g = ground arith

next_generation-ne : (g : ℕ) → g < 65536 → next_generation g ≢ g
unfolding next_generation
next_generation-ne g h e = ground (arith, h, e)

bump-dropped :
    (c : Class) (s : ℕ) → s < c.max_objects → generation_bump (registered c s 0) s ≡ dropped c s
unfolding generation_bump
bump-dropped c s l = ground (arith, l)

invalidate_slot-some :
    (c : Class) (obj : ℕ) (m : Option ℕ) (c' : Class)
    → invalidate_slot c obj m ≡ (success, c')
    → (s : ℕ) × (m ≡ some s) × (c.registry s ≡ obj) × (c' ≡ generation_bump (registered c s 0) s)
unfolding invalidate_slot
invalidate_slot-some c obj none c' e = ground (arith, e)
invalidate_slot-some c obj (some s) c' e = elim (Bool-cases (c.registry s == obj)) [
  | inl b ↦ (s, refl, (==_iff (c.registry s) obj).0 b, sym (ap (λ r. r.1) (rw b at e)))
  | inr b ↦ ground (arith, b, e)
]

invalidate_resolved-some :
    (c : Class) (r : Err × ℕ) (c' : Class)
    → invalidate_resolved c r ≡ (success, c')
    → (r ≡ (success, r.1))
      × (invalidate_slot c r.1 (part_slot c.part r.1 c.obj_size) ≡ (success, c'))
unfolding invalidate_resolved
invalidate_resolved-some c (success, obj) c' e = (refl, e)
invalidate_resolved-some c (x, obj) c' e = absurd (ground (arith, e))

-- what an invalidation that succeeds found and did
pub record Invalidated (o : Objects) (isr : Bool) (ids : ℕ → ℕ) (kind h : ℕ) (o' : Objects)
    : Type 0 where
  pub class : Class
  pub slot : ℕ
  pub object : ℕ
  pub found : o.class kind ≡ some class
  pub resolved : resolve_dynamic o isr ids kind h ≡ (success, object)
  pub at_slot : part_slot class.part object class.obj_size ≡ some slot
  pub held : class.registry slot ≡ object
  pub stored : o' ≡ set_class o kind (generation_bump (registered class slot 0) slot)

invalidate_found-Invalidated :
    (o : Objects) (isr : Bool) (ids : ℕ → ℕ) (kind h : ℕ) (m : Option Class) (o' : Objects)
    → o.class kind ≡ m
    → invalidate_found o isr ids kind h m ≡ (success, o')
    → Invalidated o isr ids kind h o'
unfolding invalidate_found
invalidate_found-Invalidated o isr ids kind h none o' f e = absurd (ground (arith, e))
invalidate_found-Invalidated o isr ids kind h (some c) o' f e =
    let r = resolve_dynamic o isr ids kind h in
    let t = invalidate_resolved c r in
    let (p, q) = invalidate_resolved-some c r t.1 (λ i. ((e i).0, t.1)) in
    let (s, a, b, d) = invalidate_slot-some c r.1 (part_slot c.part r.1 c.obj_size) t.1 q in
    record {
      class = c;
      slot = s;
      object = r.1;
      found = f;
      resolved = p;
      at_slot = a;
      held = b;
      stored = sym (ap (λ x. x.1) e) ∙ ap (set_class o kind) d;
    }

pub invalidate-Invalidated :
    (o : Objects) (isr : Bool) (ids : ℕ → ℕ) (kind h : ℕ) (o' : Objects)
    → invalidate o isr ids kind h ≡ (success, o')
    → Invalidated o isr ids kind h o'
unfolding invalidate
invalidate-Invalidated o isr ids kind h o' e =
    invalidate_found-Invalidated o isr ids kind h (o.class kind) o' refl (ground (arith, e))

-- what a resolution at a slot that succeeds found
resolve_decoded-some :
    (c : Class) (ids : ℕ → ℕ) (s g obj : ℕ)
    → resolve_decoded c ids s g ≡ (success, obj)
    → (s < c.max_objects) × (c.generation s ≡ g) × (c.registry s ≡ obj) × (obj ≢ 0)
unfolding resolve_decoded
resolve_decoded-some c ids s g obj e = ground (arith, e)

resolve_dynamic_class-some :
    (c : Class) (ids : ℕ → ℕ) (h obj : ℕ) (m : Option (ℕ × ℕ))
    → is_encoded h ≡ true
    → resolve_dynamic_class c ids h m ≡ (success, obj)
    → (s : ℕ) × (g : ℕ) × (m ≡ some (s, g)) × (resolve_decoded c ids s g ≡ (success, obj))
unfolding resolve_dynamic_class
resolve_dynamic_class-some c ids h obj none i e = absurd (ground (arith, i, e))
resolve_dynamic_class-some c ids h obj (some (s, g)) i e = (s, g, refl, e)

resolve_dynamic-some :
    (o : Objects) (isr : Bool) (ids : ℕ → ℕ) (kind h obj : ℕ)
    → resolve_dynamic o isr ids kind h ≡ (success, obj)
    → resolve_dynamic_found ids kind h (o.class kind) ≡ (success, obj)
unfolding resolve_dynamic check_ready
resolve_dynamic-some o isr ids kind h obj e = ground (arith, e)

decode-same :
    (kind h : ℕ) (c d : Class) → c.max_objects ≡ d.max_objects → decode kind h c ≡ decode kind h d
unfolding decode
decode-same kind h c d e = ground (arith, e)

-- A handle that stands for a slot at another generation is refused.
resolve_decoded-stale :
    (c : Class) (ids : ℕ → ℕ) (s g : ℕ)
    → c.generation s ≢ g
    → resolve_decoded c ids s g ≡ (invalid_obj, 0)
unfolding resolve_decoded
resolve_decoded-stale c ids s g n = ground (arith, n)

-- the handle `h` of `kind` is refused by both resolutions
pub record Refused (o : Objects) (ids : ℕ → ℕ) (kind h : ℕ) : Type 0 where
  pub by_resolve : resolve o ids kind h ≡ (invalid_obj, 0)
  pub by_dynamic : resolve_dynamic_found ids kind h (o.class kind) ≡ (invalid_obj, 0)

class-Refused :
    (o : Objects) (ids : ℕ → ℕ) (kind h s g : ℕ) (c : Class)
    → (h == 0) ≡ false
    → o.class kind ≡ some c
    → decode kind h c ≡ some (s, g)
    → c.generation s ≢ g
    → Refused o ids kind h
unfolding resolve resolve_found resolve_class resolve_dynamic_found resolve_dynamic_class
class-Refused o ids kind h s g c z f d n = record {
  by_resolve = rw (z, f, d) (resolve_decoded-stale c ids s g n);
  by_dynamic = rw (f, d) (resolve_decoded-stale c ids s g n);
}

-- a handle whose slot has moved on to another generation
pub record IsStale (o : Objects) (kind h : ℕ) : Type 0 where
  pub class : Class
  pub slot : ℕ
  pub generation : ℕ
  pub found : o.class kind ≡ some class
  pub decoded : decode kind h class ≡ some (slot, generation)
  pub differs : class.generation slot ≢ generation

encoded-nonzero : (h : ℕ) → is_encoded h ≡ true → (h == 0) ≡ false
unfolding is_encoded
encoded-nonzero h e = ground (arith, e)

IsStale-Refused :
    (o : Objects) (ids : ℕ → ℕ) (kind h : ℕ)
    → is_encoded h ≡ true
    → IsStale o kind h
    → Refused o ids kind h
IsStale-Refused o ids kind h e v =
    class-Refused o ids kind h v.slot v.generation v.class (encoded-nonzero h e) v.found v.decoded
      v.differs

-- the slot that an encoded handle names is the slot of the object that it resolves to
handle_slot :
    (c : Class) (ids : ℕ → ℕ) (s g obj t : ℕ)
    → IsSound c
    → resolve_decoded c ids s g ≡ (success, obj)
    → part_slot c.part obj c.obj_size ≡ some t
    → s ≡ t
handle_slot c ids s g obj t v e p =
    let (l, w, q, n) = resolve_decoded-some c ids s g obj e in
    let i = v.indexed s (λ z. n (sym q ∙ z)) in
    some-inj s t (sym i ∙ ap (λ b. part_slot c.part b c.obj_size) q ∙ p)
  where
    some-inj : (x y : ℕ) → some x ≡ some y → x ≡ y
    some-inj x y p = ground (arith, p)

invalidate-IsStale :
    (o : Objects) (isr : Bool) (ids : ℕ → ℕ) (kind h : ℕ) (o' : Objects) (c : Class)
    → o.class kind ≡ some c
    → IsSound c
    → is_encoded h ≡ true
    → Invalidated o isr ids kind h o'
    → IsStale o' kind h
unfolding resolve_dynamic_found
invalidate-IsStale o isr ids kind h o' c f w i v =
    let e = resolve_dynamic-some o isr ids kind h v.object v.resolved in
    let q = sym (ap (λ m. resolve_dynamic_found ids kind h m) f) ∙ e in
    let (s, g, d, r) = resolve_dynamic_class-some c ids h v.object (decode kind h c) i q in
    let k = some-eq v.class c (sym v.found ∙ f) in
    let at : part_slot c.part v.object c.obj_size ≡ some v.slot =
      subst (λ x. part_slot x.part v.object x.obj_size ≡ some v.slot) k v.at_slot in
    let t = handle_slot c ids s g v.object v.slot w r at in
    let l = resolve_decoded-some c ids s g v.object r in
    let z : o' ≡ set_class o kind (dropped c s) =
      v.stored
      ∙ ap (λ x. set_class o kind (generation_bump (registered x v.slot 0) v.slot)) k
      ∙ ap (λ x. set_class o kind (generation_bump (registered c x 0) x)) (sym t)
      ∙ ap (set_class o kind) (bump-dropped c s l.0) in
    record {
      class = dropped c s;
      slot = s;
      generation = g;
      found = ap (λ x. x.class kind) z ∙ update-same o.class kind (some (dropped c s));
      decoded = decode-same kind h (dropped c s) c refl ∙ d;
      differs = λ u.
          next_generation-ne (c.generation s) (w.generations s)
            (sym (update-same c.generation s (next_generation (c.generation s))) ∙ u ∙ sym l.1);
    }

-- A publication does not bring a handle back.
publish-IsStale :
    (o : Objects) (isr : Bool) (ids : ℕ → ℕ) (kind obj h' : ℕ) (o' : Objects) (h : ℕ)
    → IsStale o kind h
    → publish o isr ids kind obj ≡ (success, h', o')
    → IsStale o' kind h
publish-IsStale o isr ids kind obj h' o' h v e =
    let p = publish-Published o isr ids kind obj h' o' e in
    let k = some-eq p.class v.class (sym p.found ∙ v.found) in
    let c = registered v.class p.slot obj in
    let z : o' ≡ set_class o kind c =
      p.stored ∙ ap (λ x. set_class o kind (registered x p.slot obj)) k in
    record {
      class = c;
      slot = v.slot;
      generation = v.generation;
      found = ap (λ x. x.class kind) z ∙ update-same o.class kind (some c);
      decoded = decode-same kind h c v.class refl ∙ v.decoded;
      differs = v.differs;
    }

-- An encoded handle that kDynObjInvalidateHandle has invalidated, in a family that is sound,
-- is refused by the resolutions afterwards, and still is after another object of the family
-- was published, in the same slot or another one.
pub invalidate-Refused :
    (o : Objects) (isr : Bool) (ids : ℕ → ℕ) (kind h : ℕ) (o' : Objects) (c : Class) (obj h' : ℕ)
    (o'' : Objects)
    → o.class kind ≡ some c
    → IsSound c
    → is_encoded h ≡ true
    → invalidate o isr ids kind h ≡ (success, o')
    → publish o' isr ids kind obj ≡ (success, h', o'')
    → Refused o' ids kind h × Refused o'' ids kind h
invalidate-Refused o isr ids kind h o' c obj h' o'' f w i e p =
    let v = invalidate-Invalidated o isr ids kind h o' e in
    let s = invalidate-IsStale o isr ids kind h o' c f w i v in
    (
      IsStale-Refused o' ids kind h i s,
      IsStale-Refused o'' ids kind h i (publish-IsStale o' isr ids kind obj h' o'' h s p),
    )
