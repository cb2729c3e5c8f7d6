-- ===== src/DynObj/Sound.antt =====
-- Publication and invalidation keep the registry in order.
use rk.Base.{
  ℕ, ◌≡◌, refl, sym, ap, ◌∙◌, inl, inr, Bool, Option, none, some, ◌==◌, leb, Bool-cases, arith,
  ==_iff,
}
use mathlib.Core.Path.{subst}
use rk.Err.{Err, success, err-case}
use rk.DynObj.Defs.{
  Class, Objects, set_class, check_ready, part_slot, generation_bump, publish_slot, publish_class,
  publish_found, publish, resolve_dynamic, invalidate_slot, invalidate_resolved, invalidate_found,
  invalidate,
}
use rk.DynObj.Laws.{IsSound, registered, some-eq}

-- every family is sound
abbrev pub AllSound : Objects → Type 0
AllSound o = (kind : ℕ) (c : Class) → o.class kind ≡ some c → IsSound c

set_class-AllSound :
    (o : Objects) (kind : ℕ) (c : Class) → AllSound o → IsSound c → AllSound (set_class o kind c)
set_class-AllSound o kind c h s k d e = elim (Bool-cases (k == kind)) [
  | inl b ↦ subst IsSound (some-eq c d (rw b at e)) s
  | inr b ↦ h k d (rw b at e)
]

registered-IsSound :
    (c : Class) (s obj : ℕ)
    → IsSound c
    → part_slot c.part obj c.obj_size ≡ some s
    → IsSound (registered c s obj)
registered-IsSound c s obj w p = record {
  slots = w.slots;
  blocks = w.blocks;
  generations = w.generations;
  indexed = λ t n. elim (Bool-cases (t == s)) [
    | inl b ↦ rw b (p ∙ ap (λ x. some x) (sym ((==_iff t s).0 b)))
    | inr b ↦ rw b (w.indexed t (rw b at n))
  ];
}

dropped_registry : (c : Class) (s : ℕ) → IsSound c → IsSound (registered c s 0)
dropped_registry c s w = record {
  slots = w.slots;
  blocks = w.blocks;
  generations = w.generations;
  indexed = λ t n. elim (Bool-cases (t == s)) [
    | inl b ↦ absurd ((rw b at n) refl)
    | inr b ↦ rw b (w.indexed t (rw b at n))
  ];
}

bump-IsSound : (c : Class) (s : ℕ) → IsSound c → IsSound (generation_bump c s)
unfolding generation_bump
bump-IsSound c s w = elim (Bool-cases (leb c.max_objects s)) [
  | inl b ↦ rw b w
  | inr b ↦ rw b (record {
    slots = w.slots;
    blocks = w.blocks;
    generations = λ t. ground (arith, w.generations t);
    indexed = w.indexed;
  })
]

publish_slot-IsSound :
    (c : Class) (kind obj : ℕ) (m : Option ℕ)
    → IsSound c
    → part_slot c.part obj c.obj_size ≡ m
    → IsSound (publish_slot c kind obj m).2
unfolding publish_slot
publish_slot-IsSound c kind obj none w p = w
publish_slot-IsSound c kind obj (some s) w p = elim (Bool-cases (c.registry s == 0)) [
  | inl b ↦ rw b (registered-IsSound c s obj w p)
  | inr b ↦ rw b w
]

publish_class-IsSound :
    (ids : ℕ → ℕ) (kind obj : ℕ) (c : Class) → IsSound c → IsSound (publish_class ids kind obj c).2
unfolding publish_class
publish_class-IsSound ids kind obj c w = elim (Bool-cases (ids obj == c.obj_id)) [
  | inl b ↦ rw b (publish_slot-IsSound c kind obj (part_slot c.part obj c.obj_size) w refl)
  | inr b ↦ rw b w
]

publish_found-AllSound :
    (o : Objects) (ids : ℕ → ℕ) (kind obj : ℕ) (m : Option Class)
    → AllSound o
    → o.class kind ≡ m
    → AllSound (publish_found o ids kind obj m).2
unfolding publish_found
publish_found-AllSound o ids kind obj none h e = h
publish_found-AllSound o ids kind obj (some c) h e =
    set_class-AllSound o kind (publish_class ids kind obj c).2 h
      (publish_class-IsSound ids kind obj c (h kind c e))

invalidate_slot-IsSound :
    (c : Class) (obj : ℕ) (m : Option ℕ) → IsSound c → IsSound (invalidate_slot c obj m).1
unfolding invalidate_slot
invalidate_slot-IsSound c obj none w = w
invalidate_slot-IsSound c obj (some s) w = elim (Bool-cases (c.registry s == obj)) [
  | inl b ↦ rw b (bump-IsSound (registered c s 0) s (dropped_registry c s w))
  | inr b ↦ rw b w
]

invalidate_resolved-IsSound :
    (c : Class) (r : Err × ℕ) → IsSound c → IsSound (invalidate_resolved c r).1
unfolding invalidate_resolved
invalidate_resolved-IsSound c (success, obj) w =
    invalidate_slot-IsSound c obj (part_slot c.part obj c.obj_size) w
invalidate_resolved-IsSound c (e, obj) w = w

invalidate_found-AllSound :
    (o : Objects) (isr : Bool) (ids : ℕ → ℕ) (kind h : ℕ) (m : Option Class)
    → AllSound o
    → o.class kind ≡ m
    → AllSound (invalidate_found o isr ids kind h m).1
unfolding invalidate_found
invalidate_found-AllSound o isr ids kind h none a e = a
invalidate_found-AllSound o isr ids kind h (some c) a e =
    let r = resolve_dynamic o isr ids kind h in
    set_class-AllSound o kind (invalidate_resolved c r).1 a
      (invalidate_resolved-IsSound c r (a kind c e))

publish-AllSound :
    (o : Objects) (isr : Bool) (ids : ℕ → ℕ) (kind obj : ℕ)
    → AllSound o
    → AllSound (publish o isr ids kind obj).2
unfolding publish
publish-AllSound o isr ids kind obj h = elim (Bool-cases (obj == 0)) [
  | inl a ↦ rw a h
  | inr a ↦ rw a (
      err-case (λ r. AllSound r.2) (check_ready o isr) (publish_found o ids kind obj (o.class kind))
        (λ e. (e, 0, o)) (publish_found-AllSound o ids kind obj (o.class kind) h refl) (λ e n. h))
]

invalidate-AllSound :
    (o : Objects) (isr : Bool) (ids : ℕ → ℕ) (kind h : ℕ)
    → AllSound o
    → AllSound (invalidate o isr ids kind h).1
unfolding invalidate
invalidate-AllSound o isr ids kind h a = elim (Bool-cases (h == 0)) [
  | inl b ↦ rw b a
  | inr b ↦ rw b (invalidate_found-AllSound o isr ids kind h (o.class kind) a refl)
]

-- kDynObjPublishHandle and kDynObjInvalidateHandle, whatever their outcome, keep every
-- family sound: slots and generations fit the handle, and a registered object stands at the
-- slot of its block.
pub registry-AllSound :
    (o : Objects) (isr : Bool) (ids : ℕ → ℕ) (kind obj h : ℕ)
    → AllSound o
    → AllSound (publish o isr ids kind obj).2 × AllSound (invalidate o isr ids kind h).1
registry-AllSound o isr ids kind obj h a =
    (publish-AllSound o isr ids kind obj a, invalidate-AllSound o isr ids kind h a)
