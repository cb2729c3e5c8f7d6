-- ===== src/Handle/Laws.antt =====
-- Handles of registered tasks resolve, handles that were published before an invalidation do not.
use rk.Base.{
  ℕ, ◌+◌, ◌%◌, ◌<◌, ◌≤◌, ◌≡◌, refl, ap, ◌∙◌, inl, inr, true, false, Option, none, some, ◌==◌,
  Bool-cases, arith, ==_iff, if◌then◌else◌,
}
use rk.Err.{success, invalid_obj}
use rk.Kernel.{update, update-same}
use rk.Handle.Defs.{
  Registry, is_at, encode, decode, from_tcb, resolve_task, resolve_decoded, resolve, register, bump,
  invalidate,
}

-- A task that is in the registry under its own slot, with the slots and the generation in the range
-- of their fields.
pub record IsRegistered (r : Registry) (p : ℕ) : Type 0 where
  pub threads : r.threads ≤ 256
  pub slot : r.tid p < r.threads
  pub here : r.task (r.tid p) ≡ some p
  pub generation : r.generation (r.tid p) < 65536
  pub init : r.init p ≡ true
  pub in_pool : r.in_pool p ≡ true

decode-encode : (n g t : ℕ) → n ≤ 256 → t < n → g < 65536 → decode n (encode g t) ≡ some (t, g)
unfolding decode encode
decode-encode n g t w l h = ground (arith, w, l, h)

encode-nonzero : (g t : ℕ) → (encode g t == 0) ≡ false
unfolding encode
encode-nonzero g t = ground arith

is_at_self : (p : ℕ) (o : Option ℕ) → o ≡ some p → is_at o p ≡ true
unfolding is_at
is_at_self p o e = rw e (ground arith)

from_tcb-encode :
    (r : Registry) (p : ℕ)
    → IsRegistered r p
    → from_tcb r (some p) ≡ encode (r.generation (r.tid p)) (r.tid p)
unfolding from_tcb
from_tcb-encode r p h = rw (is_at_self p _ h.here) (ground (arith, h.slot))

resolve_task_self :
    (r : Registry) (p : ℕ)
    → IsRegistered r p
    → resolve_task r (r.tid p) (some p) ≡ (success, some p)
unfolding resolve_task
resolve_task_self r p h = rw (h.in_pool, h.init) (ground arith)

same-gen : {A : Type 0} (g : ℕ) (x y : A) → (if g == g then x else y) ≡ x
same-gen g x y = ground arith

-- The handle that kTaskHandleFromTcb gives for a task that is registered under its own slot,
-- with the slots and the generation in the range of their fields, initialised and in the
-- pool, resolves to that task.
pub resolve-from_tcb :
    (r : Registry) (p : ℕ) → IsRegistered r p → resolve r (from_tcb r (some p)) ≡ (success, some p)
unfolding resolve resolve_decoded
resolve-from_tcb r p h =
    let t = r.tid p in
    let g = r.generation t in
    rw
      (
        from_tcb-encode r p h,
        encode-nonzero g t,
        decode-encode r.threads g t h.threads h.slot h.generation,
        same-gen g,
        h.here,
      )
      (resolve_task_self r p h)

not_gen : {A : Type 0} (g : ℕ) (x y : A) → g < 65536 → (if g == (g + 1) % 65536 then x else y) ≡ y
not_gen g x y h = ground (arith, h)

-- A handle whose generation is one behind does not resolve.
encode-stale :
    (r : Registry) (g t : ℕ)
    → r.threads ≤ 256
    → t < r.threads
    → g < 65536
    → r.generation t ≡ (g + 1) % 65536
    → resolve r (encode g t) ≡ (invalid_obj, none)
unfolding resolve resolve_decoded
encode-stale r g t w l h e =
    rw
      (
        encode-nonzero g t,
        decode-encode r.threads g t w l h,
        e,
        not_gen g (resolve_task r t (r.task t)) (invalid_obj, none) h,
      )
      refl

-- the registry after the invalidation of a registered task
abbrev without : Registry → ℕ → Registry
without r t = record r {
  task = update r.task t none;
  generation = update r.generation t ((r.generation t + 1) % 65536);
}

invalidate-eq :
    (r : Registry) (p : ℕ) → IsRegistered r p → invalidate r (some p) ≡ without r (r.tid p)
unfolding invalidate bump
invalidate-eq r p h = rw (is_at_self p _ h.here) (ground (arith, h.slot))

register-threads : (r : Registry) (q : ℕ) (t : ℕ) → (register r (some q) t).1.threads ≡ r.threads
unfolding register
register-threads r q t = ground arith

register-generation :
    (r : Registry) (q : ℕ) (t u : ℕ) → (register r (some q) t).1.generation u ≡ r.generation u
unfolding register
register-generation r q t u = ground arith

-- The handle of a task that is registered under its own slot, with the slots and the
-- generation in the range of their fields, initialised and in the pool, is refused as an
-- invalid object once kTaskRegistryInvalidate_ has run, and also after kTaskRegister_ was
-- called with the same slot for any other task.
pub stale_refused :
    (r : Registry) (p q : ℕ)
    → IsRegistered r p
    → let h = from_tcb r (some p) in
      let r' = invalidate r (some p) in
      let r'' = (register r' (some q) (r.tid p)).1 in
      (resolve r' h ≡ (invalid_obj, none)) × (resolve r'' h ≡ (invalid_obj, none))
stale_refused r p q h =
    let t = r.tid p in
    let g = r.generation t in
    let r' = without r t in
    let r'' = (register r' (some q) t).1 in
    let e = register-threads r' q t in
    let s = update-same r.generation t ((g + 1) % 65536) in
    rw (from_tcb-encode r p h, invalidate-eq r p h)
      (
        encode-stale r' g t h.threads h.slot h.generation s,
        encode-stale r'' g t (rw e h.threads) (rw e h.slot) h.generation
            (register-generation r' q t t ∙ s),
      )

decode_sound :
    (n h t g : ℕ) → h < 4294967296 → decode n h ≡ some (t, g) → n ≤ 256 → (t < n) × (encode g t ≡ h)
unfolding decode encode
decode_sound n h t g w e l = ground (arith, w, e, l)

-- What a resolution that succeeds found at slot `t` with generation `g`.
resolve_task_sound :
    (r : Registry) (t p : ℕ) (o : Option ℕ)
    → resolve_task r t o ≡ (success, some p)
    → (o ≡ some p) × (r.tid p ≡ t)
unfolding resolve_task
resolve_task_sound r t p none e = ground (arith, e)
resolve_task_sound r t p (some q) e = ground (arith, e)

resolve_decoded_sound :
    (r : Registry) (p : ℕ) (o : Option (ℕ × ℕ))
    → resolve_decoded r o ≡ (success, some p)
    → (o ≡ some (r.tid p, r.generation (r.tid p))) × (r.task (r.tid p) ≡ some p)
unfolding resolve_decoded
resolve_decoded_sound r p none e = ground (arith, e)
resolve_decoded_sound r p (some (t, g)) e = elim (Bool-cases (g == r.generation t)) [
  | inl b ↦
      let s = resolve_task_sound r t p (r.task t) (rw b at e) in
      (rw s.1 (ap (λ x. some (t, x)) ((==_iff g (r.generation t)).0 b)), rw s.1 s.0)
  | inr b ↦ ground (arith, b, e)
]

-- With at most 256 slots, a word of 32 bits that kTaskHandleResolve resolves to a task is
-- the handle that kTaskHandleFromTcb gives for that task.
pub resolve_sound :
    (r : Registry) (p h : ℕ)
    → r.threads ≤ 256
    → h < 4294967296
    → resolve r h ≡ (success, some p)
    → from_tcb r (some p) ≡ h
unfolding resolve from_tcb
resolve_sound r p h w l e = elim (Bool-cases (h == 0)) [
  | inl b ↦ ground (arith, b, e)
  | inr b ↦
      let s = resolve_decoded_sound r p (decode r.threads h) (rw b at e) in
      let d = decode_sound r.threads h (r.tid p) (r.generation (r.tid p)) l s.0 w in
      rw (is_at_self p _ s.1) (ground (arith, d.0, d.1))
]
