-- ===== src/Mutex/Release.antt =====
-- Giving a mutex back, and what kMutexLock and kMutexUnlock do to ownership.
use rk.Base.{
  ℕ, ◌≡◌, ◌≢◌, refl, sym, ap, ◌∙◌, inl, inr, false, Option, none, some, List, [], ◌∷◌, ◌==◌,
  Bool-cases, arith, ==_iff, if◌then◌else◌,
}
use mathlib.Core.Path.{subst}
use rk.Base.Distinct.{NotIn, Distinct}
use rk.Kernel.{Kernel}
use rk.Sched.Queue.{remove_tid}
use rk.Mutex.Defs.{is_owner, disown, set_mutex}
use rk.Mutex.Owner.{has, is_some, OwnersAgree, Released, NotIn-has, neq}

has-remove : (b a : ℕ) (xs : List ℕ) → b ≢ a → has b (remove_tid xs a) ≡ has b xs
unfolding remove_tid
has-remove b a [] n = refl
has-remove b a (x ∷ xs) n = elim (Bool-cases (x == a)) [
  | inl e ↦ rw e (ground (arith, e, n))
  | inr e ↦ rw e (ground (arith, has-remove b a xs n))
]

NotIn-remove : (b a : ℕ) (xs : List ℕ) → NotIn b xs → NotIn b (remove_tid xs a)
unfolding remove_tid
NotIn-remove b a [] h = tt
NotIn-remove b a (x ∷ xs) h = elim (Bool-cases (x == a)) [
  | inl e ↦ rw e h.1
  | inr e ↦ rw e (h.0, NotIn-remove b a xs h.1)
]

remove-Distinct : (a : ℕ) (xs : List ℕ) → Distinct xs → Distinct (remove_tid xs a)
unfolding remove_tid
remove-Distinct a [] d = tt
remove-Distinct a (x ∷ xs) d = elim (Bool-cases (x == a)) [
  | inl e ↦ rw e d.1
  | inr e ↦ rw e (NotIn-remove x a xs d.0, remove-Distinct a xs d.1)
]

removed : (a : ℕ) (xs : List ℕ) → Distinct xs → has a (remove_tid xs a) ≡ false
unfolding remove_tid
removed a [] d = refl
removed a (x ∷ xs) d = elim (Bool-cases (x == a)) [
  | inl e ↦ rw e (NotIn-has a xs (subst (λ y. NotIn y xs) ((==_iff x a).0 e) d.0))
  | inr e ↦ rw e (ground (arith, e, removed a xs d.1))
]

module _ (k : Kernel) (r a : ℕ) (h : OwnersAgree k) where
  disown-owned :
      (u : ℕ)
      → ((disown k r a).tasks u).owned_mutexes
        ≡ (if u == r then remove_tid (k.tasks r).owned_mutexes a else (k.tasks u).owned_mutexes)
  unfolding disown
  disown-owned u = ground arith

  disown-agree :
      (u b : ℕ)
      → b ≢ a
      → has b (if u == r then remove_tid (k.tasks r).owned_mutexes a else (k.tasks u).owned_mutexes)
        ≡ is_owner (k.mutexes b).owner u
  disown-agree u b n = elim (Bool-cases (u == r)) [
    | inl e ↦ rw e (
        has-remove b a (k.tasks r).owned_mutexes n
        ∙ ap (λ i. has b (k.tasks i).owned_mutexes) (sym ((==_iff u r).0 e))
        ∙ h.agree u b)
    | inr e ↦ rw e (h.agree u b)
  ]

  other_task : (u : ℕ) → (u == r) ≡ false → is_owner (some r) u ≡ false
  unfolding is_owner
  other_task u e = ground (arith, e)

  disown-free :
      (u : ℕ)
      → (k.mutexes a).owner ≡ some r
      → has a (if u == r then remove_tid (k.tasks r).owned_mutexes a else (k.tasks u).owned_mutexes)
        ≡ false
  disown-free u o = elim (Bool-cases (u == r)) [
    | inl e ↦ rw e (removed a (k.tasks r).owned_mutexes (h.distinct r))
    | inr e ↦ rw e (h.agree u a ∙ ap (λ x. is_owner x u) o ∙ other_task u e)
  ]

  disown-Distinct :
      (u : ℕ)
      → Distinct
          (if u == r then remove_tid (k.tasks r).owned_mutexes a else (k.tasks u).owned_mutexes)
  disown-Distinct u = elim (Bool-cases (u == r)) [
    | inl e ↦ rw e (remove-Distinct a (k.tasks r).owned_mutexes (h.distinct r))
    | inr e ↦ rw e (h.distinct u)
  ]

  -- the owner's list loses the mutex
  pub disown-Released : (k.mutexes a).owner ≡ some r → Released (disown k r a) a
  unfolding disown
  disown-Released o = record {
    agree = λ u b n. ap (has b) (disown-owned u) ∙ disown-agree u b n;
    free = λ u. ap (has a) (disown-owned u) ∙ disown-free u o;
    locked = λ b n. h.locked b;
    distinct = λ u. subst Distinct (sym (disown-owned u)) (disown-Distinct u);
  }

  no_owner : (o : Option ℕ) → false ≡ is_some o → (u : ℕ) → is_owner o u ≡ false
  unfolding is_owner
  no_owner none e u = refl
  no_owner (some x) e u = ground (arith, e)

  -- a mutex that is not locked is in no list
  pub unlocked-Released : (k.mutexes a).lock ≡ false → Released k a
  unlocked-Released l = record {
    agree = λ u b n. h.agree u b;
    free = λ u. h.agree u a ∙ no_owner (k.mutexes a).owner (sym l ∙ h.locked a) u;
    locked = λ b n. h.locked b;
    distinct = h.distinct;
  }

-- a mutex in no list becomes free
pub freed-OwnersAgree :
    (k : Kernel) (a : ℕ)
    → Released k a
    → OwnersAgree (set_mutex k a (record (k.mutexes a) { lock = false; owner = none }))
unfolding is_owner
freed-OwnersAgree k a h = record {
  agree = λ u b. elim (Bool-cases (b == a)) [
    | inl e ↦ rw e (ap (λ i. has i (k.tasks u).owned_mutexes) ((==_iff b a).0 e) ∙ h.free u)
    | inr e ↦ rw e (h.agree u b (neq b a e))
  ];
  locked =
      λ b. elim (Bool-cases (b == a)) [ inl e ↦ rw e refl | inr e ↦ rw e (h.locked b (neq b a e)) ];
  distinct = h.distinct;
}
