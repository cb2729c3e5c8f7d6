-- ===== src/Mutex/Owner.antt =====
-- Who owns which mutex: the owner fields and the tasks' lists of mutexes tell the same.
use rk.Base.{
  ℕ, ◌≡◌, ◌≢◌, refl, sym, ap, ◌∙◌, inl, inr, Bool, true, false, ◌||◌, Option, none, some, List, [],
  ◌∷◌, ◌++◌, ◌==◌, Bool-cases, arith, ==_iff, if◌then◌else◌,
}
use mathlib.Core.Path.{subst}
use rk.Base.Distinct.{NotIn, Distinct, Distinct-insert}
use rk.Kernel.{Kernel}
use rk.Sched.Same.{SameChain}
use rk.Sched.Frame.{Frame}
use rk.Mutex.Defs.{is_owner, acquire}

abbrev pub has : ℕ → List ℕ → Bool
has a [] = false
has a (x ∷ xs) = (x == a) || has a xs

abbrev pub is_some : Option ℕ → Bool
is_some none = false
is_some (some t) = true

-- The lists of mutexes and the owner fields agree, a mutex is locked when it has an owner, and
-- no list has a mutex twice.
pub record OwnersAgree (k : Kernel) : Type 0 where
  pub agree : (t a : ℕ) → has a (k.tasks t).owned_mutexes ≡ is_owner (k.mutexes a).owner t
  pub locked : (a : ℕ) → (k.mutexes a).lock ≡ is_some (k.mutexes a).owner
  pub distinct : (t : ℕ) → Distinct (k.tasks t).owned_mutexes

-- the same but for mutex `a`, which no task has in its list
pub record Released (k : Kernel) (a : ℕ) : Type 0 where
  pub agree : (t b : ℕ) → b ≢ a → has b (k.tasks t).owned_mutexes ≡ is_owner (k.mutexes b).owner t
  pub free : (t : ℕ) → has a (k.tasks t).owned_mutexes ≡ false
  pub locked : (b : ℕ) → b ≢ a → (k.mutexes b).lock ≡ is_some (k.mutexes b).owner
  pub distinct : (t : ℕ) → Distinct (k.tasks t).owned_mutexes

-- what ownership reads, unchanged
pub record SameOwners (k k' : Kernel) : Type 0 where
  pub owner : (a : ℕ) → (k'.mutexes a).owner ≡ (k.mutexes a).owner
  pub lock : (a : ℕ) → (k'.mutexes a).lock ≡ (k.mutexes a).lock
  pub owned : (t : ℕ) → (k'.tasks t).owned_mutexes ≡ (k.tasks t).owned_mutexes

pub SameOwners-trans : {k k' k'' : Kernel} → SameOwners k k' → SameOwners k' k'' → SameOwners k k''
SameOwners-trans f g = record {
  owner = λ a. g.owner a ∙ f.owner a;
  lock = λ a. g.lock a ∙ f.lock a;
  owned = λ t. g.owned t ∙ f.owned t;
}

pub SameOwners-chain : {k k' : Kernel} → SameChain k k' → SameOwners k k'
SameOwners-chain s = record { owner = s.owner; lock = s.locked; owned = s.owned }

pub SameOwners-Frame : {k k' : Kernel} → Frame k k' → SameOwners k k'
SameOwners-Frame f = record {
  owner = λ a. ap (λ m. (m a).owner) f.mutexes;
  lock = λ a. ap (λ m. (m a).lock) f.mutexes;
  owned = f.owned;
}

pub OwnersAgree-same : {k k' : Kernel} → SameOwners k k' → OwnersAgree k → OwnersAgree k'
OwnersAgree-same s h = record {
  agree = λ t a. ap (has a) (s.owned t) ∙ h.agree t a ∙ ap (λ o. is_owner o t) (sym (s.owner a));
  locked = λ a. s.lock a ∙ h.locked a ∙ ap is_some (sym (s.owner a));
  distinct = λ t. subst Distinct (sym (s.owned t)) (h.distinct t);
}

pub Released-same : {k k' : Kernel} {a : ℕ} → SameOwners k k' → Released k a → Released k' a
Released-same {a = a} s h = record {
  agree =
      λ t b n. ap (has b) (s.owned t) ∙ h.agree t b n ∙ ap (λ o. is_owner o t) (sym (s.owner b));
  free = λ t. ap (has a) (s.owned t) ∙ h.free t;
  locked = λ b n. s.lock b ∙ h.locked b n ∙ ap is_some (sym (s.owner b));
  distinct = λ t. subst Distinct (sym (s.owned t)) (h.distinct t);
}

has-append : (b a : ℕ) (xs : List ℕ) → has b (xs ++ a ∷ []) ≡ (has b xs || (a == b))
has-append b a [] = ground arith
has-append b a (x ∷ xs) = ground (arith, has-append b a xs)

pub has-NotIn : (a : ℕ) (xs : List ℕ) → has a xs ≡ false → NotIn a xs
has-NotIn a [] h = tt
has-NotIn a (x ∷ xs) h = (ground (arith, h), has-NotIn a xs (ground (arith, h)))

pub NotIn-has : (a : ℕ) (xs : List ℕ) → NotIn a xs → has a xs ≡ false
NotIn-has a [] h = refl
NotIn-has a (x ∷ xs) h = ground (arith, h.0, NotIn-has a xs h.1)

append-nil : (xs : List ℕ) → xs ++ [] ≡ xs
append-nil [] = refl
append-nil (x ∷ xs) = ap (λ ys. x ∷ ys) (append-nil xs)

Distinct-snoc : (a : ℕ) (xs : List ℕ) → NotIn a xs → Distinct xs → Distinct (xs ++ a ∷ [])
Distinct-snoc a xs h d =
    Distinct-insert xs [] a (subst (NotIn a) (sym (append-nil xs)) h)
      (subst Distinct (sym (append-nil xs)) d)

pub neq : (b a : ℕ) → (b == a) ≡ false → b ≢ a
neq b a e z = ground (arith, e, z)

module _ (k : Kernel) (t a : ℕ) where
  abbrev mine : List ℕ
  mine = (k.tasks t).owned_mutexes

  acquire-owned :
      (u : ℕ)
      → ((acquire k t a).tasks u).owned_mutexes
        ≡ (if u == t then mine ++ a ∷ [] else (k.tasks u).owned_mutexes)
  unfolding acquire
  acquire-owned u = ground arith

  acquire-owner :
      (b : ℕ) → ((acquire k t a).mutexes b).owner ≡ (if b == a then some t else (k.mutexes b).owner)
  unfolding acquire
  acquire-owner b = ground arith

  acquire-lock :
      (b : ℕ) → ((acquire k t a).mutexes b).lock ≡ (if b == a then true else (k.mutexes b).lock)
  unfolding acquire
  acquire-lock b = ground arith

  module _ (h : Released k a) where
    kept : (u b : ℕ) → u ≡ t → b ≢ a → has b mine ≡ is_owner (k.mutexes b).owner u
    kept u b e n = ap (λ i. has b (k.tasks i).owned_mutexes) (sym e) ∙ h.agree u b n

    taken : (u b : ℕ) → b ≡ a → has b (k.tasks u).owned_mutexes ≡ false
    taken u b e = ap (λ i. has i (k.tasks u).owned_mutexes) e ∙ h.free u

    lock-agree :
        (b : ℕ)
        → (if b == a then true else (k.mutexes b).lock)
          ≡ is_some (if b == a then some t else (k.mutexes b).owner)
    lock-agree b = elim (Bool-cases (b == a)) [
      | inl f ↦ rw f refl
      | inr f ↦ rw f (h.locked b (neq b a f))
    ]

    acquire-agree :
        (u b : ℕ)
        → has b (if u == t then mine ++ a ∷ [] else (k.tasks u).owned_mutexes)
          ≡ is_owner (if b == a then some t else (k.mutexes b).owner) u
    unfolding is_owner
    acquire-agree u b = elim (Bool-cases (u == t)) [
      | inl e ↦ elim (Bool-cases (b == a)) [
        | inl f ↦ rw (e, f) (has-append b a mine ∙ ground (arith, e, f))
        | inr f ↦
            rw (e, f)
              (has-append b a mine ∙ ground (arith, f, kept u b ((==_iff u t).0 e) (neq b a f)))
      ]
      | inr e ↦ elim (Bool-cases (b == a)) [
        | inl f ↦ rw (e, f) (ground (arith, e, taken u b ((==_iff b a).0 f)))
        | inr f ↦ rw (e, f) (h.agree u b (neq b a f))
      ]
    ]

    -- Task `t` takes a mutex that is in no list.
    pub acquire-OwnersAgree : OwnersAgree (acquire k t a)
    acquire-OwnersAgree = record {
      agree = λ u b.
          ap (has b) (acquire-owned u)
          ∙ acquire-agree u b
          ∙ ap (λ o. is_owner o u) (sym (acquire-owner b));
      locked = λ b. acquire-lock b ∙ lock-agree b ∙ ap is_some (sym (acquire-owner b));
      distinct = λ u. subst Distinct (sym (acquire-owned u)) (elim (Bool-cases (u == t)) [
        | inl e ↦ rw e (Distinct-snoc a mine (has-NotIn a mine (h.free t)) (h.distinct t))
        | inr e ↦ rw e (h.distinct u)
      ]);
    }
