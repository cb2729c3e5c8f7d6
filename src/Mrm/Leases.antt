-- ===== src/Mrm/Leases.antt =====
-- What the lease table counts: the get references of the tasks on each buffer.
use rk.Base.{
  ℕ, zero, suc, ◌+◌, ◌-◌, ◌*◌, ◌≤◌, ◌≡◌, ◌≢◌, refl, ap, ◌∙◌, ◌⊎◌, inl, inr, true, false, Option,
  none, some, List, [], ◌∷◌, ◌==◌, ==_iff, length, get_elem?, set, length-set, Bool-cases, arith,
  if◌then◌else◌,
}
use mathlib.Core.Path.{subst}
use rk.Base.Distinct.{All}
use rk.Err.{success}
use rk.Mrm.Defs.{
  next_index, Lease, holds, lease_find, lease_find_free, lease_slot, clear_if_idle, get_at,
  get_drop_at, reserve_drop_at,
}

-- the references on buffer `b` that a lease, and a table, counts
abbrev pub gets : ℕ → Lease → ℕ
gets b l = if l.buf == b then l.get_count else 0

unfoldable pub total : ℕ → List Lease → ℕ
total b [] = 0
total b (l ∷ ls) = gets b l + total b ls

-- a count fits its 16 bits, and a free lease counts nothing
abbrev pub LeaseOk : Lease → Type 0
LeaseOk l = (l.get_count ≤ 65535) × ((l.mrm ≢ 0) ⊎ (l.get_count ≡ 0))

some-inj {ℓ} : {A : Type ℓ} (x y : A) → some x ≡ some y → x ≡ y
some-inj {A} x y e = ap (λ o. elim o as (λ p. A) [ none ↦ x | some a ↦ a ]) e

pub next_index-some :
    (o : Option ℕ) (i : ℕ) → next_index o ≡ some i → (j : ℕ) × (o ≡ some j) × (suc j ≡ i)
next_index-some none i e = absurd (ground (arith, e))
next_index-some (some j) i e = (j, refl, some-inj (suc j) i e)

pub total-set :
    (b : ℕ) (ls : List Lease) (i : ℕ) (l l' : Lease)
    → get_elem? ls i ≡ some l
    → total b (set ls i l') + gets b l ≡ total b ls + gets b l'
unfolding total
total-set b [] i l l' e = absurd (ground (arith, e))
total-set b (x ∷ xs) zero l l' e = ground (arith, e)
total-set b (x ∷ xs) (suc i) l l' e = omega (arith, total-set b xs i l l' e)

pub All-set :
    (ls : List Lease) (i : ℕ) (l : Lease) → All LeaseOk ls → LeaseOk l → All LeaseOk (set ls i l)
All-set [] i l h k = tt
All-set (x ∷ xs) zero l h k = (k, h.1)
All-set (x ∷ xs) (suc i) l h k = (h.0, All-set xs i l h.1 k)

pub All-get :
    (ls : List Lease) (i : ℕ) (l : Lease) → All LeaseOk ls → get_elem? ls i ≡ some l → LeaseOk l
All-get [] i l h e = absurd (ground (arith, e))
All-get (x ∷ xs) zero l h e = subst LeaseOk (some-inj x l e) h.0
All-get (x ∷ xs) (suc i) l h e = All-get xs i l h.1 e

pub total-le : (b : ℕ) (ls : List Lease) → All LeaseOk ls → total b ls ≤ length ls * 65535
unfolding total
total-le b [] h = omega arith
total-le b (l ∷ ls) h = ground (arith, h.0.0, total-le b ls h.1)

-- the lease at an index, with a property
abbrev pub At : (Lease → Type 0) → List Lease → ℕ → Type 0
At P ls i = (l : Lease) × (get_elem? ls i ≡ some l) × P l

-- the lease that is found
pub lease_find-holds :
    (ls : List Lease) (t a b i : ℕ)
    → lease_find ls t a b ≡ some i
    → At (λ l. holds t a b l ≡ true) ls i
unfolding lease_find
lease_find-holds [] t a b i e = absurd (ground (arith, e))
lease_find-holds (l ∷ ls) t a b i e = elim (Bool-cases (holds t a b l)) [
  | inl c ↦ subst (At (λ x. holds t a b x ≡ true) (l ∷ ls)) (some-inj 0 i (rw c at e)) (l, refl, c)
  | inr c ↦
      let (j, p, q) = next_index-some (lease_find ls t a b) i (rw c at e) in
      subst (At (λ x. holds t a b x ≡ true) (l ∷ ls)) q (lease_find-holds ls t a b j p)
]

lease_find_free-free :
    (ls : List Lease) (i : ℕ) → lease_find_free ls ≡ some i → At (λ l. l.mrm ≡ 0) ls i
unfolding lease_find_free
lease_find_free-free [] i e = absurd (ground (arith, e))
lease_find_free-free (l ∷ ls) i e = elim (Bool-cases (l.mrm == 0)) [
  | inl c ↦
      subst (At (λ x. x.mrm ≡ 0) (l ∷ ls)) (some-inj 0 i (rw c at e))
        (l, refl, (==_iff l.mrm 0).0 c)
  | inr c ↦
      let (j, p, q) = next_index-some (lease_find_free ls) i (rw c at e) in
      subst (At (λ x. x.mrm ≡ 0) (l ∷ ls)) q (lease_find_free-free ls j p)
]

-- A lease for another reference on `b` is one on `b`, or a free one.
pub lease_slot-At :
    (ls : List Lease) (t a b i : ℕ)
    → lease_slot ls t a b ≡ some i
    → At (λ l. (l.buf ≡ b) ⊎ (l.mrm ≡ 0)) ls i
unfolding lease_slot
lease_slot-At ls t a b i e = found (lease_find ls t a b) refl e
  where
    found :
        (o : Option ℕ)
        → lease_find ls t a b ≡ o
        → (elim o as (λ p. Option ℕ) [ some j ↦ some j | none ↦ lease_find_free ls ]) ≡ some i
        → At (λ l. (l.buf ≡ b) ⊎ (l.mrm ≡ 0)) ls i
    found none p q = let (l, g, h) = lease_find_free-free ls i q in (l, g, inr h)
    found (some j) p q =
        let (l, g, h) = lease_find-holds ls t a b i (p ∙ q) in (l, g, inl (ground (arith, h)))

-- `ls'` is `ls` with `n` references on `b` more and `m` less.
pub record Moves (ls ls' : List Lease) (b n m : ℕ) : Type 0 where
  pub count :
      (c : ℕ) → total c ls' + (if b == c then m else 0) ≡ total c ls + (if b == c then n else 0)
  pub leases_ok : All LeaseOk ls'
  pub as_long : length ls' ≡ length ls

set-Moves :
    (ls : List Lease) (i b n m : ℕ) (l l' : Lease)
    → All LeaseOk ls
    → get_elem? ls i ≡ some l
    → LeaseOk l'
    → ((c : ℕ) → gets c l' + (if b == c then m else 0) ≡ gets c l + (if b == c then n else 0))
    → Moves ls (set ls i l') b n m
set-Moves ls i b n m l l' h g k f = record {
  count = λ c. omega (arith, f c, total-set c ls i l l' g);
  leases_ok = All-set ls i l' h k;
  as_long = length-set ls i l';
}

pub get_at-Moves :
    (ls : List Lease) (t a b i : ℕ) (l : Lease)
    → All LeaseOk ls
    → get_elem? ls i ≡ some l
    → (l.buf ≡ b) ⊎ (l.mrm ≡ 0)
    → a ≢ 0
    → (get_at ls t a b i (some l)).0 ≡ success
    → Moves ls (get_at ls t a b i (some l)).1 b 1 0
unfolding get_at
get_at-Moves ls t a b i l h g w n e = elim (Bool-cases (l.get_count == 65535)) [
  | inl c ↦ absurd (ground (arith, c, e))
  | inr c ↦
      let k = All-get ls i l h g in
      rw c (
        set-Moves ls i b 1 0 l (record l { mrm = a; buf = b; tid = t; get_count = l.get_count + 1 })
          h g (ground (arith, c, k.0), inl n) (λ x. ground (arith, w, k)))
]

pub get_drop_at-Moves :
    (ls : List Lease) (b i : ℕ) (l : Lease)
    → All LeaseOk ls
    → get_elem? ls i ≡ some l
    → l.buf ≡ b
    → (get_drop_at ls i (some l)).0 ≡ success
    → Moves ls (get_drop_at ls i (some l)).1 b 0 1
unfolding get_drop_at clear_if_idle
get_drop_at-Moves ls b i l h g w e = elim (Bool-cases (l.get_count == 0)) [
  | inl c ↦ absurd (ground (arith, c, e))
  | inr c ↦
      let k = All-get ls i l h g in
      rw c (
        set-Moves ls i b 0 1 l (clear_if_idle (record l { get_count = l.get_count - 1 })) h g
          (ground (arith, c, k), ground (arith, c, k)) (λ x. ground (arith, w, c, k)))
]

pub reserve_drop_at-Moves :
    (ls : List Lease) (b i : ℕ) (l : Lease)
    → All LeaseOk ls
    → get_elem? ls i ≡ some l
    → (reserve_drop_at ls i (some l)).0 ≡ success
    → Moves ls (reserve_drop_at ls i (some l)).1 b 0 0
unfolding reserve_drop_at clear_if_idle
reserve_drop_at-Moves ls b i l h g e = elim (Bool-cases l.reserved) [
  | inr c ↦ absurd (ground (arith, c, e))
  | inl c ↦
      let k = All-get ls i l h g in
      rw c (
        set-Moves ls i b 0 0 l (clear_if_idle (record l { reserved = false })) h g
          (ground (arith, c, k), ground (arith, c, k)) (λ x. ground (arith, c, k)))
]
