-- ===== src/Base/Distinct.antt =====
-- Lists of addresses without repetition, as predicates that compute to tuples.
use rk.Base.{ℕ, ◌≢◌, sym, List, [], ◌∷◌, ◌++◌}

abbrev pub All {ℓ κ} : {A : Type ℓ} → (A → Type κ) → List A → Type κ
All P [] = Unit
All P (x ∷ xs) = P x × All P xs

abbrev pub NotIn : ℕ → List ℕ → Type 0
NotIn p = All (λ q. p ≢ q)

abbrev pub Distinct : List ℕ → Type 0
Distinct [] = Unit
Distinct (x ∷ xs) = NotIn x xs × Distinct xs

module _ {ℓ κ} {A : Type ℓ} (P : A → Type κ) where
  pub All-append : (xs ys : List A) → All P xs → All P ys → All P (xs ++ ys)
  All-append [] ys h k = k
  All-append (x ∷ xs) ys h k = (h.0, All-append xs ys h.1 k)

  pub All-append_left : (xs ys : List A) → All P (xs ++ ys) → All P xs
  All-append_left [] ys h = tt
  All-append_left (x ∷ xs) ys h = (h.0, All-append_left xs ys h.1)

  pub All-append_right : (xs ys : List A) → All P (xs ++ ys) → All P ys
  All-append_right [] ys h = h
  All-append_right (x ∷ xs) ys h = All-append_right xs ys h.1

pub Distinct-left : (xs ys : List ℕ) → Distinct (xs ++ ys) → Distinct xs
Distinct-left [] ys h = tt
Distinct-left (x ∷ xs) ys h = (All-append_left (λ q. x ≢ q) xs ys h.0, Distinct-left xs ys h.1)

pub Distinct-right : (xs ys : List ℕ) → Distinct (xs ++ ys) → Distinct ys
Distinct-right [] ys h = h
Distinct-right (x ∷ xs) ys h = Distinct-right xs ys h.1

-- An element put between two parts of a list without repetition, which it is not in.
pub Distinct-insert :
    (xs ys : List ℕ) (n : ℕ) → NotIn n (xs ++ ys) → Distinct (xs ++ ys) → Distinct (xs ++ n ∷ ys)
Distinct-insert [] ys n h d = (h, d)
Distinct-insert (x ∷ xs) ys n h d = (
  All-append (λ q. x ≢ q) xs (n ∷ ys) (All-append_left (λ q. x ≢ q) xs ys d.0)
      ((λ e. h.0 (sym e)), All-append_right (λ q. x ≢ q) xs ys d.0),
  Distinct-insert xs ys n h.1 d.1,
)

pub Distinct-remove : (xs ys : List ℕ) (n : ℕ) → Distinct (xs ++ n ∷ ys) → Distinct (xs ++ ys)
Distinct-remove [] ys n d = d.1
Distinct-remove (x ∷ xs) ys n d = (
  All-append (λ q. x ≢ q) xs ys (All-append_left (λ q. x ≢ q) xs (n ∷ ys) d.0)
      (All-append_right (λ q. x ≢ q) xs (n ∷ ys) d.0).1,
  Distinct-remove xs ys n d.1,
)

-- The middle element is in neither part.
pub NotIn-middle : (xs ys : List ℕ) (n : ℕ) → Distinct (xs ++ n ∷ ys) → NotIn n xs × NotIn n ys
NotIn-middle [] ys n d = (tt, d.0)
NotIn-middle (x ∷ xs) ys n d =
    let (l, r) = NotIn-middle xs ys n d.1 in
    (((λ e. (All-append_right (λ q. x ≢ q) xs (n ∷ ys) d.0).0 (sym e)), l), r)
