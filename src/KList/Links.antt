-- ===== src/KList/Links.antt =====
-- What it means that a heap holds a list, and how the two pointer edits change it.
use rk.Base.{ℕ, ◌≡◌, ◌≢◌, sym, List, [], ◌∷◌, ◌++◌, arith}
use rk.Base.Distinct.{All, NotIn, Distinct}
use rk.KList.Defs.{Heap, update}

-- From `a` the next pointers lead through the list, and the previous pointers back.
abbrev pub Links : Heap → ℕ → List ℕ → Type 0
Links h a [] = Unit
Links h a (x ∷ xs) = (h.next a ≡ x) × (h.prev x ≡ a) × Links h x xs

-- the node reached from `a` through the list
abbrev pub last_of : ℕ → List ℕ → ℕ
last_of a [] = a
last_of a (x ∷ xs) = last_of x xs

-- the nodes whose next pointer is read on the way
abbrev pub heads : ℕ → List ℕ → List ℕ
heads a [] = []
heads a (x ∷ xs) = a ∷ heads x xs

pub Links-append :
    (h : Heap) (a : ℕ) (xs ys : List ℕ)
    → Links h a xs
    → Links h (last_of a xs) ys
    → Links h a (xs ++ ys)
Links-append h a [] ys l r = r
Links-append h a (x ∷ xs) ys l r = (l.0, l.1, Links-append h x xs ys l.2 r)

pub Links-split :
    (h : Heap) (a : ℕ) (xs ys : List ℕ)
    → Links h a (xs ++ ys)
    → Links h a xs × Links h (last_of a xs) ys
Links-split h a [] ys l = (tt, l)
Links-split h a (x ∷ xs) ys l = let (p, q) = Links-split h x xs ys l.2 in ((l.0, l.1, p), q)

-- Links are the same in a heap that agrees on what is read.
pub Links-agree :
    (h g : Heap) (a : ℕ) (xs : List ℕ)
    → All (λ k. g.next k ≡ h.next k) (heads a xs)
    → All (λ k. g.prev k ≡ h.prev k) xs
    → Links h a xs
    → Links g a xs
Links-agree h g a [] n p l = tt
Links-agree h g a (x ∷ xs) n p l = (cc (n.0, l.0), cc (p.0, l.1), Links-agree h g x xs n.1 p.1 l.2)

pub update_agree :
    (f : ℕ → ℕ) (p v q w : ℕ) (ks : List ℕ)
    → NotIn p ks
    → NotIn q ks
    → All (λ k. update (update f p v) q w k ≡ f k) ks
update_agree f p v q w [] a b = tt
update_agree f p v q w (k ∷ ks) a b = (ground arith, update_agree f p v q w ks a.1 b.1)

pub NotIn-heads : (p a : ℕ) (xs : List ℕ) → NotIn p (a ∷ xs) → NotIn p (heads a xs)
NotIn-heads p a [] h = tt
NotIn-heads p a (x ∷ xs) h = (h.0, NotIn-heads p x xs h.1)

-- the last node of a list without repetition is not among those before it
pub last_of-NotIn : (a : ℕ) (xs : List ℕ) → Distinct (a ∷ xs) → NotIn (last_of a xs) (heads a xs)
last_of-NotIn a [] d = tt
last_of-NotIn a (x ∷ xs) d = (other a x xs d.0, last_of-NotIn x xs d.1)
  where
    other : (a x : ℕ) (xs : List ℕ) → NotIn a (x ∷ xs) → last_of x xs ≢ a
    other a x [] n = λ e. n.0 (sym e)
    other a x (y ∷ ys) n = other a y ys n.1

-- p is none of the nodes of a list that ends in z, except perhaps z
pub NotIn-heads_snoc :
    (p a z : ℕ) (xs : List ℕ) → NotIn p (a ∷ xs) → NotIn p (heads a (xs ++ z ∷ []))
NotIn-heads_snoc p a z [] h = h
NotIn-heads_snoc p a z (x ∷ xs) h = (h.0, NotIn-heads_snoc p x z xs h.1)

pub last_of-NotIn_right :
    (a : ℕ) (xs ys : List ℕ) → Distinct (a ∷ xs ++ ys) → NotIn (last_of a xs) ys
last_of-NotIn_right a [] ys d = d.0
last_of-NotIn_right a (x ∷ xs) ys d = last_of-NotIn_right x xs ys d.1

pub last_of-ne : (n a : ℕ) (xs : List ℕ) → NotIn n (a ∷ xs) → n ≢ last_of a xs
last_of-ne n a [] h = h.0
last_of-ne n a (x ∷ xs) h = last_of-ne n x xs h.1

-- `new` put between `r` and its successor `y`
abbrev pub inserted : Heap → ℕ → ℕ → ℕ → Heap
inserted h r y new = record {
  next = update (update h.next new y) r new;
  prev = update (update h.prev y new) new r;
}

-- `n` taken out from between `p` and `y`
abbrev pub deleted : Heap → ℕ → ℕ → ℕ → Heap
deleted h p y n = record {
  next = update (update h.next p y) n 0;
  prev = update (update h.prev y p) n 0;
}

module _ (h : Heap) (d : ℕ) (xs : List ℕ) (y : ℕ) (zs : List ℕ) (n : ℕ) where
  -- what keeps `y` and `n` apart from the rest of the list `xs ++ y ∷ zs`
  pub record IsApart : Type 0 where
    pub path : Distinct (d ∷ xs)
    pub fresh_left : NotIn n (d ∷ xs)
    pub y_left : NotIn y xs
    pub n_y : n ≢ y
    pub fresh_right : NotIn n zs
    pub fresh_heads : NotIn n (heads y zs)
    pub y_right : NotIn y zs
    pub last_heads : NotIn (last_of d xs) (heads y zs)

  pub Links-insert :
      IsApart
      → Links h d (xs ++ y ∷ zs)
      → Links (inserted h (last_of d xs) y n) d (xs ++ n ∷ y ∷ zs)
  Links-insert a l =
      let (left, right) = Links-split h d xs (y ∷ zs) l in
      let g = inserted h (last_of d xs) y n in
      let ne = last_of-ne n d xs a.fresh_left in
      Links-append g d xs (n ∷ y ∷ zs)
        (Links-agree h g d xs
          (update_agree h.next n y (last_of d xs) n (heads d xs) (NotIn-heads n d xs a.fresh_left)
            (last_of-NotIn d xs a.path))
          (update_agree h.prev y n n (last_of d xs) xs a.y_left a.fresh_left.1) left)
        (
          ground arith,
          ground arith,
          (
            ground (arith, ne),
            ground (arith, a.n_y),
            Links-agree h g y zs
                (update_agree h.next n y (last_of d xs) n (heads y zs) a.fresh_heads a.last_heads)
                (update_agree h.prev y n n (last_of d xs) zs a.y_right a.fresh_right) right.2,
          ),
        )

  pub Links-delete :
      IsApart → Links h d (xs ++ n ∷ y ∷ zs) → Links (deleted h (last_of d xs) y n) d (xs ++ y ∷ zs)
  Links-delete a l =
      let (left, right) = Links-split h d xs (n ∷ y ∷ zs) l in
      let g = deleted h (last_of d xs) y n in
      let ne = last_of-ne n d xs a.fresh_left in
      Links-append g d xs (y ∷ zs)
        (Links-agree h g d xs
          (update_agree h.next (last_of d xs) y n 0 (heads d xs) (last_of-NotIn d xs a.path)
            (NotIn-heads n d xs a.fresh_left))
          (update_agree h.prev y (last_of d xs) n 0 xs a.y_left a.fresh_left.1) left)
        (
          ground (arith, ne),
          ground (arith, a.n_y),
          Links-agree h g y zs
              (update_agree h.next (last_of d xs) y n 0 (heads y zs) a.last_heads a.fresh_heads)
              (update_agree h.prev y (last_of d xs) n 0 zs a.y_right a.fresh_right) right.2.2,
        )
