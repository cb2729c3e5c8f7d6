-- ===== src/KList/Refine.antt =====
-- The list functions refine operations on the sequence of linked nodes.
use rk.Base.{
  ℕ, ◌-◌, ◌<◌, ◌≡◌, ◌≢◌, refl, sym, ap, ◌∙◌, List, [], ◌∷◌, ◌++◌, none, some, ◌==◌, false, length,
  length-append, arith,
}
use mathlib.Core.List.{append-nil, append_assoc}
use mathlib.Core.Path.{ap₂, subst, subst₂}
use rk.Base.Word.{ulong_max}
use rk.Base.Distinct.{
  NotIn, Distinct, Distinct-insert, Distinct-remove, NotIn-middle, All-append, All-append_left,
  All-append_right, Distinct-left,
}
use rk.Err.{success, list_empty}
use rk.KList.Defs.{
  Heap, KList, set_next, set_prev, update, init, insert_after, node_del, remove, remove_head,
  remove_tail, add_tail, add_head,
}
use rk.KList.Links.{
  Links, Links-split, last_of, last_of-ne, IsApart, Links-insert, Links-delete, inserted, deleted,
  NotIn-heads_snoc, last_of-NotIn_right,
}

-- The heap holds the nodes `xs` in list `l`: the links lead from the sentinel through them and
-- back to it, no node stands twice, and `size` counts them.
pub record Holds (l : KList) (h : Heap) (xs : List ℕ) : Type 0 where
  pub linked : Links h l.dummy (xs ++ l.dummy ∷ [])
  pub distinct : Distinct (l.dummy ∷ xs)
  pub counted : l.size ≡ length xs

-- the node after `xs` in the circle of `xs ++ ys`, and those behind it
abbrev first : ℕ → List ℕ → ℕ
first d [] = d
first d (y ∷ ys) = y

abbrev rest : ℕ → List ℕ → List ℕ
rest d [] = []
rest d (y ∷ ys) = ys ++ d ∷ []

circle : (d : ℕ) (ys : List ℕ) → ys ++ d ∷ [] ≡ first d ys ∷ rest d ys
circle d [] = refl
circle d (y ∷ ys) = refl

snoc : (d : ℕ) (xs ys : List ℕ) → (xs ++ ys) ++ d ∷ [] ≡ xs ++ first d ys ∷ rest d ys
snoc d xs ys = append_assoc xs ys (d ∷ []) ∙ ap (λ k. xs ++ k) (circle d ys)

NotIn-snoc : (p d : ℕ) (ys : List ℕ) → NotIn p ys → p ≢ d → NotIn p (ys ++ d ∷ [])
NotIn-snoc p d ys h k = All-append (λ q. p ≢ q) ys (d ∷ []) h (k, tt)

-- `n` between `xs` and `ys` stays apart from the rest of the circle.
middle_apart :
    (h : Heap) (d : ℕ) (xs ys : List ℕ) (n : ℕ)
    → Distinct (d ∷ xs ++ ys)
    → NotIn n (d ∷ xs ++ ys)
    → IsApart h d xs (first d ys) (rest d ys) n
middle_apart h d xs [] n dist new = record {
  path = Distinct-left (d ∷ xs) [] dist;
  fresh_left = All-append_left (λ q. n ≢ q) (d ∷ xs) [] new;
  y_left = All-append_left (λ q. d ≢ q) xs [] dist.0;
  n_y = new.0;
  fresh_right = tt;
  fresh_heads = tt;
  y_right = tt;
  last_heads = tt;
}
middle_apart h d xs (y ∷ ys) n dist new =
    let right = All-append_right (λ q. n ≢ q) xs (y ∷ ys) new.1 in
    let sides = NotIn-middle xs ys y dist.1 in
    let d_right = All-append_right (λ q. d ≢ q) xs (y ∷ ys) dist.0 in
    record {
      path = Distinct-left (d ∷ xs) (y ∷ ys) dist;
      fresh_left = All-append_left (λ q. n ≢ q) (d ∷ xs) (y ∷ ys) new;
      y_left = sides.0;
      n_y = right.0;
      fresh_right = NotIn-snoc n d ys right.1 new.0;
      fresh_heads = NotIn-heads_snoc n y d ys right;
      y_right = NotIn-snoc y d ys sides.1 (λ e. d_right.0 (sym e));
      last_heads = NotIn-heads_snoc (last_of d xs) y d ys (last_of-NotIn_right d xs (y ∷ ys) dist);
    }

-- the node after `last_of d xs` in the heap
after :
    (l : KList) (h : Heap) (xs ys : List ℕ)
    → Links h l.dummy ((xs ++ ys) ++ l.dummy ∷ [])
    → (h.next (last_of l.dummy xs) ≡ first l.dummy ys)
      × (h.prev (first l.dummy ys) ≡ last_of l.dummy xs)
after l h xs ys k =
    let (left, right) =
      Links-split h l.dummy xs (first l.dummy ys ∷ rest l.dummy ys)
        (subst (Links h l.dummy) (snoc l.dummy xs ys) k) in
    (right.0, right.1)

insert_after_heap :
    (l : KList) (h : Heap) (r n y : ℕ)
    → n ≢ r
    → h.next r ≡ y
    → (insert_after l h r n).1 ≡ inserted h r y n
unfolding insert_after
insert_after_heap l h r n y ne e =
    ap₂ (λ a b. set_next (set_prev (set_prev (set_next h n a) b n) n r) r n) e (ground arith)

insert_after-size :
    (l : KList) (h : Heap) (xs ys : List ℕ) (n : ℕ)
    → l.size ≡ length (xs ++ ys)
    → l.size < ulong_max
    → (insert_after l h (last_of l.dummy xs) n).0.size ≡ length (xs ++ n ∷ ys)
unfolding insert_after
insert_after-size l h xs ys n e u = omega (arith, length-append xs ys, length-append xs (n ∷ ys))

-- kListInsertAfter on the node that ends `xs`, of a node that is not in the list and is not
-- its sentinel, with the count below the bound of a word, puts the new node between `xs` and
-- `ys`.
insert_after-Holds :
    (l : KList) (h : Heap) (xs ys : List ℕ) (n : ℕ)
    → Holds l h (xs ++ ys)
    → NotIn n (l.dummy ∷ xs ++ ys)
    → l.size < ulong_max
    → let (l', h') = insert_after l h (last_of l.dummy xs) n in Holds l' h' (xs ++ n ∷ ys)
unfolding insert_after
insert_after-Holds l h xs ys n v new u =
    let d = l.dummy in
    let apart = middle_apart h d xs ys n v.distinct new in
    let ne = last_of-ne n d xs apart.fresh_left in
    let links = subst (Links h d) (snoc d xs ys) v.linked in
    record {
      linked =
          subst₂ (λ g ks. Links g d ks)
            (sym
              (insert_after_heap l h (last_of d xs) n (first d ys) ne (after l h xs ys v.linked).0))
            (sym (snoc d xs (n ∷ ys) ∙ ap (λ k. xs ++ n ∷ k) (circle d ys)))
            (Links-insert h d xs (first d ys) (rest d ys) n apart links);
      distinct = Distinct-insert (d ∷ xs) ys n new v.distinct;
      counted = insert_after-size l h xs ys n v.counted u;
    }

-- kListAddHead puts the new node before the list.
pub add_head-Holds :
    (l : KList) (h : Heap) (xs : List ℕ) (n : ℕ)
    → Holds l h xs
    → NotIn n (l.dummy ∷ xs)
    → l.size < ulong_max
    → let (l', h') = add_head l h n in Holds l' h' (n ∷ xs)
unfolding add_head
add_head-Holds l h xs n v new u = insert_after-Holds l h [] xs n v new u

-- kListAddTail puts the new node behind the list.
pub add_tail-Holds :
    (l : KList) (h : Heap) (xs : List ℕ) (n : ℕ)
    → Holds l h xs
    → NotIn n (l.dummy ∷ xs)
    → l.size < ulong_max
    → let (l', h') = add_tail l h n in Holds l' h' (xs ++ n ∷ [])
unfolding add_tail
add_tail-Holds l h xs n v new u =
    let nil = sym (append-nil xs) in
    let whole = subst (Holds l h) nil v in
    subst (λ r. let (l', h') = insert_after l h r n in Holds l' h' (xs ++ n ∷ []))
      (sym (after l h xs [] whole.linked).1)
      (insert_after-Holds l h xs [] n whole (subst (λ k. NotIn n (l.dummy ∷ k)) nil new) u)

node_del_heap :
    (h : Heap) (p n y : ℕ) → h.prev n ≡ p → h.next n ≡ y → n ≢ y → node_del h n ≡ deleted h p y n
unfolding node_del
node_del_heap h p n y f g ny =
    λ i. set_next (set_prev (set_next (set_prev h (g i) (f i)) (back i) (g i)) n 0) n 0
  where
    back : update h.prev (h.next n) (h.prev n) n ≡ p
    back = ground arith

-- the heap after kListRemove of the node between `xs` and `ys`
pub node_del-Holds :
    (l : KList) (h : Heap) (xs ys : List ℕ) (n : ℕ)
    → Holds l h (xs ++ n ∷ ys)
    → Holds (record l { size = l.size - 1 }) (node_del h n) (xs ++ ys)
node_del-Holds l h xs ys n v =
    let d = l.dummy in
    let sides = NotIn-middle (d ∷ xs) ys n v.distinct in
    let apart =
      middle_apart h d xs ys n (Distinct-remove (d ∷ xs) ys n v.distinct)
        (All-append (λ q. n ≢ q) (d ∷ xs) ys sides.0 sides.1) in
    let links =
      subst (Links h d) (snoc d xs (n ∷ ys) ∙ ap (λ k. xs ++ n ∷ k) (circle d ys)) v.linked in
    let (left, right) = Links-split h d xs (n ∷ first d ys ∷ rest d ys) links in
    record {
      linked =
          subst₂ (λ g ks. Links g d ks)
            (sym (node_del_heap h (last_of d xs) n (first d ys) right.1 right.2.0 apart.n_y))
            (sym (snoc d xs ys)) (Links-delete h d xs (first d ys) (rest d ys) n apart links);
      distinct = Distinct-remove (d ∷ xs) ys n v.distinct;
      counted = omega (arith, v.counted, length-append xs ys, length-append xs (n ∷ ys));
    }

size_ne :
    (l : KList) (h : Heap) (xs ys : List ℕ) (n : ℕ)
    → Holds l h (xs ++ n ∷ ys)
    → (l.size == 0) ≡ false
size_ne l h xs ys n v = ground (arith, v.counted, length-append xs (n ∷ ys))

-- kListRemove of a linked node succeeds and takes out that node alone.
pub remove-Holds :
    (l : KList) (h : Heap) (xs ys : List ℕ) (n : ℕ)
    → Holds l h (xs ++ n ∷ ys)
    → let (e, l', h') = remove l h n in (e ≡ success) × Holds l' h' (xs ++ ys)
unfolding remove
remove-Holds l h xs ys n v = rw (size_ne l h xs ys n v) (refl, node_del-Holds l h xs ys n v)

-- kListRemoveHead of a list that is not empty succeeds, gives the first node and leaves the
-- others.
pub remove_head-Holds :
    (l : KList) (h : Heap) (n : ℕ) (xs : List ℕ)
    → Holds l h (n ∷ xs)
    → let (e, out, l', h') = remove_head l h in (e ≡ success) × (out ≡ some n) × Holds l' h' xs
unfolding remove_head
remove_head-Holds l h n xs v =
    rw (size_ne l h [] xs n v, v.linked.0) (refl, refl, node_del-Holds l h [] xs n v)

last_of-snoc : (a : ℕ) (xs : List ℕ) (n : ℕ) → last_of a (xs ++ n ∷ []) ≡ n
last_of-snoc a [] n = refl
last_of-snoc a (x ∷ xs) n = last_of-snoc x xs n

-- kListRemoveTail gives the last node and leaves the others.
pub remove_tail-Holds :
    (l : KList) (h : Heap) (xs : List ℕ) (n : ℕ)
    → Holds l h (xs ++ n ∷ [])
    → let (e, out, l', h') = remove_tail l h in (e ≡ success) × (out ≡ some n) × Holds l' h' xs
unfolding remove_tail
remove_tail-Holds l h xs n v =
    rw (size_ne l h xs [] n v, tail)
      (
        refl,
        refl,
        subst (Holds (record l { size = l.size - 1 }) (node_del h n)) (append-nil xs)
            (node_del-Holds l h xs [] n v),
      )
  where
    tail : h.prev l.dummy ≡ n
    tail =
        (after l h (xs ++ n ∷ []) [] (
          subst (λ k. Links h l.dummy (k ++ l.dummy ∷ [])) (sym (append-nil (xs ++ n ∷ [])))
            v.linked)).1
        ∙ last_of-snoc l.dummy xs n

-- A removal from an empty list is refused and changes nothing.
pub remove_empty :
    (l : KList) (h : Heap) (n : ℕ)
    → Holds l h []
    → (remove l h n ≡ (list_empty, l, h))
      × (remove_head l h ≡ (list_empty, none, l, h))
      × (remove_tail l h ≡ (list_empty, none, l, h))
unfolding remove remove_head remove_tail
remove_empty l h n v = rw v.counted (refl, refl, refl)

-- kListInit makes the empty list, whatever the sentinel held before.
pub init-Holds : (l : KList) (h : Heap) → let (l', h') = init l h in Holds l' h' []
unfolding init
init-Holds l h = record {
  linked = (ground arith, ground arith, tt);
  distinct = (tt, tt);
  counted = refl;
}
