-- ===== src/Mem/Laws.antt =====
-- What the allocator does with its free list.
use rk.Base.{
  ℕ, ◌-◌, ◌<◌, ◌≡◌, ◌≢◌, refl, sym, ap, ◌∙◌, ◌⊎◌, inl, inr, true, false, Option, some, List, [],
  ◌∷◌, ◌++◌, length, arith,
}
use mathlib.Core.Path.{subst}
use rk.Base.Word.{add_word}
use rk.Base.Memory.{Mem, store, store_self}
use rk.Base.Distinct.{NotIn}
use rk.Err.{success, mem_free}
use rk.Obj.{object_ready_err}
use rk.Mem.Defs.{
  Partition, memalloc_kobj_id, block_valid, free_list_contains, alloc, free, alloc_ready,
  free_ready, free_list_scan,
}
use rk.Mem.Chain.{Chained, Valid, HasFree, Valid-ne_zero, Chained-store, scan-NotIn, scan-middle}

-- kMemPartitionReadyErr_ lets the caller use the partition
abbrev pub IsReady : Partition → Option ℕ → Type 0
IsReady p caller = object_ready_err (some p.header) memalloc_kobj_id caller ≡ success

contains-NotIn :
    (p : Partition) (m : Mem) (bs : List ℕ) (b : ℕ)
    → HasFree p m bs
    → NotIn b bs
    → free_list_contains p m b ≡ false
unfolding free_list_contains
contains-NotIn p m bs b v n =
    ap (λ k. free_list_scan p m b k p.free_list_ptr) v.counted
    ∙ scan-NotIn p m b p.free_list_ptr bs v.chained v.valid n

contains-middle :
    (p : Partition) (m : Mem) (xs ys : List ℕ) (b : ℕ)
    → HasFree p m (xs ++ b ∷ ys)
    → free_list_contains p m b ≡ true
unfolding free_list_contains
contains-middle p m xs ys b v =
    ap (λ k. free_list_scan p m b k p.free_list_ptr) v.counted
    ∙ scan-middle p m b p.free_list_ptr xs ys v.chained v.valid

-- the second block of a sound free list passes the tests on the next pointer
next_ok :
    (p : Partition) (m : Mem) (b : ℕ) (bs : List ℕ)
    → HasFree p m (b ∷ bs)
    → ((p.n_free_blocks ≡ 1) × (m b ≡ 0)) ⊎ ((1 < p.n_free_blocks) × (block_valid p (m b) ≡ true))
next_ok p m b [] v = inl (v.counted, v.chained.1)
next_ok p m b (x ∷ xs) v = inr (omega (arith, v.counted), rw v.chained.1.0 v.valid.1.0)

-- the partition that alloc leaves
abbrev pub taken : Partition → Mem → Partition
taken p m = record p { n_free_blocks = p.n_free_blocks - 1; free_list_ptr = m p.free_list_ptr }

pub alloc-IsReady :
    (p : Partition) (m : Mem) (caller : Option ℕ)
    → IsReady p caller
    → alloc p m caller ≡ alloc_ready p m
unfolding alloc
alloc-IsReady p m caller r = rw (r, alloc)

pub free-IsReady :
    (p : Partition) (m : Mem) (caller : Option ℕ) (b : ℕ)
    → IsReady p caller
    → free p m caller b ≡ free_ready p m b
unfolding free
free-IsReady p m caller b r = rw (r, free)

pub alloc_ready-cons :
    (p : Partition) (m : Mem) (b : ℕ) (bs : List ℕ)
    → HasFree p m (b ∷ bs)
    → alloc_ready p m ≡ (p.free_list_ptr, taken p m)
unfolding alloc_ready
alloc_ready-cons p m b bs v = ground (arith, next_ok p m b bs v, v.chained.0, v.valid.0, v.counted)

pub alloc_ready-nil : (p : Partition) (m : Mem) → HasFree p m [] → alloc_ready p m ≡ (0, p)
unfolding alloc_ready
alloc_ready-nil p m v = ground (arith, v.counted)

pub taken-HasFree :
    (p : Partition) (m : Mem) (b : ℕ) (bs : List ℕ)
    → HasFree p m (b ∷ bs)
    → HasFree (taken p m) m bs
unfolding block_valid
taken-HasFree p m b bs v = record {
  chained = subst (λ q. Chained m (m q) bs) (sym v.chained.0) v.chained.1;
  valid = v.valid.1;
  distinct = v.distinct.1;
  counted = omega (arith, v.counted);
  within = omega (arith, v.within);
  in_word = v.in_word;
}

-- kMemPartitionAlloc by a permitted caller, of a partition whose free list is in order,
-- takes the first free block, which is a block of the pool, and leaves the others free; with
-- no block free it gives NULL and changes nothing.
pub alloc-HasFree :
    (p : Partition) (m : Mem) (caller : Option ℕ) (bs : List ℕ)
    → IsReady p caller
    → HasFree p m bs
    → ((bs ≡ []) × (alloc p m caller ≡ (0, p)))
      ⊎ ((b : ℕ) × (rest : List ℕ) × (bs ≡ b ∷ rest)
          × ((alloc p m caller).0 ≡ b)
          × Valid p b
          × HasFree (alloc p m caller).1 m rest)
alloc-HasFree p m caller [] r v = inl (refl, alloc-IsReady p m caller r ∙ alloc_ready-nil p m v)
alloc-HasFree p m caller (b ∷ bs) r v =
    let e = alloc-IsReady p m caller r ∙ alloc_ready-cons p m b bs v in
    inr (
      b,
      bs,
      refl,
      ap (λ t. t.0) e ∙ v.chained.0,
      v.valid.0,
      subst (λ t. HasFree t.1 m bs) (sym e) (taken-HasFree p m b bs v),
    )

-- the partition that free leaves
abbrev pub returned : Partition → ℕ → Partition
returned p b = record p { free_list_ptr = b; n_free_blocks = add_word p.n_free_blocks 1 }

pub free_ready-NotIn :
    (p : Partition) (m : Mem) (bs : List ℕ) (b : ℕ)
    → HasFree p m bs
    → Valid p b
    → NotIn b bs
    → length bs < p.n_max_blocks
    → free_ready p m b ≡ (success, returned p b, store m b p.free_list_ptr)
unfolding free_ready
free_ready-NotIn p m bs b v ok new room =
    ground (arith, ok, Valid-ne_zero p b ok, contains-NotIn p m bs b v new, v.counted)

pub returned-HasFree :
    (p : Partition) (m : Mem) (bs : List ℕ) (b : ℕ)
    → HasFree p m bs
    → Valid p b
    → NotIn b bs
    → length bs < p.n_max_blocks
    → HasFree (returned p b) (store m b p.free_list_ptr) (b ∷ bs)
unfolding block_valid
returned-HasFree p m bs b v ok new room = record {
  chained = (
    refl,
    subst (λ q. Chained (store m b p.free_list_ptr) q bs) (sym (store_self m b p.free_list_ptr))
        (Chained-store m p.free_list_ptr b p.free_list_ptr bs new v.chained),
  );
  valid = (ok, v.valid);
  distinct = (new, v.distinct);
  counted = omega (arith, v.counted, v.in_word);
  within = omega (arith, v.counted, v.in_word);
  in_word = v.in_word;
}

-- kMemPartitionFree by a permitted caller, to a partition whose free list is in order and
-- not full, of a block of the pool that is not free succeeds, and the block becomes the
-- first free one.
pub free-HasFree :
    (p : Partition) (m : Mem) (caller : Option ℕ) (bs : List ℕ) (b : ℕ)
    → IsReady p caller
    → HasFree p m bs
    → Valid p b
    → NotIn b bs
    → length bs < p.n_max_blocks
    → let (err, p', m') = free p m caller b in (err ≡ success) × HasFree p' m' (b ∷ bs)
free-HasFree p m caller bs b r v ok new room =
    subst (λ t. (t.0 ≡ success) × HasFree t.1 t.2 (b ∷ bs))
      (sym (free-IsReady p m caller b r ∙ free_ready-NotIn p m bs b v ok new room))
      (refl, returned-HasFree p m bs b v ok new room)

-- kMemPartitionFree by a permitted caller of a block that is free in a free list in order,
-- or of an address other than NULL that is no block of the pool, is refused with
-- RK_ERR_MEM_FREE and changes nothing.
pub free_refused :
    (p : Partition) (m : Mem) (caller : Option ℕ) (b : ℕ)
    → IsReady p caller
    → b ≢ 0
    → ((xs : List ℕ) × (ys : List ℕ) × HasFree p m (xs ++ b ∷ ys)) ⊎ (block_valid p b ≡ false)
    → free p m caller b ≡ (mem_free, p, m)
free_refused p m caller b r ne why = free-IsReady p m caller b r ∙ elim why [
  | inl (xs, ys, v) ↦ by_scan (contains-middle p m xs ys b v)
  | inr bad ↦ by_place bad
]
  where
    by_scan : free_list_contains p m b ≡ true → free_ready p m b ≡ (mem_free, p, m)
    by_scan e = unfold free_ready in ground arith

    by_place : block_valid p b ≡ false → free_ready p m b ≡ (mem_free, p, m)
    by_place e = unfold free_ready in ground arith
