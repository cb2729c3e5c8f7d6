-- ===== src/Mem/Chain.antt =====
-- The free list of a partition, and what the two scans over it decide.
use rk.Base.{
  ℕ, ◌+◌, ◌-◌, ◌*◌, ◌/◌, ◌%◌, ◌≤◌, ◌<◌, ◌≡◌, ◌≢◌, refl, sym, true, false, List, [], ◌∷◌, ◌++◌,
  length, dec_lt, ap, ◌∙◌, arith,
}
use native.Mathlib.Nat.{le-div_iff_mul-le, div-add-mod, mul-mod_right}
use mathlib.Core.Path.{subst}
use rk.Base.Word.{ulong_max}
use rk.Base.Memory.{Mem, store}
use rk.Base.Distinct.{All, NotIn, Distinct}
use rk.Mem.Defs.{Partition, block_valid, free_list_scan}

-- The words lead from `ptr` through the blocks and end in NULL.
abbrev pub Chained : Mem → ℕ → List ℕ → Type 0
Chained m ptr [] = ptr ≡ 0
Chained m ptr (b ∷ bs) = (ptr ≡ b) × Chained m (m b) bs

abbrev pub Valid : Partition → ℕ → Type 0
Valid p b = block_valid p b ≡ true

-- The free list holds the blocks `bs`: valid blocks of the pool, none twice, counted by
-- `n_free_blocks`, which does not pass the number of blocks.
pub record HasFree (p : Partition) (m : Mem) (bs : List ℕ) : Type 0 where
  pub chained : Chained m p.free_list_ptr bs
  pub valid : All (Valid p) bs
  pub distinct : Distinct bs
  pub counted : p.n_free_blocks ≡ length bs
  pub within : p.n_free_blocks ≤ p.n_max_blocks
  pub in_word : p.n_max_blocks ≤ ulong_max

pub Valid-ne_zero : (p : Partition) (b : ℕ) → Valid p b → b ≢ 0
unfolding block_valid
Valid-ne_zero p b h = ground arith

-- what the tests of kMemPartitionBlockValid_ establish
pub record Fits (p : Partition) : Type 0 where
  pub pool_there : p.pool_ptr ≢ 0
  pub sized : 0 < p.blk_size
  pub many : 0 < p.n_max_blocks
  pub no_overflow : p.blk_size * p.n_max_blocks ≤ ulong_max
  pub end_in_word : p.pool_ptr + p.blk_size * p.n_max_blocks ≤ ulong_max

Valid-facts :
    (p : Partition) (b : ℕ)
    → Valid p b
    → (0 < p.blk_size)
      × (p.pool_ptr ≤ b)
      × (b < p.pool_ptr + p.blk_size * p.n_max_blocks)
      × ((b - p.pool_ptr) % p.blk_size ≡ 0)
unfolding block_valid
Valid-facts p b h = ground arith

index_lt : (d k n : ℕ) → d * k < d * n → k < n
index_lt d k n h = elim (dec_lt k n) [ yes l ↦ l | no l ↦ absurd (grind arith) ]

-- A valid block is the pool's k-th for some k.
pub Valid-index :
    (p : Partition) (b : ℕ)
    → Valid p b
    → (k : ℕ) × (k < p.n_max_blocks) × (b ≡ p.pool_ptr + p.blk_size * k)
Valid-index p b h =
    let f = Valid-facts p b h in
    let k = (b - p.pool_ptr) / p.blk_size in
    let e = div-add-mod (b - p.pool_ptr) p.blk_size in
    (k, index_lt p.blk_size k p.n_max_blocks (omega (arith, e, f)), omega (arith, e, f))

block_before : (d k n : ℕ) → k < n → 0 < d → d * k < d * n
block_before d k n h u = grind arith

offset_mod : (b d k : ℕ) → (b + d * k - b) % d ≡ 0
offset_mod b d k = ap (λ x. x % d) (omega arith) ∙ mul-mod_right d k

-- The k-th block of a pool that fits into the address space is valid.
pub index-Valid :
    (p : Partition) (k : ℕ) → Fits p → k < p.n_max_blocks → Valid p (p.pool_ptr + p.blk_size * k)
unfolding block_valid
index-Valid p k f h = ground (
  arith,
  (le-div_iff_mul-le {k = p.n_max_blocks} {x = p.blk_size} {y = ulong_max} f.many).1,
  block_before p.blk_size k p.n_max_blocks h f.sized,
  offset_mod p.pool_ptr p.blk_size k,
)

store_other : (m : Mem) (b v x : ℕ) → b ≢ x → store m b v x ≡ m x
unfolding store
store_other m b v x n = ground arith

pub Chained-store :
    (m : Mem) (ptr b v : ℕ) (bs : List ℕ)
    → NotIn b bs
    → Chained m ptr bs
    → Chained (store m b v) ptr bs
Chained-store m ptr b v [] n c = c
Chained-store m ptr b v (x ∷ xs) n c = (
  c.0,
  subst (λ q. Chained (store m b v) q xs) (sym (store_other m b v x n.0))
      (Chained-store m (m x) b v xs n.1 c.1),
)

-- The scan of a sound free list finds no block that is not in it.
pub scan-NotIn :
    (p : Partition) (m : Mem) (b ptr : ℕ) (bs : List ℕ)
    → Chained m ptr bs
    → All (Valid p) bs
    → NotIn b bs
    → free_list_scan p m b (length bs) ptr ≡ false
unfolding free_list_scan
scan-NotIn p m b ptr [] c v n = refl
scan-NotIn p m b ptr (x ∷ xs) c v n =
    ground (arith, Valid-ne_zero p x v.0, scan-NotIn p m b (m x) xs c.1 v.1 n.1)

-- It finds each block that is in it.
pub scan-middle :
    (p : Partition) (m : Mem) (b ptr : ℕ) (xs ys : List ℕ)
    → Chained m ptr (xs ++ b ∷ ys)
    → All (Valid p) (xs ++ b ∷ ys)
    → free_list_scan p m b (length (xs ++ b ∷ ys)) ptr ≡ true
unfolding free_list_scan
scan-middle p m b ptr [] ys c v = ground (arith, Valid-ne_zero p b v.0)
scan-middle p m b ptr (x ∷ xs) ys c v =
    ground (arith, Valid-ne_zero p x v.0, scan-middle p m b (m x) xs ys c.1 v.1)
