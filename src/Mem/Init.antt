-- ===== src/Mem/Init.antt =====
-- What kMemPartitionInitImpl_ builds.
use rk.Base.{
  ℕ, zero, suc, ◌+◌, ◌-◌, ◌*◌, ◌%◌, ◌≤◌, ◌<◌, ◌≡◌, ◌≢◌, refl, sym, ap, Bool, true, false, Option,
  none, some, List, [], ◌∷◌, length, arith,
}
use mathlib.Core.Path.{subst}
use rk.Base.Word.{ulong_max}
use rk.Base.Memory.{Mem, store}
use rk.Base.Distinct.{All, NotIn, Distinct}
use rk.Err.{success}
use rk.Obj.{Scope, unassigned, domain_local, kernel_global, Header, scope_set, owner_domain_set}
use rk.Mem.Defs.{
  Partition, Attr, block_valid, link_blocks, init_scope, init_checked, scope_err, scope_attr_err,
  init_impl, round_up, domain_of, memalloc_kobj_id,
}
use rk.Mem.Chain.{Chained, Valid, HasFree, Fits, index-Valid}

-- the addresses of the `n` blocks of `size` bytes from `block` on
abbrev pub blocks : ℕ → ℕ → ℕ → List ℕ
blocks size zero block = []
blocks size (suc n) block = block ∷ blocks size n (block + size)

blocks-NotIn : (size n block b : ℕ) → b < block → NotIn b (blocks size n block)
blocks-NotIn size zero block b h = tt
blocks-NotIn size (suc n) block b h =
    (omega arith, blocks-NotIn size n (block + size) b (omega arith))

blocks-Distinct : (size n block : ℕ) → 0 < size → Distinct (blocks size n block)
blocks-Distinct size zero block h = tt
blocks-Distinct size (suc n) block h = (
  blocks-NotIn size n (block + size) block (omega arith),
  blocks-Distinct size n (block + size) h,
)

link_below :
    (m : Mem) (size n block a : ℕ) → a < block → 0 < size → link_blocks m size n block a ≡ m a
unfolding link_blocks store
link_below m size zero block a h u = ground arith
link_below m size (suc n) block a h u =
    ground (arith, link_below (store m block (block + size)) size n (block + size) a)

link-Chained :
    (m : Mem) (size n block : ℕ)
    → 0 < size
    → Chained (link_blocks m size n block) block (blocks size (suc n) block)
unfolding link_blocks store
link-Chained m size zero block u = (refl, ground arith)
link-Chained m size (suc n) block u = (
  refl,
  subst
      (λ q.
        Chained (link_blocks (store m block (block + size)) size n (block + size)) q
          (blocks size (suc n) (block + size)))
      (sym (ground (arith, link_below (store m block (block + size)) size n (block + size) block)))
      (link-Chained (store m block (block + size)) size n (block + size) u),
)

length-blocks : (size n block : ℕ) → length (blocks size n block) ≡ n
length-blocks size zero block = refl
length-blocks size (suc n) block = ap suc (length-blocks size n (block + size))

blocks-Valid :
    (p : Partition) (n k : ℕ)
    → Fits p
    → k + n ≤ p.n_max_blocks
    → All (Valid p) (blocks p.blk_size n (p.pool_ptr + p.blk_size * k))
blocks-Valid p zero k f h = tt
blocks-Valid p (suc n) k f h = (
  index-Valid p k f (omega arith),
  subst (λ q. All (Valid p) (blocks p.blk_size n q)) (omega arith)
      (blocks-Valid p n (k + 1) f (omega arith)),
)

settable :
    (h : Header) (s : Scope) (d : Option (ℕ × Bool))
    → scope_err s d ≡ success
    → (scope_set h s (domain_of d)).0 ≡ success
unfolding scope_set scope_err
settable h kernel_global none e = refl
settable h kernel_global (some d) e = cc
settable h domain_local none e = cc
settable h domain_local (some (d, i)) e = refl
settable h unassigned d e = cc

-- An attribute that kMemPartitionScopeAttrErr_ passes can be set.
init_scope-success :
    (h : Header) (caller : Option ℕ) (attr : Option Attr)
    → scope_attr_err attr ≡ success
    → (init_scope h caller attr).0 ≡ success
unfolding init_scope scope_attr_err
init_scope-success h caller none e = refl
init_scope-success h caller (some a) e = settable (owner_domain_set h caller) a.scope a.domain e

module _ (caller : Option ℕ) (p : Partition) (m : Mem) (pool blk n : ℕ) (attr : Option Attr) where
  init_impl-checked :
      scope_attr_err attr ≡ success
      → pool ≢ 0
      → p.header.init ≡ false
      → 0 < blk
      → blk + 3 ≤ ulong_max
      → 0 < n
      → pool % 4 ≡ 0
      → init_impl true caller p m pool blk n attr ≡ init_checked caller p m pool blk n attr
  unfolding init_impl
  init_impl-checked e there fresh sized small many aligned = rw (e, init_impl) (ground arith)

  checked-HasFree :
      pool ≢ 0
      → 0 < blk
      → 0 < n
      → n ≤ ulong_max
      → pool + round_up blk * n ≤ ulong_max
      → let (err, p', m') = init_checked caller p m pool blk n attr in
        HasFree p' m' (blocks (round_up blk) n pool)
  unfolding init_checked block_valid
  checked-HasFree there sized many small fits = record {
    chained =
        subst
          (λ k.
            Chained (link_blocks m (round_up blk) (n - 1) pool) pool (blocks (round_up blk) k pool))
          {x = suc (n - 1)} {y = n} (omega arith)
          (link-Chained m (round_up blk) (n - 1) pool (omega arith));
    valid =
        subst
          (λ q. All (Valid (init_checked caller p m pool blk n attr).1) (blocks (round_up blk) n q))
          {x = pool + round_up blk * 0} {y = pool} (omega arith)
          (blocks-Valid (init_checked caller p m pool blk n attr).1 n 0
            (record {
              pool_there = there;
              sized = omega arith;
              many = many;
              no_overflow = omega arith;
              end_in_word = fits;
            })
            (omega arith));
    distinct = blocks-Distinct (round_up blk) n pool (omega arith);
    counted = sym (length-blocks (round_up blk) n pool);
    within = omega arith;
    in_word = small;
  }

  -- kMemPartitionInitImpl_ with an acceptable attribute, in a phase that allows it, on a
  -- partition not yet initialised, with a block size and a number of blocks that are not 0 and
  -- fit a word, and a pool that is there, is word-aligned and fits into the address space,
  -- succeeds, and all `n` blocks of the rounded size, from the pool's base on, are free.
  pub init-HasFree :
      scope_attr_err attr ≡ success
      → pool ≢ 0
      → p.header.init ≡ false
      → 0 < blk
      → blk + 3 ≤ ulong_max
      → 0 < n
      → n ≤ ulong_max
      → pool % 4 ≡ 0
      → pool + round_up blk * n ≤ ulong_max
      → let (err, p', m') = init_impl true caller p m pool blk n attr in
        (err ≡ success) × HasFree p' m' (blocks (round_up blk) n pool)
  init-HasFree e there fresh sized room many small aligned fits =
      subst (λ t. (t.0 ≡ success) × HasFree t.1 t.2 (blocks (round_up blk) n pool))
        (sym (init_impl-checked e there fresh sized room many aligned))
        (
          unfold init_checked in
              init_scope-success (record (p.header) { init = true; obj_id = memalloc_kobj_id })
                caller attr e,
          checked-HasFree there sized many small fits,
        )
