-- ===== src/Mem/Tests.antt =====
-- The allocator's theorems at a pool of two blocks of 8 bytes at 4096, the second one free.
use rk.Base.{ℕ, ◌≡◌, ◌⊎◌, refl, inl, true, false, none, List, [], ◌∷◌, arith}
use rk.Base.Memory.{Mem}
use rk.Err.{success, mem_free}
use rk.Obj.{Header, Scope, object_ready_err}
use rk.Mem.Defs.{Partition, block_valid, alloc, free, init_impl, round_up, scope_attr_err}
use rk.Mem.Chain.{HasFree, Valid}
use rk.Mem.Laws.{IsReady, alloc-HasFree, free-HasFree, free_refused}
use rk.Mem.Init.{blocks, init-HasFree}

abbrev pool_header : Header
pool_header = record {
  obj_id = 0xD04FFF01;
  init = true;
  scope = Scope.kernel_global;
  owner_domain = none;
}

abbrev pool : Partition
pool = record {
  header = pool_header;
  free_list_ptr = 4104;
  pool_ptr = 4096;
  blk_size = 8;
  n_max_blocks = 2;
  n_free_blocks = 1;
  waiting_queue = [];
  mesg_prio_ceiling_enabled = false;
}

abbrev zeros : Mem
zeros a = 0

pool-IsReady : IsReady pool none
unfolding object_ready_err
pool-IsReady = refl

second_Valid : Valid pool 4104
unfolding block_valid
second_Valid = refl

first_Valid : Valid pool 4096
unfolding block_valid
first_Valid = refl

pool-HasFree : HasFree pool zeros (4104 ∷ [])
pool-HasFree = record {
  chained = (refl, refl);
  valid = (second_Valid, tt);
  distinct = (tt, tt);
  counted = refl;
  within = ground arith;
  in_word = ground arith;
}

abbrev one_free : List ℕ
one_free = 4104 ∷ []

alloc-HasFree_example :
    ((one_free ≡ []) × (alloc pool zeros none ≡ (0, pool)))
    ⊎ ((b : ℕ) × (rest : List ℕ) × (one_free ≡ b ∷ rest)
        × ((alloc pool zeros none).0 ≡ b)
        × Valid pool b
        × HasFree (alloc pool zeros none).1 zeros rest)
alloc-HasFree_example = alloc-HasFree pool zeros none one_free pool-IsReady pool-HasFree

free-HasFree_example :
    let (err, p', m') = free pool zeros none 4096 in
    (err ≡ success) × HasFree p' m' (4096 ∷ 4104 ∷ [])
free-HasFree_example =
    free-HasFree pool zeros none (4104 ∷ []) 4096 pool-IsReady pool-HasFree first_Valid
      (ground arith, tt) (ground arith)

free_refused_example : free pool zeros none 4104 ≡ (mem_free, pool, zeros)
free_refused_example =
    free_refused pool zeros none 4104 pool-IsReady (ground arith) (inl ([], [], pool-HasFree))

abbrev fresh : Partition
fresh = record pool { header = record pool_header { init = false } }

no_attr : scope_attr_err none ≡ success
unfolding scope_attr_err
no_attr = refl

init-HasFree_example :
    let (err, p', m') = init_impl true none fresh zeros 4096 6 3 none in
    (err ≡ success) × HasFree p' m' (blocks (round_up 6) 3 4096)
unfolding round_up
init-HasFree_example =
    init-HasFree none fresh zeros 4096 6 3 none no_attr (ground arith) refl (ground arith)
      (ground arith) (ground arith) (ground arith) refl (ground arith)
