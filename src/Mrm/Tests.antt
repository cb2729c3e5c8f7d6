-- ===== src/Mrm/Tests.antt =====
-- An object with two buffers, one of which the running task has reserved.
use rk.Base.{
  ℕ, ◌+◌, ◌≡◌, ◌⊎◌, refl, inl, inr, true, false, none, some, [], ◌∷◌, ◌==◌, if◌then◌else◌, arith,
}
use rk.Err.{success}
use rk.Obj.{Scope}
use rk.Mem.{Partition}
use rk.Kernel.{sample_kernel, sample_header}
use rk.Mrm.Defs.{State, lease_task}
use rk.Mrm.Ops.{get, unget, publish}
use rk.Mrm.Leases.{total}
use rk.Mrm.Counts.{LeasesAgree, calls-LeasesAgree}
use rk.Mrm.Recent.{get-publish}
use rk.Mrm.Words.{block_words, first_words}
use rk.Mrm.Readers.{publish_keeps_readers}

-- the words 7, 9, 11, ...
abbrev message : ℕ → ℕ
message i = 7 + i + i

abbrev second_free : ℕ → ℕ → Partition
second_free pool size = record {
  header = record {
    obj_id = 0xD04FFF01;
    init = true;
    scope = Scope.kernel_global;
    owner_domain = none;
  };
  free_list_ptr = pool + size;
  pool_ptr = pool;
  blk_size = size;
  n_max_blocks = 2;
  n_free_blocks = 1;
  waiting_queue = [];
  mesg_prio_ceiling_enabled = false;
}

-- the buffer at 2000 has the block at 3000, and the running task 4 has reserved it
abbrev one_reserved : State
one_reserved = record {
  mrms = λ a. record {
    header = sample_header 0xD01FFF02;
    mrm_mem = second_free 2000 20;
    data_mem = second_free 3000 8;
    curr = 0;
    size = 2;
  };
  block = λ b. 3000;
  users = λ b. 0;
  mem = λ a. 0;
  leases =
      record { mrm = 8; buf = 2000; get_count = 0; tid = 4; reserved = true }
      ∷ record { mrm = 0; buf = 0; get_count = 0; tid = 0; reserved = false }
      ∷ [];
}

one_reserved-LeasesAgree : LeasesAgree one_reserved
unfolding total
one_reserved-LeasesAgree = record {
  counts = λ b n. ground arith;
  leases_ok = ((ground arith, inl (ground arith)), ((ground arith, inr refl), tt));
  room = ground arith;
}

calls-LeasesAgree_example :
    LeasesAgree (get sample_kernel one_reserved 8 true).2
    × LeasesAgree (unget sample_kernel one_reserved 8 2000).1
    × LeasesAgree (publish sample_kernel one_reserved 8 2000 (some message)).1
unfolding lease_task
calls-LeasesAgree_example =
    calls-LeasesAgree sample_kernel 4 one_reserved 8 2000 true (some message) refl (ground arith)
      one_reserved-LeasesAgree

get-publish_example :
    let (c, got, s') =
      get sample_kernel (publish sample_kernel one_reserved 8 2000 (some message)).1 8 true in
    ((c ≡ 0) × (got ≡ [])) ⊎ ((c ≡ 2000) × (got ≡ first_words 2 message))
unfolding publish
get-publish_example = get-publish sample_kernel sample_kernel one_reserved 8 2000 message true refl

-- the get there succeeds
got_there :
    (get sample_kernel (publish sample_kernel one_reserved 8 2000 (some message)).1 8 true).0 ≡ 2000
unfolding publish get
got_there = refl

-- a reader of the current buffer at 2020, while the one at 2000 is published
abbrev one_reader : State
one_reader = record one_reserved {
  mrms = λ a. record (one_reserved.mrms a) { curr = 2020 };
  block = λ b. if b == 2020 then 3008 else 3000;
  users = λ b. if b == 2020 then 1 else 0;
}

publish_keeps_readers_example :
    let s' = (publish sample_kernel one_reader 8 2000 (some message)).1 in
    (s'.block 2020 ≡ one_reader.block 2020)
    × (block_words s'.mem (s'.block 2020) 2 ≡ block_words one_reader.mem (one_reader.block 2020) 2)
publish_keeps_readers_example =
    publish_keeps_readers sample_kernel one_reader 8 2000 2020 message (ground arith)
      (λ n. (ground arith, ground arith, ground arith)) (λ n. absurd (n refl))

-- the publication there succeeds
published_there : (publish sample_kernel one_reader 8 2000 (some message)).0 ≡ success
unfolding publish
published_there = refl

-- the word of the message that the get after it finds
message_read :
    (get sample_kernel (publish sample_kernel one_reserved 8 2000 (some message)).1 8 true).1
    ≡ 7 ∷ 9 ∷ []
unfolding publish get
message_read = refl
