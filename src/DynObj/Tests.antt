-- ===== src/DynObj/Tests.antt =====
-- Handles and the life of a semaphore in a pool of two blocks.
use rk.Base.{
  ℕ, ◌≡◌, refl, inl, inr, true, false, Bool-cases, ==_iff, sym, ap, Option, none, some, [], ◌∷◌,
  ◌==◌, if◌then◌else◌, arith,
}
use rk.Base.Memory.{Mem}
use rk.Err.{success}
use rk.Obj.{Scope, object_ready_err}
use rk.Mem.{Partition, block_valid, free_list_contains}
use mathlib.Core.Path.{subst}
use rk.Mem.Chain.{Valid}
use rk.Mem.Laws.{IsReady}
use rk.Kernel.{sample_kernel, sample_sema, update}
use rk.Sema.Defs.{init}
use rk.DynObj.Defs.{
  Class, Objects, part_slot, publish, resolve, resolve_any, resolve_dynamic, invalidate,
}
use rk.DynObj.Family.{Env, World, create, destroy}
use rk.DynObj.Kinds.{sema_family}
use rk.DynObj.Laws.{IsSound, some-eq, publish-resolves}
use rk.DynObj.Stale.{Refused, invalidate-Refused}
use rk.DynObj.Sound.{AllSound, registry-AllSound}
use rk.DynObj.Blocks.{HasBlocks, HasTaken, Takes, create-Takes}
use rk.DynObj.Destroy.{Frees, destroy-Frees}

-- blocks at 1000 and 1040, of which those in the list are free
abbrev two_blocks : ℕ → ℕ → Partition
two_blocks ptr n = record {
  header = record {
    obj_id = 0xD04FFF01;
    init = true;
    scope = Scope.kernel_global;
    owner_domain = none;
  };
  free_list_ptr = ptr;
  pool_ptr = 1000;
  blk_size = 40;
  n_max_blocks = 2;
  n_free_blocks = n;
  waiting_queue = [];
  mesg_prio_ceiling_enabled = false;
}

two_blocks-IsReady : (ptr n : ℕ) (caller : Option ℕ) → IsReady (two_blocks ptr n) caller
unfolding object_ready_err
two_blocks-IsReady ptr n caller = refl

two_blocks-Valid : (ptr n : ℕ) → Valid (two_blocks ptr n) 1000
unfolding block_valid
two_blocks-Valid ptr n = refl

two_blocks-Valid' : (ptr n : ℕ) → Valid (two_blocks ptr n) 1040
unfolding block_valid
two_blocks-Valid' ptr n = refl

abbrev sema_class : Partition → (ℕ → ℕ) → Class
sema_class p registry = record {
  part = p;
  registry = registry;
  generation = λ s. 1;
  max_objects = 2;
  obj_size = 40;
  obj_id = 3490709249;
}

abbrev only_semas : Class → Objects
only_semas c = record { parts_init = true; class = λ kind. if kind == 2 then some c else none }

-- nothing is registered
abbrev none_class : Class
none_class = sema_class (two_blocks 1000 2) (λ s. 0)

abbrev none_yet : Objects
none_yet = only_semas none_class

-- every word is the tag of a semaphore
abbrev sema_ids : ℕ → ℕ
sema_ids a = 3490709249

none_yet-IsSound : IsSound none_class
none_yet-IsSound = record {
  slots = ground arith;
  blocks = ground arith;
  generations = λ s. ground arith;
  indexed = λ s n. absurd (n refl);
}

publish-resolves_example :
    let o' = (publish none_yet false sema_ids 2 1040).2 in
    (resolve o' sema_ids 2 2717909249 ≡ (success, 1040))
    × (resolve_any o' sema_ids 2717909249 ≡ (success, 1040))
    × (resolve_dynamic o' false sema_ids 2 2717909249 ≡ (success, 1040))
unfolding publish
publish-resolves_example =
    publish-resolves none_yet false sema_ids 2 1040 2717909249
      (publish none_yet false sema_ids 2 1040).2 none_class refl none_yet-IsSound (ground arith)
      (ground arith) refl

-- the semaphore at 1040 is registered
abbrev one_there : Objects
one_there = (publish none_yet false sema_ids 2 1040).2

one_there-IsSound : IsSound (sema_class (two_blocks 1000 2) (update (λ s. 0) 1 1040))
unfolding part_slot
one_there-IsSound = record {
  slots = ground arith;
  blocks = ground arith;
  generations = λ s. ground arith;
  indexed = λ s n. elim (Bool-cases (s == 1)) [
    | inl b ↦ rw b (ap (λ x. some x) (sym ((==_iff s 1).0 b)))
    | inr b ↦ absurd ((rw b at n) refl)
  ];
}

invalidate-Refused_example :
    let o' = (invalidate one_there false sema_ids 2 2717909249).1 in
    let o'' = (publish o' false sema_ids 2 1040).2 in
    Refused o' sema_ids 2 2717909249 × Refused o'' sema_ids 2 2717909249
unfolding publish invalidate
invalidate-Refused_example =
    let o' = (invalidate one_there false sema_ids 2 2717909249).1 in
    invalidate-Refused one_there false sema_ids 2 2717909249 o'
      (sema_class (two_blocks 1000 2) (update (λ s. 0) 1 1040)) 1040 2717909505
      (publish o' false sema_ids 2 1040).2 refl one_there-IsSound refl refl refl

none_yet-AllSound : AllSound none_yet
none_yet-AllSound kind c e = elim (Bool-cases (kind == 2)) [
  | inl b ↦ subst IsSound (some-eq none_class c (rw b at e)) none_yet-IsSound
  | inr b ↦ ground (arith, rw b at e)
]

registry-AllSound_example :
    AllSound (publish none_yet false sema_ids 2 1040).2
    × AllSound (invalidate none_yet false sema_ids 2 2717909249).1
registry-AllSound_example =
    registry-AllSound none_yet false sema_ids 2 1040 2717909249 none_yet-AllSound

-- 1000 leads to 1040, which is the last
abbrev links : Mem
links a = if a == 1000 then 1040 else 0

abbrev empty_world : World
empty_world = record { kernel = sample_kernel; objects = none_yet; mem = links }

empty_world-HasBlocks : HasBlocks 2 none_yet links (1000 ∷ 1040 ∷ [])
empty_world-HasBlocks = record {
  class = none_class;
  found = refl;
  ready = two_blocks-IsReady 1000 2;
  free = record {
    chained = (refl, (refl, refl));
    valid = (two_blocks-Valid 1000 2, (two_blocks-Valid' 1000 2, tt));
    distinct = ((ground arith, tt), (tt, tt));
    counted = refl;
    within = ground arith;
    in_word = ground arith;
  };
}

abbrev plain_env : Env
plain_env = record { named = success; app_err = success; app_domain = 9 }

create-Takes_example :
    Takes sema_family
      (1000 ∷ 1040 ∷ [])
      (create sema_family plain_env (λ k a. init k (some a) 1 3) empty_world true (some 0) none)
unfolding sema_family
create-Takes_example =
    create-Takes sema_family plain_env (λ k a. init k (some a) 1 3) empty_world true (some 0) none
      (1000 ∷ 1040 ∷ []) empty_world-HasBlocks

-- the semaphore at 1040 lives, and 1000 is free
abbrev sema_world : World
sema_world = record {
  kernel = record sample_kernel { semas = λ a. sample_sema 1 [] };
  objects = only_semas (sema_class (two_blocks 1000 1) (update (λ s. 0) 1 1040));
  mem = λ a. 0;
}

sema_world-HasTaken : HasTaken 2 sema_world.objects sema_world.mem 1040 (1000 ∷ [])
sema_world-HasTaken = record {
  class = sema_class (two_blocks 1000 1) (update (λ s. 0) 1 1040);
  found = refl;
  ready = two_blocks-IsReady 1000 1;
  free = record {
    chained = (refl, refl);
    valid = (two_blocks-Valid 1000 1, tt);
    distinct = (tt, tt);
    counted = refl;
    within = ground arith;
    in_word = ground arith;
  };
  valid = two_blocks-Valid' 1000 1;
  new = (ground arith, tt);
  room = ground arith;
}

destroy-Frees_example :
    Frees sema_family 2717909249 1040 (1000 ∷ []) (destroy sema_family sema_world 2717909249)
unfolding sema_family resolve_dynamic
destroy-Frees_example =
    destroy-Frees sema_family sema_world 2717909249 1040 (1000 ∷ []) refl sema_world-HasTaken

-- the destruction there succeeds
sema_world_destroyed : (destroy sema_family sema_world 2717909249).0 ≡ success
unfolding destroy sema_family object_ready_err block_valid free_list_contains
sema_world_destroyed = refl

-- the creation in the empty pool gives the handle of slot 0, and resolves
sema_created :
    let (e, h, w) =
      create sema_family plain_env (λ k a. init k (some a) 1 3) empty_world true (some 0) none in
    (e ≡ success) × (h ≡ 2717909248)
unfolding create sema_family object_ready_err block_valid free_list_contains init
sema_created = (refl, refl)
