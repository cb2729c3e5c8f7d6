-- ===== src/KList/Tests.antt =====
-- The list theorems at a list of two nodes: sentinel 1, nodes 2 and 3.
use rk.Base.{◌≡◌, refl, [], ◌∷◌, ◌==◌, if◌then◌else◌, arith}
use rk.Err.{success}
use rk.KList.Defs.{Heap, KList, remove}
use rk.KList.Refine.{Holds, remove-Holds}

abbrev pair : KList
pair = record { dummy = 1; size = 2 }

abbrev pair_heap : Heap
pair_heap = record {
  next = λ a. if a == 1 then 2 else (if a == 2 then 3 else (if a == 3 then 1 else 0));
  prev = λ a. if a == 1 then 3 else (if a == 2 then 1 else (if a == 3 then 2 else 0));
}

pair-Holds : Holds pair pair_heap (2 ∷ 3 ∷ [])
pair-Holds = record {
  linked = (refl, refl, (refl, refl, (refl, refl, tt)));
  distinct = ((ground arith, (ground arith, tt)), ((ground arith, tt), (tt, tt)));
  counted = refl;
}

remove-Holds_example :
    let (e, l', h') = remove pair pair_heap 3 in (e ≡ success) × Holds l' h' (2 ∷ [])
remove-Holds_example = remove-Holds pair pair_heap (2 ∷ []) [] 3 pair-Holds
