-- ===== src/KList/Defs.antt =====
-- The functions of core/src/klist.c over an explicit heap of nodes. A node is named by its
-- address, NULL is 0. A function that updates the list returns the list and the heap.
use rk.Base.{ℕ, ◌-◌, Option, none, some, ◌==◌, if◌then◌else◌}
use rk.Base.Word.{add_word}
use rk.Err.{Err, success, list_empty}

-- the `nextPtr` and `prevPtr` of every `RK_NODE`
pub record Heap : Type 0 where
  pub next : ℕ → ℕ
  pub prev : ℕ → ℕ

-- `RK_LIST`: the address of `listDummy` and the count of real nodes
pub record KList : Type 0 where
  pub dummy : ℕ
  pub size : ℕ

abbrev pub update : (ℕ → ℕ) → ℕ → ℕ → ℕ → ℕ
update f p v a = if a == p then v else f a

-- `p->nextPtr = v`
abbrev pub set_next : Heap → ℕ → ℕ → Heap
set_next h p v = record h { next = update h.next p v }

-- `p->prevPtr = v`
abbrev pub set_prev : Heap → ℕ → ℕ → Heap
set_prev h p v = record h { prev = update h.prev p v }

-- kListInit
unfoldable pub init : KList → Heap → KList × Heap
init l h = (record l { size = 0 }, set_prev (set_next h l.dummy l.dummy) l.dummy l.dummy)

-- kListInsertAfter
unfoldable pub insert_after : KList → Heap → ℕ → ℕ → KList × Heap
insert_after l h ref new =
    let h1 = set_next h new (h.next ref) in
    let h2 = set_prev h1 (h1.next ref) new in
    let h3 = set_prev h2 new ref in (record l { size = add_word l.size 1 }, set_next h3 ref new)

-- KLISTNODEDEL
unfoldable pub node_del : Heap → ℕ → Heap
node_del h n =
    let h1 = set_prev h (h.next n) (h.prev n) in
    let h2 = set_next h1 (h1.prev n) (h1.next n) in set_next (set_prev h2 n 0) n 0

-- kListRemove
unfoldable pub remove : KList → Heap → ℕ → Err × KList × Heap
remove l h n =
    if l.size == 0
    then (list_empty, l, h)
    else (success, record l { size = l.size - 1 }, node_del h n)

-- kListRemoveHead: the option is what goes through `remNodePPtr`.
unfoldable pub remove_head : KList → Heap → Err × Option ℕ × KList × Heap
remove_head l h = if l.size == 0 then (list_empty, none, l, h) else (
  success,
  some (h.next l.dummy),
  record l { size = l.size - 1 },
  node_del h (h.next l.dummy),
)

-- kListAddTail
unfoldable pub add_tail : KList → Heap → ℕ → KList × Heap
unfolding insert_after
add_tail l h n = insert_after l h (h.prev l.dummy) n

-- kListAddHead
unfoldable pub add_head : KList → Heap → ℕ → KList × Heap
unfolding insert_after
add_head l h n = insert_after l h l.dummy n

-- kListRemoveTail
unfoldable pub remove_tail : KList → Heap → Err × Option ℕ × KList × Heap
remove_tail l h = if l.size == 0 then (list_empty, none, l, h) else (
  success,
  some (h.prev l.dummy),
  record l { size = l.size - 1 },
  node_del h (h.prev l.dummy),
)
