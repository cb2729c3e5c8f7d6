-- ===== src/Delta.antt =====
-- The delta lists of core/src/ktimer.c: pending timeouts in order of expiry, each `dtick` relative
-- to the node before it. The chain of `nextPtr` from the head is a list; `prevPtr` mirrors it.
pub mod Expiry
pub mod Tick
mod Tests
use rk.Base.{ℕ, ◌+◌, ◌-◌, List, [], ◌∷◌, ◌==◌, ltb, if◌then◌else◌}
use rk.Base.Word.{add_word}

-- a linked `RK_TIMEOUT_NODE`: whose it is, and its `dtick`
pub record Node : Type 0 where
  pub id : ℕ
  pub dtick : ℕ

-- kTimeoutListInsertDelta_: the `while` passes the nodes that expire earlier, taking their deltas
-- off the new node's; the node that follows then counts from the new one.
unfoldable pub insert_delta : List Node → Node → List Node
insert_delta [] n = n ∷ []
insert_delta (c ∷ cs) n =
    if ltb c.dtick n.dtick
    then c ∷ insert_delta cs (record n { dtick = n.dtick - c.dtick })
    else n ∷ record c { dtick = c.dtick - n.dtick } ∷ cs

-- what kRemoveTimeoutNode gives the node that follows
unfoldable pub donate : ℕ → List Node → List Node
donate d [] = []
donate d (c ∷ cs) = record c { dtick = add_word c.dtick d } ∷ cs

-- kRemoveTimeoutNode of an armed node: unlink it, its delta goes to the next one.
unfoldable pub remove_node : List Node → ℕ → List Node
unfolding donate
remove_node [] k = []
remove_node (c ∷ cs) k =
    let rest = remove_node cs k in if c.id == k then donate c.dtick cs else c ∷ rest

-- the first `if` of kHandleTimeoutList: only the head counts down
unfoldable pub dec_head : List Node → List Node
dec_head [] = []
dec_head (c ∷ cs) = if ltb 0 c.dtick then record c { dtick = c.dtick - 1 } ∷ cs else c ∷ cs

-- the `while` of kHandleTimeoutList: which nodes it readies, in order, and what stays linked
unfoldable pub expire : List Node → List ℕ × List Node
expire [] = ([], [])
expire (c ∷ cs) =
    let (gone, left) = expire cs in if c.dtick == 0 then (c.id ∷ gone, left) else ([], c ∷ cs)

-- kHandleTimeoutList, its wakings left to the caller
unfoldable pub tick : List Node → List ℕ × List Node
unfolding dec_head expire
tick ns = expire (dec_head ns)
