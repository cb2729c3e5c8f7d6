-- ===== src/Delta/Tests.antt =====
-- The timeout theorems at a list of two nodes, and at readings near the end of the counter.
use rk.Base.{
  ◌+◌, ◌*◌, ◌/◌, ◌<◌, ◌≤◌, ◌≡◌, none, some, List, [], ◌∷◌, ◌==◌, ltb, if◌then◌else◌, arith,
}
use rk.Base.Word.{ulong_max, add_word, sub_word}
use rk.Base.Distinct.{NotIn, Distinct}
use rk.Delta.{Node, insert_delta, remove_node, tick}
use rk.Delta.Expiry.{
  remaining, ids, contains, later, is_due, remaining-insert_delta, remaining-remove_node,
  remaining-tick,
}
use rk.Delta.Tick.{
  tick_delta, count_ticks, release_delay, release_wake, tick_add, tick_delta-count_ticks,
  release_delay_bounds,
}

-- node 7 expires in 3 ticks, node 8 in 5
abbrev two_nodes : List Node
two_nodes = record { id = 7; dtick = 3 } ∷ record { id = 8; dtick = 2 } ∷ []

abbrev new_node : Node
new_node = record { id = 9; dtick = 4 }

new_NotIn : NotIn 9 (ids two_nodes)
new_NotIn = (ground arith, (ground arith, tt))

two_Distinct : Distinct (ids two_nodes)
two_Distinct = ((ground arith, tt), (tt, tt))

remaining-insert_delta_example :
    remaining 0 (insert_delta two_nodes new_node) 8
    ≡ (if new_node.id == 8 then some new_node.dtick else remaining 0 two_nodes 8)
remaining-insert_delta_example = remaining-insert_delta two_nodes new_node 8 new_NotIn

remaining-remove_node_example :
    remaining 0 (remove_node two_nodes 7) 8 ≡ (if 7 == 8 then none else remaining 0 two_nodes 8)
remaining-remove_node_example = remaining-remove_node two_nodes 7 8 (omega arith) two_Distinct

remaining-tick_example :
    (remaining 0 (tick two_nodes).1 8 ≡ later (remaining 0 two_nodes 8))
    × (contains 8 (tick two_nodes).0 ≡ is_due (remaining 0 two_nodes 8))
remaining-tick_example = remaining-tick two_nodes 8 (omega arith) two_Distinct

tick_delta-count_ticks_example :
    tick_delta (count_ticks 3 (4294967293, 0)).0 4294967293
    ≡ (if ltb (4294967293 + 3) ulong_max then 3 else add_word 3 1)
tick_delta-count_ticks_example = tick_delta-count_ticks 3 4294967293 0 (omega arith) (omega arith)

release_delay_bounds_example :
    let d = release_delay 4294967290 20 10 in
    (0 < d)
    × (d ≤ 10)
    × (sub_word 20 4294967290 + d ≡ (sub_word 20 4294967290 / 10 + 1) * 10)
    × (release_wake 4294967290 20 10 ≡ tick_add 20 d)
release_delay_bounds_example =
    release_delay_bounds 4294967290 20 10 (omega arith) (omega arith) (omega arith) (omega arith)
