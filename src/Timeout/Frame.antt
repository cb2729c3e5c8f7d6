-- ===== src/Timeout/Frame.antt =====
-- Arming and disarming leave the objects and the priorities alone.
use rk.Base.{ℕ, ◌≡◌, refl, arith, List, ◌==◌, ltb}
use rk.Delta.{Node, remove_node}
use rk.Kernel.{Kernel, TimeoutNode, TimeoutType}
use rk.Delta.Tick.{max_period}
use rk.Sched.Frame.{Frame, Frame-refl, Frame-trans, if-Frame, if_result-Frame, set_task-Frame}
use rk.Timeout.Node.{node_of, set_node, reset, remove, arm, add_by_type, add, stop_timeout, is_type}

pub set_node-Frame : (k : Kernel) (t : ℕ) (n : TimeoutNode) → Frame k (set_node k t n)
set_node-Frame k t n = set_task-Frame k t (record (k.tasks t) { timeout_node = n }) refl refl refl

pub reset-Frame : (k : Kernel) (t : ℕ) → Frame k (reset k t)
unfolding reset
reset-Frame k t = set_node-Frame k t _

timeouts-Frame : (k : Kernel) (ns : List Node) → Frame k (record k { timeouts = ns })
timeouts-Frame k ns = record {
  semas = refl;
  mutexes = refl;
  sleepqs = refl;
  mesgqs = refl;
  memory = refl;
  prio = λ t. refl;
  owned = λ t. refl;
  domain = λ t. refl;
  run = refl;
}

pub remove-Frame : (k : Kernel) (t : ℕ) → Frame k (remove k t).1
unfolding remove
remove-Frame k t =
    if_result-Frame (node_of k t).armed k _ _
      (Frame-trans (timeouts-Frame k (remove_node k.timeouts t)) (set_node-Frame _ t _))
      (Frame-refl k)

arm-Frame : (k : Kernel) (t ticks : ℕ) → Frame k (arm k t ticks)
unfolding arm
arm-Frame k t ticks = record {
  semas = refl;
  mutexes = refl;
  sleepqs = refl;
  mesgqs = refl;
  memory = refl;
  prio = λ i. ground arith;
  owned = λ i. ground arith;
  domain = λ i. ground arith;
  run = refl;
}

add_by_type-Frame :
    (k : Kernel) (t ticks : ℕ) (type : TimeoutType) → Frame k (add_by_type k t ticks type).1
unfolding add_by_type
add_by_type-Frame k t ticks TimeoutType.unset = reset-Frame k t
add_by_type-Frame k t ticks _ =
    if_result-Frame (node_of k t).armed k _ _
      (Frame-trans (remove-Frame k t) (reset-Frame (remove k t).1 t)) (arm-Frame k t ticks)

pub add-Frame : (k : Kernel) (t ticks : ℕ) → Frame k (add k t ticks).1
unfolding add
add-Frame k t ticks = if_result-Frame (ticks == 0) k _ _ (Frame-refl k) (
    if_result-Frame (ltb max_period ticks) k _ _ (Frame-refl k)
      (add_by_type-Frame k t ticks (node_of k t).timeout_type))

pub stop_timeout-Frame : (k : Kernel) (t : ℕ) (y : TimeoutType) → Frame k (stop_timeout k t y)
unfolding stop_timeout
stop_timeout-Frame k t y =
    if-Frame (is_type (node_of k t).timeout_type y) k _ _
      (Frame-trans (remove-Frame k t) (set_node-Frame (remove k t).1 t _)) (Frame-refl k)

pub stop_timeout-lists :
    (k : Kernel) (t : ℕ) (y : TimeoutType) → (stop_timeout k t y).ready_lists ≡ k.ready_lists
unfolding stop_timeout remove
stop_timeout-lists k t y = ground arith

pub stop_timeout-status :
    (k : Kernel) (t i : ℕ) (y : TimeoutType)
    → ((stop_timeout k t y).tasks i).status ≡ (k.tasks i).status
unfolding stop_timeout remove
stop_timeout-status k t i y = ground arith
