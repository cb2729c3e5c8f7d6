-- ===== src/Handle/Defs.antt =====
-- The task registry and task handles of core/src/ksch.c. A handle is a word; NULL is 0. A mask of a
-- bit field is written with `/` and `%`, and `|` of disjoint fields with `+`.
use rk.Base.{
  ℕ, zero, suc, ◌+◌, ◌-◌, ◌*◌, ◌/◌, ◌%◌, Bool, true, false, ◌&&◌, ◌||◌, not, Option, none, some,
  ◌==◌, ltb, if◌then◌else◌,
}
use rk.Err.{Err, success, obj_null, invalid_obj, obj_not_init, task_pool_empty}
use rk.Kernel.{update}

-- RK_gTaskHandleByPid, RK_gTaskHandleGenerationByPid, RK_gTaskQuarantineByPid and
-- RK_gTaskDynStackPartByPid, and of the task control block at an address `tid`, `init` and whether it lies in the pool
pub record Registry : Type 0 where
  pub threads : ℕ
  pub task : ℕ → Option ℕ
  pub generation : ℕ → ℕ
  pub quarantine : ℕ → Bool
  pub dyn_stack : ℕ → Option ℕ
  pub tid : ℕ → ℕ
  pub init : ℕ → Bool
  pub in_pool : ℕ → Bool

-- `RK_gTaskHandleByPid[tid] == taskPtr`, for a `taskPtr` that is not NULL
unfoldable pub is_at : Option ℕ → ℕ → Bool
is_at none p = false
is_at (some q) p = q == p

unfoldable pub is_null : Option ℕ → Bool
is_null none = true
is_null (some q) = false

-- RK_HANDLE_TAG | RK_HANDLE_TYPE_TASK | generation << 8 | slot
unfoldable pub encode : ℕ → ℕ → ℕ
encode generation tid = 2684354560 + 16777216 + (generation % 65536) * 256 + tid % 256

-- kTaskHandleDecode_: the slot and the generation
unfoldable pub decode : ℕ → ℕ → Option (ℕ × ℕ)
decode threads raw =
    if not (raw / 268435456 % 16 == 10) || not (raw / 16777216 % 16 == 1)
    then none
    else (if not (ltb (raw % 256) threads) then none else some (raw % 256, raw / 256 % 65536))

-- kTaskHandleFromTcb
unfoldable pub from_tcb : Registry → Option ℕ → ℕ
unfolding is_at encode
from_tcb r none = 0
from_tcb r (some p) =
    let t = r.tid p in
    if not (ltb t r.threads) || not (is_at (r.task t) p) then 0 else encode (r.generation t) t

-- the checks of kTaskHandleResolve on the registered task
unfoldable pub resolve_task : Registry → ℕ → Option ℕ → Err × Option ℕ
resolve_task r t none = (invalid_obj, none)
resolve_task r t (some p) =
    if not (r.tid p == t) || not (r.in_pool p)
    then (invalid_obj, none)
    else (if r.init p then (success, some p) else (obj_not_init, none))

unfoldable pub resolve_decoded : Registry → Option (ℕ × ℕ) → Err × Option ℕ
unfolding resolve_task
resolve_decoded r none = (invalid_obj, none)
resolve_decoded r (some (t, g)) =
    if g == r.generation t then resolve_task r t (r.task t) else (invalid_obj, none)

-- kTaskHandleResolve, with a place for the result
unfoldable pub resolve : Registry → ℕ → Err × Option ℕ
unfolding decode resolve_decoded
resolve r h = if h == 0 then (obj_null, none) else resolve_decoded r (decode r.threads h)

-- kTaskRegister_ of a task, which has the slot `t` from then on
unfoldable pub register : Registry → Option ℕ → ℕ → Err × Registry
unfolding is_null
register r none t = (obj_null, r)
register r (some p) t =
    if not (ltb t r.threads) || not (is_null (r.task t)) || r.quarantine t
    then (task_pool_empty, r)
    else (
      success,
      record r { task = update r.task t (some p); dyn_stack = update r.dyn_stack t none },
    )

-- kTaskHandleGenerationBump_
unfoldable pub bump : Registry → ℕ → Registry
bump r t =
    if ltb t r.threads
    then record r { generation = update r.generation t ((r.generation t + 1) % 65536) }
    else r

-- kTaskRegistryInvalidate_
unfoldable pub invalidate : Registry → Option ℕ → Registry
unfolding is_at bump
invalidate r none = r
invalidate r (some p) =
    let t = r.tid p in
    if ltb t r.threads && is_at (r.task t) p
    then bump (record r { task = update r.task t none }) t
    else r

-- the `for` of kTaskFindFreeTid_ over `n` slots from `t` on
unfoldable pub find_free : Registry → ℕ → ℕ → ℕ
unfolding is_null
find_free r t zero = r.threads
find_free r t (suc n) =
    let rest = find_free r (t + 1) n in
    if is_null (r.task t) && not (r.quarantine t) then t else rest

-- kTaskFindFreeTid_; `systasks` is RK_N_SYSTASKS
unfoldable pub find_free_tid : Registry → ℕ → ℕ
unfolding find_free
find_free_tid r systasks = find_free r systasks (r.threads - systasks)

-- kTaskHandleResolveOrRunning, with a place for the result and RK_gRunPtr given
unfoldable pub resolve_or_running : Registry → Option ℕ → ℕ → Err × Option ℕ
unfolding resolve
resolve_or_running r run h = if not (h == 0) then resolve r h else elim run [
  | none ↦ (invalid_obj, none)
  | some p ↦ if r.init p then (success, some p) else (invalid_obj, none)
]
