-- ===== src/Obj.antt =====
-- The header that every kernel object begins with (core/inc/kobjs.h): its type tag, whether it
-- is initialised, and the domain whose tasks may use it.
pub mod Access
mod Tests
use rk.Base.{ℕ, Bool, true, false, Option, none, some, ◌==◌, if◌then◌else◌}
use rk.Err.{Err, success, obj_null, invalid_obj, obj_not_init, invalid_param}

-- `RK_OBJ_SCOPE`
pub data Scope : Type 0 where
  unassigned domain_local kernel_global : Scope

-- `struct RK_STRUCT_KOBJ`; a domain is named by the address of its `RK_DOMAIN`. The name field
-- is left out.
pub record Header : Type 0 where
  pub obj_id : ℕ
  pub init : Bool
  pub scope : Scope
  pub owner_domain : Option ℕ

-- kObjHeaderReady: a null pointer is `none`
unfoldable pub ready : Option Header → ℕ → Bool
ready none id = false
ready (some h) id = if h.obj_id == id then h.init else false

-- kObjHeaderReadyErr
unfoldable pub ready_err : Option Header → ℕ → Err
ready_err none id = obj_null
ready_err (some h) id =
    if h.obj_id == id then (if h.init then success else obj_not_init) else invalid_obj

-- kObjHeaderOwnerDomainSet on a header that is there
unfoldable pub owner_domain_set : Header → Option ℕ → Header
owner_domain_set h none = record h { scope = unassigned; owner_domain = none }
owner_domain_set h (some d) = record h { scope = domain_local; owner_domain = some d }

-- kObjHeaderScopeSet on a header that is there
unfoldable pub scope_set : Header → Scope → Option ℕ → Err × Header
scope_set h unassigned d = (invalid_param, h)
scope_set h domain_local none = (invalid_param, h)
scope_set h domain_local (some d) =
    (success, record h { scope = domain_local; owner_domain = some d })
scope_set h kernel_global (some d) = (invalid_param, h)
scope_set h kernel_global none = (success, record h { scope = kernel_global; owner_domain = none })

-- the last tests of kObjHeaderDomainLocalAccessErr: a local object against the caller's domain
same_domain : Option ℕ → Option ℕ → Err
same_domain none caller = invalid_param
same_domain (some d) none = success
same_domain (some d) (some c) = if d == c then success else invalid_param

access_by_scope : Scope → Option ℕ → Option ℕ → Err
unfolding same_domain
access_by_scope kernel_global owner caller = success
access_by_scope unassigned owner none = success
access_by_scope unassigned owner (some c) = invalid_param
access_by_scope domain_local owner caller = same_domain owner caller

-- kObjHeaderDomainLocalAccessErr
unfoldable pub access_err : Option Header → Option ℕ → Err
unfolding access_by_scope
access_err none caller = obj_null
access_err (some h) caller = access_by_scope h.scope h.owner_domain caller

-- The `...ReadyErr_` helper that each object type defines alike (kSemaphoreReadyErr_,
-- kMutexReadyErr_, kSleepQueueReadyErr_, kMemPartitionReadyErr_): the type check, then the domain.
unfoldable pub object_ready_err : Option Header → ℕ → Option ℕ → Err
unfolding ready_err access_err
object_ready_err h id caller = elim (ready_err h id) [ success ↦ access_err h caller | e ↦ e ]
