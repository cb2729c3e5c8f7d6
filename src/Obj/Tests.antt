-- ===== src/Obj/Tests.antt =====
-- The access check at an object of domain 5.
use rk.Base.{◌≡◌, ◌↔◌, true, some}
use rk.Err.{success}
use rk.Obj.{Header, Scope, access_err}
use rk.Obj.Access.{MayUse, access_err-MayUse}

abbrev local : Header
local = record { obj_id = 1; init = true; scope = Scope.domain_local; owner_domain = some 5 }

access_err-MayUse_example :
    (access_err (some local) (some 6) ≡ success) ↔ MayUse local.scope local.owner_domain (some 6)
access_err-MayUse_example = access_err-MayUse local (some 6)
