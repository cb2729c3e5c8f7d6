-- ===== src/Obj/Access.antt =====
-- Who may use an object.
use rk.Base.{ℕ, ◌≡◌, refl, ◌≢◌, ◌↔◌, ◌⊎◌, inl, inr, Option, none, some, arith}
use rk.Err.{success, invalid_param}
use rk.Obj.{
  Scope, Header, unassigned, domain_local, kernel_global, scope_set, owner_domain_set, access_err,
  access_by_scope,
}

-- the contract: what each scope admits
abbrev pub MayUse : Scope → Option ℕ → Option ℕ → Type 0
MayUse kernel_global owner caller = Unit
MayUse unassigned owner caller = caller ≡ none
MayUse domain_local owner caller = (owner ≢ none) × ((caller ≡ none) ⊎ (owner ≡ caller))

admits : (s : Scope) (o c : Option ℕ) → access_by_scope s o c ≡ success → MayUse s o c
unfolding access_by_scope
admits kernel_global o c h = tt
admits unassigned o none h = cc
admits unassigned o (some c) h = cc
admits domain_local none c h = cc
admits domain_local (some d) none h = ((λ e. cc), inl (cc))
admits domain_local (some d) (some c) h = ((λ e. cc), inr (ground arith))

admitted : (s : Scope) (o c : Option ℕ) → MayUse s o c → access_by_scope s o c ≡ success
unfolding access_by_scope
admitted kernel_global o c h = cc
admitted unassigned o none h = cc
admitted unassigned o (some c) h = cc
admitted domain_local none c h = absurd (h.0 (cc))
admitted domain_local (some d) none h = cc
admitted domain_local (some d) (some c) h = ground arith

-- The access check of a header passes exactly for the callers that the header's scope
-- admits: all of them for a kernel-global object, only the kernel (no domain) for an
-- unassigned one, and for a domain-local one that has an owner the kernel and the owner's
-- tasks.
pub access_err-MayUse :
    (h : Header) (caller : Option ℕ)
    → (access_err (some h) caller ≡ success) ↔ MayUse h.scope h.owner_domain caller
unfolding access_err
access_err-MayUse h caller =
    (admits h.scope h.owner_domain caller, admitted h.scope h.owner_domain caller)

-- After kObjHeaderOwnerDomainSet to a domain the access check passes for the kernel, and of the
-- domains exactly for that one.
pub access-owner_domain_set :
    (h : Header) (d c : ℕ)
    → (access_err (some (owner_domain_set h (some d))) none ≡ success)
      × ((access_err (some (owner_domain_set h (some d))) (some c) ≡ success) ↔ (d ≡ c))
unfolding owner_domain_set access_err
access-owner_domain_set h d c = (refl, (λ e. ground arith, λ e. ground arith))

-- kObjHeaderScopeSet refuses and changes nothing, or sets the scope and domain that it is given,
-- and then the scope is not the unassigned one.
pub scope_set_err :
    (h : Header) (s : Scope) (d : Option ℕ)
    → ((scope_set h s d).0 ≡ invalid_param) × ((scope_set h s d).1 ≡ h)
      ⊎ ((scope_set h s d).0 ≡ success)
        × ((scope_set h s d).1.scope ≡ s)
        × ((scope_set h s d).1.owner_domain ≡ d)
        × (s ≢ unassigned)
unfolding scope_set
scope_set_err h unassigned d = inl (refl, refl)
scope_set_err h domain_local none = inl (refl, refl)
scope_set_err h domain_local (some d) = inr (refl, refl, refl, λ e. cc)
scope_set_err h kernel_global (some d) = inl (refl, refl)
scope_set_err h kernel_global none = inr (refl, refl, refl, λ e. cc)
