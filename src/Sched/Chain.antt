-- ===== src/Sched/Chain.antt =====
-- What the propagation of a changed priority along the owners of mutexes leaves alone
-- (core/src/ksch.c, kTaskUpdateEffectivePrioChain).
use rk.Base.{ℕ, zero, suc, inl, inr, Option, none, some, Bool-cases}
use rk.Kernel.{Kernel}
use rk.Sched.Prio.{requeue_waiter, update_effective_prio, chain_next, update_chain}
use rk.Sched.Same.{
  SameChain-refl, SameChain, SameChain-trans, update_effective_prio-SameChain,
  requeue_waiter-SameChain,
}

-- the propagation of priorities
pub update_chain-SameChain :
    (n : ℕ) (k : Kernel) (o : Option ℕ) → SameChain k (update_chain n k o).1
unfolding update_chain
update_chain-SameChain n k none = SameChain-refl k
update_chain-SameChain zero k (some t) = SameChain-refl k
update_chain-SameChain (suc n) k (some t) =
    let k' = (update_effective_prio k t).1 in
    let k'' = requeue_waiter k' t in
    let s = update_effective_prio-SameChain k t in
    elim (Bool-cases (update_effective_prio k t).0) [
      | inl e ↦
          rw (e, update_chain)
            (SameChain-trans s (
              SameChain-trans (requeue_waiter-SameChain k' t)
                (update_chain-SameChain n k'' (chain_next k'' t))))
      | inr e ↦ rw (e, update_chain) s
    ]
