-- ===== src/Mutex/Tests.antt =====
-- The mutex theorems at a mutex that task 4 owns and task 3 waits for.
use rk.Base.{
  ◌≡◌, refl, true, false, some, none, [], ◌∷◌, ◌==◌, if◌then◌else◌, inl, inr, Bool-cases, arith,
}
use rk.Err.{success}
use rk.Obj.{object_ready_err}
use rk.Kernel.{Kernel, Status, sample_kernel, sample_tcb, sample_mutex}
use rk.Mutex.Defs.{lock, unlock, mutex_ready_err, is_owner}
use rk.Mutex.Owner.{OwnersAgree}
use rk.Mutex.Laws.{lock-OwnersAgree, unlock-OwnersAgree}
use rk.Mutex.Exclusion.{unlock_hands_over}

abbrev owned : Kernel
owned = record sample_kernel {
  tasks =
      λ t. if t == 4 then sample_tcb 7 Status.running (9 ∷ []) else sample_tcb 5 Status.blocked [];
  mutexes = λ a. if a == 9 then sample_mutex true (some 4) (3 ∷ []) else sample_mutex false none [];
}

owned-OwnersAgree : OwnersAgree owned
unfolding is_owner
owned-OwnersAgree = record {
  agree = λ t a. ground arith;
  locked = λ a. ground arith;
  distinct = λ t. elim (Bool-cases (t == 4)) [ inl e ↦ rw e (tt, tt) | inr e ↦ rw e tt ];
}

owned_ready : mutex_ready_err owned 9 ≡ success
unfolding mutex_ready_err object_ready_err
owned_ready = refl

lock-OwnersAgree_example : OwnersAgree (lock owned 3 9 100).1
lock-OwnersAgree_example = lock-OwnersAgree owned 3 9 100 owned-OwnersAgree

unlock-OwnersAgree_example : OwnersAgree (unlock owned 4 9).1
unlock-OwnersAgree_example = unlock-OwnersAgree owned 4 9 owned-OwnersAgree

unlock_hands_over_example :
    let (e, k') = unlock owned 4 9 in
    (e ≡ success)
    × ((k'.mutexes 9).owner ≡ some 3)
    × ((k'.mutexes 9).lock ≡ true)
    × ((k'.tasks 3).status ≡ Status.ready)
unlock_hands_over_example = unlock_hands_over owned 4 9 3 [] owned_ready refl refl refl refl
