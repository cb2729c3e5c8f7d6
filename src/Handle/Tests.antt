-- ===== src/Handle/Tests.antt =====
-- The handle of a task that is registered in slot 2 of 6, at its third generation.
use rk.Base.{◌≡◌, refl, true, false, none, some, ◌==◌, if◌then◌else◌, arith}
use rk.Err.{success, invalid_obj}
use rk.Handle.Defs.{Registry, from_tcb, register, invalidate, resolve}
use rk.Handle.Laws.{IsRegistered, resolve-from_tcb, resolve_sound, stale_refused}

abbrev one_task : Registry
one_task = record {
  threads = 6;
  task = λ t. if t == 2 then some 100 else none;
  generation = λ t. 3;
  quarantine = λ t. false;
  dyn_stack = λ t. none;
  tid = λ p. 2;
  init = λ p. true;
  in_pool = λ p. true;
}

one_task-IsRegistered : IsRegistered one_task 100
one_task-IsRegistered = record {
  threads = ground arith;
  slot = ground arith;
  here = refl;
  generation = ground arith;
  init = refl;
  in_pool = refl;
}

resolve-from_tcb_example : resolve one_task (from_tcb one_task (some 100)) ≡ (success, some 100)
resolve-from_tcb_example = resolve-from_tcb one_task 100 one_task-IsRegistered

resolve_sound_example : from_tcb one_task (some 100) ≡ 2701132546
unfolding resolve
resolve_sound_example = resolve_sound one_task 100 2701132546 (ground arith) (ground arith) refl

stale_refused_example :
    let h = from_tcb one_task (some 100) in
    let r' = invalidate one_task (some 100) in
    let r'' = (register r' (some 140) 2).1 in
    (resolve r' h ≡ (invalid_obj, none)) × (resolve r'' h ≡ (invalid_obj, none))
stale_refused_example = stale_refused one_task 100 140 one_task-IsRegistered
