-- ===== src/Err.antt =====
-- The return codes of core/inc/kcommondefs.h that the modelled functions give.
use mathlib.Core.Bool.{Bool, true, false}
use mathlib.Core.Logic.{◌≢◌}

pub data Err : Type 0 where
  success error : Err
  obj_null obj_not_init list_empty empty_waiting_queue : Err
  task_invalid_st invalid_isr_primitive invalid_param invalid_obj obj_double_init : Err
  invalid_phase task_pool_empty : Err
  mem_free buffer_empty buffer_full : Err
  invalid_depth invalid_msg_size mesgq_not_a_mbox : Err
  mutex_rec_lock mutex_not_owner mutex_locked mutex_not_locked mutex_owner_faulted : Err
  flags_not_met sema_blocked sema_full nowait : Err
  null_timeout_node invalid_timeout timeout elapsed_period : Err
  resched_pending resched_not_needed : Err

pub Err-discrete : Discrete Err
Err-discrete = hlevel

-- `err == RK_ERR_SUCCESS`
abbrev pub is_success : Err → Bool
is_success success = true
is_success _ = false

-- A call that goes on after a success and ends with any other code: what holds of both holds of it.
pub err-case {ℓ κ} :
    {A : Type κ} (P : A → Type ℓ) (e : Err) (x : A) (f : Err → A)
    → P x
    → ((e' : Err) → e' ≢ success → P (f e'))
    → P (elim e as (λ _. A) [ success ↦ x | e' ↦ f e' ])
err-case P success x f a b = a
err-case P e x f a b = b e (λ p. cc p)
