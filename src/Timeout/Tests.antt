-- ===== src/Timeout/Tests.antt =====
-- The timeout loop on a kernel where two of three timeouts are due at the next tick.
use rk.Base.{◌≡◌, refl, true, none, [], ◌∷◌, arith}
use rk.Base.Distinct.{Distinct}
use rk.Kernel.{Kernel, Status, TimeoutType, WaitInfo, sample_kernel, sample_tcb}
use rk.Delta.{tick}
use rk.Delta.Expiry.{ids, IsLive}
use rk.Timeout.Expire.{handle_timeouts}
use rk.Timeout.Tick.{AllArmed, handle_timeouts_refines}

abbrev three_due : Kernel
three_due = record sample_kernel {
  tasks = λ t. record (sample_tcb 5 Status.sleeping_delay []) {
    timeout_node = record {
      armed = true;
      timeout_type = TimeoutType.time_event;
      timeout = 9;
      waiting_queue = none;
      wait_info = WaitInfo.wait_normal;
    };
  };
  timeouts =
      record { id = 5; dtick = 1 }
      ∷ record { id = 6; dtick = 0 }
      ∷ record { id = 7; dtick = 4 }
      ∷ [];
}

three_Distinct : Distinct (ids three_due.timeouts)
three_Distinct = ((ground arith, (ground arith, tt)), ((ground arith, tt), (tt, tt)))

three_AllArmed : AllArmed three_due three_due.timeouts
three_AllArmed = ((refl, omega arith), ((refl, omega arith), ((refl, omega arith), tt)))

handle_timeouts_refines_example :
    let left = (handle_timeouts three_due).1.timeouts in
    (left ≡ (tick three_due.timeouts).1) × IsLive left
handle_timeouts_refines_example = handle_timeouts_refines three_due three_Distinct three_AllArmed
