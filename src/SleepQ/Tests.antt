-- ===== src/SleepQ/Tests.antt =====
-- A wake-up of two of three sleeping tasks, and one asked for by an interrupt.
use rk.Base.{◌≡◌, refl, true, false, [], ◌∷◌, length}
use rk.Err.{invalid_param}
use rk.Kernel.{Kernel, sample_kernel}
use rk.SleepQ.Defs.{wake_ready, wake_deferred}

-- tasks 3, 5 and 2 sleep
abbrev three_sleep : Kernel
three_sleep = record sample_kernel {
  sleepqs = λ a. record (sample_kernel.sleepqs a) { waiting = 3 ∷ 5 ∷ 2 ∷ [] };
}

abbrev from_isr : Kernel
from_isr = record three_sleep { in_isr = true }

isr_refused : (wake_ready from_isr 4 8 2 true).0 ≡ invalid_param
unfolding wake_ready wake_deferred
isr_refused = refl

isr_deferred : length (wake_ready from_isr 4 8 2 false).2.jobs ≡ 1
unfolding wake_ready wake_deferred
isr_deferred = refl
