-- ===== src/Delta/Tick.antt =====
-- Tick arithmetic (core/inc/ktimer.h) and the tick counter of core/src/ksch.c.
use rk.Base.{
  ℕ, zero, suc, ◌+◌, ◌-◌, ◌*◌, ◌/◌, ◌%◌, ◌≤◌, ◌<◌, ◌≡◌, ap, ◌∙◌, Bool, false, ◌==◌, ltb,
  if◌then◌else◌, arith,
}
use native.Mathlib.Nat.{div-le_self, div-mul-le_self, lt-div-mul-add}
use rk.Base.Word.{word_mod, ulong_max, add_word, sub_word}

-- RK_MAX_PERIOD: `~0 >> 1`
abbrev pub max_period : ℕ
max_period = 2147483647

-- K_TICK_ADD
abbrev pub tick_add : ℕ → ℕ → ℕ
tick_add base offset = add_word base offset

-- K_TICK_DELTA
abbrev pub tick_delta : ℕ → ℕ → ℕ
tick_delta to from = sub_word to from

-- kTickIsElapsed: `(RK_STICK)(now - then) >= 0`, the sign bit of the difference is clear
unfoldable pub tick_is_elapsed : ℕ → ℕ → Bool
tick_is_elapsed then_ now = ltb (sub_word now then_) 2147483648

-- the counter in kTickHandlerRun_: the tick and the number of wraps
unfoldable pub count_tick : ℕ × ℕ → ℕ × ℕ
count_tick (t, w) = let t' = add_word t 1 in if t' == ulong_max then (0, add_word w 1) else (t', w)

-- The counter never shows RK_TICK_TYPE_MAX.
pub count_tick_below : (t w : ℕ) → t < ulong_max → (count_tick (t, w)).0 < ulong_max
unfolding count_tick
count_tick_below t w h = ground arith

-- A wake time `d` ticks ahead, by K_TICK_ADD on a 32-bit tick, with `d` between 1 and
-- RK_MAX_PERIOD, is not elapsed now, and the delay that K_TICK_DELTA gives back is `d`, also
-- where the sum goes past 2^32.
tick_delta-tick_add :
    (now d : ℕ)
    → now ≤ ulong_max
    → 0 < d
    → d ≤ max_period
    → (tick_delta (tick_add now d) now ≡ d) × (tick_is_elapsed (tick_add now d) now ≡ false)
unfolding tick_is_elapsed
tick_delta-tick_add now d h pos small = (omega arith, ground arith)

-- the tick counter after n ticks
unfoldable pub count_ticks : ℕ → ℕ × ℕ → ℕ × ℕ
count_ticks zero s = s
count_ticks (suc n) s = count_ticks n (count_tick s)

count_ticks-once :
    (n t w : ℕ)
    → t < ulong_max
    → t + n < ulong_max + ulong_max
    → (count_ticks n (t, w)).0 ≡ (if ltb (t + n) ulong_max then t + n else t + n - ulong_max)
unfolding count_ticks count_tick
count_ticks-once zero t w h k = ground arith
count_ticks-once (suc n) t w h k =
    ground (arith, count_ticks-once n (add_word t 1) w, count_ticks-once n 0 (add_word w 1))

-- Between two readings of the counter at most 2^32 - 1 ticks apart, the first below 2^32 -
-- 1, K_TICK_DELTA measures the ticks that passed where the counter did not wrap between
-- them; where it wrapped, one tick more than passed, because the counter wraps at 2^32 - 1
-- and the difference at 2^32.
pub tick_delta-count_ticks :
    (n t w : ℕ)
    → t < ulong_max
    → n ≤ ulong_max
    → tick_delta (count_ticks n (t, w)).0 t ≡ (if ltb (t + n) ulong_max then n else add_word n 1)
tick_delta-count_ticks n t w h k = ground (arith, count_ticks-once n t w)

-- kSleepRelease: from the last wake time, the current tick and the period, the factor
-- `offsetFactor`, the next wake time and the delay until then. All are 32-bit.
unfoldable pub release_factor : ℕ → ℕ → ℕ → ℕ
release_factor base current period = add_word (sub_word current base / period) 1

unfoldable pub release_wake : ℕ → ℕ → ℕ → ℕ
unfolding release_factor
release_wake base current period =
    tick_add base ((release_factor base current period * period) % word_mod)

unfoldable pub release_delay : ℕ → ℕ → ℕ → ℕ
unfolding release_wake
release_delay base current period = tick_delta (release_wake base current period) current

quotient_bounds : (e p : ℕ) → 0 < p → (e / p * p ≤ e) × (e < e / p * p + p)
quotient_bounds e p h = (div-mul-le_self e p, lt-div-mul-add {a = e} {b = p} h)

module _ (base current period : ℕ) (pos : 0 < period) where
  abbrev since : ℕ
  since = sub_word current base

  release_factor_eq :
      since + period ≤ ulong_max → release_factor base current period ≡ since / period + 1
  unfolding release_factor
  release_factor_eq fits = omega (arith, div-le_self since period)

  release_wake_eq :
      since + period ≤ ulong_max
      → release_wake base current period ≡ tick_add base (since / period * period + period)
  unfolding release_wake
  release_wake_eq fits =
      ap (λ f. tick_add base ((f * period) % word_mod)) (release_factor_eq fits)
      ∙ ap (tick_add base) (omega (arith, quotient_bounds since period pos))

-- The periodic wake-up of kSleepRelease, for 32-bit ticks and a period that is not 0, where
-- the time since the last wake-up and a period fit a word, stays on the grid of the periods
-- from the last wake time and lies ahead: the delay is at least 1 and at most a period, it
-- makes the elapsed time a multiple of the period, and the wake time is that delay from now.
pub release_delay_bounds :
    (base current period : ℕ)
    → current ≤ ulong_max
    → base ≤ ulong_max
    → 0 < period
    → sub_word current base + period ≤ ulong_max
    → let d = release_delay base current period in
      (0 < d)
      × (d ≤ period)
      × (sub_word current base + d ≡ (sub_word current base / period + 1) * period)
      × (release_wake base current period ≡ tick_add current d)
unfolding release_delay
release_delay_bounds base current period hc hb pos fits =
    let q = quotient_bounds (sub_word current base) period pos in
    let w = release_wake_eq base current period pos fits in
    (omega (arith, q, w), omega (arith, q, w), omega (arith, q, w), omega (arith, q, w))
