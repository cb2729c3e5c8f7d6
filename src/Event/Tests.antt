-- ===== src/Event/Tests.antt =====
-- The event conditions at flags 5 (bits 0 and 2) and mask 4 (bit 2).
use rk.Base.{ℕ, ◌<◌, ◌≡◌, ◌↔◌, true, arith}
use rk.Base.Bits.{bit}
use rk.Event.Defs.{condition_met, event_all, event_any}
use rk.Event.Laws.{condition_met_iff}

condition_met_iff_example :
    ((condition_met 5 4 event_all ≡ true) ↔ ((i : ℕ) → i < 32 → bit 4 i ≡ true → bit 5 i ≡ true))
    × ((condition_met 5 4 event_any ≡ true)
        ↔ ((i : ℕ) × (i < 32) × (bit 4 i ≡ true) × (bit 5 i ≡ true)))
condition_met_iff_example = condition_met_iff 5 4 (omega arith)
