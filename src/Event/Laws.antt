-- ===== src/Event/Laws.antt =====
-- What a wait for event flags asks for, bit by bit.
use rk.Base.{ℕ, ◌^◌, ◌<◌, ◌≡◌, ◌≢◌, sym, ap, ◌∙◌, ◌↔◌, Bool, true, ◌&&◌, not, ◌==◌, ==_iff, arith}
use rk.Base.Bits.{
  bit, bit_and, bit_clear, bit-zero, bit-nonzero, bit-bit_and, bit-bit_clear, bit_and-below,
  bit_and-covers,
}
use rk.Kernel.{Kernel, update-same}
use rk.Event.Defs.{condition_met, event_all, event_any, consume}

-- both operands of a bit that `&` leaves
both : (x y : Bool) → (x && y) ≡ true → (x ≡ true) × (y ≡ true)
both x y e = ground (arith, e)

nonzero_iff : (x : ℕ) → (not (x == 0) ≡ true) ↔ (x ≢ 0)
nonzero_iff x = ((λ e z. ground (arith, e, z)), (λ n. ground (arith, n)))

-- A wait for ALL flags, with a mask of 32 bits, is met when every bit of its mask is set in the
-- current flags, and only then.
condition_all :
    (current required : ℕ)
    → required < 2 ^ 32
    → (condition_met current required event_all ≡ true)
      ↔ ((i : ℕ) → i < 32 → bit required i ≡ true → bit current i ≡ true)
unfolding condition_met
condition_all current required l = (
  (λ e i m b.
      (both (bit current i) (bit required i) (
        sym (bit-bit_and current required i m)
        ∙ ap (λ x. bit x i) ((==_iff (bit_and current required) required).0 e)
        ∙ b)).0),
  (λ h. (==_iff (bit_and current required) required).1 (bit_and-covers current required l h)),
)

any_bit : (a b : ℕ) → bit_and a b ≢ 0 → (i : ℕ) × (i < 32) × (bit b i ≡ true) × (bit a i ≡ true)
any_bit a b n =
    let (i, m, w) = bit-nonzero 32 (bit_and a b) (bit_and-below a b) n in
    let (c, r) = both (bit a i) (bit b i) (sym (bit-bit_and a b i m) ∙ w) in (i, m, r, c)

some_bit : (a b : ℕ) → (i : ℕ) × (i < 32) × (bit b i ≡ true) × (bit a i ≡ true) → bit_and a b ≢ 0
some_bit a b (i, m, r, c) z =
    let w = sym (bit-bit_and a b i m) ∙ ap (λ x. bit x i) z ∙ bit-zero i in ground (arith, r, c, w)

-- A wait for ANY flag is met when some of the 32 bits is set both in its mask and in the current
-- flags, and only then.
condition_any :
    (current required : ℕ)
    → (condition_met current required event_any ≡ true)
      ↔ ((i : ℕ) × (i < 32) × (bit required i ≡ true) × (bit current i ≡ true))
unfolding condition_met
condition_any current required = (
  (λ e. any_bit current required ((nonzero_iff (bit_and current required)).0 e)),
  (λ h. (nonzero_iff (bit_and current required)).1 (some_bit current required h)),
)

-- With a mask of 32 bits, a wait for ALL flags is met when every bit of its mask is set in
-- the current flags, and only then; a wait for ANY flag when some of the 32 bits is set in
-- both, and only then.
pub condition_met_iff :
    (current required : ℕ)
    → required < 2 ^ 32
    → ((condition_met current required event_all ≡ true)
        ↔ ((i : ℕ) → i < 32 → bit required i ≡ true → bit current i ≡ true))
      × ((condition_met current required event_any ≡ true)
          ↔ ((i : ℕ) × (i < 32) × (bit required i ≡ true) × (bit current i ≡ true)))
condition_met_iff current required l =
    (condition_all current required l, condition_any current required)

-- A successful wait takes, of the 32 flags, those of its mask and no other, and forgets the mask.
consume_bits :
    (k : Kernel) (r i : ℕ)
    → i < 32
    → let c = (consume k r).tasks r in
      (bit c.flags_curr i ≡ (bit (k.tasks r).flags_curr i && not (bit (k.tasks r).flags_req i)))
      × (c.flags_req ≡ 0)
unfolding consume
consume_bits k r i l =
    let c = k.tasks r in
    let e = update-same k.tasks r (record c {
      flags_curr = bit_clear c.flags_curr c.flags_req;
      flags_req = 0;
      flags_opt = 0;
    }) in
    (
      ap (λ x. bit x.flags_curr i) e ∙ bit-bit_clear c.flags_curr c.flags_req i l,
      ap (λ x. x.flags_req) e,
    )
