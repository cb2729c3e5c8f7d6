-- ===== src/Base/Bits.antt =====
-- The bits of a word: the operators `&`, `|` and `& ~` of the source on 32 bits.
use Prim.Native.Nat.{ℕ, zero, suc, ◌+◌, ◌*◌, ◌/◌, ◌%◌, ◌^◌, ◌<◌}
use mathlib.Core.Path.{◌≡◌, refl, ap, ◌∙◌}
use mathlib.Core.Logic.{inl, inr, ◌≢◌}
use mathlib.Core.Bool.{Bool, true, false, ◌&&◌, ◌||◌, not}
use native.Mathlib.Omega.{arith}
use rk.Base.Tests.{◌==◌, if◌then◌else◌, Bool-cases}

-- bit `i` of a number
unfoldable pub bit : ℕ → ℕ → Bool
bit x zero = x % 2 == 1
bit x (suc i) = bit (x / 2) i

-- a Boolean operation on each of the lowest `n` bits
unfoldable pub bitwise : (Bool → Bool → Bool) → ℕ → ℕ → ℕ → ℕ
bitwise f zero a b = 0
bitwise f (suc n) a b =
    (if f (a % 2 == 1) (b % 2 == 1) then 1 else 0) + 2 * bitwise f n (a / 2) (b / 2)

unfoldable pub bit_and : ℕ → ℕ → ℕ
unfolding bitwise
bit_and = bitwise (λ x y. x && y) 32

unfoldable pub bit_or : ℕ → ℕ → ℕ
unfolding bitwise
bit_or = bitwise (λ x y. x || y) 32

-- `a & ~b`
unfoldable pub bit_clear : ℕ → ℕ → ℕ
unfolding bitwise
bit_clear = bitwise (λ x y. x && not y) 32

pub bit-bitwise :
    (f : Bool → Bool → Bool) (n a b i : ℕ) → i < n → bit (bitwise f n a b) i ≡ f (bit a i) (bit b i)
unfolding bit bitwise
bit-bitwise f zero a b i h = ground (arith, h)
bit-bitwise f (suc n) a b zero h = elim (Bool-cases (f (a % 2 == 1) (b % 2 == 1))) [
  | inl e ↦ rw e (ground arith)
  | inr e ↦ rw e (ground arith)
]
bit-bitwise f (suc n) a b (suc i) h =
    ap (λ x. bit x i)
      (elim (Bool-cases (f (a % 2 == 1) (b % 2 == 1))) [
        | inl e ↦ rw e (omega arith)
        | inr e ↦ rw e (omega arith)
      ])
    ∙ bit-bitwise f n (a / 2) (b / 2) i (omega (arith, h))

pub bit-zero : (i : ℕ) → bit 0 i ≡ false
unfolding bit
bit-zero zero = refl
bit-zero (suc i) = bit-zero i

half-lt : (n x : ℕ) → x < 2 ^ suc n → x / 2 < 2 ^ n
half-lt n x l = omega (arith, l)

-- A word that is not 0 has a bit.
pub bit-nonzero : (n x : ℕ) → x < 2 ^ n → x ≢ 0 → (i : ℕ) × (i < n) × (bit x i ≡ true)
unfolding bit
bit-nonzero zero x l h = ground (arith, l, h)
bit-nonzero (suc n) x l h = elim (Bool-cases (x % 2 == 1)) [
  | inl e ↦ (zero, omega arith, e)
  | inr e ↦
      let (i, m, b) = bit-nonzero n (x / 2) (half-lt n x l) (λ z. h (ground (arith, z, e))) in
      (suc i, omega (arith, m), b)
]

-- All of the lowest `n` bits of `b` that are set are set in `a`: then `a & b` is `b`.
pub bitwise_and-covers :
    (n a b : ℕ)
    → b < 2 ^ n
    → ((i : ℕ) → i < n → bit b i ≡ true → bit a i ≡ true)
    → bitwise (λ x y. x && y) n a b ≡ b
unfolding bit bitwise
bitwise_and-covers zero a b l h = omega (arith, l)
bitwise_and-covers (suc n) a b l h =
    let rest =
      bitwise_and-covers n (a / 2) (b / 2) (half-lt n b l) (λ i m. h (suc i) (omega (arith, m))) in
    let first = h zero (omega arith) in
    elim (Bool-cases (b % 2 == 1)) [
      | inl e ↦ rw (e, first e, rest) (ground (arith, e))
      | inr e ↦ ground (arith, e, rest)
    ]

bitwise-below : (f : Bool → Bool → Bool) (n a b : ℕ) → bitwise f n a b < 2 ^ n
unfolding bitwise
bitwise-below f zero a b = omega arith
bitwise-below f (suc n) a b =
    let l = bitwise-below f n (a / 2) (b / 2) in
    elim (Bool-cases (f (a % 2 == 1) (b % 2 == 1))) [
      | inl e ↦ rw e (omega (arith, l))
      | inr e ↦ rw e (omega (arith, l))
    ]

-- The operators of the source, bit by bit.
pub bit-bit_and : (a b i : ℕ) → i < 32 → bit (bit_and a b) i ≡ (bit a i && bit b i)
unfolding bit_and
bit-bit_and a b i h = bit-bitwise (λ x y. x && y) 32 a b i h

pub bit-bit_or : (a b i : ℕ) → i < 32 → bit (bit_or a b) i ≡ (bit a i || bit b i)
unfolding bit_or
bit-bit_or a b i h = bit-bitwise (λ x y. x || y) 32 a b i h

pub bit-bit_clear : (a b i : ℕ) → i < 32 → bit (bit_clear a b) i ≡ (bit a i && not (bit b i))
unfolding bit_clear
bit-bit_clear a b i h = bit-bitwise (λ x y. x && not y) 32 a b i h

pub bit_and-below : (a b : ℕ) → bit_and a b < 2 ^ 32
unfolding bit_and
bit_and-below a b = bitwise-below (λ x y. x && y) 32 a b

pub bit_and-covers :
    (a b : ℕ) → b < 2 ^ 32 → ((i : ℕ) → i < 32 → bit b i ≡ true → bit a i ≡ true) → bit_and a b ≡ b
unfolding bit_and
bit_and-covers a b l h = bitwise_and-covers 32 a b l h
