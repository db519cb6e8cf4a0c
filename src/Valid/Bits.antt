-- ===== src/Valid/Bits.antt =====
-- The bitwise or of two numbers lies above both, and stays below a power of two that bounds both.
use Prim.Native.Nat.{bit_or, bit_or-bitwise, max}
use Prim.Native.Nat.{digits as binary}
use native.Mathlib.Nat.{pow-suc}
use ipcop_alpine.Prelude.{◌↔◌, ℕ, zero, suc, ◌+◌, ◌*◌, ◌/◌, ◌%◌, ◌^◌, ◌≤◌, ◌<◌, ◌≡◌, refl, arith}

abbrev or_digits : ℕ → ℕ → ℕ → ℕ
or_digits n a b = binary (λ b. b) max n a b

or_digits_enough : (n m a b : ℕ) → a ≤ n → a ≤ m → or_digits n a b ≡ or_digits m a b
or_digits_enough zero zero a b p q = refl
or_digits_enough zero (suc m) zero b p q = refl
or_digits_enough zero (suc m) (suc a) b p q = absurd (omega arith)
or_digits_enough (suc n) zero zero b p q = refl
or_digits_enough (suc n) zero (suc a) b p q = absurd (omega arith)
or_digits_enough (suc n) (suc m) zero b p q = refl
or_digits_enough (suc n) (suc m) (suc a) b p q =
    omega (arith, or_digits_enough n m (suc a / 2) (b / 2) (omega arith) (omega arith))

zero-bit_or : (b : ℕ) → bit_or 0 b ≡ b
zero-bit_or b = bit_or-bitwise 0 b

bit_or_halves : (a b : ℕ) → bit_or a b ≡ bit_or (a / 2) (b / 2) * 2 + max (a % 2) (b % 2)
bit_or_halves zero b = omega (arith, zero-bit_or b, zero-bit_or (b / 2))
bit_or_halves (suc a) b = omega (
  arith,
  bit_or-bitwise (suc a) b,
  bit_or-bitwise (suc a / 2) (b / 2),
  or_digits_enough a (suc a / 2) (suc a / 2) (b / 2) (omega arith) (omega arith),
)

bit_or_above : (n a b : ℕ) → a ≤ n → (a ≤ bit_or a b) × (b ≤ bit_or a b)
bit_or_above zero zero b h = omega (arith, zero-bit_or b)
bit_or_above zero (suc a) b h = absurd (omega arith)
bit_or_above (suc n) zero b h = omega (arith, zero-bit_or b)
bit_or_above (suc n) (suc a) b h =
    let ih = bit_or_above n (suc a / 2) (b / 2) (omega arith) in
    omega (arith, bit_or_halves (suc a) b, ih.0, ih.1)

pub le-bit_or : (a b : ℕ) → (a ≤ bit_or a b) × (b ≤ bit_or a b)
le-bit_or a b = bit_or_above a a b (omega arith)

bit_or_small : (a b m : ℕ) → bit_or (a / 2) (b / 2) < m → bit_or a b < m * 2
bit_or_small a b m h = omega (arith, bit_or_halves a b)

-- Both below 2 ^ k, one halving for each bit.
bit_or_below : (k a b : ℕ) → a < 2 ^ k → b < 2 ^ k → bit_or a b < 2 ^ k
bit_or_below zero a b p q = let e : a ≡ 0 = omega arith in rw e (omega (arith, zero-bit_or b))
bit_or_below (suc k) a b p q =
    let r =
      bit_or_below k (a / 2) (b / 2) (omega (arith, pow-suc 2 k)) (omega (arith, pow-suc 2 k)) in
    omega (arith, bit_or_small a b (2 ^ k) r, pow-suc 2 k)

-- The or of four bytes is a byte exactly if each of them is one.
pub or_four_bytes :
    (a b c d : ℕ)
    → (bit_or (bit_or (bit_or a b) c) d ≤ 255) ↔ ((a ≤ 255) × (b ≤ 255) × (c ≤ 255) × (d ≤ 255))
or_four_bytes a b c d = (
  λ h. omega (arith, le-bit_or a b, le-bit_or (bit_or a b) c, le-bit_or (bit_or (bit_or a b) c) d),
  λ h.
      let ab = bit_or_below 8 a b (omega arith) (omega arith) in
      let abc = bit_or_below 8 (bit_or a b) c ab (omega arith) in
      omega (arith, bit_or_below 8 (bit_or (bit_or a b) c) d abc (omega arith)),
)
