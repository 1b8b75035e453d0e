-- ===== src/Base/Bits.antt =====
-- Exclusive or undoes itself, at every width.
use Prim.Native.Nat.{
  ℕ, zero, suc, ◌+◌, ◌*◌, ◌/◌, ◌%◌, ◌≤◌, ◌<◌, bit_xor, differ, digits, bit_xor-bitwise,
}
use mathlib.Core.Path.{◌≡◌, refl}
use native.Mathlib.Omega.{arith}

abbrev xor_digits : ℕ → ℕ → ℕ → ℕ
xor_digits = digits (λ b. b) differ

-- Any count of digits that covers the first number gives the same result.
xor_digits-enough : (n m a b : ℕ) → a ≤ n → a ≤ m → xor_digits n a b ≡ xor_digits m a b
xor_digits-enough zero zero a b p q = refl
xor_digits-enough zero (suc m) zero b p q = refl
xor_digits-enough zero (suc m) (suc a) b p q = elim p [ ]
xor_digits-enough (suc n) zero zero b p q = refl
xor_digits-enough (suc n) zero (suc a) b p q = elim q [ ]
xor_digits-enough (suc n) (suc m) zero b p q = refl
xor_digits-enough (suc n) (suc m) (suc a) b p q =
    rw (xor_digits-enough n m (suc a / 2) (b / 2) (omega arith) (omega arith))

bit_xor-zero_left : (b : ℕ) → bit_xor 0 b ≡ b
bit_xor-zero_left b = bit_xor-bitwise 0 b

bit_xor-suc :
    (a b : ℕ) → bit_xor (suc a) b ≡ bit_xor (suc a / 2) (b / 2) * 2 + differ (suc a % 2) (b % 2)
bit_xor-suc a b = omega (
  arith,
  bit_xor-bitwise (suc a) b,
  bit_xor-bitwise (suc a / 2) (b / 2),
  xor_digits-enough a (suc a / 2) (suc a / 2) (b / 2) (omega arith) (omega arith),
)

bit_xor-step : (a b : ℕ) → bit_xor a b ≡ bit_xor (a / 2) (b / 2) * 2 + differ (a % 2) (b % 2)
bit_xor-step zero b = omega (arith, bit_xor-zero_left b, bit_xor-zero_left (b / 2))
bit_xor-step (suc a) b = bit_xor-suc a b

differ-differ : (a b : ℕ) → a < 2 → b < 2 → (differ (differ a b) b ≡ a) × (differ a b < 2)
differ-differ zero zero h k = omega arith
differ-differ zero (suc zero) h k = omega arith
differ-differ (suc zero) zero h k = omega arith
differ-differ (suc zero) (suc zero) h k = omega arith
differ-differ (suc (suc a)) b h k = absurd (omega arith)
differ-differ zero (suc (suc b)) h k = absurd (omega arith)
differ-differ (suc zero) (suc (suc b)) h k = absurd (omega arith)

bit_xor-undo_fuel : (n a b : ℕ) → a ≤ n → b ≤ n → bit_xor (bit_xor a b) b ≡ a
bit_xor-undo_fuel zero zero zero h k = refl
bit_xor-undo_fuel zero (suc a) b h k = elim h [ ]
bit_xor-undo_fuel zero zero (suc b) h k = elim k [ ]
bit_xor-undo_fuel (suc n) a b h k =
    let x = bit_xor a b in
    let bits = differ-differ (a % 2) (b % 2) (omega arith) (omega arith) in
    let s = bit_xor-step a b in
    let half : x / 2 ≡ bit_xor (a / 2) (b / 2) = omega (arith, s, bits.1) in
    let low : x % 2 ≡ differ (a % 2) (b % 2) = omega (arith, s, bits.1) in
    let ih = bit_xor-undo_fuel n (a / 2) (b / 2) (omega arith) (omega arith) in
    omega (arith, rw (half, low) at (bit_xor-step x b), ih, bits.0)

pub bit_xor-undo : (a b : ℕ) → bit_xor (bit_xor a b) b ≡ a
bit_xor-undo a b = bit_xor-undo_fuel (a + b) a b (omega arith) (omega arith)
