-- ===== src/Base/Xor.antt =====
-- `^` on bytes: the law of the lowest binary digit, and that a second `^` undoes the first.
use Prim.Native.Nat.{
  ℕ, zero, suc, ◌+◌, ◌*◌, ◌/◌, ◌%◌, ◌≤◌, ◌<◌, bit_xor, bit_xor-bitwise, digits, differ,
}
use mathlib.Core.Path.{◌≡◌, refl}
use native.Mathlib.Omega.{arith}

abbrev xor_digits : ℕ → ℕ → ℕ → ℕ
xor_digits n a b = digits (λ b. b) differ n a b

xor_digits_fuel : (n m a b : ℕ) → a ≤ n → a ≤ m → xor_digits n a b ≡ xor_digits m a b
xor_digits_fuel zero zero a b p q = refl
xor_digits_fuel zero (suc m) zero b p q = refl
xor_digits_fuel zero (suc m) (suc a) b p q = absurd (omega arith)
xor_digits_fuel (suc n) zero zero b p q = refl
xor_digits_fuel (suc n) zero (suc a) b p q = absurd (omega arith)
xor_digits_fuel (suc n) (suc m) zero b p q = refl
xor_digits_fuel (suc n) (suc m) (suc a) b p q =
    omega (arith, xor_digits_fuel n m (suc a / 2) (b / 2) (omega arith) (omega arith))

zero-bit_xor : (b : ℕ) → bit_xor 0 b ≡ b
zero-bit_xor b = bit_xor-bitwise 0 b

differ-digits : (a b : ℕ) → a < 2 → b < 2 → differ a b ≡ (a + b) % 2
differ-digits zero b h k = omega arith
differ-digits (suc zero) zero h k = refl
differ-digits (suc zero) (suc zero) h k = refl
differ-digits (suc zero) (suc (suc b)) h k = absurd (omega arith)
differ-digits (suc (suc a)) b h k = absurd (omega arith)

bit_xor_step : (a b : ℕ) → bit_xor a b ≡ bit_xor (a / 2) (b / 2) * 2 + (a + b) % 2
bit_xor_step zero b = omega (arith, zero-bit_xor b, zero-bit_xor (b / 2))
bit_xor_step (suc a) b = omega (
  arith,
  bit_xor-bitwise (suc a) b,
  bit_xor-bitwise (suc a / 2) (b / 2),
  xor_digits_fuel a (suc a / 2) (suc a / 2) (b / 2) (omega arith) (omega arith),
  differ-digits (suc a % 2) (b % 2) (omega arith) (omega arith),
)

undo_fuel : (n k e : ℕ) → k ≤ n → e ≤ n → bit_xor k (bit_xor e k) ≡ e
undo_fuel zero zero zero p q = refl
undo_fuel zero (suc k) e p q = absurd (omega arith)
undo_fuel zero zero (suc e) p q = absurd (omega arith)
undo_fuel (suc n) k e p q = ground (
  arith,
  bit_xor_step e k,
  bit_xor_step k (bit_xor e k),
  undo_fuel n (k / 2) (e / 2) (omega arith) (omega arith),
)

-- A pad applied twice gives the byte back.
pub bit_xor_undo : (k e : ℕ) → bit_xor k (bit_xor e k) ≡ e
bit_xor_undo k e = undo_fuel (k + e) k e (omega arith) (omega arith)
