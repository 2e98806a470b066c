-- ===== src/Base/Bits/Step.antt =====
-- One equation for the lowest digit of each operation.
use Prim.Native.Nat.{ℕ, zero, suc, ◌+◌, ◌-◌, ◌*◌, ◌/◌, ◌%◌, ◌≤◌, ◌<◌, min, max, digits, bitwise}
use Prim.Native.Nat.{
  bit_and, bit_or, bit_xor, bit_and-bitwise, bit_or-bitwise, bit_xor-bitwise, differ,
}
use mathlib.Core.Path.{◌≡◌, refl, ap, ◌∙◌}
use native.Mathlib.Omega.{arith}

module _ (end : ℕ → ℕ) (op : ℕ → ℕ → ℕ) where
  -- One more round changes nothing once there is a round for every unit of the first number.
  spare_round :
      (x y rounds : ℕ) → x ≤ rounds → digits end op (suc rounds) x y ≡ digits end op rounds x y
  spare_round zero y zero le = refl
  spare_round zero y (suc rounds) le = refl
  spare_round (suc x) y zero le = absurd (omega arith)
  spare_round (suc x) y (suc rounds) le =
      ap (λ (high : ℕ). high * 2 + op (suc x % 2) (y % 2))
        (spare_round (suc x / 2) (y / 2) rounds (omega arith))

  spare_rounds :
      (spare x y rounds : ℕ)
      → x ≤ rounds
      → digits end op (rounds + spare) x y ≡ digits end op rounds x y
  spare_rounds zero x y rounds le = ap (λ (n : ℕ). digits end op n x y) (omega arith)
  spare_rounds (suc spare) x y rounds le =
      ap (λ (n : ℕ). digits end op n x y) {y = suc (rounds + spare)} (omega arith)
      ∙ spare_round x y (rounds + spare) (omega arith)
      ∙ spare_rounds spare x y rounds le

  lowest_digit :
      (x y : ℕ)
      → bitwise end op (suc x) y ≡ bitwise end op (suc x / 2) (y / 2) * 2 + op (suc x % 2) (y % 2)
  lowest_digit x y =
      ap (λ (high : ℕ). high * 2 + op (suc x % 2) (y % 2))
        (ap (λ (n : ℕ). digits end op n (suc x / 2) (y / 2)) (omega arith)
          ∙ spare_rounds (x - suc x / 2) (suc x / 2) (y / 2) (suc x / 2) (omega arith))

pub bit_and_step : (x y : ℕ) → bit_and x y ≡ bit_and (x / 2) (y / 2) * 2 + min (x % 2) (y % 2)
bit_and_step zero y = simp bit_and-bitwise (omega arith)
bit_and_step (suc x) y = simp bit_and-bitwise (lowest_digit (λ rest. 0) min x y)

pub bit_or_step : (x y : ℕ) → bit_or x y ≡ bit_or (x / 2) (y / 2) * 2 + max (x % 2) (y % 2)
bit_or_step zero y = simp bit_or-bitwise (omega arith)
bit_or_step (suc x) y = simp bit_or-bitwise (lowest_digit (λ rest. rest) max x y)

differ_digits : (x y : ℕ) → x < 2 → y < 2 → differ x y ≡ (x + y) % 2
differ_digits zero zero h k = refl
differ_digits zero (suc y) h k = omega arith
differ_digits (suc zero) zero h k = refl
differ_digits (suc zero) (suc y) h k = omega arith
differ_digits (suc (suc x)) y h k = absurd (omega arith)

pub bit_xor_step : (x y : ℕ) → bit_xor x y ≡ bit_xor (x / 2) (y / 2) * 2 + (x + y) % 2
bit_xor_step zero y = simp bit_xor-bitwise (omega arith)
bit_xor_step (suc x) y = simp bit_xor-bitwise (
    omega (
      arith,
      lowest_digit (λ rest. rest) differ x y,
      differ_digits (suc x % 2) (y % 2) (omega arith) (omega arith),
    ))
