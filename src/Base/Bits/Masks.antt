-- ===== src/Base/Bits/Masks.antt =====
-- `&` with a mask of low bits and `|` of disjoint fields, as arithmetic.
use Prim.Native.Nat.{ℕ, zero, suc, ◌+◌, ◌-◌, ◌*◌, ◌/◌, ◌%◌, ◌^◌, ◌≤◌, ◌<◌, bit_and, bit_or}
use mathlib.Core.Path.{◌≡◌, refl, ap}
use mathlib.Core.Bool.{Bool, true, ◌&&◌}
use native.Mathlib.Omega.{arith}
use native.Mathlib.Nat.{pow-suc, one-le-pow, div-div-eq-div-mul}
use coldsync.Base.Tests.{◌==◌, ==_iff}
use coldsync.Base.Bits.Step.{bit_and_step, bit_or_step}

and_zero_below : (n a : ℕ) → a ≤ n → bit_and a 0 ≡ 0
and_zero_below zero zero h = refl
and_zero_below zero (suc a) h = absurd (omega arith)
and_zero_below (suc n) a h = omega (arith, bit_and_step a 0, and_zero_below n (a / 2) (omega arith))

bit_and-zero : (a : ℕ) → bit_and a 0 ≡ 0
bit_and-zero a = and_zero_below a a (omega arith)

zero_or_below : (n a : ℕ) → a ≤ n → bit_or 0 a ≡ a
zero_or_below zero zero h = refl
zero_or_below zero (suc a) h = absurd (omega arith)
zero_or_below (suc n) a h = omega (arith, bit_or_step 0 a, zero_or_below n (a / 2) (omega arith))

or_zero_below : (n a : ℕ) → a ≤ n → bit_or a 0 ≡ a
or_zero_below zero zero h = refl
or_zero_below zero (suc a) h = absurd (omega arith)
or_zero_below (suc n) a h = omega (arith, bit_or_step a 0, or_zero_below n (a / 2) (omega arith))

and_low_part : (k q r : ℕ) → r < 2 ^ k → bit_and (q * 2 ^ k + r) (2 ^ k - 1) ≡ r
and_low_part zero q r h = rw bit_and-zero (omega arith)
and_low_part (suc k) q r h = ground (
  arith,
  pow-suc 2 k,
  one-le-pow k 2,
  ap (λ (t : ℕ). q * t) (pow-suc 2 k),
  bit_and_step (q * 2 ^ suc k + r) (2 ^ suc k - 1),
  and_low_part k q (r / 2) (omega (arith, pow-suc 2 k)),
)

pub bit_and_low : (k a : ℕ) → bit_and a (2 ^ k - 1) ≡ a % 2 ^ k
bit_and_low k a = ground (arith, one-le-pow k 2, and_low_part k (a / 2 ^ k) (a % 2 ^ k))

pub bit_or_high : (k q r : ℕ) → r < 2 ^ k → bit_or r (q * 2 ^ k) ≡ r + q * 2 ^ k
bit_or_high zero q zero h = ground (arith, zero_or_below q q (omega arith))
bit_or_high zero q (suc r) h = absurd (omega arith)
bit_or_high (suc k) q r h = ground (
  arith,
  pow-suc 2 k,
  ap (λ (t : ℕ). q * t) (pow-suc 2 k),
  bit_or_step r (q * 2 ^ suc k),
  bit_or_high k q (r / 2) (omega (arith, pow-suc 2 k)),
)

pub bit_or_low : (k q r : ℕ) → r < 2 ^ k → bit_or (q * 2 ^ k) r ≡ q * 2 ^ k + r
bit_or_low zero q zero h = ground (arith, or_zero_below q q (omega arith))
bit_or_low zero q (suc r) h = absurd (omega arith)
bit_or_low (suc k) q r h = ground (
  arith,
  pow-suc 2 k,
  ap (λ (t : ℕ). q * t) (pow-suc 2 k),
  bit_or_step (q * 2 ^ suc k) r,
  bit_or_low k q (r / 2) (omega (arith, pow-suc 2 k)),
)

-- Small ranges are checked value by value, by evaluation.
unfoldable pub all_below : ℕ → (ℕ → Bool) → Bool
all_below (suc bound) test = all_below bound test && test bound
all_below zero test = true

pub all_below_sound :
    (test : ℕ → Bool) (bound : ℕ) (v : ℕ) → v < bound → all_below bound test ≡ true → test v ≡ true
unfolding all_below
all_below_sound test (suc bound) v small checked = ground (arith, all_below_sound test bound v)
all_below_sound test zero v small checked = absurd (omega arith)

-- Two functions that agree below a bound, by evaluation.
pub equal_below :
    (n : ℕ) (f g : ℕ → ℕ) (x : ℕ) → all_below n (λ y. f y == g y) ≡ true → x < n → f x ≡ g x
equal_below n f g x h lt = (==_iff (f x) (g x)).0 (all_below_sound _ n x lt h)

-- A mask of `k` bits at bit `s`.
pub bit_and_field : (k s a : ℕ) → bit_and a ((2 ^ k - 1) * 2 ^ s) ≡ a / 2 ^ s % 2 ^ k * 2 ^ s
bit_and_field k zero a = ground (arith, bit_and_low k a)
bit_and_field k (suc s) a = ground (
  arith,
  pow-suc 2 s,
  ap (λ (t : ℕ). (2 ^ k - 1) * t) (pow-suc 2 s),
  ap (λ (t : ℕ). a / 2 / 2 ^ s % 2 ^ k * t) (pow-suc 2 s),
  bit_and_step a ((2 ^ k - 1) * 2 ^ suc s),
  bit_and_field k s (a / 2),
  div-div-eq-div-mul a 2 (2 ^ s),
)
