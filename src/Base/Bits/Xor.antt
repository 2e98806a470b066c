-- ===== src/Base/Bits/Xor.antt =====
-- The laws of `^` at every width. Each is proved below a bound that its numbers' halves keep.
use Prim.Native.Nat.{ℕ, zero, suc, ◌+◌, ◌*◌, ◌/◌, ◌%◌, ◌^◌, ◌≤◌, ◌<◌, bit_xor}
use mathlib.Core.Path.{◌≡◌, refl, sym, ◌∙◌, ap}
use native.Mathlib.Omega.{arith}
use native.Mathlib.Nat.{pow-suc}
use coldsync.Base.Bits.Step.{bit_xor_step}

bit_xor-half : (a b : ℕ) → bit_xor a b / 2 ≡ bit_xor (a / 2) (b / 2)
bit_xor-half a b = omega (arith, bit_xor_step a b)

bit_xor_parity : (a b : ℕ) → bit_xor a b % 2 ≡ (a + b) % 2
bit_xor_parity a b = omega (arith, bit_xor_step a b)

comm_below : (n a b : ℕ) → a + b ≤ n → bit_xor a b ≡ bit_xor b a
comm_below zero zero zero h = refl
comm_below zero zero (suc b) h = absurd (omega arith)
comm_below zero (suc a) b h = absurd (omega arith)
comm_below (suc n) a b h =
    omega (arith, bit_xor_step a b, bit_xor_step b a, comm_below n (a / 2) (b / 2) (omega arith))

pub bit_xor_comm : (a b : ℕ) → bit_xor a b ≡ bit_xor b a
bit_xor_comm a b = comm_below (a + b) a b (omega arith)

self_below : (n a : ℕ) → a ≤ n → bit_xor a a ≡ 0
self_below zero zero h = refl
self_below zero (suc a) h = absurd (omega arith)
self_below (suc n) a h = omega (arith, bit_xor_step a a, self_below n (a / 2) (omega arith))

pub bit_xor_self : (a : ℕ) → bit_xor a a ≡ 0
bit_xor_self a = self_below a a (omega arith)

zero_below : (n a : ℕ) → a ≤ n → bit_xor 0 a ≡ a
zero_below zero zero h = refl
zero_below zero (suc a) h = absurd (omega arith)
zero_below (suc n) a h = omega (arith, bit_xor_step 0 a, zero_below n (a / 2) (omega arith))

pub zero-bit_xor : (a : ℕ) → bit_xor 0 a ≡ a
zero-bit_xor a = zero_below a a (omega arith)

pub bit_xor-zero : (a : ℕ) → bit_xor a 0 ≡ a
bit_xor-zero a = bit_xor_comm a 0 ∙ zero-bit_xor a

assoc_below : (n a b c : ℕ) → a + b + c ≤ n → bit_xor (bit_xor a b) c ≡ bit_xor a (bit_xor b c)
assoc_below zero zero zero zero h = refl
assoc_below zero zero zero (suc c) h = absurd (omega arith)
assoc_below zero zero (suc b) c h = absurd (omega arith)
assoc_below zero (suc a) b c h = absurd (omega arith)
assoc_below (suc n) a b c h = ground (
  arith,
  bit_xor_step (bit_xor a b) c,
  bit_xor_step a (bit_xor b c),
  bit_xor-half a b,
  bit_xor-half b c,
  bit_xor_parity a b,
  bit_xor_parity b c,
  assoc_below n (a / 2) (b / 2) (c / 2) (omega arith),
)

pub bit_xor_assoc : (a b c : ℕ) → bit_xor (bit_xor a b) c ≡ bit_xor a (bit_xor b c)
bit_xor_assoc a b c = assoc_below (a + b + c) a b c (omega arith)

-- What is added twice is gone.
bit_xor_cancel : (a b : ℕ) → bit_xor (bit_xor a b) b ≡ a
bit_xor_cancel a b = bit_xor_assoc a b b ∙ ap (bit_xor a) (bit_xor_self b) ∙ bit_xor-zero a

pub bit_xor_injective : (a b c : ℕ) → bit_xor a c ≡ bit_xor b c → a ≡ b
bit_xor_injective a b c h =
    sym (bit_xor_cancel a c) ∙ ap (λ (t : ℕ). bit_xor t c) h ∙ bit_xor_cancel b c

-- The operation respects every width: it can be taken in two parts.
pub bit_xor_split :
    (k a b c d : ℕ)
    → c < 2 ^ k
    → d < 2 ^ k
    → (bit_xor (a * 2 ^ k + c) (b * 2 ^ k + d) ≡ bit_xor a b * 2 ^ k + bit_xor c d)
      × (bit_xor c d < 2 ^ k)
bit_xor_split zero a b zero zero h k = (ground arith, ground arith)
bit_xor_split zero a b zero (suc d) h k = absurd (omega arith)
bit_xor_split zero a b (suc c) d h k = absurd (omega arith)
bit_xor_split (suc w) a b c d h k = ground (
  arith,
  pow-suc 2 w,
  ap (λ (t : ℕ). a * t) (pow-suc 2 w),
  ap (λ (t : ℕ). b * t) (pow-suc 2 w),
  ap (λ (t : ℕ). bit_xor a b * t) (pow-suc 2 w),
  bit_xor_step (a * 2 ^ suc w + c) (b * 2 ^ suc w + d),
  bit_xor_step c d,
  bit_xor_split w a b (c / 2) (d / 2) (omega (arith, pow-suc 2 w)) (omega (arith, pow-suc 2 w)),
)
