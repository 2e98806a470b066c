-- ===== src/Bytes/Reverse.antt =====
-- The byte swaps of util.c.
use coldsync.Base.{ℕ, ◌+◌, ◌*◌, ◌/◌, ◌%◌, ◌≡◌, arith}
use coldsync.Base.Bits.Masks.{bit_and_low, bit_or_high, bit_and_field}
use coldsync.Bytes.{IsUword, IsUdword, reverse_uword, reverse_udword}

-- The swapped word in plain arithmetic.
reverse_uword_arith : (v : ℕ) → IsUword v → reverse_uword v ≡ v % 256 * 256 + v / 256
unfolding reverse_uword
reverse_uword_arith v h =
    ground (arith, bit_and_low 8 v, bit_and_field 8 8 v, bit_or_high 8 (v % 256) (v / 256))

-- Swapping the bytes of a 16-bit word twice gives the word back.
pub reverse_uword_twice : (v : ℕ) → IsUword v → reverse_uword (reverse_uword v) ≡ v
reverse_uword_twice v h =
    omega (arith, reverse_uword_arith v h, reverse_uword_arith (reverse_uword v))

reverse_udword_arith :
    (v : ℕ)
    → IsUdword v
    → reverse_udword v
      ≡ v % 256 * 16777216 + v / 256 % 256 * 65536 + v / 65536 % 256 * 256 + v / 16777216
unfolding reverse_udword
reverse_udword_arith v h = ground (
  arith,
  bit_and_low 8 v,
  bit_and_field 8 8 v,
  bit_and_field 8 16 v,
  bit_and_field 8 24 v,
  bit_or_high 8 (v / 65536 % 256) (v / 16777216),
  bit_or_high 16 (v / 256 % 256) (v / 65536 % 256 * 256 + v / 16777216),
  bit_or_high 24 (v % 256) (v / 256 % 256 * 65536 + v / 65536 % 256 * 256 + v / 16777216),
)

-- Swapping the bytes of a 32-bit word twice gives the word back.
pub reverse_udword_twice : (v : ℕ) → IsUdword v → reverse_udword (reverse_udword v) ≡ v
reverse_udword_twice v h =
    omega (arith, reverse_udword_arith v h, reverse_udword_arith (reverse_udword v))
