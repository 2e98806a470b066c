-- ===== src/Crc/Reference.antt =====
-- `crc16` against the shift register that the comment above it names: the CCITT polynomial 0x1021,
-- highest bit first.
use coldsync.Base.{ℕ, zero, suc, ◌+◌, ◌*◌, ◌/◌, ◌%◌, ◌<◌, bit_xor, ◌≡◌, refl, sym, ap, ◌∙◌, arith}
use coldsync.Base.{List, [], ◌∷◌, ◌==◌, true}
use coldsync.Base.Bits.{bit_xor_split, bit_xor_comm, bit_xor_assoc, zero-bit_xor, bit_xor-zero}
use mathlib.Core.Path.{ap₂}
use coldsync.Base.Bits.Masks.{bit_and_low, all_below, equal_below}
use coldsync.Bytes.{IsByte, IsUword, IsBytes}
use coldsync.Crc.{crc_step, crc16}
use coldsync.Crc.Table.{icrctb}
use coldsync.Crc.Step.{entry, crc_step-IsUword, bit_xor-IsByte}

-- One shift to the left; the bit that falls out subtracts the polynomial.
shift_bit : ℕ → ℕ
shift_bit x = bit_xor (x * 2 % 65536) (x / 32768 * 0x1021)

shift_bits : ℕ → ℕ → ℕ
unfolding shift_bit
shift_bits zero x = x
shift_bits (suc n) x = shift_bits n (shift_bit x)

-- The byte joins the high end of the register, which then takes eight shifts.
pub register : List ℕ → ℕ → ℕ
unfolding shift_bits
register [] crc = crc
register (b ∷ buf) crc = register buf (shift_bits 8 (bit_xor crc (b * 256)))

-- The polynomial times one bit.
times_poly_linear :
    (p q : ℕ) → p < 2 → q < 2 → bit_xor p q * 0x1021 ≡ bit_xor (p * 0x1021) (q * 0x1021)
times_poly_linear zero zero h k = refl
times_poly_linear zero (suc zero) h k = refl
times_poly_linear (suc zero) zero h k = refl
times_poly_linear (suc zero) (suc zero) h k = refl
times_poly_linear zero (suc (suc q)) h k = absurd (omega arith)
times_poly_linear (suc zero) (suc (suc q)) h k = absurd (omega arith)
times_poly_linear (suc (suc p)) q h k = absurd (omega arith)

swap_middle :
    (a b c d : ℕ) → bit_xor (bit_xor a b) (bit_xor c d) ≡ bit_xor (bit_xor a c) (bit_xor b d)
swap_middle a b c d =
    bit_xor_assoc a b (bit_xor c d)
    ∙ ap (bit_xor a) (
        sym (bit_xor_assoc b c d)
        ∙ ap (λ (t : ℕ). bit_xor t d) (bit_xor_comm b c)
        ∙ bit_xor_assoc c b d)
    ∙ sym (bit_xor_assoc a c (bit_xor b d))

top_apart :
    (x y : ℕ)
    → (bit_xor x y ≡ bit_xor (x / 32768) (y / 32768) * 32768 + bit_xor (x % 32768) (y % 32768))
      × (bit_xor (x % 32768) (y % 32768) < 32768)
top_apart x y = ground (
  arith,
  bit_xor_split 15 (x / 32768) (y / 32768) (x % 32768) (y % 32768) (omega arith) (omega arith),
)

doubled : (x y : ℕ) → bit_xor (x * 2) (y * 2) ≡ bit_xor x y * 2
doubled x y = ground (arith, bit_xor_split 1 x y 0 0 (omega arith) (omega arith))

-- The part that stays in the register, and the bit that falls out.
kept_linear : (x y : ℕ) → bit_xor x y * 2 % 65536 ≡ bit_xor (x * 2 % 65536) (y * 2 % 65536)
kept_linear x y = ground (arith, top_apart x y, doubled (x % 32768) (y % 32768))

fallen_linear : (x y : ℕ) → bit_xor x y / 32768 ≡ bit_xor (x / 32768) (y / 32768)
fallen_linear x y = omega (arith, top_apart x y)

shift_bit_linear :
    (x y : ℕ)
    → IsUword x
    → IsUword y
    → shift_bit (bit_xor x y) ≡ bit_xor (shift_bit x) (shift_bit y)
unfolding shift_bit
shift_bit_linear x y h k =
    ap (λ (t : ℕ). bit_xor t (bit_xor x y / 32768 * 0x1021)) (kept_linear x y)
    ∙ ap (λ (t : ℕ). bit_xor (bit_xor (x * 2 % 65536) (y * 2 % 65536)) (t * 0x1021))
        (fallen_linear x y)
    ∙ ap (bit_xor (bit_xor (x * 2 % 65536) (y * 2 % 65536)))
        (times_poly_linear (x / 32768) (y / 32768) (omega arith) (omega arith))
    ∙ swap_middle (x * 2 % 65536) (y * 2 % 65536) (x / 32768 * 0x1021) (y / 32768 * 0x1021)

bit_xor-IsUword : (a b : ℕ) → IsUword a → IsUword b → IsUword (bit_xor a b)
bit_xor-IsUword a b h k = (bit_xor_split 16 0 0 a b h k).1

shift_bit-IsUword : (x : ℕ) → IsUword x → IsUword (shift_bit x)
unfolding shift_bit
shift_bit-IsUword x h =
    bit_xor-IsUword (x * 2 % 65536) (x / 32768 * 0x1021) (omega arith) (omega arith)

shift_bits_linear :
    (n x y : ℕ)
    → IsUword x
    → IsUword y
    → shift_bits n (bit_xor x y) ≡ bit_xor (shift_bits n x) (shift_bits n y)
unfolding shift_bits
shift_bits_linear zero x y h k = refl
shift_bits_linear (suc n) x y h k =
    ap (shift_bits n) (shift_bit_linear x y h k)
    ∙ shift_bits_linear n (shift_bit x) (shift_bit y) (shift_bit-IsUword x h)
        (shift_bit-IsUword y k)

-- Eight shifts of a high byte give its table entry; a low byte moves up unchanged.
high_byte_table : all_below 256 (λ i. shift_bits 8 (i * 256) == entry i) ≡ true
unfolding all_below shift_bits icrctb
high_byte_table = refl

low_byte_table : all_below 256 (λ i. shift_bits 8 i == i * 256) ≡ true
unfolding all_below shift_bits
low_byte_table = refl

step_register :
    (crc b : ℕ) → IsUword crc → IsByte b → crc_step crc b ≡ shift_bits 8 (bit_xor crc (b * 256))
unfolding crc_step
step_register crc b h k =
    ap₂ bit_xor (sym table_entry) (ap (λ (t : ℕ). t * 256) (bit_and_low 8 crc) ∙ sym low_entry)
    ∙ sym (shift_bits_linear 8 (i * 256) (crc % 256) (omega (arith, index)) (omega arith))
    ∙ ap (shift_bits 8) (sym apart)
  where
    i : ℕ
    i = bit_xor b (crc / 256)

    index : bit_xor b (crc / 256) < 256
    index = bit_xor-IsByte b (crc / 256) k (omega arith)

    table_entry : shift_bits 8 (i * 256) ≡ entry i
    table_entry = equal_below 256 (λ n. shift_bits 8 (n * 256)) entry i high_byte_table index

    low_entry : shift_bits 8 (crc % 256) ≡ crc % 256 * 256
    low_entry =
        equal_below 256 (shift_bits 8) (λ n. n * 256) (crc % 256) low_byte_table (omega arith)

    apart : bit_xor crc (b * 256) ≡ bit_xor (i * 256) (crc % 256)
    apart = ground (
      arith,
      bit_xor_split 8 (crc / 256) b (crc % 256) 0,
      bit_xor_split 8 i 0 0 (crc % 256),
      bit_xor_comm b (crc / 256),
      bit_xor-zero (crc % 256),
      bit_xor-zero i,
      zero-bit_xor (crc % 256),
    )

-- The table-driven check is the bit-by-bit shift register, for every message of bytes and every
-- 16-bit start value.
pub crc16-eq-register :
    (buf : List ℕ) (start : ℕ) → IsUword start → IsBytes buf → crc16 buf start ≡ register buf start
unfolding crc16 register
crc16-eq-register [] start h k = refl
crc16-eq-register (b ∷ buf) start h k =
    crc16-eq-register buf (crc_step start b) (crc_step-IsUword start b h k.0) k.1
    ∙ ap (register buf) (step_register start b h k.0)
