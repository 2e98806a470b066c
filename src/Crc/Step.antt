-- ===== src/Crc/Step.antt =====
-- One round of `crc16` in plain arithmetic, and the range of the result.
use coldsync.Base.{ℕ, ◌+◌, ◌*◌, ◌/◌, ◌%◌, ◌<◌, bit_xor, ◌≡◌, refl, ◌∙◌, arith}
use coldsync.Base.{List, [], ◌∷◌, ◌++◌, get_or, ltb, true}
use coldsync.Base.Bits.{bit_xor_split, zero-bit_xor, bit_xor_self, bit_xor-zero}
use coldsync.Base.Bits.Masks.{bit_and_low, all_below, all_below_sound}
use coldsync.Bytes.{IsByte, IsUword, IsBytes}
use coldsync.Bytes.Laws.{uword_bytes}
use coldsync.Crc.{crc_step, crc16}
use coldsync.Crc.Table.{icrctb}

abbrev pub entry : ℕ → ℕ
entry i = get_or icrctb i 0

entries_in_range : all_below 256 (λ i. ltb (entry i) 65536) ≡ true
unfolding all_below icrctb
entries_in_range = refl

entry-IsUword : (i : ℕ) → i < 256 → IsUword (entry i)
entry-IsUword i h =
    ground (arith, all_below_sound (λ i. ltb (entry i) 65536) 256 i h entries_in_range)

pub bit_xor-IsByte : (a b : ℕ) → IsByte a → IsByte b → IsByte (bit_xor a b)
bit_xor-IsByte a b h k = (bit_xor_split 8 0 0 a b h k).1

-- The low byte of the table's entry stays, and the low byte of the old value joins its high byte.
pub crc_step_parts :
    (crc b : ℕ)
    → IsUword crc
    → IsByte b
    → crc_step crc b
      ≡ bit_xor (entry (bit_xor b (crc / 256)) / 256) (crc % 256) * 256
        + entry (bit_xor b (crc / 256)) % 256
unfolding crc_step
crc_step_parts crc b h k = ground (
  arith,
  bit_and_low 8 crc,
  index,
  entry-IsUword (bit_xor b (crc / 256)) index,
  bit_xor_split 8 (entry i / 256) (crc % 256) (entry i % 256) 0,
  bit_xor-zero (entry i % 256),
)
  where
    i : ℕ
    i = bit_xor b (crc / 256)

    index : bit_xor b (crc / 256) < 256
    index = bit_xor-IsByte b (crc / 256) k (omega arith)

pub crc_step-IsUword : (crc b : ℕ) → IsUword crc → IsByte b → IsUword (crc_step crc b)
crc_step-IsUword crc b h k = ground (
  arith,
  crc_step_parts crc b h k,
  bit_xor-IsByte (entry i / 256) (crc % 256),
  entry-IsUword i (bit_xor-IsByte b (crc / 256) k (omega arith)),
)
  where
    i : ℕ
    i = bit_xor b (crc / 256)

pub crc16-IsUword : (buf : List ℕ) (crc : ℕ) → IsUword crc → IsBytes buf → IsUword (crc16 buf crc)
unfolding crc16
crc16-IsUword [] crc h k = h
crc16-IsUword (b ∷ buf) crc h k =
    crc16-IsUword buf (crc_step crc b) (crc_step-IsUword crc b h k.0) k.1

-- The check of several buffers in turn is that of all of them: `start` carries it on.
pub crc16-append : (xs ys : List ℕ) (start : ℕ) → crc16 (xs ++ ys) start ≡ crc16 ys (crc16 xs start)
unfolding crc16
crc16-append [] ys start = refl
crc16-append (b ∷ xs) ys start = crc16-append xs ys (crc_step start b)

-- A check value, read as two more bytes from itself, leaves 0.
step_own_high : (crc : ℕ) → IsUword crc → crc_step crc (crc / 256 % 256) ≡ crc % 256 * 256
step_own_high crc h = ground (
  arith,
  crc_step_parts crc (crc / 256 % 256) h (omega arith),
  bit_xor_self (crc / 256),
  zero-bit_xor (crc % 256),
  zero_entry,
)
  where
    zero_entry : entry 0 ≡ 0
    zero_entry = unfold icrctb in refl

crc16_residue : (crc : ℕ) → IsUword crc → crc16 (uword_bytes crc) crc ≡ 0
unfolding crc16
crc16_residue crc h = ground (arith, step_own_high crc h, step_own_high (crc % 256 * 256))

-- For a message of bytes and a 16-bit start value, the CRC of the message followed by its own CRC, high
-- byte first, is 0.
pub crc16-append_own :
    (buf : List ℕ) (start : ℕ)
    → IsUword start
    → IsBytes buf
    → crc16 (buf ++ uword_bytes (crc16 buf start)) start ≡ 0
crc16-append_own buf start h k =
    crc16-append buf _ start ∙ crc16_residue (crc16 buf start) (crc16-IsUword buf start h k)
