-- ===== src/Crc.antt =====
-- libpconn/crc.c: the 16-bit cyclic redundancy check of SLP, one table look-up for each byte.
pub mod Table
pub mod Step
pub mod Reference
pub mod Detection
use coldsync.Base.{ℕ, ◌*◌, ◌/◌, ◌^◌, bit_and, bit_xor, List, [], ◌∷◌, get_or}
use Table.{icrctb}

-- One round of the loop of `crc16`. The index is below 256 for a byte and a 16-bit `crc`; `get_or`
-- gives 0 outside of the table, where C reads past it.
unfoldable pub crc_step : ℕ → ℕ → ℕ
unfolding icrctb
crc_step crc b = bit_xor (get_or icrctb (bit_xor b (crc / 2 ^ 8)) 0) (bit_and crc 0xff * 2 ^ 8)

-- `len` runs over the whole buffer.
unfoldable pub crc16 : List ℕ → ℕ → ℕ
unfolding crc_step
crc16 [] crc = crc
crc16 (b ∷ buf) crc = crc16 buf (crc_step crc b)
