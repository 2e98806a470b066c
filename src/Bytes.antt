-- ===== src/Bytes.antt =====
-- libpconn/util.c: Palm numbers are big-endian, and are read and written through a pointer that
-- moves. A buffer that is read is the list of its bytes from the pointer on; `none` stands for a
-- read past its end, which C leaves undefined. A buffer that is written is the list of the bytes
-- before the pointer. `unsigned long` has the 32 bits that palm_types.h gives `udword`.
pub mod Laws
pub mod Reverse
use coldsync.Base.{ℕ, ◌+◌, ◌*◌, ◌/◌, ◌%◌, ◌^◌, ◌<◌, bit_and, bit_or, Option, none, some}
use coldsync.Base.{List, [], ◌∷◌, ◌++◌, All, length, take}

abbrev pub IsByte : ℕ → Type 0
IsByte b = b < 256

abbrev pub IsUword : ℕ → Type 0
IsUword v = v < 65536

abbrev pub IsUdword : ℕ → Type 0
IsUdword v = v < 2 ^ 32

-- What a function gets that takes a pointer to these bytes and their number as a `uword`.
unfoldable pub uword_many : List ℕ → List ℕ
uword_many bytes = take (length bytes % 2 ^ 16) bytes

abbrev pub IsBytes : List ℕ → Type 0
IsBytes = All IsByte

unfoldable pub peek_ubyte : List ℕ → Option ℕ
peek_ubyte [] = none
peek_ubyte (a ∷ rest) = some a

peek_uword : List ℕ → Option ℕ
peek_uword (a ∷ b ∷ rest) = some (bit_or (a * 2 ^ 8) b)
peek_uword _ = none

peek_udword : List ℕ → Option ℕ
peek_udword (a ∷ b ∷ c ∷ d ∷ rest) =
    some (bit_or (bit_or (bit_or (a * 2 ^ 24) (b * 2 ^ 16)) (c * 2 ^ 8)) d)
peek_udword _ = none

abbrev advance : Option ℕ → List ℕ → Option (ℕ × List ℕ)
advance none rest = none
advance (some v) rest = some (v, rest)

unfoldable pub get_ubyte : List ℕ → Option (ℕ × List ℕ)
unfolding peek_ubyte
get_ubyte [] = none
get_ubyte (a ∷ rest) = advance (peek_ubyte (a ∷ rest)) rest

unfoldable pub get_uword : List ℕ → Option (ℕ × List ℕ)
unfolding peek_uword
get_uword (a ∷ b ∷ rest) = advance (peek_uword (a ∷ b ∷ rest)) rest
get_uword _ = none

unfoldable pub get_udword : List ℕ → Option (ℕ × List ℕ)
unfolding peek_udword
get_udword (a ∷ b ∷ c ∷ d ∷ rest) = advance (peek_udword (a ∷ b ∷ c ∷ d ∷ rest)) rest
get_udword _ = none

-- The parameter is a `ubyte`, so that a larger argument is cut to its low byte.
unfoldable pub put_ubyte : List ℕ → ℕ → List ℕ
put_ubyte buf value = buf ++ ((value % 2 ^ 8) ∷ [])

unfoldable pub put_uword : List ℕ → ℕ → List ℕ
put_uword buf value = buf ++ (bit_and (value / 2 ^ 8) 0xff ∷ bit_and value 0xff ∷ [])

unfoldable pub put_udword : List ℕ → ℕ → List ℕ
put_udword buf value =
    buf
    ++ (bit_and (value / 2 ^ 24) 0xff
        ∷ bit_and (value / 2 ^ 16) 0xff
        ∷ bit_and (value / 2 ^ 8) 0xff
        ∷ bit_and value 0xff
        ∷ [])

unfoldable pub reverse_uword : ℕ → ℕ
reverse_uword value = bit_or (bit_and value 0xff00 / 2 ^ 8) (bit_and value 0x00ff * 2 ^ 8)

unfoldable pub reverse_udword : ℕ → ℕ
reverse_udword value =
    bit_or
      (bit_or (bit_or (bit_and value 0xff000000 / 2 ^ 24) (bit_and value 0x00ff0000 / 2 ^ 8))
        (bit_and value 0x0000ff00 * 2 ^ 8))
      (bit_and value 0x000000ff * 2 ^ 24)
