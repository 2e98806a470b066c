-- ===== src/Bytes/Laws.antt =====
-- What the functions of util.c read and write, in plain arithmetic, and their round trips.
use coldsync.Base.{ℕ, ◌+◌, ◌*◌, ◌/◌, ◌%◌, ◌^◌, ◌<◌, bit_and, some, ◌≡◌, refl, ap}
use coldsync.Base.{List, [], ◌∷◌, ◌++◌, arith, ◌∙◌, length, take_all}
use coldsync.Base.Bits.Masks.{bit_and_low, bit_or_low}
use coldsync.Bytes.{IsUword, IsUdword, uword_many}
use coldsync.Bytes.{get_uword, get_udword, put_ubyte, put_uword, put_udword}

pub uword_many_lem : (bytes : List ℕ) → IsUword (length bytes) → uword_many bytes ≡ bytes
unfolding uword_many
uword_many_lem bytes h = take_all (length bytes % 2 ^ 16) bytes (omega (arith, h))

low_byte : (v : ℕ) → bit_and v 0xff ≡ v % 256
low_byte v = bit_and_low 8 v

-- The big-endian bytes of a word.
abbrev pub uword_bytes : ℕ → List ℕ
uword_bytes v = (v / 256 % 256) ∷ (v % 256) ∷ []

abbrev pub udword_bytes : ℕ → List ℕ
udword_bytes v = (v / 16777216 % 256) ∷ (v / 65536 % 256) ∷ (v / 256 % 256) ∷ (v % 256) ∷ []

pub put_ubyte_lem : (buf : List ℕ) (v : ℕ) → put_ubyte buf v ≡ buf ++ ((v % 256) ∷ [])
unfolding put_ubyte
put_ubyte_lem buf v = refl

pub put_uword_lem : (buf : List ℕ) (v : ℕ) → put_uword buf v ≡ buf ++ uword_bytes v
unfolding put_uword
put_uword_lem buf v = simp low_byte

pub put_udword_lem : (buf : List ℕ) (v : ℕ) → put_udword buf v ≡ buf ++ udword_bytes v
unfolding put_udword
put_udword_lem buf v = simp low_byte

pub get_uword_lem :
    (a b : ℕ) (rest : List ℕ) → b < 256 → get_uword (a ∷ b ∷ rest) ≡ some (a * 256 + b, rest)
unfolding get_uword
get_uword_lem a b rest h = rw (bit_or_low 8 a b h)

join_three :
    (a b c : ℕ)
    → b < 256
    → c < 256
    → a * 2 ^ 24 + b * 2 ^ 16 + c * 2 ^ 8 ≡ (a * 65536 + b * 256 + c) * 2 ^ 8
join_three a b c h k = omega arith

get_udword_lem :
    (a b c d : ℕ) (rest : List ℕ)
    → b < 256
    → c < 256
    → d < 256
    → get_udword (a ∷ b ∷ c ∷ d ∷ rest) ≡ some (a * 16777216 + b * 65536 + c * 256 + d, rest)
unfolding get_udword
get_udword_lem a b c d rest hb hc hd = ground (
  arith,
  bit_or_low 24 a (b * 2 ^ 16),
  bit_or_low 16 (a * 256 + b) (c * 2 ^ 8),
  bit_or_low 8 (a * 65536 + b * 256 + c) d,
)

-- The big-endian digits of a double word make it up again.
pub get-udword_bytes :
    (v : ℕ) (rest : List ℕ) → IsUdword v → get_udword (udword_bytes v ++ rest) ≡ some (v, rest)
get-udword_bytes v rest h =
    get_udword_lem _ _ _ _ rest (omega arith) (omega arith) (omega arith)
    ∙ ap (λ (t : ℕ). some (t, rest)) (omega arith)

-- And those of a word.
pub get-uword_bytes :
    (v : ℕ) (rest : List ℕ) → IsUword v → get_uword (uword_bytes v ++ rest) ≡ some (v, rest)
get-uword_bytes v rest h =
    get_uword_lem _ _ rest (omega arith) ∙ ap (λ (t : ℕ). some (t, rest)) (omega arith)

-- A word that was put into a buffer is got back from it, with whatever follows it.
pub get_uword-put_uword :
    (v : ℕ) (rest : List ℕ) → IsUword v → get_uword (put_uword [] v ++ rest) ≡ some (v, rest)
get_uword-put_uword v rest h = rw put_uword_lem (get-uword_bytes v rest h)

-- A double word that was put into a buffer is got back from it, with whatever follows it.
pub get_udword-put_udword :
    (v : ℕ) (rest : List ℕ) → IsUdword v → get_udword (put_udword [] v ++ rest) ≡ some (v, rest)
get_udword-put_udword v rest h = rw put_udword_lem (get-udword_bytes v rest h)
