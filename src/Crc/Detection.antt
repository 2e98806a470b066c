-- ===== src/Crc/Detection.antt =====
-- Which changes of a message the check detects.
use coldsync.Base.{ℕ, ◌+◌, ◌*◌, ◌/◌, ◌%◌, ◌<◌, bit_xor, ◌≡◌, ◌≢◌, refl, sym, ap, ◌∙◌, arith}
use coldsync.Base.{List, [], ◌∷◌, ◌++◌, get_or, ◌==◌, true}
use coldsync.Base.Bits.{bit_xor_comm, bit_xor_injective}
use coldsync.Base.Bits.Masks.{all_below, equal_below}
use coldsync.Bytes.{IsByte, IsUword, IsBytes}
use coldsync.Crc.{crc_step, crc16}
use coldsync.Crc.Table.{icrctb}
use coldsync.Crc.Step.{
  entry, crc_step_parts, crc_step-IsUword, crc16-IsUword, crc16-append, bit_xor-IsByte,
}

-- The low bytes of the table's entries are all different: this finds the index of one.
index_of_low : List ℕ
index_of_low =
    0 ∷ 35 ∷ 70 ∷ 101 ∷ 140 ∷ 175 ∷ 202 ∷ 233 ∷ 8 ∷ 43 ∷ 78 ∷ 109 ∷ 132 ∷ 167 ∷ 194 ∷ 225 ∷ 17 ∷ 50
    ∷ 87 ∷ 116 ∷ 157 ∷ 190 ∷ 219 ∷ 248 ∷ 25 ∷ 58 ∷ 95 ∷ 124 ∷ 149 ∷ 182 ∷ 211 ∷ 240 ∷ 34 ∷ 1 ∷ 100
    ∷ 71 ∷ 174 ∷ 141 ∷ 232 ∷ 203 ∷ 42 ∷ 9 ∷ 108 ∷ 79 ∷ 166 ∷ 133 ∷ 224 ∷ 195 ∷ 51 ∷ 16 ∷ 117 ∷ 86
    ∷ 191 ∷ 156 ∷ 249 ∷ 218 ∷ 59 ∷ 24 ∷ 125 ∷ 94 ∷ 183 ∷ 148 ∷ 241 ∷ 210 ∷ 68 ∷ 103 ∷ 2 ∷ 33 ∷ 200
    ∷ 235 ∷ 142 ∷ 173 ∷ 76 ∷ 111 ∷ 10 ∷ 41 ∷ 192 ∷ 227 ∷ 134 ∷ 165 ∷ 85 ∷ 118 ∷ 19 ∷ 48 ∷ 217 ∷ 250
    ∷ 159 ∷ 188 ∷ 93 ∷ 126 ∷ 27 ∷ 56 ∷ 209 ∷ 242 ∷ 151 ∷ 180 ∷ 102 ∷ 69 ∷ 32 ∷ 3 ∷ 234 ∷ 201 ∷ 172
    ∷ 143 ∷ 110 ∷ 77 ∷ 40 ∷ 11 ∷ 226 ∷ 193 ∷ 164 ∷ 135 ∷ 119 ∷ 84 ∷ 49 ∷ 18 ∷ 251 ∷ 216 ∷ 189 ∷ 158
    ∷ 127 ∷ 92 ∷ 57 ∷ 26 ∷ 243 ∷ 208 ∷ 181 ∷ 150 ∷ 136 ∷ 171 ∷ 206 ∷ 237 ∷ 4 ∷ 39 ∷ 66 ∷ 97 ∷ 128
    ∷ 163 ∷ 198 ∷ 229 ∷ 12 ∷ 47 ∷ 74 ∷ 105 ∷ 153 ∷ 186 ∷ 223 ∷ 252 ∷ 21 ∷ 54 ∷ 83 ∷ 112 ∷ 145 ∷ 178
    ∷ 215 ∷ 244 ∷ 29 ∷ 62 ∷ 91 ∷ 120 ∷ 170 ∷ 137 ∷ 236 ∷ 207 ∷ 38 ∷ 5 ∷ 96 ∷ 67 ∷ 162 ∷ 129 ∷ 228
    ∷ 199 ∷ 46 ∷ 13 ∷ 104 ∷ 75 ∷ 187 ∷ 152 ∷ 253 ∷ 222 ∷ 55 ∷ 20 ∷ 113 ∷ 82 ∷ 179 ∷ 144 ∷ 245 ∷ 214
    ∷ 63 ∷ 28 ∷ 121 ∷ 90 ∷ 204 ∷ 239 ∷ 138 ∷ 169 ∷ 64 ∷ 99 ∷ 6 ∷ 37 ∷ 196 ∷ 231 ∷ 130 ∷ 161 ∷ 72
    ∷ 107 ∷ 14 ∷ 45 ∷ 221 ∷ 254 ∷ 155 ∷ 184 ∷ 81 ∷ 114 ∷ 23 ∷ 52 ∷ 213 ∷ 246 ∷ 147 ∷ 176 ∷ 89 ∷ 122
    ∷ 31 ∷ 60 ∷ 238 ∷ 205 ∷ 168 ∷ 139 ∷ 98 ∷ 65 ∷ 36 ∷ 7 ∷ 230 ∷ 197 ∷ 160 ∷ 131 ∷ 106 ∷ 73 ∷ 44
    ∷ 15 ∷ 255 ∷ 220 ∷ 185 ∷ 154 ∷ 115 ∷ 80 ∷ 53 ∷ 22 ∷ 247 ∷ 212 ∷ 177 ∷ 146 ∷ 123 ∷ 88 ∷ 61 ∷ 30
    ∷ []

index_found : all_below 256 (λ i. get_or index_of_low (entry i % 256) 0 == i) ≡ true
unfolding all_below icrctb index_of_low
index_found = refl

entry_low_injective : (i j : ℕ) → i < 256 → j < 256 → entry i % 256 ≡ entry j % 256 → i ≡ j
entry_low_injective i j h k e =
    sym (equal_below 256 (λ n. get_or index_of_low (entry n % 256) 0) (λ n. n) i index_found h)
    ∙ ap (λ (t : ℕ). get_or index_of_low t 0) e
    ∙ equal_below 256 (λ n. get_or index_of_low (entry n % 256) 0) (λ n. n) j index_found k

-- A round can be undone where the byte is known, and where the old value is known.
step_injective :
    (c c' b b' : ℕ)
    → IsUword c
    → IsUword c'
    → IsByte b
    → IsByte b'
    → crc_step c b ≡ crc_step c' b'
    → (bit_xor b (c / 256) ≡ bit_xor b' (c' / 256)) × (c % 256 ≡ c' % 256)
step_injective c c' b b' hc hc' hb hb' e = (same_index, same_low)
  where
    i : ℕ
    i = bit_xor b (c / 256)

    i' : ℕ
    i' = bit_xor b' (c' / 256)

    index : bit_xor b (c / 256) < 256
    index = bit_xor-IsByte b (c / 256) hb (omega arith)

    index' : bit_xor b' (c' / 256) < 256
    index' = bit_xor-IsByte b' (c' / 256) hb' (omega arith)

    both :
        bit_xor (entry i / 256) (c % 256) * 256 + entry i % 256
        ≡ bit_xor (entry i' / 256) (c' % 256) * 256 + entry i' % 256
    both = sym (crc_step_parts c b hc hb) ∙ e ∙ crc_step_parts c' b' hc' hb'

    same_index : bit_xor b (c / 256) ≡ bit_xor b' (c' / 256)
    same_index = entry_low_injective i i' index index' (omega (arith, both))

    same_high : bit_xor (entry i / 256) (c % 256) ≡ bit_xor (entry i' / 256) (c' % 256)
    same_high = omega (arith, both)

    same_low : c % 256 ≡ c' % 256
    same_low = bit_xor_injective (c % 256) (c' % 256) (entry i / 256) (
        bit_xor_comm (c % 256) _
        ∙ same_high
        ∙ ap (λ (t : ℕ). bit_xor (entry t / 256) (c' % 256)) (sym same_index)
        ∙ bit_xor_comm _ (c' % 256))

step_old_injective :
    (c c' b : ℕ) → IsUword c → IsUword c' → IsByte b → crc_step c b ≡ crc_step c' b → c ≡ c'
step_old_injective c c' b hc hc' hb e = omega (arith, high, low)
  where
    low : c % 256 ≡ c' % 256
    low = (step_injective c c' b b hc hc' hb hb e).1

    high : c / 256 ≡ c' / 256
    high = bit_xor_injective (c / 256) (c' / 256) b (
        bit_xor_comm (c / 256) b
        ∙ (step_injective c c' b b hc hc' hb hb e).0
        ∙ bit_xor_comm b (c' / 256))

crc16_injective :
    (buf : List ℕ) (c c' : ℕ)
    → IsUword c
    → IsUword c'
    → IsBytes buf
    → crc16 buf c ≡ crc16 buf c'
    → c ≡ c'
unfolding crc16
crc16_injective [] c c' hc hc' hb e = e
crc16_injective (b ∷ buf) c c' hc hc' hb e = step_old_injective c c' b hc hc' hb.0 (
    crc16_injective buf (crc_step c b) (crc_step c' b) (crc_step-IsUword c b hc hb.0)
      (crc_step-IsUword c' b hc' hb.0) hb.1 e)

two_bytes_injective :
    (c a b a' b' : ℕ)
    → IsUword c
    → IsBytes (a ∷ b ∷ a' ∷ b' ∷ [])
    → crc_step (crc_step c a) b ≡ crc_step (crc_step c a') b'
    → (a ≡ a') × (b ≡ b')
two_bytes_injective c a b a' b' hc h e = (first, second)
  where
    word : IsUword (crc_step c a)
    word = crc_step-IsUword c a hc h.0

    word' : IsUword (crc_step c a')
    word' = crc_step-IsUword c a' hc h.1.1.0

    last :
        (bit_xor b (crc_step c a / 256) ≡ bit_xor b' (crc_step c a' / 256))
        × (crc_step c a % 256 ≡ crc_step c a' % 256)
    last = step_injective (crc_step c a) (crc_step c a') b b' word word' h.1.0 h.1.1.1.0 e

    same_index : bit_xor a (c / 256) ≡ bit_xor a' (c / 256)
    same_index =
        entry_low_injective _ _ (bit_xor-IsByte a (c / 256) h.0 (omega arith))
          (bit_xor-IsByte a' (c / 256) h.1.1.0 (omega arith))
          (omega (arith, last.1, crc_step_parts c a hc h.0, crc_step_parts c a' hc h.1.1.0))

    first : a ≡ a'
    first = bit_xor_injective a a' (c / 256) same_index

    second : b ≡ b'
    second =
        bit_xor_injective b b' (crc_step c a / 256)
          (last.0 ∙ ap (λ (t : ℕ). bit_xor b' (crc_step c t / 256)) (sym first))

-- Two messages of bytes that differ in no more than two adjacent bytes, and do differ, have
-- different CRCs, whatever the start value, what precedes the two bytes and what follows them.
pub crc16_burst :
    (front back : List ℕ) (a b a' b' start : ℕ)
    → IsUword start
    → IsBytes front
    → IsBytes back
    → IsBytes (a ∷ b ∷ a' ∷ b' ∷ [])
    → ¬ ((a ≡ a') × (b ≡ b'))
    → crc16 (front ++ (a ∷ b ∷ back)) start ≢ crc16 (front ++ (a' ∷ b' ∷ back)) start
unfolding crc16
crc16_burst front back a b a' b' start hs hf hb hab differ e = differ (
    two_bytes_injective start' a b a' b' word hab (
      crc16_injective back _ _ (after a b hab.0 hab.1.0) (after a' b' hab.1.1.0 hab.1.1.1.0) hb (
        sym (crc16-append front (a ∷ b ∷ back) start)
        ∙ e
        ∙ crc16-append front (a' ∷ b' ∷ back) start)))
  where
    start' : ℕ
    start' = crc16 front start

    word : IsUword (crc16 front start)
    word = crc16-IsUword front start hs hf

    after : (x y : ℕ) → IsByte x → IsByte y → IsUword (crc_step (crc_step start' x) y)
    after x y hx hy = crc_step-IsUword _ y (crc_step-IsUword start' x word hx) hy
