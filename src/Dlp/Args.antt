-- ===== src/Dlp/Args.antt =====
-- The arguments of a request or response, written and read back.
use coldsync.Base.{
  ℕ, ◌+◌, ◌*◌, ◌/◌, ◌%◌, ◌<◌, ◌≡◌, refl, ap, ◌∙◌, arith, leb, leb-cases, sym, append-nil,
  if◌then◌else◌, Bool-cases, inl, inr, bit_and, bit_or,
}
use coldsync.Base.{
  some, List, [], ◌∷◌, ◌++◌, length, length-append, take-append, drop-append, All, append_assoc,
}
use coldsync.Base.Bits.Masks.{bit_and_low, bit_and_field, bit_or_high}
use mathlib.Core.Path.{ap₂}
use coldsync.Bytes.{IsUword, IsUdword, peek_ubyte, get_ubyte, put_ubyte}
use coldsync.Bytes.Laws.{
  uword_bytes, udword_bytes, put_uword_lem, put_udword_lem, get_uword_lem, get-udword_bytes,
}
use coldsync.Dlp.Packet.{DlpArg, put_arg_header, put_args, args_len, get_arg_header, get_args}

module _ (id : ℕ) (h : id < 64) where
  kind_tiny : bit_and id 0xc0 ≡ 0
  kind_tiny = bit_and_field 2 6 id ∙ omega arith

  kind_small : bit_and (id + 128) 0xc0 ≡ 0x80
  kind_small = bit_and_field 2 6 (id + 128) ∙ omega arith

  id_tiny : bit_and id 0x3fff ≡ id
  id_tiny = bit_and_low 14 id ∙ omega arith

  id_written : bit_and id 0x3f ≡ id
  id_written = bit_and_low 6 id ∙ omega arith

  id_small : bit_and (id + 128) 0x3f ≡ id
  id_small = bit_and_low 6 (id + 128) ∙ omega arith

  id_long : bit_and (192 * 256 + id) 0x3f ≡ id
  id_long = bit_and_low 6 (192 * 256 + id) ∙ omega arith

  mark_small : bit_or id 0x80 ≡ id + 128
  mark_small = bit_or_high 7 1 id (omega arith)

  mark_long : bit_or id 0xc000 ≡ id + 49152
  mark_long = bit_or_high 14 3 id (omega arith)

  get_tiny_header : (size : ℕ) (t : List ℕ) → get_arg_header (id ∷ size ∷ t) ≡ some (id, size, t)
  unfolding get_arg_header peek_ubyte get_ubyte
  get_tiny_header size t = rw (kind_tiny, id_tiny)

  get_small_header :
      (size : ℕ) (t : List ℕ)
      → IsUword size
      → get_arg_header ((id + 128) ∷ 0 ∷ (uword_bytes size ++ t)) ≡ some (id, size, t)
  unfolding get_arg_header peek_ubyte get_ubyte
  get_small_header size t k =
      rw (kind_small, id_small, get_uword_lem (size / 256 % 256) (size % 256) t (omega arith))
        (ap (λ (n : ℕ). some (id, n, t)) (omega arith))

  get_long_header :
      (size : ℕ) (t : List ℕ)
      → IsUdword size
      → get_arg_header (192 ∷ id ∷ (udword_bytes size ++ t)) ≡ some (id, size, t)
  unfolding get_arg_header peek_ubyte get_ubyte
  get_long_header size t k = rw (
    get_uword_lem 192 id (udword_bytes size ++ t) (omega arith),
    get-udword_bytes size t k,
    id_long,
  )

-- The bytes of an argument's header.
abbrev arg_header_bytes : ℕ → ℕ → List ℕ
arg_header_bytes id size =
    if leb size 255
    then id ∷ size ∷ []
    else if leb size 65535
    then (id + 128) ∷ 0 ∷ uword_bytes size
    else 192 ∷ id ∷ udword_bytes size

-- The identifier has the six bits of a tiny or small argument, the size its 32 bits.
pub record Fits (arg : DlpArg) : Type 0 where
  pub id : arg.id < 64
  pub size : IsUdword (length arg.payload)

module _ (id size : ℕ) (h : id < 64) (k : IsUdword size) where
  put_arg_header_lem : (w : List ℕ) → put_arg_header w id size ≡ w ++ arg_header_bytes id size
  unfolding put_arg_header put_ubyte
  put_arg_header_lem w = elim (leb-cases size 255) [
    | inl (le, tiny) ↦
        rw (tiny, id_written id h, append_assoc)
          (ap₂ (λ (a b : ℕ). w ++ (a ∷ b ∷ [])) (omega arith) (omega (arith, le)))
    | inr (gt, not_tiny) ↦ elim (leb-cases size 65535) [
      | inl (le, small) ↦
          rw
            (
              not_tiny,
              small,
              put_uword_lem,
              id_written id h,
              mark_small id h,
              append_assoc,
              append_assoc,
            )
            (ap (λ (a : ℕ). w ++ (a ∷ 0 ∷ uword_bytes size)) (omega arith))
      | inr (gt', not_small) ↦
          rw
            (
              not_tiny,
              not_small,
              put_udword_lem,
              put_uword_lem,
              id_tiny id h,
              mark_long id h,
              append_assoc,
            )
            (ap₂ (λ (a b : ℕ). w ++ (a ∷ b ∷ udword_bytes size)) (omega arith) (omega arith))
    ]
  ]

  get_arg_header_lem :
      (t : List ℕ) → get_arg_header (arg_header_bytes id size ++ t) ≡ some (id, size, t)
  get_arg_header_lem t = elim (leb-cases size 255) [
    | inl (le, tiny) ↦ rw tiny (get_tiny_header id h size t)
    | inr (gt, not_tiny) ↦ elim (leb-cases size 65535) [
      | inl (le, small) ↦ rw (not_tiny, small) (get_small_header id h size t (omega (arith, le)))
      | inr (gt', not_small) ↦ rw (not_tiny, not_small) (get_long_header id h size t k)
    ]
  ]

-- The bytes of arguments.
abbrev pub args_bytes : List DlpArg → List ℕ
args_bytes [] = []
args_bytes (arg ∷ argv) =
    arg_header_bytes arg.id (length arg.payload) ++ (arg.payload ++ args_bytes argv)

pub put_args_lem :
    (argv : List DlpArg) (w : List ℕ)
    → All Fits argv
    → put_args (length argv) w argv ≡ some (w ++ args_bytes argv)
unfolding put_args
put_args_lem [] w f = ap some (sym (append-nil w))
put_args_lem (arg ∷ argv) w (f, fs) =
    put_args_lem argv (put_arg_header w arg.id (length arg.payload) ++ arg.payload) fs
    ∙ ap some (
        rw (put_arg_header_lem arg.id (length arg.payload) f.id f.size w) (
          append_assoc (w ++ header) arg.payload (args_bytes argv)
          ∙ append_assoc w header (arg.payload ++ args_bytes argv)))
  where
    header : List ℕ
    header = arg_header_bytes arg.id (length arg.payload)

pub get_args_lem :
    (argv : List DlpArg) (rest : List ℕ)
    → All Fits argv
    → get_args (length argv) (args_bytes argv ++ rest) ≡ some argv
unfolding get_args
get_args_lem [] rest f = refl
get_args_lem (arg ∷ argv) rest (f, fs) = rw (
  append_assoc header (arg.payload ++ args_bytes argv) rest,
  append_assoc arg.payload (args_bytes argv) rest,
  get_arg_header_lem arg.id (length arg.payload) f.id f.size
      (arg.payload ++ (args_bytes argv ++ rest)),
  drop-append arg.payload (args_bytes argv ++ rest),
  take-append arg.payload (args_bytes argv ++ rest),
  get_args_lem argv rest fs,
)
  where
    header : List ℕ
    header = arg_header_bytes arg.id (length arg.payload)

length-arg_header_bytes :
    (id size : ℕ)
    → length (arg_header_bytes id size) + size
      ≡ (if leb size 255 then 2 + size else if leb size 65535 then 4 + size else 6 + size)
length-arg_header_bytes id size = elim (Bool-cases (leb size 255)) [
  | inl tiny ↦ rw tiny
  | inr not_tiny ↦ elim (Bool-cases (leb size 65535)) [
    | inl small ↦ rw (not_tiny, small)
    | inr not_small ↦ rw (not_tiny, not_small)
  ]
]

-- The memory that is asked for a message's arguments is exactly what they take.
length-args_bytes : (argv : List DlpArg) → length (args_bytes argv) ≡ args_len (length argv) argv
unfolding args_len
length-args_bytes [] = refl
length-args_bytes (arg ∷ argv) =
    length-append header (arg.payload ++ args_bytes argv)
    ∙ omega (
      arith,
      length-append arg.payload (args_bytes argv),
      length-args_bytes argv,
      length-arg_header_bytes arg.id (length arg.payload),
    )
  where
    header : List ℕ
    header = arg_header_bytes arg.id (length arg.payload)
