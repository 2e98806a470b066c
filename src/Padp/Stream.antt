-- ===== src/Padp/Stream.antt =====
-- A message on its way: the fragments that a sender makes of it, and the acknowledgements of them.
use coldsync.Base.{
  ℕ, zero, suc, ◌+◌, ◌-◌, ◌%◌, ◌<◌, ◌≤◌, ◌≡◌, refl, ap, ◌∙◌, arith, ◌==◌, false, leb, le→leb,
  lt→leb, if◌then◌else◌,
}
use coldsync.Base.{
  List, [], ◌∷◌, ◌++◌, length, take, drop, take_all, drop_all, length-take, length-drop,
  length-append,
}
use coldsync.Slp.RoundTrip.{length-packet_bytes}
use mathlib.Core.Path.{ap₂}
use coldsync.Conn.{SlpAddr}
use coldsync.Padp.{PadpHeader, fragtype_data, flag_first, flag_last, padp_max_packet_len}
use coldsync.Padp.Write.{frag_header}
use coldsync.Padp.Fragments.{frag_packet, padp_bytes}
use coldsync.Padp.Acks.{ack_header}

-- The packets from `offset` of a message of `len` bytes on; `rest` is the message from there. The
-- first number bounds how many there are.
unfoldable pub stream : ℕ → SlpAddr → SlpAddr → ℕ → ℕ → ℕ → List ℕ → List ℕ
stream zero from to xid len offset rest = []
stream (suc n) from to xid len offset [] = []
stream (suc n) from to xid len offset (b ∷ bs) =
    frag_packet from to xid (frag_header len offset) (take padp_max_packet_len (b ∷ bs))
    ++ stream n from to xid len (offset + padp_max_packet_len) (drop padp_max_packet_len (b ∷ bs))

-- An address whose parts are cut to a byte, as the header of a packet has it.
abbrev in_header : SlpAddr → SlpAddr
in_header addr = record { protocol = addr.protocol % 256; port = addr.port % 256 }

abbrev pub ack_of : SlpAddr → SlpAddr → ℕ → ℕ → List ℕ
ack_of local from xid size = frag_packet local (in_header from) (xid % 256) (ack_header size) []

-- The acknowledgements of those packets: each gives the size of the fragment's header back.
unfoldable pub ack_stream : ℕ → SlpAddr → SlpAddr → ℕ → ℕ → ℕ → List ℕ → List ℕ
ack_stream zero local from xid len offset rest = []
ack_stream (suc n) local from xid len offset [] = []
ack_stream (suc n) local from xid len offset (b ∷ bs) =
    ack_of local from xid (frag_header len offset).size
    ++ ack_stream n local from xid len (offset + padp_max_packet_len)
        (drop padp_max_packet_len (b ∷ bs))

pub stream_done :
    (n : ℕ) (from to : SlpAddr) (xid len offset : ℕ) → stream n from to xid len offset [] ≡ []
unfolding stream
stream_done zero from to xid len offset = refl
stream_done (suc n) from to xid len offset = refl

pub ack_done :
    (n : ℕ) (local from : SlpAddr) (xid len offset : ℕ)
    → ack_stream n local from xid len offset [] ≡ []
unfolding ack_stream
ack_done zero local from xid len offset = refl
ack_done (suc n) local from xid len offset = refl

-- The header of the last fragment, and of one between the first and the last.
frag_header_lem :
    (len offset flags : ℕ)
    → 0 < offset
    → offset < 65536
    → (if leb (len - offset) padp_max_packet_len then flag_last else 0) ≡ flags
    → frag_header len offset ≡ record { type = fragtype_data; flags = flags; size = offset }
unfolding frag_header
frag_header_lem len offset flags pos small e =
    rw (not_first, e)
      (ap₂ (λ (f size : ℕ). record { type = fragtype_data; flags = f; size = size }) (omega arith)
        (omega (arith, small)))
  where
    not_first : (offset == 0) ≡ false
    not_first = ground arith

pub frag_size :
    (len offset : ℕ) → 0 < offset → offset < 65536 → (frag_header len offset).size ≡ offset
unfolding frag_header
frag_size len offset pos small =
    ap (λ (h : PadpHeader). h.size) (frag_header_lem len offset _ pos small refl)

module _ (n : ℕ) (from to : SlpAddr) (xid len offset b : ℕ) (bs : List ℕ) (pos : 0 < offset)
    (small : offset < 65536) (whole : len ≡ offset + length (b ∷ bs)) where
  pub stream_last :
      length (b ∷ bs) ≤ 1024
      → stream (suc n) from to xid len offset (b ∷ bs)
        ≡ frag_packet from to xid
            (record { type = fragtype_data; flags = flag_last; size = offset })
            (b ∷ bs)
          ++ []
  unfolding stream
  stream_last short =
      ap₂
        (λ (h : PadpHeader) (chunk : List ℕ).
          frag_packet from to xid h chunk
          ++ stream n from to xid len (offset + 1024) (drop 1024 (b ∷ bs)))
        (frag_header_lem len offset flag_last pos small
          (rw (le→leb (len - offset) 1024 (omega (arith, whole, short)))))
        (take_all 1024 (b ∷ bs) short)
      ∙ ap
          (λ (t : List ℕ).
            frag_packet from to xid
              (record { type = fragtype_data; flags = flag_last; size = offset }) (b ∷ bs)
            ++ t)
          (ap (stream n from to xid len (offset + 1024)) (drop_all 1024 (b ∷ bs) short)
            ∙ stream_done n from to xid len (offset + 1024))

  pub stream_more :
      1024 < length (b ∷ bs)
      → stream (suc n) from to xid len offset (b ∷ bs)
        ≡ frag_packet from to xid
            (record { type = fragtype_data; flags = 0; size = offset })
            (take 1024 (b ∷ bs))
          ++ stream n from to xid len (offset + 1024) (drop 1024 (b ∷ bs))
  unfolding stream
  stream_more long =
      ap
        (λ (h : PadpHeader).
          frag_packet from to xid h (take 1024 (b ∷ bs))
          ++ stream n from to xid len (offset + 1024) (drop 1024 (b ∷ bs)))
        (frag_header_lem len offset 0 pos small
          (rw (lt→leb (len - offset) 1024 (omega (arith, whole, long)))))

-- The header of the first fragment.
module _ (len flags : ℕ) (small : len < 65536)
    (e : (if leb (len - 0) padp_max_packet_len then flag_last else 0) ≡ flags) where
  pub first_header :
      frag_header len 0 ≡ record { type = fragtype_data; flags = flag_first + flags; size = len }
  unfolding frag_header
  first_header =
      ap₂ (λ (f size : ℕ). record { type = fragtype_data; flags = flag_first + f; size = size }) e
        (omega (arith, small))

-- There is a byte for every byte of the message.
pub length-stream :
    (n : ℕ) (from to : SlpAddr) (xid len offset : ℕ) (rest : List ℕ)
    → length rest ≤ n
    → length rest ≤ length (stream n from to xid len offset rest)
unfolding stream
length-stream zero from to xid len offset [] h = omega arith
length-stream zero from to xid len offset (b ∷ bs) h = absurd (omega arith)
length-stream (suc n) from to xid len offset [] h = omega arith
length-stream (suc n) from to xid len offset (b ∷ bs) h = omega (
  arith,
  length-append (frag_packet from to xid (frag_header len offset) (take 1024 (b ∷ bs)))
      (stream n from to xid len (offset + 1024) (drop 1024 (b ∷ bs))),
  length-packet_bytes from to xid (padp_bytes (frag_header len offset) ++ take 1024 (b ∷ bs))
      (omega (arith, length-take 1024 (b ∷ bs))),
  length-stream n from to xid len (offset + 1024) (drop 1024 (b ∷ bs))
      (omega (arith, length-drop 1024 (b ∷ bs), h)),
  length-take 1024 (b ∷ bs),
  length-drop 1024 (b ∷ bs),
)
