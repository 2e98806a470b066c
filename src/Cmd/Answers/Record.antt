-- ===== src/Cmd/Answers/Record.antt =====
-- The record that a response carries, and the identifier of one that was written.
use coldsync.Base.{ℕ, ◌+◌, ◌^◌, ◌%◌, ◌≡◌, refl, sym, arith}
use coldsync.Base.{some, List, [], ◌∷◌, ◌++◌, append-nil, length}
use coldsync.Base.{bit_or}
use coldsync.Bytes.{IsUword, IsUdword, get_ubyte, get_uword, get_udword, put_ubyte}
use coldsync.Bytes.Laws.{
  uword_bytes, udword_bytes, put_udword_lem, get-uword_bytes, get-udword_bytes,
}
use coldsync.Conn.{PConnection, ok}
use coldsync.Dlp.{Transport}
use coldsync.Dlp.Exchange.{Replies, answered_with}
use coldsync.Cmd.Records.{
  RecInfo, get_recinfo, get_record, get_recid, read_next_modified_rec, dlp_read_next_modified_rec,
  write_record, dlp_write_record,
}
use coldsync.Cmd.{on_arg, unknown_arg}
use coldsync.Cmd.Requests.{one_arg_lem}
use coldsync.Cmd.Answers.{the_arg, call_one}

-- The fields fit into what a response has for them.
pub record IsRecInfo (info : RecInfo) : Type 0 where
  pub id : IsUdword info.id
  pub index : IsUword info.index
  pub size : IsUword info.size

-- The bytes of a record in a response.
abbrev pub record_bytes : RecInfo → List ℕ → List ℕ
record_bytes info payload =
    udword_bytes info.id
    ++ (uword_bytes info.index
        ++ (uword_bytes info.size ++ (info.attributes ∷ info.category ∷ payload)))

get_recinfo_any :
    (u d : ℕ → List ℕ) (info : RecInfo) (payload : List ℕ) (old : RecInfo × List ℕ)
    → ((v : ℕ) (rest : List ℕ) → IsUword v → get_uword (u v ++ rest) ≡ some (v, rest))
    → ((v : ℕ) (rest : List ℕ) → IsUdword v → get_udword (d v ++ rest) ≡ some (v, rest))
    → IsRecInfo info
    → get_recinfo
        (d info.id
          ++ (u info.index ++ (u info.size ++ (info.attributes ∷ info.category ∷ payload))))
        old
      ≡ some (info, payload)
unfolding get_recinfo get_ubyte
get_recinfo_any u d info payload old hu hd h = rw (
  hd info.id (u info.index ++ (u info.size ++ (info.attributes ∷ info.category ∷ payload))) h.id,
  hu info.index (u info.size ++ (info.attributes ∷ info.category ∷ payload)) h.index,
  hu info.size (info.attributes ∷ info.category ∷ payload) h.size,
)

pub get_recinfo-record_bytes :
    (info : RecInfo) (payload : List ℕ) (old : RecInfo × List ℕ)
    → IsRecInfo info
    → get_recinfo (record_bytes info payload) old ≡ some (info, payload)
get_recinfo-record_bytes info payload old h =
    get_recinfo_any uword_bytes udword_bytes info payload old get-uword_bytes get-udword_bytes h

-- When the Palm takes the request for the next modified record of an open database, and answers
-- without an error and with the bytes of a record, `dlp_read_next_modified_rec` returns 0, that record
-- and its data, whatever was in their place before.
pub dlp_read_next_modified_rec_lem :
    (transport : Transport) (handle : ℕ) (info : RecInfo) (payload : List ℕ)
    (old : RecInfo × List ℕ) (c c' : PConnection)
    → IsRecInfo info
    → Replies transport 0x1f
        (the_arg ((handle % 2 ^ 8) ∷ []))
        0
        (the_arg (record_bytes info payload))
        c
        c'
    → dlp_read_next_modified_rec transport handle old c
      ≡ (ok (0, (info, payload)), answered_with 0x1f 0 (the_arg (record_bytes info payload)) c')
unfolding dlp_read_next_modified_rec get_record read_next_modified_rec
    coldsync.Cmd.Records.handle_request coldsync.Cmd.with_arg coldsync.Bytes.put_ubyte
dlp_read_next_modified_rec_lem transport handle info payload old c c' h replies =
    call_one transport (read_next_modified_rec handle) (the_arg ((handle % 2 ^ 8) ∷ []))
      (record_bytes info payload) c c' (omega arith) refl replies get_record old
      (get_recinfo-record_bytes info payload old h)

-- The bytes of a record in a request.
abbrev pub written_bytes : ℕ → ℕ → ℕ → ℕ → ℕ → List ℕ → List ℕ
written_bytes handle flags id attributes category payload =
    (handle % 2 ^ 8)
    ∷ (bit_or flags 0x80 % 2 ^ 8)
    ∷ (udword_bytes id ++ ((attributes % 2 ^ 8) ∷ (category % 2 ^ 8) ∷ payload))

recid_lem :
    (d : ℕ → List ℕ) (recid old : ℕ)
    → ((v : ℕ) (rest : List ℕ) → IsUdword v → get_udword (d v ++ rest) ≡ some (v, rest))
    → IsUdword recid
    → get_recid (d recid) old ≡ some recid
unfolding get_recid
recid_lem d recid old hd h = rw (sym (append-nil (d recid)), hd recid [] h)

record_laid_out :
    (handle flags id attributes category : ℕ) (payload : List ℕ)
    → (write_record handle flags id attributes category payload).argv
      ≡ some (the_arg (written_bytes handle flags id attributes category payload))
unfolding write_record coldsync.Cmd.with_allocated put_ubyte
record_laid_out handle flags id attributes category payload = rw put_udword_lem (
    one_arg_lem 0x20 (8 + length payload)
      (written_bytes handle flags id attributes category payload) (omega arith))

-- When the Palm takes a record that is to be written, and answers without an error and with the
-- identifier that the record has got, `dlp_write_record` returns 0 and that identifier. It allocates
-- the memory for the record, and the request has fewer than 2 ^ 16 bytes, the most that
-- `dlp.write` takes.
pub dlp_write_record_lem :
    (transport : Transport) (handle flags id attributes category : ℕ) (payload : List ℕ)
    (recid old : ℕ) (c c' : PConnection)
    → IsUdword recid
    → Replies transport 0x21
        (the_arg (written_bytes handle flags id attributes category payload))
        0
        (the_arg (udword_bytes recid))
        c
        c'
    → dlp_write_record transport handle flags id attributes category payload old c
      ≡ (ok (0, recid), answered_with 0x21 0 (the_arg (udword_bytes recid)) c')
unfolding dlp_write_record get_recid coldsync.Cmd.on_arg write_record coldsync.Cmd.with_allocated
dlp_write_record_lem transport handle flags id attributes category payload recid old c c' h
      replies =
    call_one transport (write_record handle flags id attributes category payload)
      (the_arg (written_bytes handle flags id attributes category payload)) (udword_bytes recid) c
      c' (omega arith) (record_laid_out handle flags id attributes category payload) replies
      (on_arg 0x20 get_recid unknown_arg) old (recid_lem udword_bytes recid old get-udword_bytes h)
