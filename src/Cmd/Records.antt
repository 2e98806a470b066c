-- ===== src/Cmd/Records.antt =====
-- libpconn/dlp_cmd.c: the requests for records.
use coldsync.Base.{ℕ, ◌+◌, ◌%◌, bit_or, Option, some, List, [], ◌++◌, length}
use coldsync.Base.Maybe.{◌>>=◌}
use coldsync.Bytes.{get_ubyte, get_uword, get_udword, put_ubyte, put_uword, put_udword}
use coldsync.Conn.Monad.{M}
use coldsync.Dlp.{Transport}
use coldsync.Dlp.Packet.{DlpArg}
use coldsync.Cmd.{Request, with_arg, with_allocated, on_arg, unknown_arg, call, call_only}

-- `struct dlp_recinfo`
pub record RecInfo : Type 0 where
  pub id : ℕ
  pub index : ℕ
  pub size : ℕ
  pub attributes : ℕ
  pub category : ℕ

-- The header of a record, and the pointer to its data.
unfoldable pub get_recinfo : List ℕ → RecInfo × List ℕ → Option (RecInfo × List ℕ)
get_recinfo rptr old = do
  (id, rptr) ← get_udword rptr
  (index, rptr) ← get_uword rptr
  (size, rptr) ← get_uword rptr
  (attributes, rptr) ← get_ubyte rptr
  (category, rptr) ← get_ubyte rptr
  some (
    record { id = id; index = index; size = size; attributes = attributes; category = category },
    rptr,
  )

unfoldable pub get_record : DlpArg → RecInfo × List ℕ → Option (RecInfo × List ℕ)
unfolding on_arg unknown_arg get_recinfo
get_record = on_arg 0x20 get_recinfo unknown_arg

-- The handle alone, which the argument points to.
unfoldable pub handle_request : ℕ → ℕ → Request
handle_request id handle = with_arg id 0x20 1 (put_ubyte [] handle)

unfoldable pub read_next_modified_rec : ℕ → Request
read_next_modified_rec handle = handle_request 0x1f handle

unfoldable pub read_record_by_id : ℕ → ℕ → ℕ → ℕ → Request
read_record_by_id handle id offset len =
    with_arg 0x20 0x20 10
      (put_uword (put_uword (put_udword (put_ubyte (put_ubyte [] handle) 0) id) offset) len)

-- The buffer has 8 bytes.
unfoldable pub read_record_by_index : ℕ → ℕ → Request
read_record_by_index handle index =
    with_arg 0x20 0x21 8
      (put_uword (put_uword (put_udword (put_ubyte (put_ubyte [] handle) 0) index) 0) 0)

-- Here index and size are read as double words.
unfoldable pub get_recinfo_by_index : List ℕ → RecInfo → Option RecInfo
get_recinfo_by_index rptr old = do
  (id, rptr) ← get_udword rptr
  (index, rptr) ← get_udword rptr
  (size, rptr) ← get_udword rptr
  (attributes, rptr) ← get_ubyte rptr
  (category, rptr) ← get_ubyte rptr
  some (record {
    id = id;
    index = index % 65536;
    size = size % 65536;
    attributes = attributes;
    category = category;
  })

-- The data is as long as `len` says.
unfoldable pub write_record : ℕ → ℕ → ℕ → ℕ → ℕ → List ℕ → Request
write_record handle flags id attributes category payload =
    let wptr = put_udword (put_ubyte (put_ubyte [] handle) (bit_or flags 0x80)) id in
    with_allocated 0x21 0x20 (8 + length payload)
      (put_ubyte (put_ubyte wptr attributes) category ++ payload)

unfoldable pub get_recid : List ℕ → ℕ → Option ℕ
get_recid rptr old = do (recid, rptr) ← get_udword rptr; some recid

unfoldable pub delete_record : ℕ → ℕ → ℕ → Request
delete_record handle flags recid =
    with_arg 0x22 0x20 6 (put_udword (put_ubyte (put_ubyte [] handle) flags) recid)

unfoldable pub reset_sync_flags : ℕ → Request
reset_sync_flags handle = handle_request 0x27 handle

unfoldable pub clean_up_database : ℕ → Request
clean_up_database handle = handle_request 0x26 handle

unfoldable pub reset_record_index : ℕ → Request
reset_record_index handle = handle_request 0x30 handle

unfoldable pub move_category : ℕ → ℕ → ℕ → Request
move_category handle from to =
    with_arg 0x2c 0x20 4 (put_ubyte (put_ubyte (put_ubyte (put_ubyte [] handle) from) to) 0)

unfoldable pub in_category : ℕ → ℕ → ℕ → Request
in_category id handle category = with_arg id 0x20 2 (put_ubyte (put_ubyte [] handle) category)

unfoldable pub read_next_rec_in_category : ℕ → ℕ → Request
read_next_rec_in_category handle category = in_category 0x32 handle category

unfoldable pub read_next_modified_rec_in_category : ℕ → ℕ → Request
read_next_modified_rec_in_category handle category = in_category 0x33 handle category

module _ (transport : Transport) where
  unfoldable pub dlp_read_next_modified_rec : ℕ → RecInfo × List ℕ → M (ℕ × (RecInfo × List ℕ))
  unfolding call read_next_modified_rec get_record
  dlp_read_next_modified_rec handle = call transport (read_next_modified_rec handle) get_record

  unfoldable pub dlp_read_record_by_id :
      ℕ → ℕ → ℕ → ℕ → RecInfo × List ℕ → M (ℕ × (RecInfo × List ℕ))
  unfolding call read_record_by_id get_record
  dlp_read_record_by_id handle id offset len =
      call transport (read_record_by_id handle id offset len) get_record

  unfoldable pub dlp_read_record_by_index : ℕ → ℕ → RecInfo → M (ℕ × RecInfo)
  unfolding call read_record_by_index get_recinfo_by_index on_arg unknown_arg
  dlp_read_record_by_index handle index =
      call transport (read_record_by_index handle index)
        (on_arg 0x20 get_recinfo_by_index unknown_arg)

  unfoldable pub dlp_write_record : ℕ → ℕ → ℕ → ℕ → ℕ → List ℕ → ℕ → M (ℕ × ℕ)
  unfolding call write_record get_recid on_arg unknown_arg
  dlp_write_record handle flags id attributes category payload =
      call transport (write_record handle flags id attributes category payload)
        (on_arg 0x20 get_recid unknown_arg)

  unfoldable pub dlp_delete_record : ℕ → ℕ → ℕ → M (ℕ × Unit {0})
  unfolding call_only delete_record
  dlp_delete_record handle flags recid = call_only transport (delete_record handle flags recid)

  unfoldable pub dlp_clean_up_database : ℕ → M (ℕ × Unit {0})
  unfolding call_only clean_up_database
  dlp_clean_up_database handle = call_only transport (clean_up_database handle)

  unfoldable pub dlp_reset_sync_flags : ℕ → M (ℕ × Unit {0})
  unfolding call_only reset_sync_flags
  dlp_reset_sync_flags handle = call_only transport (reset_sync_flags handle)

  unfoldable pub dlp_reset_record_index : ℕ → M (ℕ × Unit {0})
  unfolding call_only reset_record_index
  dlp_reset_record_index handle = call_only transport (reset_record_index handle)

  unfoldable pub dlp_move_category : ℕ → ℕ → ℕ → M (ℕ × Unit {0})
  unfolding call_only move_category
  dlp_move_category handle from to = call_only transport (move_category handle from to)

  unfoldable pub dlp_read_next_rec_in_category :
      ℕ → ℕ → RecInfo × List ℕ → M (ℕ × (RecInfo × List ℕ))
  unfolding call read_next_rec_in_category get_record
  dlp_read_next_rec_in_category handle category =
      call transport (read_next_rec_in_category handle category) get_record

  unfoldable pub dlp_read_next_modified_rec_in_category :
      ℕ → ℕ → RecInfo × List ℕ → M (ℕ × (RecInfo × List ℕ))
  unfolding call read_next_modified_rec_in_category get_record
  dlp_read_next_modified_rec_in_category handle category =
      call transport (read_next_modified_rec_in_category handle category) get_record
