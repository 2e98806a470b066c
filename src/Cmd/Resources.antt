-- ===== src/Cmd/Resources.antt =====
-- libpconn/dlp_cmd.c: the requests for resources.
use coldsync.Base.{ℕ, ◌+◌, ltb, if◌then◌else◌, Option, some, List, [], ◌++◌, length}
use coldsync.Base.Maybe.{◌>>=◌}
use coldsync.Bytes.{get_uword, get_udword, put_ubyte, put_uword, put_udword}
use coldsync.Conn.Monad.{M}
use coldsync.Dlp.{Transport}
use coldsync.Cmd.{Request, with_arg, with_allocated, on_arg, unknown_arg, call, call_only}
use coldsync.Cmd.Memory.{memcpy}

-- `struct dlp_resource`
pub record Resource : Type 0 where
  pub type : ℕ
  pub id : ℕ
  pub index : ℕ
  pub size : ℕ

unfoldable pub get_resource : List ℕ → Option (Resource × List ℕ)
get_resource rptr = do
  (type, rptr) ← get_udword rptr
  (id, rptr) ← get_uword rptr
  (index, rptr) ← get_uword rptr
  (size, rptr) ← get_uword rptr
  some (record { type = type; id = id; index = index; size = size }, rptr)

unfoldable pub read_resource_by_index : ℕ → ℕ → ℕ → ℕ → Request
read_resource_by_index handle index offset len =
    with_arg 0x23 0x20 8
      (put_uword (put_uword (put_uword (put_ubyte (put_ubyte [] handle) 0) index) offset) len)

unfoldable pub read_resource_by_type : ℕ → ℕ → ℕ → ℕ → ℕ → Request
read_resource_by_type handle type id offset len =
    let wptr = put_udword (put_ubyte (put_ubyte [] handle) 0) type in
    with_arg 0x23 0x21 12 (put_uword (put_uword (put_uword wptr id) offset) len)

-- The data is as long as `size` says.
unfoldable pub write_resource : ℕ → ℕ → ℕ → List ℕ → Request
write_resource handle type id payload =
    let wptr = put_uword (put_udword (put_ubyte (put_ubyte [] handle) 0) type) id in
    with_allocated 0x24 0x20 (10 + length payload) (put_uword wptr (length payload) ++ payload)

unfoldable pub delete_resource : ℕ → ℕ → ℕ → ℕ → Request
delete_resource handle flags type id =
    with_arg 0x25 0x20 8 (put_uword (put_udword (put_ubyte (put_ubyte [] handle) flags) type) id)

-- The pointer to the data goes out.
unfoldable pub get_resource_pointer : List ℕ → Resource × List ℕ → Option (Resource × List ℕ)
unfolding get_resource
get_resource_pointer rptr old = get_resource rptr

-- The data is copied to an array of the caller, `len` bytes of it at most.
unfoldable pub get_resource_copy : ℕ → List ℕ → Resource × List ℕ → Option (Resource × List ℕ)
unfolding get_resource memcpy
get_resource_copy len rptr (old, out) = do
  (value, rptr) ← get_resource rptr
  out ← memcpy out rptr (if ltb len value.size then len else value.size)
  some (value, out)

module _ (transport : Transport) where
  unfoldable pub dlp_read_resource_by_index :
      ℕ → ℕ → ℕ → ℕ → Resource × List ℕ → M (ℕ × (Resource × List ℕ))
  unfolding call read_resource_by_index on_arg unknown_arg get_resource_pointer
  dlp_read_resource_by_index handle index offset len =
      call transport (read_resource_by_index handle index offset len)
        (on_arg 0x20 get_resource_pointer unknown_arg)

  unfoldable pub dlp_read_resource_by_type :
      ℕ → ℕ → ℕ → ℕ → ℕ → Resource × List ℕ → M (ℕ × (Resource × List ℕ))
  unfolding call read_resource_by_type on_arg unknown_arg get_resource_copy
  dlp_read_resource_by_type handle type id offset len =
      call transport (read_resource_by_type handle type id offset len)
        (on_arg 0x20 (get_resource_copy len) unknown_arg)

  unfoldable pub dlp_write_resource : ℕ → ℕ → ℕ → List ℕ → M (ℕ × Unit {0})
  unfolding call_only write_resource
  dlp_write_resource handle type id payload =
      call_only transport (write_resource handle type id payload)

  unfoldable pub dlp_delete_resource : ℕ → ℕ → ℕ → ℕ → M (ℕ × Unit {0})
  unfolding call_only delete_resource
  dlp_delete_resource handle flags type id =
      call_only transport (delete_resource handle flags type id)
