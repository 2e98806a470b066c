-- ===== src/Cmd/Blocks.antt =====
-- libpconn/dlp_cmd.c: the application info block and the sort block of a database.
use coldsync.Base.{ℕ, ◌+◌, ◌%◌, Option, some, List, [], ◌++◌, length}
use coldsync.Bytes.{get_uword, put_ubyte, put_uword}
use coldsync.Conn.Monad.{M}
use coldsync.Dlp.{Transport}
use coldsync.Cmd.{Request, with_arg, with_allocated, on_arg, unknown_arg, call, call_only}

-- The part of a block from `offset` on, `len` bytes of it.
unfoldable pub read_block : ℕ → ℕ → ℕ → ℕ → Request
read_block id handle offset len =
    with_arg id 0x20 6 (put_uword (put_uword (put_ubyte (put_ubyte [] handle) 0) offset) len)

-- The data is as long as `len` says.
unfoldable pub write_block : ℕ → ℕ → List ℕ → Request
write_block id handle payload =
    let wptr = put_uword (put_ubyte (put_ubyte [] handle) 0) (length payload) in
    with_allocated id 0x20 (4 + length payload) (wptr ++ payload)

unfoldable pub read_app_block : ℕ → ℕ → ℕ → Request
read_app_block = read_block 0x1b

unfoldable pub write_app_block : ℕ → List ℕ → Request
write_app_block = write_block 0x1c

unfoldable pub read_sort_block : ℕ → ℕ → ℕ → Request
read_sort_block = read_block 0x1d

unfoldable pub write_sort_block : ℕ → List ℕ → Request
write_sort_block = write_block 0x1e

-- Size of the block, and the pointer to it.
unfoldable pub get_app_block : List ℕ → ℕ × List ℕ → Option (ℕ × List ℕ)
get_app_block rptr old = get_uword rptr

-- The sort block comes without its size, which is that of the argument, as a word.
unfoldable pub get_sort_block : List ℕ → ℕ × List ℕ → Option (ℕ × List ℕ)
get_sort_block rptr old = some (length rptr % 65536, rptr)

module _ (transport : Transport) where
  unfoldable pub dlp_read_app_block : ℕ → ℕ → ℕ → ℕ × List ℕ → M (ℕ × (ℕ × List ℕ))
  unfolding call read_app_block on_arg unknown_arg get_app_block
  dlp_read_app_block handle offset len =
      call transport (read_app_block handle offset len) (on_arg 0x20 get_app_block unknown_arg)

  unfoldable pub dlp_write_app_block : ℕ → List ℕ → M (ℕ × Unit {0})
  unfolding call_only write_app_block
  dlp_write_app_block handle payload = call_only transport (write_app_block handle payload)

  unfoldable pub dlp_read_sort_block : ℕ → ℕ → ℕ → ℕ × List ℕ → M (ℕ × (ℕ × List ℕ))
  unfolding call read_sort_block on_arg unknown_arg get_sort_block
  dlp_read_sort_block handle offset len =
      call transport (read_sort_block handle offset len) (on_arg 0x20 get_sort_block unknown_arg)

  unfoldable pub dlp_write_sort_block : ℕ → List ℕ → M (ℕ × Unit {0})
  unfolding call_only write_sort_block
  dlp_write_sort_block handle payload = call_only transport (write_sort_block handle payload)
