-- ===== src/Cmd/Lists.antt =====
-- libpconn/dlp_cmd.c: the list of record identifiers. The loop over the identifiers counts with the
-- variable of the loop over the arguments that it stands in.
use coldsync.Base.{ℕ, zero, suc, ◌==◌, leb, if◌then◌else◌}
use coldsync.Base.{Option, none, some, List, [], ◌∷◌, length}
use coldsync.Bytes.{put_ubyte, put_uword}
use coldsync.Conn.Monad.{M, ◌>>=◌, pure, no_fuel, in_bounds}
use coldsync.Dlp.{Transport}
use coldsync.Dlp.Packet.{DlpArg}
use coldsync.Cmd.{Request, with_arg, send, conclude}
pub mod Ids
pub mod Ends
use Ids.{get_ids}

unfoldable pub read_record_id_list : ℕ → ℕ → ℕ → ℕ → Request
read_record_id_list handle flags start max =
    with_arg 0x31 0x20 6 (put_uword (put_uword (put_ubyte (put_ubyte [] handle) flags) start) max)

-- `ret_argv[i]`
unfoldable pub arg_at : List DlpArg → ℕ → Option DlpArg
arg_at [] i = none
arg_at (arg ∷ argv) zero = some arg
arg_at (arg ∷ argv) (suc i) = arg_at argv i

-- The loop over the arguments, from number `i` on: a list of identifiers sets `i` to the number of
-- those that were stored. `r` is the count and the array of the caller.
unfoldable pub id_lists : ℕ → ℕ → List DlpArg → ℕ → ℕ × List ℕ → M (ℕ × List ℕ)
unfolding arg_at get_ids
id_lists zero max argv i r = no_fuel
id_lists (suc fuel) max argv i r = if leb (length argv) i then pure r else do
  arg ← in_bounds (arg_at argv i)
  (i, r) ← if arg.id == 0x20 then in_bounds (get_ids max arg.payload r) else pure (i, r)
  id_lists fuel max argv (suc i) r

unfoldable pub dlp_read_record_id_list :
    ℕ → Transport → ℕ → ℕ → ℕ → ℕ → ℕ × List ℕ → M (ℕ × (ℕ × List ℕ))
unfolding read_record_id_list
dlp_read_record_id_list fuel transport handle flags start max r =
    send transport (read_record_id_list handle flags start max)
    >>= conclude transport (λ (argv : List DlpArg) r. id_lists fuel max argv 0 r) r
