-- ===== src/Cmd/System.antt =====
-- libpconn/dlp_cmd.c: the requests that concern the system and the sync as a whole.
use coldsync.Base.{ℕ, ◌+◌, ◌-◌, ltb, if◌then◌else◌, Option, some, List, [], ◌∷◌, ◌++◌, length, drop}
use coldsync.Base.{◌%◌, ◌^◌, ◌==◌}
use coldsync.Base.Maybe.{◌>>=◌}
use coldsync.Bytes.{get_udword, put_uword, put_udword}
use coldsync.Conn.Monad.{M, pure}
use coldsync.Dlp.{Transport}
use coldsync.Cmd.{Request, no_args, with_arg, on_arg, unknown_arg, call, call_only}

unfoldable pub reset_system : Request
reset_system = no_args 0x29

unfoldable pub open_conduit : Request
open_conduit = no_args 0x2e

-- The status is a byte, sent as a word.
unfoldable pub end_of_sync : ℕ → Request
end_of_sync status = with_arg 0x2f 0x20 2 (put_uword [] (status % 2 ^ 8))

-- Of a message of more than 2047 bytes, the last 2047. The argument points into the message: there
-- is no buffer.
unfoldable pub log_text : List ℕ → List ℕ
log_text msg = if ltb 2047 (length msg) then drop (length msg - 2048 + 1) msg else msg

unfoldable pub add_sync_log_entry : List ℕ → Request
add_sync_log_entry msg =
    let text = log_text msg ++ (0 ∷ []) in with_arg 0x2a 0x20 (length text) text

unfoldable pub read_feature : ℕ → ℕ → Request
read_feature creator featurenum =
    with_arg 0x38 0x20 6 (put_uword (put_udword [] creator) featurenum)

unfoldable pub get_feature : List ℕ → ℕ → Option ℕ
get_feature rptr old = do (value, rptr) ← get_udword rptr; some value

module _ (transport : Transport) where
  unfoldable pub dlp_reset_system : M (ℕ × Unit {0})
  unfolding call_only reset_system
  dlp_reset_system = call_only transport reset_system

  unfoldable pub dlp_open_conduit : M (ℕ × Unit {0})
  unfolding call_only open_conduit
  dlp_open_conduit = call_only transport open_conduit

  unfoldable pub dlp_end_of_sync : ℕ → M (ℕ × Unit {0})
  unfolding call_only end_of_sync
  dlp_end_of_sync status = call_only transport (end_of_sync status)

  -- An empty message is not sent.
  unfoldable pub dlp_add_sync_log_entry : List ℕ → M (ℕ × Unit {0})
  unfolding call_only add_sync_log_entry
  dlp_add_sync_log_entry msg =
      if length msg == 0 then pure (0, tt) else call_only transport (add_sync_log_entry msg)

  unfoldable pub dlp_read_feature : ℕ → ℕ → ℕ → M (ℕ × ℕ)
  unfolding call read_feature on_arg unknown_arg get_feature
  dlp_read_feature creator featurenum =
      call transport (read_feature creator featurenum) (on_arg 0x20 get_feature unknown_arg)
