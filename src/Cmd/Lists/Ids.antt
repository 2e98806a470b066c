-- ===== src/Cmd/Lists/Ids.antt =====
-- The loop over the identifiers of one argument.
use coldsync.Base.{ℕ, zero, suc, leb, if◌then◌else◌, Option, some, List}
use coldsync.Base.Maybe.{◌>>=◌}
use coldsync.Bytes.{get_uword, get_udword}
use coldsync.Cmd.Memory.{store}

-- Ends with the loop variable.
unfoldable pub store_ids : ℕ → ℕ → ℕ → List ℕ → List ℕ → Option (ℕ × List ℕ)
unfolding store
store_ids zero i max rptr recids = some (i, recids)
store_ids (suc left) i max rptr recids =
    let next = do
      (recid, rptr) ← get_udword rptr
      recids ← store recids i recid
      store_ids left (suc i) max rptr recids
    in if leb max i then some (i, recids) else next

unfoldable pub get_ids : ℕ → List ℕ → ℕ × List ℕ → Option (ℕ × (ℕ × List ℕ))
unfolding store_ids
get_ids max rptr (old, recids) = do
  (numread, rptr) ← get_uword rptr
  (i, recids) ← store_ids numread 0 max rptr recids
  some (i, (numread, recids))
