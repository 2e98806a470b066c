-- ===== src/Pdb/File/Blocks.antt =====
-- libpdb/pdb.c: the blocks between the index and the data.
use coldsync.Base.{ℕ, ◌+◌, ◌-◌, ◌%◌, ◌^◌, ◌==◌, ltb, not, if◌then◌else◌}
use coldsync.Base.{Option, none, some, List, [], ◌∷◌, length, take, drop}
use coldsync.Base.Maybe.{◌>>=◌}
use coldsync.Pdb.{Pdb, PdbRecord, PdbResource, is_rsrc_db}
use coldsync.Pdb.Memory.{Memory, found, after_malloc}

-- lseek and read: so many bytes from an offset on; fewer are an error.
unfoldable pub read_at : List ℕ → ℕ → ℕ → Option (List ℕ)
read_at file offset len =
    if ltb (length (drop offset file)) len then none else some (take len (drop offset file))

-- The difference of two double words.
unfoldable pub distance : ℕ → ℕ → ℕ
distance from to = (to + 2 ^ 32 - from) % 2 ^ 32

-- The offset of the first entry of the list; `none` where there is none to look at.
unfoldable pub first_of : Pdb → Option ℕ
first_of db = if is_rsrc_db db then of_resource db.rsrcs else of_record db.recs
  where
    of_record : List PdbRecord → Option ℕ
    of_record [] = none
    of_record (rec ∷ recs) = some rec.offset

    of_resource : List PdbResource → Option ℕ
    of_resource [] = none
    of_resource (rsrc ∷ rsrcs) = some rsrc.offset

-- What comes after the sort block, by its offset.
unfoldable pub after_sort_block : ℕ → Pdb → Option ℕ
unfolding first_of
after_sort_block size db = if ltb 0 db.numrecs then first_of db else some size

-- What comes after the application block.
unfoldable pub after_app_block : ℕ → Pdb → Option ℕ
unfolding after_sort_block
after_app_block size db =
    if ltb 0 db.sortinfo_offset then some db.sortinfo_offset else after_sort_block size db

-- A block of no bytes is none; memory for another one, and its bytes.
unfoldable pub load_block : List ℕ → ℕ → ℕ → Memory → Option (Option (List ℕ) × Memory)
unfolding read_at
load_block file offset len m =
    if len == 0
    then some (none, m)
    else if not (found m)
    then none
    else do block ← read_at file offset len; some (some block, after_malloc m)

unfoldable pub pdb_load_app_block : List ℕ → ℕ → Pdb → Memory → Option (Pdb × Memory)
unfolding load_block after_app_block distance
pdb_load_app_block file size db m =
    if db.appinfo_offset == 0 then some (record db { appinfo = none }, m) else do
      next_off ← after_app_block size db
      (block, m) ← load_block file db.appinfo_offset (distance db.appinfo_offset next_off) m
      some (record db { appinfo = block }, m)

unfoldable pub pdb_load_sort_block : List ℕ → ℕ → Pdb → Memory → Option (Pdb × Memory)
unfolding load_block after_sort_block distance
pdb_load_sort_block file size db m =
    if db.sortinfo_offset == 0 then some (record db { sortinfo = none }, m) else do
      next_off ← after_sort_block size db
      (block, m) ← load_block file db.sortinfo_offset (distance db.sortinfo_offset next_off) m
      some (record db { sortinfo = block }, m)

unfoldable pub block_bytes : Option (List ℕ) → List ℕ
block_bytes none = []
block_bytes (some block) = block
