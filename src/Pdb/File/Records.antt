-- ===== src/Pdb/File/Records.antt =====
-- libpdb/pdb.c: the data of records.
use coldsync.Base.{ℕ, zero, suc, ◌%◌, ◌^◌, ◌==◌, not, if◌then◌else◌}
use coldsync.Base.{Option, none, some, List, [], ◌∷◌, ◌++◌}
use coldsync.Base.Maybe.{◌>>=◌}
use coldsync.Pdb.{Pdb, PdbRecord}
use coldsync.Pdb.Memory.{Memory, found, after_malloc}
use coldsync.Pdb.File.Blocks.{read_at, distance}

-- The data ends where those of the next record begin, and the last ones with the file.
unfoldable pub next_offset : ℕ → List PdbRecord → ℕ
next_offset size [] = size
next_offset size (rec ∷ recs) = rec.offset

-- A record of no bytes takes no memory.
unfoldable pub load_payload : List ℕ → ℕ → ℕ → Memory → Option (List ℕ × Memory)
unfolding read_at
load_payload file offset len m =
    if len == 0
    then some ([], m)
    else if not (found m)
    then none
    else do payload ← read_at file offset len; some (payload, after_malloc m)

-- The loop over the records; the length of one is a uword. A list that is too short is an error.
unfoldable pub load_records :
    List ℕ → ℕ → ℕ → List PdbRecord → Memory → Option (List PdbRecord × Memory)
unfolding next_offset load_payload distance
load_records file size zero recs m = some (recs, m)
load_records file size (suc n) [] m = none
load_records file size (suc n) (rec ∷ recs) m = do
  (payload, m) ←
      load_payload file rec.offset (distance rec.offset (next_offset size recs) % 2 ^ 16) m
  (recs, m) ← load_records file size n recs m
  some (record rec { payload = payload } ∷ recs, m)

unfoldable pub pdb_load_records : List ℕ → ℕ → Pdb → Memory → Option (Pdb × Memory)
unfolding load_records
pdb_load_records file size db m = do
  (recs, m) ← load_records file size db.numrecs db.recs m
  some (record db { recs = recs }, m)

unfoldable pub data_bytes : List PdbRecord → List ℕ
data_bytes [] = []
data_bytes (rec ∷ recs) = rec.payload ++ data_bytes recs
