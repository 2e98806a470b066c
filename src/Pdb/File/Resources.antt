-- ===== src/Pdb/File/Resources.antt =====
-- libpdb/pdb.c: the index and the data of resources.
use coldsync.Base.{ℕ, zero, suc, ◌+◌, ◌%◌, ◌^◌, ltb, not, if◌then◌else◌}
use coldsync.Base.{Option, none, some, List, [], ◌∷◌, ◌++◌, length}
use coldsync.Base.Maybe.{◌>>=◌}
use coldsync.Bytes.{get_uword, get_udword, put_uword, put_udword}
use coldsync.Pdb.{Pdb, PdbResource, pdb_append_resource}
use coldsync.Pdb.Header.{pdb_resourceix_len}
use coldsync.Pdb.Memory.{Memory, found, after_malloc}
use coldsync.Pdb.File.Blocks.{read_at, distance}

unfoldable pub rsrc_entry_bytes : ℕ → PdbResource → List ℕ
rsrc_entry_bytes offset rsrc = put_udword (put_uword (put_udword [] rsrc.type) rsrc.id) offset

unfoldable pub rsrc_index_bytes : ℕ → List PdbResource → List ℕ
unfolding rsrc_entry_bytes
rsrc_index_bytes offset [] = []
rsrc_index_bytes offset (rsrc ∷ rsrcs) =
    rsrc_entry_bytes offset rsrc ++ rsrc_index_bytes ((offset + length rsrc.payload) % 2 ^ 32) rsrcs

-- A resource at an address, without its data.
unfoldable pub parse_rsrc : ℕ → List ℕ → Option (PdbResource × List ℕ)
parse_rsrc a rptr = do
  (type, rptr) ← get_udword rptr
  (id, rptr) ← get_uword rptr
  (offset, rptr) ← get_udword rptr
  some (record { addr = a; offset = offset; type = type; id = id; payload = [] }, rptr)

-- The result of pdb_AppendResource is not looked at; the count is put back.
append_rsrc : Pdb → Option Pdb → Pdb
append_rsrc db none = db
append_rsrc db (some db') = record db' { numrecs = db.numrecs }

unfoldable pub load_rsrc_entries : ℕ → Pdb → List ℕ → Memory → Option (Pdb × List ℕ × Memory)
unfolding parse_rsrc append_rsrc pdb_append_resource
load_rsrc_entries zero db file m = some (db, file, m)
load_rsrc_entries (suc n) db file m =
    if not (found m) then none else if ltb (length file) pdb_resourceix_len then none else do
      (rsrc, file) ← parse_rsrc m.next file
      load_rsrc_entries n (append_rsrc db (pdb_append_resource db rsrc)) file (after_malloc m)

-- Without resources, the list is emptied.
unfoldable pub load_rsrc_count : ℕ → Pdb → List ℕ → Memory → Option (Pdb × List ℕ × Memory)
unfolding load_rsrc_entries
load_rsrc_count zero db file m = some (record db { rsrcs = [] }, file, m)
load_rsrc_count (suc n) db file m = load_rsrc_entries (suc n) db file m

unfoldable pub pdb_load_rsrc_index : Pdb → List ℕ → Memory → Option (Pdb × List ℕ × Memory)
unfolding load_rsrc_count
pdb_load_rsrc_index db file m = load_rsrc_count db.numrecs db file m

unfoldable pub next_rsrc : ℕ → List PdbResource → ℕ
next_rsrc size [] = size
next_rsrc size (rsrc ∷ rsrcs) = rsrc.offset

-- The loop over the resources, each of which gets memory; its length is a uword.
unfoldable pub load_resources :
    List ℕ → ℕ → ℕ → List PdbResource → Memory → Option (List PdbResource × Memory)
unfolding next_rsrc read_at distance
load_resources file size zero rsrcs m = some (rsrcs, m)
load_resources file size (suc n) [] m = none
load_resources file size (suc n) (rsrc ∷ rsrcs) m = if not (found m) then none else do
  payload ← read_at file rsrc.offset (distance rsrc.offset (next_rsrc size rsrcs) % 2 ^ 16)
  (rsrcs, m) ← load_resources file size n rsrcs (after_malloc m)
  some (record rsrc { payload = payload } ∷ rsrcs, m)

unfoldable pub pdb_load_resources : List ℕ → ℕ → Pdb → Memory → Option (Pdb × Memory)
unfolding load_resources
pdb_load_resources file size db m = do
  (rsrcs, m) ← load_resources file size db.numrecs db.rsrcs m
  some (record db { rsrcs = rsrcs }, m)

unfoldable pub rsrc_data_bytes : List PdbResource → List ℕ
rsrc_data_bytes [] = []
rsrc_data_bytes (rsrc ∷ rsrcs) = rsrc.payload ++ rsrc_data_bytes rsrcs
