-- ===== src/Pdb/Index.antt =====
-- The index of the records in a database file: pdb_LoadRecIndex, and the part of pdb_Write that lays it
-- out.
use coldsync.Base.{
  ℕ, zero, suc, ◌+◌, ◌*◌, ◌/◌, ◌%◌, ◌^◌, ltb, not, if◌then◌else◌, bit_and, bit_or, Option, none,
  some, List, [], ◌∷◌, ◌++◌, length,
}
use coldsync.Base.Maybe.{◌>>=◌}
use coldsync.Bytes.{get_ubyte, get_udword, put_ubyte, put_udword}
use coldsync.Pdb.{Pdb, PdbRecord, pdb_append_record}
use coldsync.Pdb.Attributes.{merge_attributes, split_attributes}
use coldsync.Pdb.Memory.{Memory, found, after_malloc}
use coldsync.Pdb.Header.{pdb_recordix_len}

-- The entry of a record whose data stand at an offset.
unfoldable pub entry_bytes : ℕ → PdbRecord → List ℕ
unfolding put_ubyte put_udword merge_attributes
entry_bytes offset rec =
    let w = put_udword [] offset in
    let w = put_ubyte w (merge_attributes rec.flags rec.category) in
    let w = put_ubyte w (bit_and (rec.id / 2 ^ 16) 0xff) in
    let w = put_ubyte w (bit_and (rec.id / 2 ^ 8) 0xff) in put_ubyte w (bit_and rec.id 0xff)

unfoldable pub index_bytes : ℕ → List PdbRecord → List ℕ
unfolding entry_bytes
index_bytes offset [] = []
index_bytes offset (rec ∷ recs) =
    entry_bytes offset rec ++ index_bytes ((offset + length rec.payload) % 2 ^ 32) recs

-- A record at an address, without its data. The three bytes of the ID are read in one expression; this
-- is the order from left to right.
unfoldable pub parse_entry : ℕ → List ℕ → Option (PdbRecord × List ℕ)
unfolding get_ubyte get_udword split_attributes
parse_entry a rptr = do
  (offset, rptr) ← get_udword rptr
  (attributes, rptr) ← get_ubyte rptr
  (high, rptr) ← get_ubyte rptr
  (middle, rptr) ← get_ubyte rptr
  (low, rptr) ← get_ubyte rptr
  some (
    record {
      addr = a;
      offset = offset;
      flags = (split_attributes attributes).0;
      category = (split_attributes attributes).1;
      id = bit_or (bit_or (high * 2 ^ 16) (middle * 2 ^ 8)) low;
      payload = [];
    },
    rptr,
  )

-- The result of pdb_AppendRecord is not looked at; the count is put back.
abbrev pub appended : Pdb → PdbRecord → Pdb
appended db rec = append_result (pdb_append_record db rec)
  where
    append_result : Option Pdb → Pdb
    append_result none = db
    append_result (some db') = record db' { numrecs = db.numrecs }

-- The database, what follows the entries in the file, and the memory, after so many entries.
unfoldable pub load_entries : ℕ → Pdb → List ℕ → Memory → Option (Pdb × List ℕ × Memory)
unfolding found after_malloc parse_entry pdb_append_record
load_entries zero db file m = some (db, file, m)
load_entries (suc n) db file m =
    if not (found m) then none else if ltb (length file) pdb_recordix_len then none else do
      (rec, file) ← parse_entry m.next file
      load_entries n (appended db rec) file (after_malloc m)

unfoldable pub load_count : ℕ → Pdb → List ℕ → Memory → Option (Pdb × List ℕ × Memory)
unfolding load_entries
load_count zero db file m = some (record db { recs = [] }, file, m)
load_count (suc n) db file m = load_entries (suc n) db file m

unfoldable pub pdb_load_rec_index : Pdb → List ℕ → Memory → Option (Pdb × List ℕ × Memory)
unfolding load_count
pdb_load_rec_index db file m = load_count db.numrecs db file m
