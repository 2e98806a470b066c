-- ===== src/Pdb/IndexLaws.antt =====
-- What pdb_LoadRecIndex reads from an index that pdb_Write has written.
use coldsync.Base.{
  ℕ, suc, ◌+◌, ◌*◌, ◌/◌, ◌%◌, ◌^◌, ◌<◌, ◌≤◌, ltb, le→ltb, Bool, true, false, bit_and, bit_or, some,
  List, [], ◌∷◌, ◌++◌, append_assoc, append-nil, length, All, ◌≡◌, refl, ap, sym, ◌∙◌, arith,
}
use coldsync.Base.Bits.Masks.{bit_and_low, bit_or_low, all_below, all_below_sound}
use coldsync.Bytes.{IsUdword, get_ubyte, get_udword}
use coldsync.Bytes.Laws.{udword_bytes, get-udword_bytes}
use coldsync.Pdb.{Pdb, PdbRecord, is_rsrc_db, pdb_append_record}
use coldsync.Pdb.Attributes.{
  merge_attributes, split_attributes, kept, split_attributes-merge_attributes,
}
use coldsync.Pdb.Memory.{Memory, found, after_malloc}
use coldsync.Pdb.Index.{
  entry_bytes, index_bytes, parse_entry, appended, load_count, load_entries, pdb_load_rec_index,
}

-- A record that an entry can stand for.
abbrev pub Fits : PdbRecord → Type 0
Fits rec = (rec.flags < 256) × (rec.category < 16) × (rec.id < 2 ^ 24)

merged_below : ℕ → ℕ → Bool
unfolding merge_attributes
merged_below flags category = ltb (merge_attributes flags category) 256

all_merged : all_below 256 (λ f. all_below 16 (merged_below f)) ≡ true
unfolding all_below merged_below
all_merged = refl

merge_attributes_bound :
    (flags category : ℕ) → flags < 256 → category < 16 → merge_attributes flags category < 256
unfolding merged_below
merge_attributes_bound flags category f c = ground (
  arith,
  all_below_sound (merged_below flags) 16 category c
      (all_below_sound (λ x. all_below 16 (merged_below x)) 256 flags f all_merged),
)

-- The entry that is read back.
abbrev pub entry_of : ℕ → ℕ → PdbRecord → PdbRecord
entry_of a offset rec = record {
  addr = a;
  offset = offset;
  flags = (kept rec.flags rec.category).0;
  category = (kept rec.flags rec.category).1;
  id = rec.id;
  payload = [];
}

abbrev pub entries_of : ℕ → ℕ → List PdbRecord → List PdbRecord
entries_of a offset [] = []
entries_of a offset (rec ∷ recs) =
    entry_of a offset rec ∷ entries_of (suc a) ((offset + length rec.payload) % 2 ^ 32) recs

id_lem :
    (id : ℕ)
    → id < 2 ^ 24
    → bit_or (bit_or (id / 65536 % 256 * 2 ^ 16) (id / 256 % 256 * 2 ^ 8)) (id % 256) ≡ id
id_lem id h = ground (
  arith,
  bit_or_low 16 (id / 65536 % 256) (id / 256 % 256 * 2 ^ 8),
  bit_or_low 8 (id / 65536 % 256 * 256 + id / 256 % 256) (id % 256),
)

low_byte : (v : ℕ) → bit_and v 0xff ≡ v % 256
low_byte v = bit_and_low 8 v

byte_twice : (v : ℕ) → v % 256 % 256 ≡ v % 256
byte_twice v = omega arith

byte_once : (v : ℕ) → v < 256 → v % 256 ≡ v
byte_once v h = omega arith

entry_bytes_lem :
    (offset : ℕ) (rec : PdbRecord) (rest : List ℕ)
    → Fits rec
    → entry_bytes offset rec ++ rest
      ≡ udword_bytes offset
        ++ (merge_attributes rec.flags rec.category
            ∷ (rec.id / 65536 % 256)
            ∷ (rec.id / 256 % 256)
            ∷ (rec.id % 256)
            ∷ rest)
unfolding entry_bytes
entry_bytes_lem offset rec rest (flags, category, id) = simp (
  low_byte,
  byte_twice,
  byte_once _ (merge_attributes_bound rec.flags rec.category flags category),
)

parse_any :
    (a offset : ℕ) (d : List ℕ) (attributes high middle low : ℕ) (rest : List ℕ)
    → ((rest' : List ℕ) → get_udword (d ++ rest') ≡ some (offset, rest'))
    → parse_entry a (d ++ (attributes ∷ high ∷ middle ∷ low ∷ rest))
      ≡ some (
        record {
          addr = a;
          offset = offset;
          flags = (split_attributes attributes).0;
          category = (split_attributes attributes).1;
          id = bit_or (bit_or (high * 2 ^ 16) (middle * 2 ^ 8)) low;
          payload = [];
        },
        rest,
      )
unfolding parse_entry get_ubyte
parse_any a offset d attributes high middle low rest gives =
    rw (gives (attributes ∷ high ∷ middle ∷ low ∷ rest))

parse_entry_lem :
    (a offset : ℕ) (rec : PdbRecord) (rest : List ℕ)
    → Fits rec
    → IsUdword offset
    → parse_entry a (entry_bytes offset rec ++ rest) ≡ some (entry_of a offset rec, rest)
parse_entry_lem a offset rec rest fits bound = rw (entry_bytes_lem offset rec rest fits) (
    parse_any a offset (udword_bytes offset) _ _ _ _ rest (λ t. get-udword_bytes offset t bound)
    ∙ rw (
      split_attributes-merge_attributes rec.flags rec.category fits.0 fits.1,
      id_lem rec.id fits.2,
    ))

entry_long :
    (offset : ℕ) (rec : PdbRecord) (rest : List ℕ) → 8 ≤ length (entry_bytes offset rec ++ rest)
unfolding entry_bytes
entry_long offset rec rest = omega arith

pub found_all : (m : Memory) → m.allocs ≡ [] → (found m ≡ true) × ((after_malloc m).allocs ≡ [])
unfolding found after_malloc
found_all m e = rw e (refl, refl)

abbrev with_entries : Pdb → List PdbRecord → Pdb
with_entries db recs = record db { recs = db.recs ++ recs }

appended_lem :
    (db : Pdb) (rec : PdbRecord)
    → is_rsrc_db db ≡ false
    → appended db rec ≡ with_entries db (rec ∷ [])
unfolding pdb_append_record
appended_lem db rec e = rw e

load_step :
    (n : ℕ) (db : Pdb) (file rest : List ℕ) (m : Memory) (rec : PdbRecord)
    → found m ≡ true
    → 8 ≤ length file
    → parse_entry m.next file ≡ some (rec, rest)
    → load_entries (suc n) db file m ≡ load_entries n (appended db rec) rest (after_malloc m)
unfolding load_entries
load_step n db file rest m rec memory long parsed = rw (memory, le→ltb (length file) 8 long, parsed)

module _ (rest : List ℕ) where
  abbrev Loads : Pdb → ℕ → List PdbRecord → Memory → Type 0
  Loads db offset recs m =
      (m' : Memory) × (load_entries (length recs) db (index_bytes offset recs ++ rest) m
        ≡ some (with_entries db (entries_of m.next offset recs), rest, m'))

  load_entries_step :
      (db : Pdb) (offset : ℕ) (rec : PdbRecord) (recs : List PdbRecord) (m : Memory)
      → is_rsrc_db db ≡ false
      → m.allocs ≡ []
      → Fits rec
      → IsUdword offset
      → Loads
          (with_entries db (entry_of m.next offset rec ∷ []))
          ((offset + length rec.payload) % 2 ^ 32)
          recs
          (after_malloc m)
      → Loads db offset (rec ∷ recs) m
  unfolding index_bytes after_malloc
  load_entries_step db offset rec recs m records memory fit bound (m', ends) = (
    m',
    rw (append_assoc (entry_bytes offset rec) (index_bytes next recs) rest) (
        load_step (length recs) db (entry_bytes offset rec ++ (index_bytes next recs ++ rest))
          (index_bytes next recs ++ rest) m (entry_of m.next offset rec) (found_all m memory).0
          (entry_long offset rec (index_bytes next recs ++ rest))
          (parse_entry_lem m.next offset rec (index_bytes next recs ++ rest) fit bound)
        ∙ (rw (appended_lem db (entry_of m.next offset rec) records) ends
            ∙ ap (λ x. some (record db { recs = x }, rest, m'))
                (append_assoc db.recs (entry_of m.next offset rec ∷ [])
                  (entries_of (suc m.next) next recs)))),
  )
    where
      next : ℕ
      next = (offset + length rec.payload) % 2 ^ 32

  load_entries_lem :
      (db : Pdb) (offset : ℕ) (recs : List PdbRecord) (m : Memory)
      → is_rsrc_db db ≡ false
      → m.allocs ≡ []
      → All Fits recs
      → IsUdword offset
      → Loads db offset recs m
  unfolding load_entries index_bytes is_rsrc_db
  load_entries_lem db offset [] m records memory fits bound =
      (m, ap (λ x. some (record db { recs = x }, rest, m)) (sym (append-nil db.recs)))
  load_entries_lem db offset (rec ∷ recs) m records memory (fit, fits) bound =
      load_entries_step db offset rec recs m records memory fit bound (
        load_entries_lem (with_entries db (entry_of m.next offset rec ∷ []))
          ((offset + length rec.payload) % 2 ^ 32) recs (after_malloc m) records
          (found_all m memory).1 fits (omega arith))

  -- From the index that pdb_Write writes for records, whatever follows it, pdb_LoadRecIndex reads those
  -- records into the empty list of a database that is no resource database and says how many there
  -- are, and leaves what follows: at new addresses, without their data, with the offset of their data,
  -- their ID, and the flags and the category that a byte can keep. The flags are bytes, the categories
  -- below 16, the IDs below 2 ^ 24, and memory is found.
  pub pdb_load_rec_index-index_bytes :
      (db : Pdb) (offset : ℕ) (recs : List PdbRecord) (m : Memory)
      → is_rsrc_db db ≡ false
      → db.recs ≡ []
      → db.numrecs ≡ length recs
      → m.allocs ≡ []
      → All Fits recs
      → IsUdword offset
      → (m' : Memory) × (pdb_load_rec_index db (index_bytes offset recs ++ rest) m
          ≡ some (record db { recs = entries_of m.next offset recs }, rest, m'))
  unfolding pdb_load_rec_index index_bytes load_count
  pdb_load_rec_index-index_bytes db offset [] m records empty count memory fits bound =
      (m, ap (λ n. load_count n db rest m) count)
  pdb_load_rec_index-index_bytes db offset (rec ∷ recs) m records empty count memory fits bound = (
    loads.0,
    ap (λ n. load_count n db (index_bytes offset (rec ∷ recs) ++ rest) m) count
        ∙ (loads.1
            ∙ ap
                (λ x.
                  some (
                    record db { recs = x ++ entries_of m.next offset (rec ∷ recs) },
                    rest,
                    loads.0,
                  ))
                empty),
  )
    where
      loads : Loads db offset (rec ∷ recs) m
      loads = load_entries_lem db offset (rec ∷ recs) m records memory fits bound
