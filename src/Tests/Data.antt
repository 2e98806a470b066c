-- ===== src/Tests/Data.antt =====
-- The theorem on the data of records in a file, at a concrete file.
use coldsync.Base.{ℕ, ◌≡◌, refl, arith, some, List, [], ◌∷◌, ◌++◌, length}
use coldsync.Pdb.{PdbRecord}
use coldsync.Pdb.Memory.{Memory}
use coldsync.Pdb.IndexLaws.{entries_of}
use coldsync.Pdb.File.Records.{load_records, data_bytes}
use coldsync.Pdb.File.DataLaws.{filled, load_records-data_bytes}

abbrev with_payload : List ℕ → PdbRecord
with_payload payload = record {
  addr = 0;
  offset = 0;
  flags = 0x40;
  category = 1;
  id = 7;
  payload = payload;
}

abbrev two_recs : List PdbRecord
two_recs = with_payload (1 ∷ 2 ∷ []) ∷ with_payload [] ∷ []

data_size : length (9 ∷ 9 ∷ data_bytes two_recs) ≡ 4
unfolding data_bytes
data_size = refl

load_records-data_bytes_example :
    (m' : Memory) × (m'.allocs ≡ [])
    × (load_records
          ((9 ∷ 9 ∷ []) ++ data_bytes two_recs)
          (length ((9 ∷ 9 ∷ []) ++ data_bytes two_recs))
          2
          (entries_of 5 2 two_recs)
          (record { next = 9; allocs = [] })
        ≡ some (filled 5 2 two_recs, m'))
load_records-data_bytes_example =
    load_records-data_bytes (9 ∷ 9 ∷ []) 5 two_recs (record { next = 9; allocs = [] }) refl
      (omega (arith, data_size))
