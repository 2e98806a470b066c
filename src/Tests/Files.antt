-- ===== src/Tests/Files.antt =====
-- Database files at concrete inputs.
use coldsync.Base.{◌≡◌, refl, arith, some, [], ◌∷◌, ◌++◌, replicate}
use coldsync.Pdb.{Pdb, is_rsrc_db}
use coldsync.Pdb.Memory.{Memory}
use coldsync.Pdb.Header.{pdb_load_header, header_bytes, first_offset}
use coldsync.Pdb.HeaderLaws
use coldsync.Pdb.Index.{pdb_load_rec_index, index_bytes}
use coldsync.Pdb.IndexLaws
use coldsync.Tests.Sync.{database, first, second, third}

abbrev named : Pdb
named = record database { name = replicate 32 65; appinfo = some (1 ∷ 2 ∷ []) }

abbrev empty : Pdb
empty = record database { recs = [] }

named-Fits : HeaderLaws.Fits named
unfolding first_offset is_rsrc_db
named-Fits = (
  refl,
  omega arith,
  omega arith,
  omega arith,
  omega arith,
  omega arith,
  omega arith,
  omega arith,
  omega arith,
  omega arith,
)

pdb_load_header-header_bytes_example :
    pdb_load_header (header_bytes named ++ (7 ∷ [])) empty
    ≡ some (HeaderLaws.loaded named empty, 7 ∷ [])
pdb_load_header-header_bytes_example =
    HeaderLaws.pdb_load_header-header_bytes named empty (7 ∷ []) named-Fits

pdb_load_rec_index-index_bytes_example :
    (m' : Memory) × (pdb_load_rec_index empty
        (index_bytes 104 (first ∷ second ∷ third ∷ []) ++ (0 ∷ 0 ∷ []))
        (record { next = 300; allocs = [] })
      ≡ some (
        record empty { recs = IndexLaws.entries_of 300 104 (first ∷ second ∷ third ∷ []) },
        0 ∷ 0 ∷ [],
        m',
      ))
unfolding is_rsrc_db
pdb_load_rec_index-index_bytes_example =
    IndexLaws.pdb_load_rec_index-index_bytes (0 ∷ 0 ∷ []) empty 104 (first ∷ second ∷ third ∷ [])
      (record { next = 300; allocs = [] }) refl refl refl refl
      (
        (omega arith, omega arith, omega arith),
        ((omega arith, omega arith, omega arith), ((omega arith, omega arith, omega arith), tt)),
      )
      (omega arith)
