-- ===== src/Pdb/File/DataLaws.antt =====
-- The data of records, read back from the file that they were written to.
use coldsync.Base.{ℕ, suc, ◌+◌, ◌%◌, ◌^◌, ◌<◌, ◌≡◌, refl, sym, ap, ◌∙◌, arith, le→ltb, false, ◌==◌}
use coldsync.Base.{
  Option, some, List, [], ◌∷◌, ◌++◌, length, length-append, take-append, drop-append, append_assoc,
  append-nil,
}
use mathlib.Core.Path.{ap₂}
use coldsync.Pdb.{PdbRecord}
use coldsync.Pdb.Memory.{Memory, after_malloc}
use coldsync.Pdb.IndexLaws.{entry_of, entries_of, found_all}
use coldsync.Pdb.File.Blocks.{read_at, distance}
use coldsync.Pdb.File.Records.{next_offset, load_payload, load_records, data_bytes}

-- Records at addresses and offsets, with the data of others.
abbrev pub filled : ℕ → ℕ → List PdbRecord → List PdbRecord
filled a offset [] = []
filled a offset (rec ∷ recs) =
    record (entry_of a offset rec) { payload = rec.payload }
    ∷ filled (suc a) ((offset + length rec.payload) % 2 ^ 32) recs

read_at_lem :
    (before payload after : List ℕ)
    → read_at (before ++ (payload ++ after)) (length before) (length payload) ≡ some payload
unfolding read_at
read_at_lem before payload after = rw (
  drop-append before (payload ++ after),
  le→ltb (length (payload ++ after)) (length payload) (omega (arith, length-append payload after)),
  take-append payload after,
)

-- What a call that finds memory leaves.
abbrev Loads : {A : Type 0} → Option (A × Memory) → A → Type 0
Loads o a = (m' : Memory) × (m'.allocs ≡ []) × (o ≡ some (a, m'))

load_payload_lem :
    (before payload after : List ℕ) (m : Memory)
    → m.allocs ≡ []
    → Loads (load_payload (before ++ (payload ++ after)) (length before) (length payload) m) payload
unfolding load_payload
load_payload_lem before [] after m e = (m, e, refl)
load_payload_lem before (b ∷ payload) after m e = (
  after_malloc m,
  (found_all m e).1,
  rw (nonempty, (found_all m e).0, read_at_lem before (b ∷ payload) after),
)
  where
    nonempty : (suc (length payload) == 0) ≡ false
    nonempty = ground arith

next_offset_lem :
    (a : ℕ) (before : List ℕ) (recs : List PdbRecord)
    → next_offset (length (before ++ data_bytes recs)) (entries_of a (length before) recs)
      ≡ length before
unfolding next_offset data_bytes
next_offset_lem a before [] = ap length (append-nil before)
next_offset_lem a before (rec ∷ recs) = refl

distance_lem : (b len : ℕ) → b + len < 65536 → distance b (b + len) % 2 ^ 16 ≡ len
unfolding distance
distance_lem b len h = omega (arith, h)

one_record :
    (file : List ℕ) (size n : ℕ) (rec : PdbRecord) (recs out : List PdbRecord) (payload : List ℕ)
    (m m1 m2 : Memory)
    → load_payload file rec.offset (distance rec.offset (next_offset size recs) % 2 ^ 16) m
      ≡ some (payload, m1)
    → load_records file size n recs m1 ≡ some (out, m2)
    → load_records file size (suc n) (rec ∷ recs) m
      ≡ some (record rec { payload = payload } ∷ out, m2)
unfolding load_records
one_record file size n rec recs out payload m m1 m2 first rest = rw (first, rest)

-- Records whose entries give the offsets of their data, one behind the other up to the end of a file
-- of less than 2 ^ 16 bytes, get their data back from it, where memory is found.
pub load_records-data_bytes :
    (before : List ℕ) (a : ℕ) (recs : List PdbRecord) (m : Memory)
    → m.allocs ≡ []
    → length (before ++ data_bytes recs) < 65536
    → Loads
        (load_records
          (before ++ data_bytes recs)
          (length (before ++ data_bytes recs))
          (length recs)
          (entries_of a (length before) recs)
          m)
        (filled a (length before) recs)
unfolding load_records data_bytes
load_records-data_bytes before a [] m e h = (m, e, refl)
load_records-data_bytes before a (rec ∷ recs) m e h =
    let (m1, e1, first) = load_payload_lem before rec.payload (data_bytes recs) m e in
    let (m2, e2, rest) =
      load_records-data_bytes (before ++ rec.payload) (suc a) recs m1 e1
        (omega (arith, h, ap length same_file)) in
    (
      m2,
      e2,
      one_record file (length file) (length recs) (entry_of a (length before) rec)
          (entries_of (suc a) off recs) (filled (suc a) off recs) rec.payload m m1 m2
          (ap (λ (d : ℕ). load_payload file (length before) d m)
              (ap (λ (n : ℕ). distance (length before) n % 2 ^ 16) next_at
                ∙ distance_lem (length before) (length rec.payload) (omega (arith, in_file)))
            ∙ first)
          (ap₂
              (λ (f : List ℕ) (k : ℕ).
                load_records f (length f) (length recs) (entries_of (suc a) k recs) m1)
              same_file same_off
            ∙ rest
            ∙ ap (λ (k : ℕ). some (filled (suc a) k recs, m2)) (sym same_off)),
    )
  where
    file : List ℕ
    file = before ++ (rec.payload ++ data_bytes recs)

    off : ℕ
    off = (length before + length rec.payload) % 2 ^ 32

    same_file : file ≡ (before ++ rec.payload) ++ data_bytes recs
    same_file = sym (append_assoc before rec.payload (data_bytes recs))

    in_file : length before + length rec.payload < 65536
    in_file = omega (
      arith,
      h,
      length-append before (rec.payload ++ data_bytes recs),
      length-append rec.payload (data_bytes recs),
    )

    same_off : off ≡ length (before ++ rec.payload)
    same_off = omega (arith, in_file, length-append before rec.payload)

    next_at :
        next_offset (length file) (entries_of (suc a) off recs) ≡ length before + length rec.payload
    next_at =
        ap₂ (λ (f : List ℕ) (k : ℕ). next_offset (length f) (entries_of (suc a) k recs)) same_file
          same_off
        ∙ next_offset_lem (suc a) (before ++ rec.payload) recs
        ∙ length-append before rec.payload
