-- ===== src/Generic/Records.antt =====
-- The flags of a record, and the comparison of two.
use Prim.Native.Nat.{compare, Ordering}
use coldsync.Base.{
  ℕ, ◌==◌, not, Bool, true, false, ◌&&◌, ◌||◌, if◌then◌else◌, bit_and, List, [], ◌∷◌, length,
}
use coldsync.Pdb.{
  PdbRecord, pdb_rec_expunged, pdb_rec_dirty, pdb_rec_deleted, pdb_rec_private, pdb_rec_archive,
}

unfoldable pub expunged : PdbRecord → Bool
expunged r = not (bit_and r.flags pdb_rec_expunged == 0)

unfoldable pub dirty : PdbRecord → Bool
dirty r = not (bit_and r.flags pdb_rec_dirty == 0)

unfoldable pub deleted : PdbRecord → Bool
deleted r = not (bit_and r.flags pdb_rec_deleted == 0)

unfoldable pub archive : PdbRecord → Bool
archive r = not (bit_and r.flags pdb_rec_archive == 0)

-- All flags go but the private one.
unfoldable pub clear_status_flags : PdbRecord → PdbRecord
clear_status_flags r = record r { flags = bit_and r.flags pdb_rec_private }

-- memcmp, and the loop of `compare_rec` with the tests of the lengths.
unfoldable pub compare_bytes : List ℕ → List ℕ → Ordering
compare_bytes [] [] = Ordering.eq
compare_bytes [] (b ∷ bs) = Ordering.lt
compare_bytes (a ∷ as') [] = Ordering.gt
compare_bytes (a ∷ as') (b ∷ bs) = elim (compare a b) [
  | Ordering.lt ↦ Ordering.lt
  | Ordering.gt ↦ Ordering.gt
  | Ordering.eq ↦ compare_bytes as' bs
]

-- -1, 0 and 1 are `lt`, `eq` and `gt`.
unfoldable pub compare_rec : PdbRecord → PdbRecord → Ordering
unfolding compare_bytes
compare_rec rec1 rec2 = elim (compare rec1.category rec2.category) [
  | Ordering.lt ↦ Ordering.lt
  | Ordering.gt ↦ Ordering.gt
  | Ordering.eq ↦ compare_bytes rec1.payload rec2.payload
]

abbrev pub is_equal : Ordering → Bool
is_equal Ordering.lt = false
is_equal Ordering.eq = true
is_equal Ordering.gt = false

-- The same length, and memcmp.
unfoldable pub same_data : PdbRecord → PdbRecord → Bool
unfolding compare_bytes
same_data r r' =
    length r.payload == length r'.payload && is_equal (compare_bytes r.payload r'.payload)

-- The cases that `SyncRecord` tells apart, in the order of its tests.
pub data Kind : Type 0 where
  archived gone modified clean : Kind

unfoldable pub kind : PdbRecord → Kind
unfolding expunged dirty deleted archive
kind r =
    if (deleted r || dirty r) && archive r
    then archived
    else if expunged r
    then gone
    else if dirty r
    then modified
    else clean
