-- ===== src/Pdb/Memory.antt =====
-- `new_Record` and the copies: records in fresh memory.
use coldsync.Base.{ℕ, suc, ◌==◌, not, Bool, true, false, if◌then◌else◌}
use coldsync.Base.{Option, none, some, List, [], ◌∷◌, length}
use coldsync.Pdb.{PdbRecord, PdbResource}

-- The next free address, and whether memory is found: what the script does not answer is found.
pub record Memory : Type 0 where
  pub next : ℕ
  pub allocs : List Bool

answer_of : List Bool → Bool
answer_of [] = true
answer_of (b ∷ rest) = b

rest_of : List Bool → List Bool
rest_of [] = []
rest_of (b ∷ rest) = rest

unfoldable pub found : Memory → Bool
unfolding answer_of
found m = answer_of m.allocs

unfoldable pub after_malloc : Memory → Memory
unfolding rest_of
after_malloc m = record { next = suc m.next; allocs = rest_of m.allocs }

-- malloc for a record, and for its data.
unfoldable pub malloc_two : Memory → Bool × Memory
unfolding found after_malloc
malloc_two m =
    if not (found m)
    then (false, after_malloc m)
    else (found (after_malloc m), after_malloc (after_malloc m))

-- A record without data takes one malloc.
unfoldable pub malloc_for : ℕ → Memory → Bool × Memory
unfolding malloc_two
malloc_for len m = if len == 0 then (found m, after_malloc m) else malloc_two m

unfoldable pub new_record : ℕ → ℕ → ℕ → List ℕ → Memory → Option PdbRecord × Memory
unfolding malloc_for
new_record flags category id bytes m = (
  (if (malloc_for (length bytes) m).0
      then some (record {
        addr = m.next;
        offset = 0;
        flags = flags;
        category = category;
        id = id;
        payload = bytes;
      })
      else none),
  (malloc_for (length bytes) m).1,
)

unfoldable pub new_resource : ℕ → ℕ → List ℕ → Memory → Option PdbResource × Memory
unfolding malloc_for
new_resource type id bytes m = (
  (if (malloc_for (length bytes) m).0
      then some (record { addr = m.next; offset = 0; type = type; id = id; payload = bytes })
      else none),
  (malloc_for (length bytes) m).1,
)

-- The copies always ask for memory for the data.
unfoldable pub pdb_copy_record : PdbRecord → Memory → Option PdbRecord × Memory
unfolding malloc_two
pdb_copy_record rec m =
    ((if (malloc_two m).0 then some (record rec { addr = m.next }) else none), (malloc_two m).1)

unfoldable pub pdb_copy_resource : PdbResource → Memory → Option PdbResource × Memory
unfolding malloc_two
pdb_copy_resource rsrc m =
    ((if (malloc_two m).0 then some (record rsrc { addr = m.next }) else none), (malloc_two m).1)
