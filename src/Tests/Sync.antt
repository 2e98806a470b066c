-- ===== src/Tests/Sync.antt =====
-- The generic conduit and databases at concrete inputs.
use Prim.Native.Nat.{Ordering}
use coldsync.Base.{
  ℕ, ◌==◌, ◌≡◌, ◌≢◌, inl, ◌↔◌, refl, arith, none, some, List, [], ◌∷◌, if◌then◌else◌,
}
use coldsync.Pdb.{
  is_rsrc_db, pdb_find_record_by_id, Pdb, PdbRecord, at_addr, pdb_delete_record_by_id,
  pdb_insert_record,
}
use coldsync.Pdb.Ids.{content, Unique, lookup}
use coldsync.Pdb.Maps.{IsValid, found, pdb_delete_record_by_id_lem, pdb_insert_record_lem}
use coldsync.Generic.{sync_record}
use coldsync.Generic.Monad.{Conduit, fault}
use coldsync.Generic.Records.{kind, archived, modified, compare_rec}
use coldsync.Generic.Order.{flip, compare_rec_lem}
use coldsync.Generic.Steps.{Lands}
use coldsync.Generic.Ready.{Synced}
use coldsync.Generic.Converges.{sync_record-Synced}
use coldsync.Generic.Safe.{Safe, Has, Any}
use coldsync.Generic.Survives.{sync_record-Has, sync_record-Safe}
use coldsync.Generic.Archived.{Archived, sync_record-Archived}
use coldsync.Generic.Freed.{sync_record-Freed}
use coldsync.Tests.Palms.{sample, sample-IsLawful}

abbrev record_of : ℕ → ℕ → ℕ → List ℕ → PdbRecord
record_of a flags id bytes = record {
  addr = a;
  offset = 0;
  flags = flags;
  category = 2;
  id = id;
  payload = bytes;
}

abbrev pub first : PdbRecord
first = record_of 100 0x40 7 (1 ∷ 2 ∷ [])

abbrev pub second : PdbRecord
second = record_of 101 0x68 8 (3 ∷ [])

abbrev pub third : PdbRecord
third = record_of 102 0 9 (4 ∷ [])

abbrev remote : ℕ → ℕ → List ℕ → PdbRecord
remote flags id bytes = record_of 0 flags id bytes

abbrev pub database : Pdb
database = record {
  name = [];
  attributes = 0;
  version = 0;
  ctime = 0;
  mtime = 0;
  baktime = 0;
  modnum = 0;
  appinfo_offset = 0;
  sortinfo_offset = 0;
  type = 0;
  creator = 0;
  unique_id_seed = 0;
  next_reclist_id = 0;
  numrecs = 3;
  appinfo = none;
  sortinfo = none;
  recs = first ∷ second ∷ third ∷ [];
  rsrcs = [];
}

abbrev pub conduit : Conduit sample.State
conduit = record {
  palm = (
    10,
    λ i.
        if i == 9
        then some (2, 4 ∷ [])
        else if i == 8
        then some (2, 3 ∷ [])
        else if i == 7
        then some (2, 9 ∷ [])
        else none,
  );
  localdb = database;
  remotedb = record database { recs = []; numrecs = 0 };
  archive = [];
  writes = [];
  memory = record { next = 200; allocs = [] };
}

database-IsValid : IsValid database
unfolding is_rsrc_db lookup
database-IsValid = (refl, (refl, (refl, (refl, tt))), refl)

pub unique : Unique database.recs
unfolding lookup
unique = (refl, (refl, (refl, tt)))

pub in_sync : (i : ℕ) → 7 ≢ i → lookup i database.recs ≡ sample-IsLawful.held i conduit.palm
unfolding lookup
in_sync i other = ground (arith, other)

sync_record-Synced_example :
    Lands (Synced sample sample-IsLawful) (sync_record sample 100 (remote 0x40 7 (9 ∷ [])) conduit)
unfolding at_addr kind is_rsrc_db
sync_record-Synced_example =
    sync_record-Synced sample sample-IsLawful 100 (remote 0x40 7 (9 ∷ [])) first conduit tt
      ((refl, refl), refl, refl, (unique, in_sync)) refl

sync_record-Has_example :
    Safe (Has 100 (2, 1 ∷ 2 ∷ [])) (sync_record sample 100 (remote 0x80 7 []) conduit)
unfolding at_addr kind
sync_record-Has_example = sync_record-Has sample 100 first (remote 0x80 7 []) conduit refl refl

gone_apart : kind (remote 0x80 8 []) ≢ modified
unfolding kind
gone_apart e = cc

sync_record-Safe_example : Safe Any (sync_record sample 101 (remote 0x80 8 []) conduit)
unfolding at_addr
sync_record-Safe_example =
    sync_record-Safe sample 101 second (remote 0x80 8 []) conduit refl (inl gone_apart)

sync_record-Archived_example :
    (kind (remote 0x68 8 (5 ∷ [])) ≡ archived
      → Archived (5 ∷ []) (sync_record sample 101 (remote 0x68 8 (5 ∷ [])) conduit).1)
    × (kind second ≡ archived
        → Archived (3 ∷ []) (sync_record sample 101 (remote 0x68 8 (5 ∷ [])) conduit).1)
unfolding at_addr
sync_record-Archived_example =
    sync_record-Archived sample 101 second (remote 0x68 8 (5 ∷ [])) conduit refl refl

sync_record-Freed_example : (sync_record sample 101 (remote 0x40 8 (5 ∷ [])) conduit).0 ≡ fault
unfolding at_addr kind is_rsrc_db
sync_record-Freed_example =
    sync_record-Freed sample 101 second (remote 0x40 8 (5 ∷ [])) conduit refl refl refl refl unique
      (refl, (refl, (refl, tt))) refl

compare_rec_lem_example :
    ((compare_rec first second ≡ Ordering.eq) ↔ (content first ≡ content second))
    × (compare_rec second first ≡ flip (compare_rec first second))
compare_rec_lem_example = compare_rec_lem first second

pdb_delete_record_by_id_lem_example :
    (db' : Pdb) × (pdb_delete_record_by_id database 8 ≡ some db')
    × IsValid db'
    × ((i : ℕ) → found db' i ≡ (if 8 == i then none else found database i))
pdb_delete_record_by_id_lem_example = pdb_delete_record_by_id_lem database 8 database-IsValid

abbrev new_one : PdbRecord
new_one = record_of 103 0 11 (6 ∷ [])

pdb_insert_record_lem_example :
    (db' : Pdb) × (pdb_insert_record database (some 101) new_one ≡ some db')
    × IsValid db'
    × ((i : ℕ) → found db' i ≡ (if 11 == i then some (content new_one) else found database i))
unfolding at_addr pdb_find_record_by_id
pdb_insert_record_lem_example =
    pdb_insert_record_lem database 101 second new_one database-IsValid refl refl
