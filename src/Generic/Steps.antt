-- ===== src/Generic/Steps.antt =====
-- What the steps of `SyncRecord` do to the state, where nothing fails.
use coldsync.Base.{
  ℕ, zero, suc, inl, inr, true, false, none, some, [], ◌∷◌, ◌++◌, ◌≡◌, refl, arith, if◌then◌else◌,
  length,
}
use coldsync.Pdb.{
  Pdb, PdbRecord, is_rsrc_db, at_addr, update_at, delete_by_id, insert_after, find_by_id, is_some,
  one_less, one_more, pdb_delete_record_by_id, pdb_append_record, pdb_insert_record,
}
use coldsync.Pdb.Memory.{Memory, found, after_malloc, malloc_two, malloc_for, new_record}
use coldsync.Generic.{
  archive_record, load, change, delete_local, append_local, insert_local, copy_remote,
  delete_remote, upload, written, rest_of,
}
use coldsync.Generic.Remote.{Palm, IsLawful}
use coldsync.Generic.Monad.{Conduit, Outcome, ok, err, fault, M, ◌>>=◌}

-- What holds of the value and of the state that a step ends with, where it does not end early.
abbrev pub Lands : {P A : Type 0} → (A → Conduit P → Type 0) → Outcome A × Conduit P → Type 0
Lands Q (ok a, s) = Q a s
Lands Q (err, s) = ⊥
Lands Q (fault, s) = ⊥

abbrev pub after_delete : ℕ → Pdb → Pdb
after_delete id db = record db {
  recs = delete_by_id id db.recs;
  numrecs = (if is_some (find_by_id id db.recs) then one_less db.numrecs else db.numrecs);
}

pub malloc_for-found :
    (n : ℕ) (m : Memory)
    → m.allocs ≡ []
    → ((malloc_for n m).0 ≡ true) × ((malloc_for n m).1.allocs ≡ [])
unfolding malloc_for malloc_two found after_malloc
malloc_for-found zero m e = rw e (refl, refl)
malloc_for-found (suc n) m e = (ground (arith, e), ground (arith, e))

module _ {P : Type 0} where
  pub and_then :
      {A B : Type 0} (Q : B → Conduit P → Type 0) (m : M P A) (f : A → M P B) {s s' : Conduit P}
      {a : A}
      → m s ≡ (ok a, s')
      → Lands Q (f a s')
      → Lands Q ((m >>= f) s)
  and_then Q m f e q = rw e q

  abbrev pub with_archive : PdbRecord → Conduit P → Conduit P
  with_archive rec s = record s {
    archive = (if written s.writes then s.archive ++ (rec.payload ∷ []) else s.archive);
    writes = rest_of s.writes;
  }

  abbrev pub with_change : ℕ → (PdbRecord → PdbRecord) → Conduit P → Conduit P
  with_change a f s = record s {
    localdb = record s.localdb { recs = update_at a f s.localdb.recs };
  }

  abbrev pub without : ℕ → Conduit P → Conduit P
  without id s = record s { localdb = after_delete id s.localdb }

  abbrev pub with_last : PdbRecord → Conduit P → Conduit P
  with_last new s = record s {
    localdb = record s.localdb {
      recs = s.localdb.recs ++ (new ∷ []);
      numrecs = one_more s.localdb.numrecs;
    };
  }

  abbrev pub with_next : ℕ → PdbRecord → Conduit P → Conduit P
  with_next a new s = record s {
    localdb = record s.localdb {
      recs = insert_after a new s.localdb.recs;
      numrecs = one_more s.localdb.numrecs;
    };
  }

  pub archive_record-eq :
      (rec : PdbRecord) (s : Conduit P) → archive_record rec s ≡ (ok tt, with_archive rec s)
  unfolding archive_record
  archive_record-eq rec s = refl

  pub change-eq :
      (a : ℕ) (f : PdbRecord → PdbRecord) (s : Conduit P) {l : PdbRecord}
      → at_addr a s.localdb.recs ≡ some l
      → change a f s ≡ (ok tt, with_change a f s)
  unfolding change load
  change-eq a f s e = rw e

  pub change-none :
      (a : ℕ) (f : PdbRecord → PdbRecord) (s : Conduit P)
      → at_addr a s.localdb.recs ≡ none
      → change a f s ≡ (fault, s)
  unfolding change load
  change-none a f s e = rw e

  pub delete_local-eq :
      (a : ℕ) (s : Conduit P) {l : PdbRecord}
      → at_addr a s.localdb.recs ≡ some l
      → is_rsrc_db s.localdb ≡ false
      → delete_local a s ≡ (ok tt, without l.id s)
  unfolding delete_local load pdb_delete_record_by_id
  delete_local-eq a s e no_rsrc = rw (e, no_rsrc)

  pub append_local-eq :
      (new : PdbRecord) (s : Conduit P)
      → is_rsrc_db s.localdb ≡ false
      → append_local new s ≡ (ok tt, with_last new s)
  unfolding append_local pdb_append_record
  append_local-eq new s no_rsrc = rw no_rsrc

  pub insert_local-eq :
      (a : ℕ) (new : PdbRecord) (s : Conduit P) {l : PdbRecord}
      → at_addr a s.localdb.recs ≡ some l
      → insert_local a new s ≡ (ok tt, with_next a new s)
  unfolding insert_local pdb_insert_record
  insert_local-eq a new s e = rw e

  -- Memory is found, from here on.
  abbrev pub after_copy : PdbRecord → Conduit P → Conduit P
  after_copy rec s = record s { memory = (malloc_for (length rec.payload) s.memory).1 }

  abbrev pub copy_of : ℕ → PdbRecord → Conduit P → PdbRecord
  copy_of flags rec s = record {
    addr = s.memory.next;
    offset = 0;
    flags = flags;
    category = rec.category;
    id = rec.id;
    payload = rec.payload;
  }

  pub copy_remote-eq :
      (flags : ℕ) (rec : PdbRecord) (s : Conduit P)
      → s.memory.allocs ≡ []
      → copy_remote flags rec s ≡ (ok (copy_of flags rec s), after_copy rec s)
  unfolding copy_remote new_record
  copy_remote-eq flags rec s e = rw ((malloc_for-found (length rec.payload) s.memory e).0)

module _ (palm : Palm) (lawful : IsLawful palm) where
  abbrev pub with_palm : palm.State → Conduit palm.State → Conduit palm.State
  with_palm p s = record s { palm = p }

  pub delete_remote-eq :
      (id : ℕ) (s : Conduit palm.State)
      → delete_remote palm id s ≡ (ok tt, with_palm (palm.delete_record id s.palm).1 s)
  unfolding delete_remote
  delete_remote-eq id s = elim (lawful.answers_delete id s.palm) [
    | inl done ↦ rw done
    | inr (absent, _, online) ↦ rw (absent, online)
  ]

  abbrev pub with_upload : ℕ → ℕ → PdbRecord → Conduit palm.State → Conduit palm.State
  with_upload a id l s =
      with_change a
        (λ r. record r { id = (palm.write_record id l.flags l.category l.payload s.palm).1 })
        (with_palm (palm.write_record id l.flags l.category l.payload s.palm).2 s)

  pub upload-eq :
      (a id : ℕ) (s : Conduit palm.State) {l : PdbRecord}
      → at_addr a s.localdb.recs ≡ some l
      → upload palm a id s ≡ (ok tt, with_upload a id l s)
  unfolding upload load
  upload-eq a id s e = rw (e, lawful.accepts_write id _ _ _ s.palm) (change-eq a _ _ e)
