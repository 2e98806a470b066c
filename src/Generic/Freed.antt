-- ===== src/Generic/Freed.antt =====
-- The case of `SyncRecord` that uses a record after it was freed.
use coldsync.Base.{
  ℕ, false, none, some, List, [], ◌∷◌, ◌≡◌, refl, ap, ◌∙◌, arith, ◌==◌, Bool-cases, inl, inr,
}
use coldsync.Pdb.{PdbRecord, is_rsrc_db, at_addr, update_at, delete_by_id}
use coldsync.Pdb.Ids.{Unique, at_addr-update, lookup, lookup-at_addr}
use coldsync.Pdb.Unique.{Unique-update_same}
use coldsync.Generic.{
  archive_record, load, change, delete_local, append_local, copy_remote, sync_modified, sync_kinds,
  sync_record,
}
use coldsync.Generic.Remote.{Palm}
use coldsync.Generic.Monad.{Conduit, fault, M, ◌>>=◌, ◌>>◌, bind_ok}
use coldsync.Generic.Records.{archived, modified, kind, clear_status_flags}
use coldsync.Generic.Steps.{
  with_archive, with_change, without, after_copy, change-eq, change-none, archive_record-eq,
  delete_local-eq, copy_remote-eq,
}

-- No two records stand at one address.
abbrev pub Apart : List PdbRecord → Type 0
Apart [] = Unit
Apart (rec ∷ recs) = (at_addr rec.addr recs ≡ none) × Apart recs

at_addr-delete_by_id :
    (a : ℕ) (recs : List PdbRecord) (l : PdbRecord)
    → Unique recs
    → Apart recs
    → at_addr a recs ≡ some l
    → at_addr a (delete_by_id l.id recs) ≡ none
unfolding at_addr delete_by_id lookup
at_addr-delete_by_id a [] l u p e = refl
at_addr-delete_by_id a (rec ∷ recs) l u p e =
    ground (arith, p.0, u.0, at_addr-delete_by_id a recs l u.1 p.1, lookup-at_addr a recs l u.1)

at_addr-update_none :
    (a b : ℕ) (f : PdbRecord → PdbRecord) (recs : List PdbRecord)
    → ((r : PdbRecord) → (f r).addr ≡ r.addr)
    → at_addr b recs ≡ none
    → at_addr b (update_at a f recs) ≡ none
unfolding at_addr update_at
at_addr-update_none a b f [] same e = refl
at_addr-update_none a b f (rec ∷ recs) same e =
    ground (arith, same rec, at_addr-update_none a b f recs same)

Apart-update :
    (a : ℕ) (f : PdbRecord → PdbRecord) (recs : List PdbRecord)
    → ((r : PdbRecord) → (f r).addr ≡ r.addr)
    → Apart recs
    → Apart (update_at a f recs)
unfolding update_at
Apart-update a f [] same p = tt
Apart-update a f (rec ∷ recs) same p = elim (Bool-cases (rec.addr == a)) [
  | inl here ↦ rw (here, same rec) p
  | inr there ↦
      rw there (at_addr-update_none a rec.addr f recs same p.0, Apart-update a f recs same p.1)
]

-- Where the remote record is modified and the local one archived, the local database is no resource
-- database, its IDs and its addresses are unique, the local record is in it, and memory is found,
-- `SyncRecord` changes the flags of the local record after it has freed it.
pub sync_record-Freed :
    (palm : Palm) (a : ℕ) (l r : PdbRecord) (s : Conduit palm.State)
    → kind r ≡ modified
    → kind l ≡ archived
    → is_rsrc_db s.localdb ≡ false
    → s.memory.allocs ≡ []
    → Unique s.localdb.recs
    → Apart s.localdb.recs
    → at_addr a s.localdb.recs ≡ some l
    → (sync_record palm a r s).0 ≡ fault
unfolding sync_record load sync_kinds sync_modified is_rsrc_db clear_status_flags
sync_record-Freed palm a l r s kr kl no_rsrc found unique apart at_a =
    rw (at_a, kr, kl) (ap (λ o. o.0) steps)
  where
    s1 : Conduit palm.State
    s1 = with_archive l (with_change a clear_status_flags s)

    s2 : Conduit palm.State
    s2 = after_copy r (without l.id s1)

    last : PdbRecord → M palm.State (Unit {0})
    last new = change a clear_status_flags >> append_local new

    rest : M palm.State (Unit {0})
    rest = copy_remote r.flags r >>= last

    at_a1 : at_addr a s1.localdb.recs ≡ some (clear_status_flags l)
    at_a1 = at_addr-update a clear_status_flags s.localdb.recs l (λ x. refl) at_a

    away : at_addr a (delete_by_id l.id s1.localdb.recs) ≡ none
    away =
        at_addr-delete_by_id a s1.localdb.recs (clear_status_flags l)
          (Unique-update_same a clear_status_flags s.localdb.recs (λ x. refl) (λ x. refl) unique)
          (Apart-update a clear_status_flags s.localdb.recs (λ x. refl) apart) at_a1

    fault_here : change a clear_status_flags s2 ≡ (fault, s2)
    fault_here = change-none a clear_status_flags s2 away

    steps :
        (change a clear_status_flags >> (archive_record l >> (delete_local a >> rest))) s
        ≡ (fault, s2)
    steps =
        bind_ok (change a clear_status_flags) (λ _. archive_record l >> (delete_local a >> rest))
          {s = s} (change-eq a clear_status_flags s at_a)
        ∙ (bind_ok (archive_record l) (λ _. delete_local a >> rest)
              {s = with_change a clear_status_flags s}
              (archive_record-eq l (with_change a clear_status_flags s))
            ∙ (bind_ok (delete_local a) (λ _. rest) {s = s1} (delete_local-eq a s1 at_a1 no_rsrc)
                ∙ (bind_ok (copy_remote r.flags r) last {s = without l.id s1}
                      (copy_remote-eq r.flags r (without l.id s1) found)
                    ∙ rw fault_here)))
