-- ===== src/Generic/FirstWalk.antt =====
-- The walk of `FirstSync` over the downloaded database.
use coldsync.Base.{
  ℕ, ==_refl, true, false, Bool-cases, some, List, [], ◌∷◌, ◌++◌, append_assoc, append-nil, map,
  ◌≡◌, refl, sym, ap, ◌∙◌, inl, inr, if◌then◌else◌,
}
use coldsync.Pdb.{PdbRecord, is_rsrc_db, at_addr, update_at, delete_by_id, pdb_delete_record_by_id}
use coldsync.Pdb.Ids.{Unique}
use coldsync.Generic.{archive_record, or_unchanged, rest_of}
use coldsync.Generic.Monad.{Conduit, ok, bind_ok}
use coldsync.Generic.Records.{expunged, clear_status_flags}
use coldsync.Generic.Steps.{Lands, and_then, with_archive, archive_record-eq}
use coldsync.Generic.Freed.{Apart}
use coldsync.Generic.Frames.{Lands-map}
use coldsync.Generic.Behind.{
  Behind, Behind-nil, Behind-cons, at_addr-append, update_at-append, delete_by_id-append,
}
use coldsync.Generic.Slow.{for_each, to_archive, load_remote, change_remote}
use coldsync.Generic.First.{first_cases, first_remote, first_records}

-- The records that stay, with their status cleared, and the data that go to the archive.
abbrev pub first_kept : List PdbRecord → List PdbRecord
first_kept [] = []
first_kept (rec ∷ recs) =
    if to_archive rec
    then clear_status_flags rec ∷ first_kept recs
    else if expunged rec
    then first_kept recs
    else clear_status_flags rec ∷ first_kept recs

abbrev pub first_archived : List PdbRecord → List (List ℕ)
first_archived [] = []
first_archived (rec ∷ recs) =
    if to_archive rec then rec.payload ∷ first_archived recs else first_archived recs

module _ {P : Type 0} where
  -- What the walk has done when these records are what is left.
  abbrev Left : List PdbRecord → List PdbRecord → Conduit P → Type 0
  Left done recs s =
      (is_rsrc_db s.remotedb ≡ false)
      × (s.writes ≡ [])
      × (s.remotedb.recs ≡ done ++ recs)
      × Behind done recs
      × Unique recs
      × Apart recs

  abbrev pub Done : List PdbRecord → List PdbRecord → Conduit P → Unit {0} → Conduit P → Type 0
  Done done recs s _ s' =
      (s'.remotedb.recs ≡ done ++ first_kept recs)
      × (s'.archive ≡ s.archive ++ first_archived recs)
      × (s'.localdb ≡ s.localdb)
      × (s'.palm ≡ s.palm)

  with_marks : ℕ → Conduit P → Conduit P
  with_marks a s = record s {
    remotedb = record s.remotedb { recs = update_at a clear_status_flags s.remotedb.recs };
  }

  abbrev without_remote : ℕ → Conduit P → Conduit P
  without_remote k s = record s {
    remotedb = or_unchanged (pdb_delete_record_by_id s.remotedb k) s.remotedb;
  }

  stands :
      (done recs : List PdbRecord) (rec : PdbRecord) (s : Conduit P)
      → Left done (rec ∷ recs) s
      → at_addr rec.addr s.remotedb.recs ≡ some rec
  unfolding at_addr
  stands done recs rec s (_, _, e, behind, _, _) =
      rw e (at_addr-append rec.addr done (rec ∷ recs) behind.1 ∙ rw (==_refl rec.addr))

  change_remote-eq :
      (done recs : List PdbRecord) (rec : PdbRecord) (s : Conduit P)
      → Left done (rec ∷ recs) s
      → change_remote rec.addr clear_status_flags s ≡ (ok tt, with_marks rec.addr s)
  unfolding change_remote load_remote with_marks
  change_remote-eq done recs rec s left = rw (stands done recs rec s left)

  Left-marks :
      (done recs : List PdbRecord) (rec : PdbRecord) (s : Conduit P)
      → Left done (rec ∷ recs) s
      → Left (done ++ (clear_status_flags rec ∷ [])) recs (with_marks rec.addr s)
  unfolding with_marks is_rsrc_db clear_status_flags update_at
  Left-marks done recs rec s (records, writes, e, behind, unique, apart) = (
    records,
    writes,
    rw e (
        update_at-append rec.addr clear_status_flags done (rec ∷ recs) behind.1
        ∙ (rw (==_refl rec.addr) (sym (append_assoc done (clear_status_flags rec ∷ []) recs)))),
    Behind-cons done (clear_status_flags rec) recs behind.2 unique.0 apart.0,
    unique.1,
    apart.1,
  )

  Left-without :
      (done recs : List PdbRecord) (rec : PdbRecord) (s : Conduit P)
      → Left done (rec ∷ recs) s
      → Left done recs (without_remote rec.id s)
  unfolding pdb_delete_record_by_id is_rsrc_db delete_by_id
  Left-without done recs rec s (records, writes, e, behind, unique, apart) = rw records (
    records,
    writes,
    rw e (delete_by_id-append rec.id done (rec ∷ recs) behind.0 ∙ rw (==_refl rec.id)),
    behind.2,
    unique.1,
    apart.1,
  )

  Left-archive :
      (done recs : List PdbRecord) (rec : PdbRecord) (s : Conduit P)
      → Left done recs s
      → Left done recs (with_archive rec s)
  unfolding is_rsrc_db
  Left-archive done recs rec s (records, writes, e, behind, unique, apart) =
      (records, ap rest_of writes, e, behind, unique, apart)

  step-archived :
      (done recs : List PdbRecord) (rec : PdbRecord) (s : Conduit P)
      → Left done (rec ∷ recs) s
      → to_archive rec ≡ true
      → first_remote rec.addr s
        ≡ (ok tt, with_archive (clear_status_flags rec) (with_marks rec.addr s))
  unfolding first_remote first_cases load_remote
  step-archived done recs rec s left e =
      rw (stands done recs rec s left, e)
        (bind_ok (change_remote rec.addr clear_status_flags)
            (λ _. archive_record (clear_status_flags rec)) {s = s}
            (change_remote-eq done recs rec s left)
          ∙ archive_record-eq (clear_status_flags rec) (with_marks rec.addr s))

  step-gone :
      (done recs : List PdbRecord) (rec : PdbRecord) (s : Conduit P)
      → Left done (rec ∷ recs) s
      → to_archive rec ≡ false
      → expunged rec ≡ true
      → first_remote rec.addr s ≡ (ok tt, without_remote rec.id s)
  unfolding first_remote first_cases load_remote
  step-gone done recs rec s left e e' = rw (stands done recs rec s left, e, e')

  step-plain :
      (done recs : List PdbRecord) (rec : PdbRecord) (s : Conduit P)
      → Left done (rec ∷ recs) s
      → to_archive rec ≡ false
      → expunged rec ≡ false
      → first_remote rec.addr s ≡ (ok tt, with_marks rec.addr s)
  unfolding first_remote first_cases load_remote
  step-plain done recs rec s left e e' =
      rw (stands done recs rec s left, e, e') (change_remote-eq done recs rec s left)

  -- One step, and the walk over the rest.
  after_step :
      (done done' recs : List PdbRecord) (rec : PdbRecord) (s s' : Conduit P)
      → first_remote rec.addr s ≡ (ok tt, s')
      → ((s'' : Conduit P) → Done done' recs s' tt s'' → Done done (rec ∷ recs) s tt s'')
      → Lands (Done done' recs s') (for_each (map (λ r. r.addr) recs) first_remote s')
      → Lands (Done done (rec ∷ recs) s) (for_each (map (λ r. r.addr) (rec ∷ recs)) first_remote s)
  unfolding for_each
  after_step done done' recs rec s s' step conv rest =
      and_then (Done done (rec ∷ recs) s) (first_remote rec.addr)
        (λ _. for_each (map (λ r. r.addr) recs) first_remote) step
        (Lands-map (Done done' recs s') (Done done (rec ∷ recs) s)
          (for_each (map (λ r. r.addr) recs) first_remote s') (λ _. conv) rest)

  walk-Done :
      (done recs : List PdbRecord) (s : Conduit P)
      → Left done recs s
      → Lands (Done done recs s) (for_each (map (λ r. r.addr) recs) first_remote s)
  unfolding for_each with_marks clear_status_flags pdb_delete_record_by_id
  walk-Done done [] s (_, _, e, _, _, _) = (e, sym (append-nil s.archive), refl, refl)
  walk-Done done (rec ∷ recs) s left = elim (Bool-cases (to_archive rec)) [
    | inl e ↦
        after_step done done' recs rec s
          (with_archive (clear_status_flags rec) (with_marks rec.addr s))
          (step-archived done recs rec s left e)
          (λ s'' (kept, archive, local, palm). (
            kept ∙ (append_assoc done (clear_status_flags rec ∷ []) (first_kept recs) ∙ rw e),
            archive
                ∙ rw (left.1, e) (append_assoc s.archive (rec.payload ∷ []) (first_archived recs)),
            local,
            palm,
          ))
          (walk-Done done' recs (with_archive (clear_status_flags rec) (with_marks rec.addr s)) (
            Left-archive done' recs (clear_status_flags rec) (with_marks rec.addr s)
              (Left-marks done recs rec s left)))
    | inr e ↦ elim (Bool-cases (expunged rec)) [
      | inl e' ↦
          after_step done done recs rec s (without_remote rec.id s)
            (step-gone done recs rec s left e e')
            (λ s'' (kept, archive, local, palm). (kept ∙ rw (e, e'), archive ∙ rw e, local, palm))
            (walk-Done done recs (without_remote rec.id s) (Left-without done recs rec s left))
      | inr e' ↦
          after_step done done' recs rec s (with_marks rec.addr s)
            (step-plain done recs rec s left e e')
            (λ s'' (kept, archive, local, palm). (
              kept
                  ∙ (append_assoc done (clear_status_flags rec ∷ []) (first_kept recs)
                      ∙ rw (e, e')),
              archive ∙ rw e,
              local,
              palm,
            ))
            (walk-Done done' recs (with_marks rec.addr s) (Left-marks done recs rec s left))
    ]
  ]
    where
      done' : List PdbRecord
      done' = done ++ (clear_status_flags rec ∷ [])

  -- While the archive can be written, and the downloaded database is no resource database and its IDs
  -- and its addresses are unique, the walk of `FirstSync` over it succeeds: of the downloaded records
  -- it keeps, in their order, all but the expunged ones that are not to be archived, each with nothing
  -- but its private flag; it adds the data of those that are to be archived to the archive, in their
  -- order; and it changes neither the local database nor the Palm.
  pub first_records-Done :
      (s : Conduit P)
      → is_rsrc_db s.remotedb ≡ false
      → s.writes ≡ []
      → Unique s.remotedb.recs
      → Apart s.remotedb.recs
      → Lands (Done [] s.remotedb.recs s) (first_records s)
  unfolding first_records
  first_records-Done s records writes unique apart =
      walk-Done [] s.remotedb.recs s
        (records, writes, refl, Behind-nil s.remotedb.recs, unique, apart)
