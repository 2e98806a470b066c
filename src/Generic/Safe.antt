-- ===== src/Generic/Safe.antt =====
-- What the steps of `SyncRecord` do to the local record, whatever the Palm and the memory answer.
use coldsync.Base.{ℕ, some, Bool-cases, Option-cases, ◌≡◌, refl, ◌∙◌, inl, inr}
use coldsync.Pdb.{PdbRecord, at_addr}
use coldsync.Pdb.Memory.{new_record}
use coldsync.Pdb.Ids.{Content, content, at_addr-update, at_addr-insert_after}
use coldsync.Generic.{
  load, change, delete_local, insert_local, copy_remote, delete_remote, upload, is_noerr,
}
use coldsync.Generic.Remote.{Palm}
use coldsync.Generic.Monad.{Conduit, Outcome, ok, err, fault, M, continue, ◌>>=◌}
use coldsync.Generic.Steps.{change-eq, insert_local-eq}

-- The memory that is used is there, and the state in the end, early or not, is of this kind.
abbrev pub Safe : {P A : Type 0} → (Conduit P → Type 0) → Outcome A × Conduit P → Type 0
Safe Q (ok a, s) = Q s
Safe Q (err, s) = Q s
Safe Q (fault, s) = ⊥

abbrev pub Any : {P : Type 0} → Conduit P → Type 0
Any s = Unit

-- A record with this content stands at an address of the local database.
abbrev pub Has : {P : Type 0} → ℕ → Content → Conduit P → Type 0
Has a c s = (l : PdbRecord) × (at_addr a s.localdb.recs ≡ some l) × (content l ≡ c)

module _ {P : Type 0} where
  pub Safe-Any :
      {A : Type 0} (Q : Conduit P → Type 0) (o : Outcome A × Conduit P) → Safe Q o → Safe Any o
  Safe-Any Q (ok a, s) q = tt
  Safe-Any Q (err, s) q = tt
  Safe-Any Q (fault, s) q = absurd q

  -- A step that keeps what holds, and the rest.
  pub Safe-bind :
      {A B : Type 0} (Q : Conduit P → Type 0) (m : M P A) (f : A → M P B) (s : Conduit P)
      → Safe Q (m s)
      → ((a : A) (s' : Conduit P) → Q s' → Safe Q (f a s'))
      → Safe Q ((m >>= f) s)
  Safe-bind {A = A} Q m f s first rest = by_case (m s) first
    where
      by_case : (o : Outcome A × Conduit P) → Safe Q o → Safe Q (continue o.0 f o.1)
      by_case (ok a, s') q = rest a s' q
      by_case (err, s') q = q
      by_case (fault, s') q = absurd q

  -- A step that keeps what holds, and the rest, after which nothing need hold.
  pub Safe-then :
      {A B : Type 0} (Q : Conduit P → Type 0) (m : M P A) (f : A → M P B) (s : Conduit P)
      → Safe Q (m s)
      → ((a : A) (s' : Conduit P) → Q s' → Safe Any (f a s'))
      → Safe Any ((m >>= f) s)
  Safe-then {A = A} Q m f s first rest = by_case (m s) first
    where
      by_case : (o : Outcome A × Conduit P) → Safe Q o → Safe Any (continue o.0 f o.1)
      by_case (ok a, s') q = rest a s' q
      by_case (err, s') q = tt
      by_case (fault, s') q = absurd q

  pub change-Safe :
      (a : ℕ) (c : Content) (f : PdbRecord → PdbRecord) (s : Conduit P)
      → ((r : PdbRecord) → ((f r).addr ≡ r.addr) × (content (f r) ≡ content r))
      → Has a c s
      → Safe (Has a c) (change a f s)
  change-Safe a c f s same (l, at_a, e) =
      rw (change-eq a f s at_a) (f l, at_addr-update a f _ l (λ r. (same r).0) at_a, (same l).1 ∙ e)

  pub delete_local-Safe :
      (a : ℕ) (c : Content) (s : Conduit P) → Has a c s → Safe Any (delete_local a s)
  unfolding delete_local load
  delete_local-Safe a c s (l, at_a, e) = rw at_a tt

  pub insert_local-Safe :
      (a : ℕ) (c : Content) (new : PdbRecord) (s : Conduit P)
      → Has a c s
      → Safe (Has a c) (insert_local a new s)
  insert_local-Safe a c new s (l, at_a, e) =
      rw (insert_local-eq a new s at_a) (l, at_addr-insert_after a new _ l at_a, e)

  pub copy_remote-Safe :
      (Q : Conduit P → Type 0) (flags : ℕ) (r : PdbRecord) (s : Conduit P)
      → Q (record s { memory = (new_record flags r.category r.id r.payload s.memory).1 })
      → Safe Q (copy_remote flags r s)
  unfolding copy_remote
  copy_remote-Safe Q flags r s q =
      elim (Option-cases (new_record flags r.category r.id r.payload s.memory).0) [
        | inl e ↦ rw e q
        | inr (new, e) ↦ rw e q
      ]

module _ (palm : Palm) where
  pub delete_remote-Safe :
      (Q : Conduit palm.State → Type 0) (id : ℕ) (s : Conduit palm.State)
      → Q (record s { palm = (palm.delete_record id s.palm).1 })
      → Safe Q (delete_remote palm id s)
  unfolding delete_remote
  delete_remote-Safe Q id s q = elim (Bool-cases (is_noerr palm (palm.delete_record id s.palm).0)) [
    | inl done ↦ rw done q
    | inr failed ↦ rw failed (elim (Bool-cases (palm.is_online (palm.delete_record id s.palm).1)) [
      | inl on ↦ rw on q
      | inr off ↦ rw off q
    ])
  ]

  pub upload-Safe :
      (a : ℕ) (c : Content) (id : ℕ) (s : Conduit palm.State)
      → Has a c s
      → Safe (Has a c) (upload palm a id s)
  unfolding upload load
  upload-Safe a c id s (l, at_a, e) =
      rw at_a
        (elim (Bool-cases
          (is_noerr palm (palm.write_record id l.flags l.category l.payload s.palm).0)) [
            | inl done ↦ rw done (change-Safe a c _ _ (λ r. (refl, refl)) (l, at_a, e))
            | inr failed ↦ rw failed (l, at_a, e)
          ])
