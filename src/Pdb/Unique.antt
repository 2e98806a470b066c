-- ===== src/Pdb/Unique.antt =====
-- IDs stay unique under the operations on the list of records.
use coldsync.Base.{ℕ, ◌≡◌, ◌≢◌, refl, ◌∙◌, arith, ◌==◌, if◌then◌else◌, Bool-cases, inl, inr}
use coldsync.Base.{none, some, List, [], ◌∷◌, ◌++◌}
use coldsync.Pdb.{PdbRecord, delete_by_id, at_addr, update_at, insert_after}
use coldsync.Pdb.Ids.{
  content, lookup, Unique, lookup-delete_by_id, lookup-append, lookup-update_same, lookup-update_id,
  lookup-at_addr,
}

pub Unique-delete_by_id :
    (k : ℕ) (recs : List PdbRecord) → Unique recs → Unique (delete_by_id k recs)
unfolding delete_by_id
Unique-delete_by_id k [] u = tt
Unique-delete_by_id k (rec ∷ recs) u = elim (Bool-cases (rec.id == k)) [
  | inl same ↦ rw same u.1
  | inr other ↦
      rw other
        (ground (arith, lookup-delete_by_id rec.id k recs u.1), Unique-delete_by_id k recs u.1)
]

pub Unique-append :
    (recs : List PdbRecord) (new : PdbRecord)
    → Unique recs
    → lookup new.id recs ≡ none
    → Unique (recs ++ (new ∷ []))
unfolding lookup
Unique-append [] new u e = (refl, tt)
Unique-append (rec ∷ recs) new u e =
    (ground (arith, lookup-append rec.id recs new), Unique-append recs new u.1 (ground arith))

pub Unique-update_same :
    (a : ℕ) (f : PdbRecord → PdbRecord) (recs : List PdbRecord)
    → ((r : PdbRecord) → (f r).id ≡ r.id)
    → ((r : PdbRecord) → content (f r) ≡ content r)
    → Unique recs
    → Unique (update_at a f recs)
unfolding update_at
Unique-update_same a f [] same_id same u = tt
Unique-update_same a f (rec ∷ recs) same_id same u = elim (Bool-cases (rec.addr == a)) [
  | inl here ↦ rw (here, same_id rec) u
  | inr there ↦ rw there (
    lookup-update_same rec.id a f recs same_id same ∙ u.0,
    Unique-update_same a f recs same_id same u.1,
  )
]

pub Unique-update_id :
    (a new : ℕ) (recs : List PdbRecord) (l : PdbRecord)
    → Unique recs
    → at_addr a recs ≡ some l
    → (l.id ≢ new → lookup new recs ≡ none)
    → Unique (update_at a (λ r. record r { id = new }) recs)
unfolding update_at at_addr lookup
Unique-update_id a new [] l u e fresh = tt
Unique-update_id a new (rec ∷ recs) l u e fresh = elim (Bool-cases (rec.addr == a)) [
  | inl here ↦ rw here (ground (arith, fresh), u.1)
  | inr there ↦ rw there (
    ground (arith, fresh, lookup-update_id rec.id a new recs l u.1, lookup-at_addr a recs l u.1),
    Unique-update_id a new recs l u.1 (ground arith) (λ ne. ground (arith, fresh ne)),
  )
]

-- A new record behind the one at an address.
pub lookup-insert_after :
    (i a : ℕ) (new : PdbRecord) (recs : List PdbRecord) (l : PdbRecord)
    → at_addr a recs ≡ some l
    → lookup new.id recs ≡ none
    → lookup i (insert_after a new recs)
      ≡ (if new.id == i then some (content new) else lookup i recs)
unfolding lookup insert_after at_addr
lookup-insert_after i a new [] l e fresh = cc
lookup-insert_after i a new (rec ∷ recs) l e fresh =
    ground (arith, lookup-insert_after i a new recs l)

pub Unique-insert_after :
    (a : ℕ) (new : PdbRecord) (recs : List PdbRecord) (l : PdbRecord)
    → Unique recs
    → at_addr a recs ≡ some l
    → lookup new.id recs ≡ none
    → Unique (insert_after a new recs)
unfolding lookup insert_after at_addr
Unique-insert_after a new [] l u e fresh = tt
Unique-insert_after a new (rec ∷ recs) l u e fresh = elim (Bool-cases (rec.addr == a)) [
  | inl here ↦ rw here (ground arith, (ground arith, u.1))
  | inr there ↦ rw there (
    ground (arith, lookup-insert_after rec.id a new recs l),
    Unique-insert_after a new recs l u.1 (ground arith) (ground arith),
  )
]

-- A new record in the place of the one at an address, with its ID: inserted behind it, which is then
-- deleted by its ID.
pub delete_by_id-insert_after :
    (a : ℕ) (new : PdbRecord) (recs : List PdbRecord) (l : PdbRecord)
    → Unique recs
    → at_addr a recs ≡ some l
    → l.id ≡ new.id
    → delete_by_id l.id (insert_after a new recs) ≡ update_at a (λ r. new) recs
unfolding lookup insert_after at_addr delete_by_id update_at
delete_by_id-insert_after a new [] l u e same = refl
delete_by_id-insert_after a new (rec ∷ recs) l u e same =
    ground (arith, delete_by_id-insert_after a new recs l u.1, lookup-at_addr a recs l u.1)

pub lookup-replace :
    (i a : ℕ) (new : PdbRecord) (recs : List PdbRecord) (l : PdbRecord)
    → Unique recs
    → at_addr a recs ≡ some l
    → l.id ≡ new.id
    → lookup i (update_at a (λ r. new) recs)
      ≡ (if new.id == i then some (content new) else lookup i recs)
unfolding lookup at_addr update_at
lookup-replace i a new [] l u e same = cc
lookup-replace i a new (rec ∷ recs) l u e same =
    ground (arith, lookup-replace i a new recs l u.1, lookup-at_addr a recs l u.1)

pub Unique-replace :
    (a : ℕ) (new : PdbRecord) (recs : List PdbRecord) (l : PdbRecord)
    → Unique recs
    → at_addr a recs ≡ some l
    → l.id ≡ new.id
    → Unique (update_at a (λ r. new) recs)
unfolding lookup at_addr update_at
Unique-replace a new [] l u e same = tt
Unique-replace a new (rec ∷ recs) l u e same = elim (Bool-cases (rec.addr == a)) [
  | inl here ↦ rw here (ground arith, u.1)
  | inr there ↦ rw there (
    ground (arith, lookup-replace rec.id a new recs l u.1, lookup-at_addr a recs l u.1),
    Unique-replace a new recs l u.1 (ground arith) same,
  )
]
