-- ===== src/Pdb/Ids.antt =====
-- The list of records as a map from IDs to what the records hold.
use coldsync.Base.{ℕ, ◌≡◌, ◌≢◌, refl, arith, ◌==◌, if◌then◌else◌}
use coldsync.Base.{Option, none, some, List, [], ◌∷◌, ◌++◌}
use coldsync.Pdb.{PdbRecord, find_by_id, delete_by_id, at_addr, update_at, insert_after}

abbrev pub Content : Type 0
Content = ℕ × List ℕ

abbrev pub content : PdbRecord → Content
content rec = (rec.category, rec.payload)

abbrev pub map_content : Option PdbRecord → Option Content
map_content none = none
map_content (some rec) = some (content rec)

unfoldable pub lookup : ℕ → List PdbRecord → Option Content
lookup i [] = none
lookup i (rec ∷ recs) = if rec.id == i then some (content rec) else lookup i recs

pub lookup-eq-find :
    (i : ℕ) (recs : List PdbRecord) → lookup i recs ≡ map_content (find_by_id i recs)
unfolding lookup find_by_id
lookup-eq-find i [] = refl
lookup-eq-find i (rec ∷ recs) = ground (arith, lookup-eq-find i recs)

-- No ID occurs twice.
abbrev pub Unique : List PdbRecord → Type 0
Unique [] = Unit
Unique (rec ∷ recs) = (lookup rec.id recs ≡ none) × Unique recs

pub lookup-delete_by_id :
    (i k : ℕ) (recs : List PdbRecord)
    → Unique recs
    → lookup i (delete_by_id k recs) ≡ (if k == i then none else lookup i recs)
unfolding lookup delete_by_id
lookup-delete_by_id i k [] u = ground arith
lookup-delete_by_id i k (rec ∷ recs) u = ground (arith, lookup-delete_by_id i k recs u.1)

pub lookup-append :
    (i : ℕ) (recs : List PdbRecord) (new : PdbRecord)
    → lookup new.id recs ≡ none
    → lookup i (recs ++ (new ∷ [])) ≡ (if new.id == i then some (content new) else lookup i recs)
unfolding lookup
lookup-append i [] new e = refl
lookup-append i (rec ∷ recs) new e = ground (arith, lookup-append i recs new)

-- A change in place that touches neither ID nor content is not seen.
pub lookup-update_same :
    (i a : ℕ) (f : PdbRecord → PdbRecord) (recs : List PdbRecord)
    → ((r : PdbRecord) → (f r).id ≡ r.id)
    → ((r : PdbRecord) → content (f r) ≡ content r)
    → lookup i (update_at a f recs) ≡ lookup i recs
unfolding lookup update_at
lookup-update_same i a f [] same_id same = refl
lookup-update_same i a f (rec ∷ recs) same_id same =
    ground (arith, same_id rec, same rec, lookup-update_same i a f recs same_id same)

pub lookup-at_addr :
    (a : ℕ) (recs : List PdbRecord) (l : PdbRecord)
    → Unique recs
    → at_addr a recs ≡ some l
    → lookup l.id recs ≡ some (content l)
unfolding lookup at_addr
lookup-at_addr a [] l u e = cc
lookup-at_addr a (rec ∷ recs) l u e = ground (arith, lookup-at_addr a recs l u.1)

-- Another ID for the record at an address.
pub lookup-update_id :
    (i a new : ℕ) (recs : List PdbRecord) (l : PdbRecord)
    → Unique recs
    → at_addr a recs ≡ some l
    → (l.id ≢ new → lookup new recs ≡ none)
    → lookup i (update_at a (λ r. record r { id = new }) recs)
      ≡ (if new == i then some (content l) else if l.id == i then none else lookup i recs)
unfolding lookup update_at at_addr
lookup-update_id i a new [] l u e fresh = cc
lookup-update_id i a new (rec ∷ recs) l u e fresh =
    ground (arith, fresh, lookup-update_id i a new recs l u.1, lookup-at_addr a recs l u.1)

pub at_addr-update :
    (a : ℕ) (f : PdbRecord → PdbRecord) (recs : List PdbRecord) (l : PdbRecord)
    → ((r : PdbRecord) → (f r).addr ≡ r.addr)
    → at_addr a recs ≡ some l
    → at_addr a (update_at a f recs) ≡ some (f l)
unfolding at_addr update_at
at_addr-update a f [] l same e = cc
at_addr-update a f (rec ∷ recs) l same e = ground (arith, same rec, at_addr-update a f recs l same)

pub at_addr-insert_after :
    (a : ℕ) (new : PdbRecord) (recs : List PdbRecord) (l : PdbRecord)
    → at_addr a recs ≡ some l
    → at_addr a (insert_after a new recs) ≡ some l
unfolding at_addr insert_after
at_addr-insert_after a new [] l e = cc
at_addr-insert_after a new (rec ∷ recs) l e = ground (arith, at_addr-insert_after a new recs l)
