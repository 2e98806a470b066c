-- ===== src/Generic/Behind.antt =====
-- Lists of records of which a walk has looked at the first ones.
use coldsync.Base.{ℕ, none, List, [], ◌∷◌, ◌++◌, ◌≡◌, refl, ◌∙◌, arith}
use coldsync.Pdb.{PdbRecord, at_addr, update_at, delete_by_id}
use coldsync.Pdb.Ids.{lookup}

-- The record behind the ones that were looked at.
pub at_addr-append :
    (a : ℕ) (done recs : List PdbRecord)
    → at_addr a done ≡ none
    → at_addr a (done ++ recs) ≡ at_addr a recs
unfolding at_addr
at_addr-append a [] recs e = refl
at_addr-append a (rec ∷ done) recs e = ground (arith, e, at_addr-append a done recs)

pub update_at-append :
    (a : ℕ) (f : PdbRecord → PdbRecord) (done recs : List PdbRecord)
    → at_addr a done ≡ none
    → update_at a f (done ++ recs) ≡ done ++ update_at a f recs
unfolding at_addr update_at
update_at-append a f [] recs e = refl
update_at-append a f (rec ∷ done) recs e = ground (arith, e, update_at-append a f done recs)

pub delete_by_id-append :
    (k : ℕ) (done recs : List PdbRecord)
    → lookup k done ≡ none
    → delete_by_id k (done ++ recs) ≡ done ++ delete_by_id k recs
unfolding lookup delete_by_id
delete_by_id-append k [] recs e = refl
delete_by_id-append k (rec ∷ done) recs e = ground (arith, e, delete_by_id-append k done recs)

pub lookup-append_none :
    (k : ℕ) (done recs : List PdbRecord)
    → lookup k done ≡ none
    → lookup k (done ++ recs) ≡ lookup k recs
unfolding lookup
lookup-append_none k [] recs e = refl
lookup-append_none k (rec ∷ done) recs e = ground (arith, e, lookup-append_none k done recs)

-- None of the records that were looked at has the ID or the address of one that is left.
abbrev pub Behind : List PdbRecord → List PdbRecord → Type 0
Behind done [] = Unit
Behind done (rec ∷ recs) =
    (lookup rec.id done ≡ none) × (at_addr rec.addr done ≡ none) × Behind done recs

pub Behind-nil : (recs : List PdbRecord) → Behind [] recs
unfolding lookup at_addr
Behind-nil [] = tt
Behind-nil (rec ∷ recs) = (refl, refl, Behind-nil recs)

pub Behind-cons :
    (done : List PdbRecord) (x : PdbRecord) (recs : List PdbRecord)
    → Behind done recs
    → lookup x.id recs ≡ none
    → at_addr x.addr recs ≡ none
    → Behind (done ++ (x ∷ [])) recs
unfolding lookup at_addr
Behind-cons done x [] behind no_id no_addr = tt
Behind-cons done x (rec ∷ recs) (far, away, behind) no_id no_addr = (
  lookup-append_none rec.id done (x ∷ []) far ∙ ground (arith, no_id),
  at_addr-append rec.addr done (x ∷ []) away ∙ ground (arith, no_addr),
  Behind-cons done x recs behind (ground (arith, no_id)) (ground (arith, no_addr)),
)
