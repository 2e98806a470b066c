-- ===== src/Generic/Monad.antt =====
-- The state of a `GenericConduit`, and functions that change it and may end early.
use coldsync.Base.{ℕ, Bool, Option, none, some, List, ◌≡◌}
use coldsync.Pdb.{Pdb}
use coldsync.Pdb.Memory.{Memory}

-- The Palm, the local database, the one that a slow sync downloads from the Palm, the archive file's records (their data only), what a write to the
-- archive answers (the script says whether it succeeds; one that has ended says it does), the memory.
pub record Conduit (P : Type 0) : Type 0 where
  pub palm : P
  pub localdb : Pdb
  pub remotedb : Pdb
  pub archive : List (List ℕ)
  pub writes : List Bool
  pub memory : Memory

-- A value, a negative number, or the use of memory that is not there.
pub data Outcome (A : Type 0) : Type 0 where
  ok : A → Outcome A
  err : Outcome A
  fault : Outcome A

abbrev pub M : Type 0 → Type 0 → Type 0
M P A = Conduit P → Outcome A × Conduit P

module _ {P : Type 0} where
  abbrev pub continue :
      {A B : Type 0}
      → Outcome A
      → (A → Conduit P → Outcome B × Conduit P)
      → Conduit P
      → Outcome B × Conduit P
  continue (ok a) f s = f a s
  continue err f s = (err, s)
  continue fault f s = (fault, s)

  infixl 5 ◌>>=◌ ◌>>◌
  abbrev pub ◌>>=◌ : {A B : Type 0} → M P A → (A → M P B) → M P B
  ◌>>=◌ m f s = continue (m s).0 f (m s).1

  abbrev pub ◌>>◌ : {B : Type 0} → M P (Unit {0}) → M P B → M P B
  m >> k = m >>= λ _. k

  abbrev pub pure : {A : Type 0} → A → M P A
  pure a s = (ok a, s)

  abbrev pub fail : {A : Type 0} → M P A
  fail s = (err, s)

  abbrev pub faulty : {A : Type 0} → M P A
  faulty s = (fault, s)

  abbrev pub gets : {A : Type 0} → (Conduit P → A) → M P A
  gets f s = (ok (f s), s)

  abbrev pub modify : (Conduit P → Conduit P) → M P (Unit {0})
  modify f s = (ok tt, f s)

  abbrev pub valid : {A : Type 0} → Option A → M P A
  valid none = faulty
  valid (some a) = pure a

  pub bind_ok :
      {A B : Type 0} (m : M P A) (f : A → M P B) {s s' : Conduit P} {a : A}
      → m s ≡ (ok a, s')
      → (m >>= f) s ≡ f a s'
  bind_ok m f e = rw e
