-- ===== src/Conn/Monad.antt =====
-- The functions that work on a connection: they change it, and may end early.
use coldsync.Base.{Option, none, some, ◌≡◌}
use coldsync.Conn.{PConnection, Result, ok, err, eof, fault, stuck, PalmErrno, Status}

abbrev pub M {ℓ} : Type ℓ → Type ℓ
M A = PConnection → Result A × PConnection

-- A call that does not end with a value ends its caller too, in the state that it left.
module _ {ℓ κ} {A : Type ℓ} {B : Type κ} where
  abbrev pub continue :
      Result A → (A → PConnection → Result B × PConnection) → PConnection → Result B × PConnection
  continue (ok a) f c = f a c
  continue err f c = (err, c)
  continue eof f c = (eof, c)
  continue fault f c = (fault, c)
  continue stuck f c = (stuck, c)

infixl 5 ◌>>=◌ ◌>>◌
abbrev pub ◌>>=◌ {ℓ κ} : {A : Type ℓ} {B : Type κ} → M A → (A → M B) → M B
◌>>=◌ m f c = continue (m c).0 f (m c).1

abbrev pub ◌>>◌ {ℓ} : {B : Type ℓ} → M (Unit {0}) → M B → M B
m >> k = m >>= λ _. k

abbrev pub pure {ℓ} : {A : Type ℓ} → A → M A
pure a c = (ok a, c)

abbrev pub fail {ℓ} : {A : Type ℓ} → M A
fail c = (err, c)

abbrev pub faulty {ℓ} : {A : Type ℓ} → M A
faulty c = (fault, c)

abbrev pub no_fuel {ℓ} : {A : Type ℓ} → M A
no_fuel c = (stuck, c)

abbrev pub gets {ℓ} : {A : Type ℓ} → (PConnection → A) → M A
gets f c = (ok (f c), c)

abbrev pub modify : (PConnection → PConnection) → M (Unit {0})
modify f c = (ok tt, f c)

-- A read outside of a buffer.
abbrev pub in_bounds {ℓ} : {A : Type ℓ} → Option A → M A
in_bounds none = faulty
in_bounds (some a) = pure a

-- PConn_set_palmerrno, and the assignments to `palm_errno`.
abbrev pub set_palmerrno : PalmErrno → M (Unit {0})
set_palmerrno e = modify (λ c. record c { palm_errno = e })

-- PConn_set_status
abbrev pub set_status : Status → M (Unit {0})
set_status s = modify (λ c. record c { status = s })

module _ {ℓ κ} {A : Type ℓ} {B : Type κ} (m : M A) (f : A → M B) {c c' : PConnection} where
  pub bind_ok : {a : A} → m c ≡ (ok a, c') → (m >>= f) c ≡ f a c'
  bind_ok e = rw e

  pub bind_err : m c ≡ (err, c') → (m >>= f) c ≡ (err, c')
  bind_err e = rw e

  bind_eof : m c ≡ (eof, c') → (m >>= f) c ≡ (eof, c')
  bind_eof e = rw e

  bind_fault : m c ≡ (fault, c') → (m >>= f) c ≡ (fault, c')
  bind_fault e = rw e
