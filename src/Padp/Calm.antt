-- ===== src/Padp/Calm.antt =====
-- Calls on a device that refuses nothing, where nothing times out and memory is found.
use coldsync.Base.{◌≡◌, ◌∙◌, []}
use coldsync.Conn.{PConnection, Result, ok}
use coldsync.Conn.Monad.{M, ◌>>=◌, bind_ok}
use coldsync.Conn.Reading.{Willing}

pub record Calm (c : PConnection) : Type 0 where
  pub reads : Willing c.device.reads
  pub writes : Willing c.device.writes
  pub selects : c.device.selects ≡ []
  pub allocs : c.device.allocs ≡ []

-- A call returns a value, and a connection, with the property.
abbrev pub Returns : {A : Type 0} → (A → PConnection → Type 0) → Result A × PConnection → Type 0
Returns {A} P r = (a : A) × (c : PConnection) × (r ≡ (ok a, c)) × P a c

module _ {A B : Type 0} {P : A → PConnection → Type 0} {Q : B → PConnection → Type 0} where
  Returns-bind :
      (m : M A) (f : A → M B) (c : PConnection)
      → Returns P (m c)
      → ((a : A) (c' : PConnection) → P a c' → Returns Q (f a c'))
      → Returns Q ((m >>= f) c)
  Returns-bind m f c (a, c', e, p) next =
      let (b, c'', e', q) = next a c' p in (b, c'', bind_ok m f e ∙ e', q)
