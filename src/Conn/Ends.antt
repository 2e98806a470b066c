-- ===== src/Conn/Ends.antt =====
-- How a call ends on any device: within its fuel, and with a postcondition where it returns a value.
use coldsync.Base.{ℕ, zero, suc, ◌-◌, ◌≤◌, ◌<◌, ◌≡◌, refl, sym, ap, ◌∙◌, arith}
use coldsync.Base.{
  List, [], ◌∷◌, ◌++◌, length, take, append-nil, append_assoc, length-append, take-append-drop,
  length-take,
}
use coldsync.Conn.{PConnection, Reply, upto, refuse, Result, ok, err, eof, fault}
use coldsync.Conn.Monad.{M, continue, ◌>>=◌}
use coldsync.Conn.Reading.{left_with}
use coldsync.Conn.Calls.{passing, receive, serve_read, read_status, pconn_read, read_loop, read_all}

pub data Ends {ℓ} {A : Type ℓ} (P : A → PConnection → Type 0)
    : Result A → PConnection → Type ℓ where
  returned : {a : A} {c : PConnection} → P a c → Ends P (ok a) c
  erred : {c : PConnection} → Ends P err c
  at_eof : {c : PConnection} → Ends P eof c
  faulted : {c : PConnection} → Ends P fault c

-- A call of `m` on `c` ends.
abbrev pub EndsAt {ℓ} : {A : Type ℓ} → (A → PConnection → Type 0) → Result A × PConnection → Type ℓ
EndsAt P r = Ends P r.0 r.1

module _ {ℓ} {A B : Type ℓ} {P : A → PConnection → Type 0} {Q : B → PConnection → Type 0} where
  after :
      {r : Result A} {c : PConnection} (f : A → M B)
      → Ends P r c
      → ((a : A) (c' : PConnection) → P a c' → EndsAt Q (f a c'))
      → EndsAt Q (continue r f c)
  after f (returned p) next = next _ _ p
  after f erred next = erred
  after f at_eof next = at_eof
  after f faulted next = faulted

  pub Ends-bind :
      (m : M A) (f : A → M B) (c : PConnection)
      → EndsAt P (m c)
      → ((a : A) (c' : PConnection) → P a c' → EndsAt Q (f a c'))
      → EndsAt Q ((m >>= f) c)
  Ends-bind m f c h next = after f h next

module _ {ℓ} {A : Type ℓ} {P Q : A → PConnection → Type 0} where
  pub Ends-mono :
      {r : Result A} {c : PConnection}
      → Ends P r c
      → ((a : A) (c' : PConnection) → P a c' → Q a c')
      → Ends Q r c
  Ends-mono (returned p) weaken = returned (weaken _ _ p)
  Ends-mono erred weaken = erred
  Ends-mono at_eof weaken = at_eof
  Ends-mono faulted weaken = faulted

-- `c'` is `c` after it read `bytes`, and nothing else of it changed.
pub record Took (c : PConnection) (bytes : List ℕ) (c' : PConnection) : Type 0 where
  pub input : c.device.input ≡ bytes ++ c'.device.input
  pub frame : c' ≡ left_with c'.device.input c'.device.reads c

pub Took-nothing : (c : PConnection) → Took c [] c
Took-nothing c = record { input = refl; frame = refl }

pub Took-append :
    (c c' c'' : PConnection) (xs ys : List ℕ)
    → Took c xs c'
    → Took c' ys c''
    → Took c (xs ++ ys) c''
Took-append c c' c'' xs ys t u = record {
  input = t.input ∙ ap (λ (z : List ℕ). xs ++ z) u.input ∙ sym (append_assoc xs ys _);
  frame = u.frame ∙ ap (left_with c''.device.input c''.device.reads) t.frame;
}

-- What a read of at most `n` bytes gets.
abbrev pub Some : ℕ → PConnection → List ℕ → PConnection → Type 0
Some n c bytes c' = Took c bytes c' × (0 < length bytes) × (length bytes ≤ n)

status_ends :
    (n : ℕ) (c c' : PConnection) (bytes : List ℕ)
    → Took c bytes c'
    → length bytes ≤ n
    → EndsAt (Some n c) (read_status (ok bytes) c')
unfolding read_status
status_ends n c c' [] t h = at_eof
status_ends n c c' (b ∷ bytes) t h = returned (t, omega arith, h)

taken_ends :
    (n i : ℕ) (rs : List Reply) (c : PConnection)
    → i ≤ n
    → EndsAt (Some n c) (read_status (ok (take i c.device.input)) (receive i rs c))
unfolding receive
taken_ends n i rs c h =
    status_ends n c (receive i rs c) (take i c.device.input)
      (record { input = sym (take-append-drop i c.device.input); frame = refl })
      (omega (arith, length-take i c.device.input))

passing-le : (k n : ℕ) → passing k n ≤ n
passing-le k n = ground arith

serve_ends :
    (rs : List Reply) (n : ℕ) (c : PConnection)
    → EndsAt (Some n c) (read_status (serve_read rs n c).0 (serve_read rs n c).1)
unfolding serve_read
serve_ends [] n c = taken_ends n n [] c (omega arith)
serve_ends (refuse ∷ rest) n c = unfold read_status in erred
serve_ends (upto k ∷ rest) n c = taken_ends n (passing k n) rest c (passing-le k n)

-- A read that returns has got a byte at least.
pub pconn_read_ends : (n : ℕ) (c : PConnection) → EndsAt (Some n c) (pconn_read n c)
unfolding pconn_read
pconn_read_ends n c = serve_ends c.device.reads n c

abbrev pub Exactly : ℕ → PConnection → List ℕ → PConnection → Type 0
Exactly n c bytes c' = Took c bytes c' × (length bytes ≡ n)

read_loop_ends :
    (fuel missing : ℕ) (got : List ℕ) (c : PConnection)
    → missing ≤ fuel
    → EndsAt
        (λ bytes c'. (more : List ℕ) × (bytes ≡ got ++ more) × Exactly missing c more c')
        (read_loop fuel missing got c)
unfolding read_loop
read_loop_ends fuel zero got c h = returned ([], sym (append-nil got), (Took-nothing c, refl))
read_loop_ends zero (suc m) got c h = absurd (omega arith)
read_loop_ends (suc fuel) (suc m) got c h =
    Ends-bind (pconn_read (suc m)) _ c (pconn_read_ends (suc m) c) (λ bytes c' (t, least, most).
      Ends-mono (read_loop_ends fuel (suc m - length bytes) (got ++ bytes) c' (omega arith))
        (λ all c'' (more, e, (u, size)). (
          bytes ++ more,
          e ∙ append_assoc got bytes more,
          (Took-append c c' c'' bytes more t u, omega (arith, length-append bytes more)),
        )))

-- `read_all` never runs out of fuel, and gets exactly the bytes wanted where it returns.
pub read_all_ends : (n : ℕ) (c : PConnection) → EndsAt (Exactly n c) (read_all n c)
unfolding read_all
read_all_ends n c =
    Ends-mono (read_loop_ends n n [] c (omega arith)) (λ bytes c' (more, e, x). rw e x)
