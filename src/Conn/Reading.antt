-- ===== src/Conn/Reading.antt =====
-- The loops around PConn_read and PConn_write on a device that refuses nothing: however it cuts the
-- bytes up, they all pass, in order.
use coldsync.Base.{ℕ, zero, suc, ◌-◌, ◌≤◌, ◌<◌, ◌≡◌, refl, ap, ◌∙◌, arith}
use coldsync.Base.{
  List, [], ◌∷◌, ◌++◌, length, take, drop, take_all, take-append, drop-append, append-nil,
  append_assoc, length-take, length-drop, length-append,
}
use coldsync.Conn.{PConnection, Reply, upto, refuse, Result, ok}
use coldsync.Conn.Monad.{bind_ok}
use native.Mathlib.Decide.{dec_lt}
use mathlib.Core.Path.{ap₂, subst}
use coldsync.Base.{lt→ltb, le→ltb}
use coldsync.Conn.Calls.{receive, serve_read, read_status, pconn_read, read_loop, read_all}

abbrev pub Willing : List Reply → Type 0
Willing [] = Unit
Willing (upto k ∷ rest) = Willing rest
Willing (refuse ∷ rest) = ⊥

-- A read that may get `suc m` bytes gets at least one, and leaves the rest.
serve_read_some :
    (rs : List Reply) (m : ℕ) (c : PConnection)
    → Willing rs
    → (j : ℕ) × (rs' : List Reply) × (j ≤ m)
      × Willing rs'
      × (serve_read rs (suc m) c ≡ (ok (take (suc j) c.device.input), receive (suc j) rs' c))
unfolding serve_read
serve_read_some [] m c w = (m, [], omega arith, tt, refl)
serve_read_some (refuse ∷ rest) m c w = elim w [ ]
serve_read_some (upto k ∷ rest) m c w = elim (dec_lt k (suc m)) [
  | yes p ↦ (k, rest, omega arith, w, rw (lt→ltb k (suc m) p))
  | no p ↦ (m, rest, omega arith, w, rw (le→ltb k (suc m) (omega arith)))
]

pub read_status_some :
    (bytes : List ℕ) (c : PConnection) → 0 < length bytes → read_status (ok bytes) c ≡ (ok bytes, c)
unfolding read_status
read_status_some [] c h = elim h [ ]
read_status_some (b ∷ bytes) c h = refl

pconn_read_some :
    (m : ℕ) (c : PConnection)
    → Willing c.device.reads
    → 0 < length c.device.input
    → (j : ℕ) × (rs' : List Reply) × (j ≤ m)
      × Willing rs'
      × (pconn_read (suc m) c ≡ (ok (take (suc j) c.device.input), receive (suc j) rs' c))
unfolding pconn_read
pconn_read_some m c w h =
    let (j, rs, le, w', e) = serve_read_some c.device.reads m c w in
    (j, rs, le, w', rw e (read_status_some _ _ (omega (arith, length-take (suc j) c.device.input))))

take_more : (i j : ℕ) (xs : List ℕ) → i ≤ j → take i xs ++ take (j - i) (drop i xs) ≡ take j xs
take_more zero j xs h = ap (λ (n : ℕ). take n xs) (omega arith)
take_more (suc i) zero xs h = absurd (omega arith)
take_more (suc i) (suc j) [] h = take_all _ [] (omega arith)
take_more (suc i) (suc j) (x ∷ xs) h =
    ap (λ (n : ℕ). x ∷ (take i xs ++ take n (drop i xs))) (omega arith)
    ∙ ap (λ (t : List ℕ). x ∷ t) (take_more i j xs (omega arith))

drop_nil : (n : ℕ) → drop {A = ℕ} n [] ≡ []
drop_nil zero = refl
drop_nil (suc n) = refl

drop_more : (i j : ℕ) (xs : List ℕ) → i ≤ j → drop (j - i) (drop i xs) ≡ drop j xs
drop_more zero j xs h = ap (λ (n : ℕ). drop n xs) (omega arith)
drop_more (suc i) zero xs h = absurd (omega arith)
drop_more (suc i) (suc j) [] h = drop_nil _
drop_more (suc i) (suc j) (x ∷ xs) h =
    ap (λ (n : ℕ). drop n (drop i xs)) (omega arith) ∙ drop_more i j xs (omega arith)

-- What a loop that gets `missing` bytes does.
abbrev Gets : ℕ → ℕ → Type 0
Gets fuel missing =
    (got : List ℕ) (c : PConnection)
    → Willing c.device.reads
    → missing ≤ length c.device.input
    → (rs : List Reply) × Willing rs
      × (read_loop fuel missing got c
          ≡ (ok (got ++ take missing c.device.input), receive missing rs c))

-- One round, and then the rest of the loop.
round_then :
    (fuel m j : ℕ) (rs : List Reply) (got : List ℕ) (c : PConnection)
    → suc m ≤ length c.device.input
    → j ≤ m
    → Willing rs
    → pconn_read (suc m) c ≡ (ok (take (suc j) c.device.input), receive (suc j) rs c)
    → Gets fuel (m - j)
    → (rs' : List Reply) × Willing rs'
      × (read_loop (suc fuel) (suc m) got c
          ≡ (ok (got ++ take (suc m) c.device.input), receive (suc m) rs' c))
unfolding read_loop receive
round_then fuel m j rs got c h le w e rest =
    finish (rest (got ++ bytes) (receive (suc j) rs c) w (omega (arith, length-drop (suc j) input)))
  where
    input : List ℕ
    input = c.device.input

    bytes : List ℕ
    bytes = take (suc j) input

    whole : bytes ++ take (m - j) (drop (suc j) input) ≡ take (suc m) input
    whole =
        ap (λ (n : ℕ). bytes ++ take n (drop (suc j) input)) (omega arith)
        ∙ take_more (suc j) (suc m) input (omega arith)

    left : drop (m - j) (drop (suc j) input) ≡ drop (suc m) input
    left =
        ap (λ (n : ℕ). drop n (drop (suc j) input)) (omega arith)
        ∙ drop_more (suc j) (suc m) input (omega arith)

    finish :
        (rs' : List Reply) × Willing rs'
          × (read_loop fuel (m - j) (got ++ bytes) (receive (suc j) rs c) ≡ (
            ok ((got ++ bytes) ++ take (m - j) (drop (suc j) input)),
            receive (m - j) rs' (receive (suc j) rs c),
          ))
        → (rs' : List Reply) × Willing rs'
          × (read_loop (suc fuel) (suc m) got c
              ≡ (ok (got ++ take (suc m) input), receive (suc m) rs' c))
    finish (rs', w', e') = (
      rs',
      w',
      bind_ok (pconn_read (suc m)) _ e
          ∙ ap (λ (n : ℕ). read_loop fuel n (got ++ bytes) (receive (suc j) rs c))
              (omega (arith, length-take (suc j) input))
          ∙ e'
          ∙ ap (λ (t : List ℕ). (ok t, receive (m - j) rs' (receive (suc j) rs c)))
              (append_assoc got bytes _ ∙ ap (λ (t : List ℕ). got ++ t) whole)
          ∙ ap
              (λ (t : List ℕ). (
                ok (got ++ take (suc m) input),
                record c { device = record c.device { input = t; reads = rs' } },
              ))
              left,
    )

read_loop_all : (fuel missing : ℕ) → missing ≤ fuel → Gets fuel missing
unfolding read_loop receive
read_loop_all fuel zero f got c w h = (c.device.reads, w, rw append-nil)
read_loop_all zero (suc m) f got c w h = absurd (omega arith)
read_loop_all (suc fuel) (suc m) f got c w h =
    first (read_loop_all fuel) (pconn_read_some m c w (omega arith))
  where
    first :
        ((n : ℕ) → n ≤ fuel → Gets fuel n)
        → (j : ℕ) × (rs : List Reply) × (j ≤ m)
          × Willing rs
          × (pconn_read (suc m) c ≡ (ok (take (suc j) c.device.input), receive (suc j) rs c))
        → (rs' : List Reply) × Willing rs'
          × (read_loop (suc fuel) (suc m) got c
              ≡ (ok (got ++ take (suc m) c.device.input), receive (suc m) rs' c))
    first rest (j, rs, le, w', e) =
        round_then fuel m j rs got c h le w' e (rest (m - j) (omega arith))

-- The connection with `ys` left to read.
abbrev pub left_with : List ℕ → List Reply → PConnection → PConnection
left_with ys rs c = record c { device = record c.device { input = ys; reads = rs } }

-- A call that gives `a`, reads up to where `ys` begins and changes nothing else.
abbrev pub Delivers {ℓ} : {A : Type ℓ} → PConnection → A → List ℕ → Result A × PConnection → Type ℓ
Delivers c a ys r = (rs : List Reply) × Willing rs × (r ≡ (ok a, left_with ys rs c))

-- One byte is read.
pub pconn_read_one :
    (x : ℕ) (ys : List ℕ) (c : PConnection)
    → Willing c.device.reads
    → c.device.input ≡ x ∷ ys
    → Delivers c (x ∷ []) ys (pconn_read 1 c)
unfolding receive
pconn_read_one x ys c w e = finish (pconn_read_some 0 c w (omega (arith, ap length e)))
  where
    finish :
        (j : ℕ) × (rs : List Reply) × (j ≤ 0)
          × Willing rs
          × (pconn_read 1 c ≡ (ok (take (suc j) c.device.input), receive (suc j) rs c))
        → Delivers c (x ∷ []) ys (pconn_read 1 c)
    finish (zero, rs, le, w', e') = (
      rs,
      w',
      e' ∙ ap₂ (λ (t u : List ℕ). (ok t, left_with u rs c)) (ap (take 1) e) (ap (drop 1) e),
    )
    finish (suc j, rs, le, w', e') = absurd (omega arith)

-- On a device that refuses no read, `read_all` gets the next bytes of the input, however many reads
-- they take, and leaves the rest.
pub read_all_lem :
    (xs ys : List ℕ) (c : PConnection)
    → Willing c.device.reads
    → c.device.input ≡ xs ++ ys
    → Delivers c xs ys (read_all (length xs) c)
unfolding read_all receive
read_all_lem xs ys c w e = finish (
    read_loop_all (length xs) (length xs) (omega arith) [] c w
      (omega (arith, ap length e, length-append xs ys)))
  where
    n : ℕ
    n = length xs

    taken : take n c.device.input ≡ xs
    taken = ap (take n) e ∙ take-append xs ys

    dropped : drop n c.device.input ≡ ys
    dropped = ap (drop n) e ∙ drop-append xs ys

    finish :
        (rs : List Reply) × Willing rs
          × (read_loop n n [] c ≡ (ok (take n c.device.input), receive n rs c))
        → (rs : List Reply) × Willing rs × (read_loop n n [] c ≡ (ok xs, left_with ys rs c))
    finish (rs, w', e') =
        (rs, w', e' ∙ ap₂ (λ (t u : List ℕ). (ok t, left_with u rs c)) taken dropped)

-- The same, where the length is known by an equation.
pub read_exactly :
    (n : ℕ) (xs ys : List ℕ) (c : PConnection)
    → length xs ≡ n
    → Willing c.device.reads
    → c.device.input ≡ xs ++ ys
    → Delivers c xs ys (read_all n c)
read_exactly n xs ys c h w e =
    subst (λ k. Delivers c xs ys (read_all k c)) h (read_all_lem xs ys c w e)
