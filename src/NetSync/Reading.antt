-- ===== src/NetSync/Reading.antt =====
-- What netsync_read gets from a device that has a message.
use coldsync.Base.{ℕ, zero, suc, ◌-◌, ◌%◌, ◌^◌, ◌≤◌, ◌≡◌, refl, sym, ap, ◌∙◌, arith, if◌then◌else◌}
use coldsync.Base.{
  List, [], ◌∷◌, ◌++◌, length, take, drop, take-append, drop-append, append-nil, some, none, Option,
}
use coldsync.Bytes.{IsUdword, get_ubyte, get_udword}
use coldsync.Bytes.Laws.{udword_bytes, get-udword_bytes}
use coldsync.Conn.{PConnection, Reply, upto, refuse, Result, ok, err, eof, fault, stuck}
use mathlib.Core.Path.{ap₂}
use coldsync.Conn.Monad.{M, ◌>>=◌, bind_ok, continue, in_bounds}
use coldsync.Conn.Reading.{Delivers, Willing, read_status_some, read_all_lem, left_with}
use coldsync.Conn.Calls.{
  passing, pconn_timedselect, timedselect_ready, pconn_read, read_status, serve_read, receive,
  read_loop, read_all, allocate, allocate_lem,
}
use coldsync.Slp
use coldsync.NetSync.{
  wait_readable, read_wanted, read_header, get_header, NetsyncHeader, framed_body, netsync_body,
  netsync_read, netsync_read_method, heed,
}

wait_readable_lem : (c : PConnection) → c.device.selects ≡ [] → wait_readable c ≡ (ok tt, c)
unfolding wait_readable
wait_readable_lem c e = bind_ok pconn_timedselect _ (timedselect_ready c e)

-- A read does not change the script of readiness.
abbrev KeepsSelects : {A : Type 0} → PConnection → Result A × PConnection → Type 0
KeepsSelects c r = r.1.device.selects ≡ c.device.selects

status_keeps : (r : Result (List ℕ)) (c : PConnection) → KeepsSelects c (read_status r c)
unfolding read_status
status_keeps (ok []) c = refl
status_keeps (ok (b ∷ bs)) c = refl
status_keeps err c = refl
status_keeps eof c = refl
status_keeps fault c = refl
status_keeps stuck c = refl

serve_keeps :
    (rs : List Reply) (n : ℕ) (c : PConnection)
    → KeepsSelects c (read_status (serve_read rs n c).0 (serve_read rs n c).1)
unfolding serve_read receive
serve_keeps [] n c = status_keeps (ok (take n c.device.input)) (receive n [] c)
serve_keeps (refuse ∷ rest) n c = status_keeps err (receive 0 rest c)
serve_keeps (upto k ∷ rest) n c = status_keeps (ok (take _ c.device.input)) (receive _ rest c)

pconn_read_keeps : (n : ℕ) (c : PConnection) → KeepsSelects c (pconn_read n c)
unfolding pconn_read
pconn_read_keeps n c = serve_keeps c.device.reads n c

same_next :
    {A B : Type 0} (r : Result A) (f g : A → M B) (c : PConnection)
    → ((a : A) → f a c ≡ g a c)
    → continue r f c ≡ continue r g c
same_next (ok a) f g c h = h a
same_next err f g c h = refl
same_next eof f g c h = refl
same_next fault f g c h = refl
same_next stuck f g c h = refl

-- Where the descriptor is always ready, the loop is that of `read_all`.
read_wanted_lem :
    (fuel missing : ℕ) (got : List ℕ) (c : PConnection)
    → c.device.selects ≡ []
    → read_wanted fuel missing got c ≡ read_loop fuel missing got c
unfolding read_wanted read_loop
read_wanted_lem fuel zero got c e = refl
read_wanted_lem zero (suc missing) got c e = refl
read_wanted_lem (suc fuel) (suc missing) got c e =
    bind_ok wait_readable _ {c = c} (wait_readable_lem c e)
    ∙ same_next (pconn_read (suc missing) c).0
        (λ (bytes : List ℕ). read_wanted fuel (suc missing - length bytes) (got ++ bytes))
        (λ (bytes : List ℕ). read_loop fuel (suc missing - length bytes) (got ++ bytes))
        (pconn_read (suc missing) c).1
        (λ bytes.
          read_wanted_lem fuel (suc missing - length bytes) (got ++ bytes)
            (pconn_read (suc missing) c).1 (pconn_read_keeps (suc missing) c ∙ e))

-- The first read of six bytes or more is not cut.
abbrev pub HeaderWhole : List Reply → Type 0
HeaderWhole [] = Unit
HeaderWhole (upto k ∷ rest) = (5 ≤ k) × Willing rest
HeaderWhole (refuse ∷ rest) = ⊥

abbrev pub after_one : List Reply → List Reply
after_one [] = []
after_one (reply ∷ rest) = rest

-- The bytes of a header that someone else has written.
abbrev pub net_header : ℕ → ℕ → ℕ → List ℕ
net_header cmd xid len = cmd ∷ xid ∷ udword_bytes len

pub passing_whole : (k : ℕ) → 5 ≤ k → passing k 6 ≡ 6
passing_whole k h = ground arith

serve_header :
    (rs : List Reply) (c : PConnection)
    → HeaderWhole rs
    → serve_read rs 6 c ≡ (ok (take 6 c.device.input), receive 6 (after_one rs) c)
unfolding serve_read
serve_header [] c whole = refl
serve_header (upto k ∷ rest) c (h, w) =
    ap (λ (n : ℕ). (ok (take n c.device.input), receive n rest c)) (passing_whole k h)
serve_header (refuse ∷ rest) c whole = elim whole [ ]

first_six :
    (header rest input : List ℕ)
    → length header ≡ 6
    → input ≡ header ++ rest
    → (take 6 input ≡ header) × (drop 6 input ≡ rest)
first_six header rest input len e = (
  ap (take 6) e ∙ ap (λ (n : ℕ). take n (header ++ rest)) (sym len) ∙ take-append header rest,
  ap (drop 6) e ∙ ap (λ (n : ℕ). drop n (header ++ rest)) (sym len) ∙ drop-append header rest,
)

pconn_read_header :
    (header rest : List ℕ) (c : PConnection)
    → length header ≡ 6
    → HeaderWhole c.device.reads
    → c.device.input ≡ header ++ rest
    → pconn_read 6 c ≡ (ok header, left_with rest (after_one c.device.reads) c)
unfolding pconn_read receive
pconn_read_header header rest c len whole e = rw (serve_header c.device.reads c whole) (
    ap₂
      (λ (bytes left : List ℕ).
        read_status (ok bytes) (left_with left (after_one c.device.reads) c))
      (first_six header rest c.device.input len e).0 (first_six header rest c.device.input len e).1
    ∙ read_status_some header (left_with rest (after_one c.device.reads) c) (omega (arith, len)))

read_header_lem :
    (header rest : List ℕ) (c : PConnection)
    → length header ≡ 6
    → HeaderWhole c.device.reads
    → c.device.input ≡ header ++ rest
    → read_header c ≡ (ok header, left_with rest (after_one c.device.reads) c)
unfolding read_header
read_header_lem header rest c len whole e =
    bind_ok (pconn_read 6) _ {c = c} (pconn_read_header header rest c len whole e) ∙ rw len

pub after_one-Willing : (rs : List Reply) → HeaderWhole rs → Willing (after_one rs)
after_one-Willing [] whole = tt
after_one-Willing (upto k ∷ rest) (h, w) = w
after_one-Willing (refuse ∷ rest) whole = elim whole [ ]

get_header_lem :
    (d : ℕ → List ℕ) (cmd xid len : ℕ)
    → ((v : ℕ) (rest : List ℕ) → IsUdword v → get_udword (d v ++ rest) ≡ some (v, rest))
    → IsUdword len
    → get_header (cmd ∷ xid ∷ d len) ≡ some (record { cmd = cmd; xid = xid; len = len }, [])
unfolding get_header get_ubyte
get_header_lem d cmd xid len hd h = rw (sym (append-nil (d len)), hd len [] h)

body_lem :
    (body rest : List ℕ) (c : PConnection)
    → c.device.selects ≡ []
    → Willing c.device.reads
    → c.device.input ≡ body ++ rest
    → Delivers c body rest (read_wanted (length body) (length body) [] c)
unfolding read_all
body_lem body rest c e w input = finish (read_all_lem body rest c w input)
  where
    finish :
        Delivers c body rest (read_all (length body) c)
        → Delivers c body rest (read_wanted (length body) (length body) [] c)
    finish (rs, w', done) = (rs, w', read_wanted_lem (length body) (length body) [] c e ∙ done)

-- A message, and its length as a word.
abbrev pub packet : List ℕ → Slp.Packet
packet body = record { buf = body; len = length body % 2 ^ 16 }

netsync_body_lem :
    (cmd xid : ℕ) (body rest : List ℕ) (c : PConnection)
    → c.device.selects ≡ []
    → c.device.allocs ≡ []
    → Willing c.device.reads
    → c.device.input ≡ body ++ rest
    → Delivers c (packet body) rest (
        netsync_body none
          (net_header cmd xid (length body))
          (record { cmd = cmd; xid = xid; len = length body })
          c)
unfolding netsync_body framed_body
netsync_body_lem cmd xid body rest c e a w input = finish (body_lem body rest c e w input)
  where
    finish :
        Delivers c body rest (read_wanted (length body) (length body) [] c)
        → Delivers c (packet body) rest (
            netsync_body none
              (net_header cmd xid (length body))
              (record { cmd = cmd; xid = xid; len = length body })
              c)
    finish (rs, w', done) = (rs, w', bind_ok allocate _ {c = c} (allocate_lem c a) ∙ rw done)

-- The connection after a header with that number.
abbrev pub heard : ℕ → PConnection → PConnection
heard xid c = record c { net = record c.net { xid = if c.whosonfirst then xid else c.net.xid } }

-- Where a message behind a header of six bytes comes in, whatever its command and number, the header by
-- one read and the message in whatever pieces, `netsync_read` returns the message, with its length
-- modulo 2 ^ 16, and takes these bytes and no others. It keeps the number where the connection was made
-- from this side.
pub netsync_read_lem :
    (cmd xid : ℕ) (body rest : List ℕ) (c : PConnection)
    → IsUdword (length body)
    → c.device.selects ≡ []
    → c.device.allocs ≡ []
    → HeaderWhole c.device.reads
    → c.device.input ≡ net_header cmd xid (length body) ++ (body ++ rest)
    → Delivers (heard xid c) (packet body) rest (netsync_read c)
unfolding netsync_read netsync_read_method heed
netsync_read_lem cmd xid body rest c h e a whole input = rw steps (
    netsync_body_lem cmd xid body rest (heard xid after) e a
      (after_one-Willing c.device.reads whole) refl)
  where
    header : List ℕ
    header = net_header cmd xid (length body)

    hdr : NetsyncHeader
    hdr = record { cmd = cmd; xid = xid; len = length body }

    after : PConnection
    after = left_with (body ++ rest) (after_one c.device.reads) c

    steps : netsync_read c ≡ heed none header hdr after
    steps =
        bind_ok wait_readable _ {c = c} (wait_readable_lem c e)
        ∙ bind_ok read_header _ {c = c} (read_header_lem header (body ++ rest) c refl whole input)
        ∙ ap
            (λ (o : Option (NetsyncHeader × List ℕ)).
              (in_bounds o >>= λ (x : NetsyncHeader × List ℕ). heed none header x.0) after)
            (get_header_lem udword_bytes cmd xid (length body) get-udword_bytes h)
