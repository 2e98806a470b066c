-- ===== src/Slp/Accept.antt =====
-- `slp_read` ends on every device, and accepts nothing but good packets for this connection.
use coldsync.Base.{
  ℕ, zero, suc, ◌-◌, ◌≤◌, ◌<◌, ◌≡◌, refl, sym, ap, ◌∙◌, arith, min, ◌⊎◌, not, ◌==◌, ==_iff, ltb,
  ◌&&◌,
}
use coldsync.Base.{
  Bool, true, false, Option, none, some, List, [], ◌∷◌, ◌++◌, length, take, drop, get_or,
  append_assoc, length-append, Bool-cases, replicate, take-append, inl, inr, if◌then◌else◌,
}
use coldsync.Crc.{crc16}
use coldsync.Conn.{PConnection, SlpAddr, ok, nomem, noerr}
use mathlib.Core.Path.{subst}
use coldsync.Conn.Monad.{◌>>=◌, ◌>>◌, in_bounds, set_palmerrno, fail, modify, pure}
use coldsync.Conn.Calls.{memory_of, pconn_read, read_all, allocate}
use coldsync.Conn.Ends.{
  returned, erred, faulted, EndsAt, Ends-bind, Ends-mono, Took, Took-nothing, Took-append, Some,
  pconn_read_ends, Exactly, read_all_ends,
}
use coldsync.Slp.{
  slp_preamble, Packet, read_preamble, grow_inbuf, finish_packet, read_body, read_packet, again,
  slp_read_loop, slp_read,
}
use coldsync.Slp.Header.{SlpHeader, parse_header, sum_bytes}
use coldsync.Slp.Valid.{Good}

-- The bytes read so far, and the preamble if it matched.
abbrev Preamble : List ℕ → PConnection → Bool → PConnection → Type 0
Preamble preamble c matched c' =
    (bytes : List ℕ) × Took c bytes c'
    × (matched ≡ true → bytes ≡ preamble)
    × (min 1 (length preamble) ≤ length bytes)

only_byte :
    (p : ℕ) (bytes : List ℕ)
    → length bytes ≤ 1
    → 0 < length bytes
    → (get_or bytes 0 0 == p) ≡ true
    → bytes ≡ p ∷ []
only_byte p [] h k e = elim k [ ]
only_byte p (b ∷ []) h k e = ground arith
only_byte p (b ∷ d ∷ bytes) h k e = absurd (omega arith)

read_preamble_ends :
    (preamble : List ℕ) (c : PConnection) → EndsAt (Preamble preamble c) (read_preamble preamble c)
unfolding read_preamble
read_preamble_ends [] c = returned ([], Took-nothing c, (λ e. refl), omega arith)
read_preamble_ends (p ∷ preamble) c =
    Ends-bind (pconn_read 1) _ c (pconn_read_ends 1 c) (λ bytes c' got.
      first (read_preamble_ends preamble) bytes c' got (Bool-cases (get_or bytes 0 0 == p)))
  where
    first :
        ((c' : PConnection) → EndsAt (Preamble preamble c') (read_preamble preamble c'))
        → (bytes : List ℕ) (c' : PConnection) → Some 1 c bytes c'
        → ((get_or bytes 0 0 == p) ≡ true) ⊎ ((get_or bytes 0 0 == p) ≡ false)
        → EndsAt
            (Preamble (p ∷ preamble) c)
            ((if get_or bytes 0 0 == p then read_preamble preamble else (λ c. (ok false, c))) c')
    first ih bytes c' (t, least, most) (inl same) = rw same (
        Ends-mono (ih c') (λ matched c'' (more, u, whole, size). (
          bytes ++ more,
          Took-append c c' c'' bytes more t u,
          (λ e.
              ap (λ (z : List ℕ). z ++ more) (only_byte p bytes most least same)
              ∙ ap (λ (z : List ℕ). p ∷ z) (whole e)),
          omega (arith, length-append bytes more),
        )))
    first ih bytes c' (t, least, most) (inr other) =
        rw other (returned (bytes, t, (λ e. cc), omega arith))

-- `c'` is `c` after it read `bytes`; the local address is the same.
pub record Read (c : PConnection) (bytes : List ℕ) (c' : PConnection) : Type 0 where
  pub input : c.device.input ≡ bytes ++ c'.device.input
  pub local : c'.slp.local_addr ≡ c.slp.local_addr

Read-append :
    (c c' c'' : PConnection) (xs ys : List ℕ)
    → Read c xs c'
    → Read c' ys c''
    → Read c (xs ++ ys) c''
Read-append c c' c'' xs ys t u = record {
  input = t.input ∙ ap (λ (z : List ℕ). xs ++ z) u.input ∙ sym (append_assoc xs ys _);
  local = u.local ∙ t.local;
}

Took-Read : (c c' : PConnection) (bytes : List ℕ) → Took c bytes c' → Read c bytes c'
Took-Read c c' bytes t = record {
  input = t.input;
  local = ap (λ (x : PConnection). x.slp.local_addr) t.frame;
}

-- A good packet: the bytes of its header, body and CRC, and what the caller gets of them.
pub record Genuine (c : PConnection) (bytes : List ℕ) (p : Packet) : Type 0 where
  pub header : SlpHeader
  pub header_inbuf : List ℕ
  pub body : List ℕ
  pub crc_inbuf : List ℕ
  pub laid_out : bytes ≡ header_inbuf ++ (body ++ crc_inbuf)
  pub preamble : take 3 header_inbuf ≡ slp_preamble
  pub parsed : parse_header (drop 3 header_inbuf) ≡ some header
  pub good : Good c header header_inbuf body crc_inbuf
  pub len : p.len ≡ length body
  pub buf : take p.len p.buf ≡ body

-- Of the part after the header.
abbrev Tail : PConnection → SlpHeader → List ℕ → List ℕ → Option Packet → Type 0
Tail c header header_inbuf bytes none = Unit
Tail c header header_inbuf bytes (some p) =
    (body : List ℕ) × (crc_inbuf : List ℕ) × (bytes ≡ body ++ crc_inbuf)
    × Good c header header_inbuf body crc_inbuf
    × (p.len ≡ length body)
    × (take p.len p.buf ≡ body)

abbrev Finished : PConnection → SlpHeader → List ℕ → Option Packet → PConnection → Type 0
Finished c header header_inbuf o c' =
    (bytes : List ℕ) × Read c bytes c' × Tail c header header_inbuf bytes o

memory_ends : (bs : List Bool) (c : PConnection) → EndsAt (λ found. Read c []) (memory_of bs c)
unfolding memory_of
memory_ends [] c = returned (record { input = refl; local = refl })
memory_ends (b ∷ bs) c = returned (record { input = refl; local = refl })

grow_inbuf_ends : (size : ℕ) (c : PConnection) → EndsAt (λ _. Read c []) (grow_inbuf size c)
unfolding grow_inbuf allocate
grow_inbuf_ends size c = elim (Bool-cases (ltb c.slp.inbuf_len size)) [
  | inl small ↦
      rw small
        (Ends-bind allocate _ c (memory_ends c.device.allocs c) (λ found c' r. enlarged found c' r))
  | inr large ↦ rw large (returned (record { input = refl; local = refl }))
]
  where
    enlarged :
        (found : Bool) (c' : PConnection)
        → Read c [] c'
        → EndsAt
            (λ (x : Unit {0}). Read c [])
            ((if not found
                then set_palmerrno nomem >> fail
                else modify (λ c. record c { slp = record c.slp { inbuf_len = size } }))
              c')
    enlarged true c' r = returned (record { input = r.input; local = r.local })
    enlarged false c' r = erred

finish_packet_ends :
    (ignore : Bool) (header : SlpHeader) (header_inbuf body crc_inbuf : List ℕ) (c c' : PConnection)
    → Read c (body ++ crc_inbuf) c'
    → length body ≡ header.size
    → length crc_inbuf ≡ 2
    → sum_bytes 0 (take 9 header_inbuf) ≡ header.checksum
    → (ignore ≡ false
        → (header.type ≡ c.slp.local_addr.protocol) × (header.dest ≡ c.slp.local_addr.port))
    → EndsAt
        (Finished c header header_inbuf)
        (finish_packet ignore header header_inbuf body crc_inbuf c')
unfolding finish_packet
finish_packet_ends true header header_inbuf body crc_inbuf c c' r hb hc hs hi =
    returned (body ++ crc_inbuf, r, tt)
finish_packet_ends false header header_inbuf body crc_inbuf c c' r hb hc hs hi =
    elim (Bool-cases (crc16 crc_inbuf (crc16 body (crc16 header_inbuf 0)) == 0)) [
      | inl zero_crc ↦ rw zero_crc (
          returned (
            body ++ crc_inbuf,
            record { input = r.input; local = r.local },
            (
              body,
              crc_inbuf,
              refl,
              record {
                sum_good = hs;
                protocol_good = (hi refl).0;
                port_good = (hi refl).1;
                body_size = hb;
                crc_size = hc;
                crc_good = (==_iff _ 0).0 zero_crc;
              },
              sym hb,
              subst (λ n. take n (body ++ replicate (c'.slp.inbuf_len - header.size) 0) ≡ body) hb
                  (take-append body _),
            ),
          ))
      | inr other ↦ rw other (returned (body ++ crc_inbuf, r, tt))
    ]

tests_of :
    (t p : ℕ) (a : SlpAddr)
    → not (t == a.protocol && p == a.port) ≡ false
    → (t ≡ a.protocol) × (p ≡ a.port)
tests_of t p a h = ground arith

read_body_ends :
    (header : SlpHeader) (header_inbuf : List ℕ) (c : PConnection)
    → EndsAt (Finished c header header_inbuf) (read_body header header_inbuf c)
unfolding read_body
read_body_ends header header_inbuf c =
    elim (Bool-cases (sum_bytes 0 (take 9 header_inbuf) == header.checksum)) [
      | inl same ↦ rw same (
          Ends-bind (grow_inbuf header.size) _ c₁ (grow_inbuf_ends header.size c₁) (λ _ c₂ r₂.
            Ends-bind (read_all header.size) _ c₂ (read_all_ends header.size c₂)
              (λ body c₃ (t₃, size).
                Ends-bind (read_all 2) _ c₃ (read_all_ends 2 c₃) (λ crc_inbuf c₄ (t₄, two).
                  finish_packet_ends _ header header_inbuf body crc_inbuf c c₄
                    (Read-append c c₃ c₄ body crc_inbuf
                      (Read-append c c₂ c₃ [] body (record { input = r₂.input; local = r₂.local })
                        (Took-Read c₂ c₃ body t₃))
                      (Took-Read c₃ c₄ crc_inbuf t₄))
                    size two ((==_iff _ header.checksum).0 same)
                    (tests_of header.type header.dest c.slp.local_addr)))))
      | inr other ↦ rw other (returned ([], record { input = refl; local = refl }, tt))
    ]
  where
    c₁ : PConnection
    c₁ = record c {
      slp = record c.slp { remote_addr = record { protocol = header.type; port = header.src } };
    }

-- What one attempt does: it reads something, and a packet that it accepts is genuine.
abbrev Attempt : PConnection → Option Packet → PConnection → Type 0
Attempt c none c' = (bytes : List ℕ) × Read c bytes c' × (0 < length bytes)
Attempt c (some p) c' = (bytes : List ℕ) × Read c bytes c' × Genuine c bytes p

-- Being good depends on the local address alone.
Good-local :
    (c d : PConnection) {header : SlpHeader} {header_inbuf body crc_inbuf : List ℕ}
    → c.slp.local_addr ≡ d.slp.local_addr
    → Good c header header_inbuf body crc_inbuf
    → Good d header header_inbuf body crc_inbuf
Good-local c d e g = record {
  sum_good = g.sum_good;
  protocol_good = g.protocol_good ∙ ap (λ (a : SlpAddr). a.protocol) e;
  port_good = g.port_good ∙ ap (λ (a : SlpAddr). a.port) e;
  body_size = g.body_size;
  crc_size = g.crc_size;
  crc_good = g.crc_good;
}

Genuine-local :
    (c d : PConnection) (bytes : List ℕ) (p : Packet)
    → c.slp.local_addr ≡ d.slp.local_addr
    → Genuine c bytes p
    → Genuine d bytes p
Genuine-local c d bytes p e g = record {
  header = g.header;
  header_inbuf = g.header_inbuf;
  body = g.body;
  crc_inbuf = g.crc_inbuf;
  laid_out = g.laid_out;
  preamble = g.preamble;
  parsed = g.parsed;
  good = Good-local c d e g.good;
  len = g.len;
  buf = g.buf;
}

Attempt-of :
    (c c₁ c₂ c' : PConnection) (rest : List ℕ) (header : SlpHeader) (o : Option Packet)
    → Took c slp_preamble c₁
    → Exactly 7 c₁ rest c₂
    → parse_header rest ≡ some header
    → Finished c₂ header (slp_preamble ++ rest) o c'
    → Attempt c o c'
Attempt-of c c₁ c₂ c' rest header none t (u, seven) p (bytes, r, _) = (
  slp_preamble ++ rest ++ bytes,
  Read-append c c₂ c' (slp_preamble ++ rest) bytes
      (Took-Read c c₂ (slp_preamble ++ rest) (Took-append c c₁ c₂ slp_preamble rest t u)) r,
  omega arith,
)
Attempt-of c c₁ c₂ c' rest header (some packet) t (u, seven) p (bytes, r, v) = (
  slp_preamble ++ rest ++ bytes,
  Read-append c c₂ c' (slp_preamble ++ rest) bytes both r,
  genuine v,
)
  where
    both : Read c (slp_preamble ++ rest) c₂
    both = Took-Read c c₂ (slp_preamble ++ rest) (Took-append c c₁ c₂ slp_preamble rest t u)

    genuine :
        Tail c₂ header (slp_preamble ++ rest) bytes (some packet)
        → Genuine c (slp_preamble ++ rest ++ bytes) packet
    genuine (body, crc_inbuf, e, good, len, buf) = record {
      header = header;
      header_inbuf = slp_preamble ++ rest;
      body = body;
      crc_inbuf = crc_inbuf;
      laid_out = ap (λ (z : List ℕ). slp_preamble ++ rest ++ z) e;
      preamble = refl;
      parsed = p;
      good = Good-local c₂ c both.local good;
      len = len;
      buf = buf;
    }

read_packet_ends : (c : PConnection) → EndsAt (Attempt c) (read_packet c)
unfolding read_packet
read_packet_ends c =
    Ends-bind (read_preamble slp_preamble) _ c (read_preamble_ends slp_preamble c) matched_then
  where
    parsed_then :
        (c₁ c₂ : PConnection) (rest : List ℕ) (o : Option SlpHeader)
        → Took c slp_preamble c₁
        → Exactly 7 c₁ rest c₂
        → parse_header rest ≡ o
        → EndsAt
            (Attempt c)
            ((in_bounds o >>= λ header. read_body header (slp_preamble ++ rest)) c₂)
    parsed_then c₁ c₂ rest none t u p = faulted
    parsed_then c₁ c₂ rest (some header) t u p =
        Ends-mono (read_body_ends header (slp_preamble ++ rest) c₂)
          (λ o c' f. Attempt-of c c₁ c₂ c' rest header o t u p f)

    matched_then :
        (matched : Bool) (c₁ : PConnection)
        → Preamble slp_preamble c matched c₁
        → EndsAt (Attempt c) (
            (if not matched then pure none else do
              rest ← read_all 7
              header ← in_bounds (parse_header rest)
              read_body header (slp_preamble ++ rest))
              c₁)
    matched_then false c₁ (bytes, t, whole, size) = returned (bytes, Took-Read c c₁ bytes t, size)
    matched_then true c₁ (bytes, t, whole, size) =
        Ends-bind (read_all 7) _ c₁ (read_all_ends 7 c₁) (λ rest c₂ u.
          parsed_then c₁ c₂ rest (parse_header rest) (subst (λ bs. Took c bs c₁) (whole refl) t) u
            refl)

-- The input is some skipped bytes, the packet, and what is left.
abbrev pub Accepted : PConnection → Packet → PConnection → Type 0
Accepted c p c' =
    (skipped : List ℕ) × (packet : List ℕ) × Read c (skipped ++ packet) c' × Genuine c packet p

slp_read_loop_ends :
    (fuel : ℕ) (c : PConnection)
    → length c.device.input < fuel
    → EndsAt (Accepted c) (slp_read_loop fuel c)
unfolding slp_read_loop
slp_read_loop_ends zero c h = elim h [ ]
slp_read_loop_ends (suc fuel) c h =
    Ends-bind read_packet _ c (read_packet_ends c) (retry (slp_read_loop_ends fuel))
  where
    retry :
        ((c : PConnection)
          → length c.device.input < fuel
          → EndsAt (Accepted c) (slp_read_loop fuel c))
        → (o : Option Packet) (c' : PConnection) → Attempt c o c'
        → EndsAt (Accepted c) (again (slp_read_loop fuel) o c')
    retry ih none c' (bytes, r, some_read) =
        Ends-mono (ih c' (omega (arith, ap length r.input, length-append bytes c'.device.input)))
          (λ p c'' (skipped, packet, u, g). (
            bytes ++ skipped,
            packet,
            subst (λ z. Read c z c'') (sym (append_assoc bytes skipped packet))
                (Read-append c c' c'' bytes (skipped ++ packet) r u),
            Genuine-local c' c packet p r.local g,
          ))
    retry ih (some p) c' (bytes, r, g) = returned ([], bytes, r, g)

-- On every device, whatever it delivers, refuses or cuts up, `slp_read` ends within its fuel. Where
-- it returns a packet, the input held, after some skipped bytes, exactly the preamble, a header for
-- this connection whose sum is good, a body of the length that the header says, and two bytes that
-- make the CRC 0; the caller's buffer begins with that body, the caller's length is its length, and
-- what is left of the input is what followed.
pub slp_read_sound : (c : PConnection) → EndsAt (Accepted c) (slp_read c)
unfolding slp_read
slp_read_sound c =
    Ends-mono
      (slp_read_loop_ends (suc (length c.device.input)) (record c { palm_errno = noerr })
        (omega arith))
      (λ p c' (skipped, packet, r, g). (
        skipped,
        packet,
        record { input = r.input; local = r.local },
        Genuine-local (record c { palm_errno = noerr }) c packet p refl g,
      ))
