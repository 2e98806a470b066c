-- ===== src/Padp/Whole.antt =====
-- `padp_read` on all fragments of a message.
use coldsync.Base.{
  ℕ, zero, suc, ◌+◌, ◌%◌, ◌^◌, ◌<◌, ◌≤◌, ◌≡◌, refl, sym, ap, ◌∙◌, arith, leb-cases, inl, inr,
}
use coldsync.Base.{
  some, List, [], ◌∷◌, ◌++◌, length, take, drop, drop_all, All-take, All-drop, length-take,
  length-drop, length-append, append-nil, append_assoc, take-append-drop,
}
use mathlib.Core.Path.{ap₂}
use coldsync.Bytes.{IsByte, IsBytes}
use coldsync.Conn.{PConnection, SlpAddr}
use coldsync.Slp.{Packet}
use coldsync.Slp.RoundTrip.{IsFor}
use coldsync.Padp.{flag_last}
use coldsync.Padp.Read.{read_rest, message}
use coldsync.Padp.Write.{frag_header}
use coldsync.Padp.Calm.{Calm, Returns}
use coldsync.Padp.Stream.{stream, stream_last, stream_more, frag_size, ack_of, ack_stream, ack_done}
use coldsync.Padp.Copying.{filled}
use coldsync.Padp.Reassembly.{Taken, go_on, read_rest_step}

-- The message, and what follows it in the buffer; every fragment of `rest` was taken in, and
-- acknowledged.
pub record Whole (c : PConnection) (from : SlpAddr) (xid len offset n : ℕ) (rest msg ys : List ℕ)
    (p : Packet) (c' : PConnection) : Type 0 where
  pub size : p.len ≡ len
  pub zeros : List ℕ
  pub buf : p.buf ≡ msg ++ zeros
  pub calm : Calm c'
  pub input : c'.device.input ≡ ys
  pub output :
      c'.device.output ≡ c.device.output ++ ack_stream n c.slp.local_addr from xid len offset rest
  pub local : c'.slp.local_addr ≡ c.slp.local_addr

pub still-IsFor :
    (c c' : PConnection) (from to : SlpAddr)
    → c'.slp.local_addr ≡ c.slp.local_addr
    → IsFor c from to
    → IsFor c' from to
still-IsFor c c' from to e for = record {
  protocol = for.protocol ∙ ap (λ (a : SlpAddr). a.protocol) (sym e);
  port = for.port ∙ ap (λ (a : SlpAddr). a.port) (sym e);
  protocol_byte = for.protocol_byte;
  port_byte = for.port_byte;
}

-- The rest of a message, from a fragment after the first on: `done` is in the buffer, `tail` is the
-- room that is left.
abbrev ReadsRest : ℕ → ℕ → ℕ → Type 0
ReadsRest n fuel len =
    (c : PConnection) (from to : SlpAddr) (xid : ℕ) (done rest tail ys : List ℕ)
    → Calm c
    → IsFor c from to
    → IsBytes rest
    → len ≡ length done + length rest
    → len < 65536
    → 0 < length done
    → 0 < length rest
    → length rest ≤ n
    → length rest ≤ fuel
    → length tail ≡ length rest
    → c.padp.inbuf ≡ some (done ++ tail)
    → c.device.input ≡ stream n from to xid len (length done) rest ++ ys
    → Returns (Whole c from xid len (length done) n rest (done ++ rest) ys)
        (read_rest fuel len (length done) c)

pub read_rest_lem : (n fuel len : ℕ) → ReadsRest n fuel len
unfolding ack_stream
read_rest_lem n fuel len c from to xid done [] tail ys calm for b whole small pos some_left ln lf
      room e i =
    absurd (omega arith)
read_rest_lem zero fuel len c from to xid done (x ∷ xs) tail ys calm for b whole small pos some_left
      ln lf room e i =
    absurd (omega arith)
read_rest_lem (suc n) zero len c from to xid done (x ∷ xs) tail ys calm for b whole small pos
      some_left ln lf room e i =
    absurd (omega arith)
read_rest_lem (suc n) (suc fuel) len c from to xid done (x ∷ xs) tail ys calm for b whole small pos
      some_left ln lf room e i =
    elim (leb-cases (length rest) 1024) [
      | inl (short, test) ↦ last short (
          read_rest_step fuel len c from to xid flag_last done rest tail ys calm for (omega arith)
            refl (omega arith) b short (omega (arith, room)) e
            (i
              ∙ ap (λ (t : List ℕ). t ++ ys)
                  (stream_last n from to xid len (length done) x xs pos (omega arith) whole short)
              ∙ ap (λ (t : List ℕ). t ++ ys) (append-nil _)))
      | inr (long, test) ↦ more long (read_rest_lem n fuel len) (
          read_rest_step fuel len c from to xid 0 done chunk tail (later ++ ys) calm for
            (omega arith) refl (omega arith) (All-take IsByte 1024 rest b)
            (omega (arith, length-take 1024 rest)) (omega (arith, length-take 1024 rest, room)) e
            (i
              ∙ ap (λ (t : List ℕ). t ++ ys)
                  (stream_more n from to xid len (length done) x xs pos (omega arith) whole long)
              ∙ append_assoc _ later ys))
    ]
  where
    rest : List ℕ
    rest = x ∷ xs

    chunk : List ℕ
    chunk = take 1024 rest

    later : List ℕ
    later = stream n from to xid len (length done + 1024) (drop 1024 rest)

    acknowledged :
        ack_of c.slp.local_addr from xid (length done)
        ≡ ack_of c.slp.local_addr from xid (frag_header len (length done)).size
    acknowledged =
        ap (ack_of c.slp.local_addr from xid) (sym (frag_size len (length done) pos (omega arith)))

    last :
        length rest ≤ 1024
        → (c' : PConnection) × (read_rest (suc fuel) len (length done) c
            ≡ go_on fuel len flag_last ((length done + length rest) % 2 ^ 16) c')
          × Taken c from xid (length done) (filled done rest tail) ys c'
        → Returns
            (Whole c from xid len (length done) (suc n) rest (done ++ rest) ys)
            (read_rest (suc fuel) len (length done) c)
    last short (c', e', t) = (
      message len c',
      c',
      e',
      record {
        size = refl;
        zeros = [];
        buf =
            rw (t.inbuf, drop_all (length rest) tail (omega (arith, room)), append-nil)
              (ap (λ (t : List ℕ). done ++ t) (append-nil rest));
        calm = t.calm;
        input = t.input;
        output =
            t.output
            ∙ ap (λ (t : List ℕ). c.device.output ++ t)
                (acknowledged
                  ∙ sym (append-nil _)
                  ∙ ap
                      (λ (t : List ℕ).
                        ack_of c.slp.local_addr from xid (frag_header len (length done)).size ++ t)
                      (sym (
                        ap (ack_stream n c.slp.local_addr from xid len (length done + 1024))
                          (drop_all 1024 rest short)
                        ∙ ack_done n c.slp.local_addr from xid len (length done + 1024))));
        local = t.local;
      },
    )

    done' : List ℕ
    done' = done ++ chunk

    rest' : List ℕ
    rest' = drop 1024 rest

    moved : 1024 < length rest → length done + 1024 ≡ length done'
    moved long = omega (arith, long, length-append done chunk, length-take 1024 rest)

    more :
        1024 < length rest
        → ReadsRest n fuel len
        → (c' : PConnection) × (read_rest (suc fuel) len (length done) c
            ≡ go_on fuel len 0 ((length done + length chunk) % 2 ^ 16) c')
          × Taken c from xid (length done) (filled done chunk tail) (later ++ ys) c'
        → Returns
            (Whole c from xid len (length done) (suc n) rest (done ++ rest) ys)
            (read_rest (suc fuel) len (length done) c)
    more long again (c', e', t) = finish (
        again c' from to xid done' rest' (drop (length chunk) tail) ys t.calm
          (still-IsFor c c' from to t.local for) (All-drop IsByte 1024 rest b)
          (omega (arith, moved long, length-drop 1024 rest, whole, long)) small
          (omega (arith, moved long)) (omega (arith, length-drop 1024 rest, long))
          (omega (arith, length-drop 1024 rest, ln)) (omega (arith, length-drop 1024 rest, lf))
          (omega (
            arith,
            length-drop 1024 rest,
            length-drop (length chunk) tail,
            length-take 1024 rest,
            room,
            long,
          ))
          (t.inbuf ∙ ap some (sym (append_assoc done chunk (drop (length chunk) tail))))
          (t.input ∙ ap (λ (o : ℕ). stream n from to xid len o rest' ++ ys) (moved long)))
      where
        finish :
            Returns
              (Whole c' from xid len (length done') n rest' (done' ++ rest') ys)
              (read_rest fuel len (length done') c')
            → Returns
                (Whole c from xid len (length done) (suc n) rest (done ++ rest) ys)
                (read_rest (suc fuel) len (length done) c)
        finish (p, c'', e'', w) = (
          p,
          c'',
          e'
              ∙ ap (λ (o : ℕ). read_rest fuel len o c') {x = (length done + length chunk) % 2 ^ 16}
                  (omega (arith, length-append done chunk, whole, small, length-take 1024 rest))
              ∙ e'',
          record {
            size = w.size;
            zeros = w.zeros;
            buf =
                w.buf
                ∙ ap (λ (t : List ℕ). t ++ w.zeros)
                    (append_assoc done chunk rest'
                      ∙ ap (λ (t : List ℕ). done ++ t) (take-append-drop 1024 rest));
            calm = w.calm;
            input = w.input;
            output =
                w.output
                ∙ ap₂
                    (λ (out : List ℕ) (local : SlpAddr).
                      out ++ ack_stream n local from xid len (length done') rest')
                    t.output t.local
                ∙ append_assoc c.device.output (ack_of c.slp.local_addr from xid (length done))
                    (ack_stream n c.slp.local_addr from xid len (length done') rest')
                ∙ ap₂ (λ (a z : List ℕ). c.device.output ++ (a ++ z)) acknowledged
                    (ap (λ (o : ℕ). ack_stream n c.slp.local_addr from xid len o rest')
                      (sym (moved long)));
            local = w.local ∙ t.local;
          },
        )
