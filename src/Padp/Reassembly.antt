-- ===== src/Padp/Reassembly.antt =====
-- `padp_read` on the fragments of a message.
use coldsync.Base.{
  ℕ, suc, ◌+◌, ◌%◌, ◌^◌, ◌<◌, ◌≤◌, ◌≡◌, ap, ◌∙◌, arith, ◌==◌, ==_refl, bit_and, if◌then◌else◌,
}
use coldsync.Base.{some, List, ◌++◌, length}
use coldsync.Bytes.{IsByte, IsUword, IsBytes}
use coldsync.Conn.{PConnection, SlpAddr, Padp, ok}
use coldsync.Conn.Monad.{M, gets, bind_ok}
use coldsync.Conn.Calls.{pconn_timedselect, timedselect_ready}
use coldsync.Slp.{Packet}
use coldsync.Slp.RoundTrip.{IsFor}
use coldsync.Padp.{PadpHeader, fragtype_data, flag_first, flag_last}
use coldsync.Padp.Parse.{Frag}
use coldsync.Padp.Frag.{padp_rx_frag, padp_ack}
use coldsync.Padp.Read.{
  copy_frag, ignoring_errors, ignoring_errors_ok, read_next, read_rest, message,
}
use coldsync.Padp.Calm.{Calm, Returns}
use coldsync.Padp.Fragments.{frag_packet, Received, padp_rx_frag_lem}
use coldsync.Padp.Acks.{Acked, padp_ack_lem}
use coldsync.Padp.Stream.{ack_of}
use coldsync.Padp.Copying.{filled, with_message, copy_frag_lem}

-- A connection that has taken in a fragment and acknowledged it.
pub record Taken (c : PConnection) (from : SlpAddr) (xid size : ℕ) (buf ys : List ℕ)
    (c' : PConnection) : Type 0 where
  pub calm : Calm c'
  pub input : c'.device.input ≡ ys
  pub output : c'.device.output ≡ c.device.output ++ ack_of c.slp.local_addr from xid size
  pub local : c'.slp.local_addr ≡ c.slp.local_addr
  pub inbuf : c'.padp.inbuf ≡ some buf

-- The acknowledgement of a fragment that has come in, and whose data is stored.
pub ack-Taken :
    (c c' : PConnection) (from : SlpAddr) (xid flags : ℕ) (h : PadpHeader) (chunk buf ys : List ℕ)
    (f : Frag)
    → IsUword h.size
    → Received c from xid h chunk ys f c'
    → (c'' : PConnection) × (ignoring_errors (padp_ack flags h.size) (with_message buf c')
        ≡ (ok tt, c''))
      × Taken c from xid h.size buf ys c''
ack-Taken c c' from xid flags h chunk buf ys f size r = finish (
    padp_ack_lem (with_message buf c') flags h.size
      (record {
        reads = r.calm.reads;
        writes = r.calm.writes;
        selects = r.calm.selects;
        allocs = r.calm.allocs;
      })
      size)
  where
    finish :
        Returns (Acked (with_message buf c') h.size) (padp_ack flags h.size (with_message buf c'))
        → (c'' : PConnection) × (ignoring_errors (padp_ack flags h.size) (with_message buf c')
            ≡ (ok tt, c''))
          × Taken c from xid h.size buf ys c''
    finish (tt, c'', e, a) = (
      c'',
      ignoring_errors_ok (padp_ack flags h.size) e,
      record {
        calm = a.calm;
        input = a.input ∙ r.input;
        output = a.output ∙ rw (r.output, r.local, r.sender, r.last_xid);
        local = a.local ∙ r.local;
        inbuf = ap (λ (p : Padp). p.inbuf) a.padp;
      },
    )

-- What `read_rest` does after a fragment: it goes on, or returns the message.
abbrev pub go_on : ℕ → ℕ → ℕ → ℕ → M Packet
go_on fuel len flags offset =
    if bit_and flags flag_last == 0 then read_rest fuel len offset else gets (message len)

pub read_rest_step :
    (fuel len : ℕ) (c : PConnection) (from to : SlpAddr) (xid flags : ℕ)
    (done chunk tail ys : List ℕ)
    → Calm c
    → IsFor c from to
    → IsByte flags
    → bit_and flags flag_first ≡ 0
    → length done < 65536
    → IsBytes chunk
    → length chunk ≤ 1024
    → length chunk ≤ length tail
    → c.padp.inbuf ≡ some (done ++ tail)
    → c.device.input
      ≡ frag_packet from to xid
          (record { type = fragtype_data; flags = flags; size = length done })
          chunk
        ++ ys
    → (c' : PConnection) × (read_rest (suc fuel) len (length done) c
        ≡ go_on fuel len flags ((length done + length chunk) % 2 ^ 16) c')
      × Taken c from xid (length done) (filled done chunk tail) ys c'
unfolding read_rest read_next
read_rest_step fuel len c from to xid flags done chunk tail ys calm for byte first size b short fits
      e i =
    finish (
      padp_rx_frag_lem c from to xid h chunk ys calm for
        (record { type = omega arith; flags = byte; size = size }) b (omega (arith, short)) i)
  where
    h : PadpHeader
    h = record { type = fragtype_data; flags = flags; size = length done }

    finish :
        Returns (Received c from xid h chunk ys) (padp_rx_frag c)
        → (c' : PConnection) × (read_rest (suc fuel) len (length done) c
            ≡ go_on fuel len flags ((length done + length chunk) % 2 ^ 16) c')
          × Taken c from xid (length done) (filled done chunk tail) ys c'
    finish (f, c₁, e₁, r) =
        second (ack-Taken c c₁ from xid flags h chunk (filled done chunk tail) ys f size r)
      where
        came : Frag
        came = record { header = h; buf = chunk ++ r.zeros; len = length chunk }

        second :
            (c₂ : PConnection) × (ignoring_errors
                  (padp_ack flags (length done))
                  (with_message (filled done chunk tail) c₁)
                ≡ (ok tt, c₂))
              × Taken c from xid (length done) (filled done chunk tail) ys c₂
            → (c' : PConnection) × (read_rest (suc fuel) len (length done) c
                ≡ go_on fuel len flags ((length done + length chunk) % 2 ^ 16) c')
              × Taken c from xid (length done) (filled done chunk tail) ys c'
        second (c₂, e₂, t) = (
          c₂,
          bind_ok pconn_timedselect _ (timedselect_ready c calm.selects)
              ∙ bind_ok padp_rx_frag _ (e₁ ∙ ap (λ (g : Frag). (ok g, c₁)) r.whole)
              ∙ rw (first, ==_refl (length done))
                  (bind_ok (copy_frag (length done) came) _ (
                      copy_frag_lem h done chunk r.zeros tail fits c₁
                        (ap (λ (p : Padp). p.inbuf) r.padp ∙ e))
                    ∙ bind_ok (ignoring_errors (padp_ack flags (length done))) _ e₂),
          t,
        )
