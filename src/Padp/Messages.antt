-- ===== src/Padp/Messages.antt =====
-- `padp_read` on a message, from its first fragment on.
use coldsync.Base.{
  ℕ, suc, ◌+◌, ◌-◌, ◌<◌, ◌≤◌, ◌≡◌, refl, sym, ap, ◌∙◌, arith, leb-cases, le→leb, lt→leb, inl, inr,
}
use coldsync.Base.{
  Option, some, none, List, [], ◌∷◌, ◌++◌, length, take, drop, replicate, take_all, drop_all,
  All-take, All-drop, length-take, length-drop, length-append, length-replicate, append-nil,
  append_assoc, take-append-drop,
}
use mathlib.Core.Path.{ap₂}
use coldsync.Bytes.{IsByte, IsBytes}
use coldsync.Conn.{PConnection, SlpAddr, ok, noerr}
use coldsync.Conn.Monad.{bind_ok}
use coldsync.Conn.Calls.{allocate, allocate_lem}
use coldsync.Slp.RoundTrip.{IsFor}
use coldsync.Padp.{PadpHeader, fragtype_data, flag_first, flag_last}
use coldsync.Padp.Parse.{Frag}
use coldsync.Padp.Frag.{padp_rx_frag, padp_ack}
use coldsync.Padp.Read.{
  resized, resized_len, grow_message, copy_frag, ignoring_errors, ignoring_errors_ok, read_single,
  read_multi, read_first, read_rest, read_message, padp_read,
}
use coldsync.Padp.Write.{frag_header}
use coldsync.Padp.Calm.{Calm, Returns}
use coldsync.Padp.Fragments.{frag_packet, Received, padp_rx_frag_lem}
use coldsync.Padp.Acks.{Acked, padp_ack_lem}
use coldsync.Padp.Stream.{
  stream, stream_done, first_header, length-stream, ack_of, ack_stream, ack_done,
}
use coldsync.Padp.Copying.{filled, with_message, copy_frag_lem}
use coldsync.Padp.Reassembly.{Taken, ack-Taken}
use coldsync.Padp.Whole.{Whole, still-IsFor, read_rest_lem}

length-resized : (size : ℕ) (o : Option (List ℕ)) → length (resized size o) ≡ size
length-resized size none = length-replicate size 0
length-resized size (some old) = omega (
  arith,
  length-take size (old ++ replicate size 0),
  length-append old (replicate size 0),
  length-replicate {A = ℕ} size 0,
)

-- The connection with a buffer for a message.
abbrev grown : ℕ → PConnection → PConnection
grown len c = record c {
  padp = record c.padp {
    inbuf = some (resized len c.padp.inbuf);
    inbuf_len = resized_len len c.padp.inbuf c.padp.inbuf_len;
  };
}

grow_message_lem :
    (len : ℕ) (c : PConnection) → c.device.allocs ≡ [] → grow_message len c ≡ (ok tt, grown len c)
unfolding grow_message
grow_message_lem len c a = bind_ok allocate _ (allocate_lem c a)

module _ (c : PConnection) (from to : SlpAddr) (xid : ℕ) (x : ℕ) (xs ys : List ℕ) (calm : Calm c)
    (for : IsFor c from to) (b : IsBytes (x ∷ xs)) (small : length (x ∷ xs) < 65536)
    (fuel : ℕ) where
  abbrev msg : List ℕ
  msg = x ∷ xs

  -- The acknowledgement of the first fragment, and those of the rest.
  first_ack :
      (flags : ℕ)
      → frag_header (length msg) 0
        ≡ record { type = fragtype_data; flags = flags; size = length msg }
      → ack_stream (length msg) c.slp.local_addr from xid (length msg) 0 msg
        ≡ ack_of c.slp.local_addr from xid (length msg)
          ++ ack_stream (length xs) c.slp.local_addr from xid (length msg) 1024 (drop 1024 msg)
  unfolding ack_stream
  first_ack flags e =
      ap
        (λ (h : PadpHeader).
          ack_of c.slp.local_addr from xid h.size
          ++ ack_stream (length xs) c.slp.local_addr from xid (length msg) 1024 (drop 1024 msg))
        e

  only_ack :
      length msg ≤ 1024
      → ack_stream (length msg) c.slp.local_addr from xid (length msg) 0 msg
        ≡ ack_of c.slp.local_addr from xid (length msg)
  only_ack short =
      first_ack (flag_first + flag_last) (
        first_header (length msg) flag_last small
          (rw (le→leb (length msg - 0) 1024 (omega (arith, short)))))
      ∙ ap (λ (t : List ℕ). ack_of c.slp.local_addr from xid (length msg) ++ t)
          (ap (ack_stream (length xs) c.slp.local_addr from xid (length msg) 1024)
              (drop_all 1024 msg short)
            ∙ ack_done (length xs) c.slp.local_addr from xid (length msg) 1024)
      ∙ append-nil _

  single :
      length msg ≤ 1024
      → c.device.input
        ≡ frag_packet from to xid
            (record { type = fragtype_data; flags = flag_first + flag_last; size = length msg })
            msg
          ++ ys
      → Returns
          (Whole c from xid (length msg) 0 (length msg) msg msg ys)
          (read_message (suc fuel) c)
  unfolding read_message read_first read_single
  single short i = finish (
      padp_rx_frag_lem c from to xid h msg ys calm for
        (record { type = omega arith; flags = omega arith; size = small }) b (omega (arith, short))
        i)
    where
      h : PadpHeader
      h = record { type = fragtype_data; flags = flag_first + flag_last; size = length msg }

      finish :
          Returns (Received c from xid h msg ys) (padp_rx_frag c)
          → Returns
              (Whole c from xid (length msg) 0 (length msg) msg msg ys)
              (read_message (suc fuel) c)
      finish (f, c₁, e₁, r) = second (padp_ack_lem c₁ h.flags h.size r.calm small)
        where
          second :
              Returns (Acked c₁ h.size) (padp_ack h.flags h.size c₁)
              → Returns
                  (Whole c from xid (length msg) 0 (length msg) msg msg ys)
                  (read_message (suc fuel) c)
          second (tt, c₂, e₂, a) = (
            record { buf = msg ++ r.zeros; len = length msg },
            c₂,
            bind_ok padp_rx_frag _ (e₁ ∙ ap (λ (g : Frag). (ok g, c₁)) r.whole)
                ∙ bind_ok (ignoring_errors (padp_ack h.flags h.size)) _
                    (ignoring_errors_ok (padp_ack h.flags h.size) e₂),
            record {
              size = refl;
              zeros = r.zeros;
              buf = refl;
              calm = a.calm;
              input = a.input ∙ r.input;
              output =
                  a.output
                  ∙ rw (r.output, r.local, r.sender, r.last_xid)
                      (ap (λ (t : List ℕ). c.device.output ++ t) (sym (only_ack short)));
              local = a.local ∙ r.local;
            },
          )

  multi :
      1024 < length msg
      → length msg ≤ fuel
      → c.device.input
        ≡ frag_packet from to xid
            (record { type = fragtype_data; flags = flag_first + 0; size = length msg })
            (take 1024 msg)
          ++ (stream (length xs) from to xid (length msg) 1024 (drop 1024 msg) ++ ys)
      → Returns
          (Whole c from xid (length msg) 0 (length msg) msg msg ys)
          (read_message (suc fuel) c)
  unfolding read_message read_first read_multi
  multi long enough i = finish (
      padp_rx_frag_lem c from to xid h chunk (later ++ ys) calm for
        (record { type = omega arith; flags = omega arith; size = small })
        (All-take IsByte 1024 msg b) (omega (arith, length-take 1024 msg)) i)
    where
      h : PadpHeader
      h = record { type = fragtype_data; flags = flag_first + 0; size = length msg }

      chunk : List ℕ
      chunk = take 1024 msg

      later : List ℕ
      later = stream (length xs) from to xid (length msg) 1024 (drop 1024 msg)

      cut : length chunk ≡ 1024
      cut = omega (arith, length-take 1024 msg, long)

      finish :
          Returns (Received c from xid h chunk (later ++ ys)) (padp_rx_frag c)
          → Returns
              (Whole c from xid (length msg) 0 (length msg) msg msg ys)
              (read_message (suc fuel) c)
      finish (f, c₁, e₁, r) = second (
          ack-Taken c̃ c₂ from xid h.flags h chunk (filled [] chunk room) (later ++ ys) f small
            (record {
              zeros = r.zeros;
              whole = r.whole;
              calm = record {
                reads = r.calm.reads;
                writes = r.calm.writes;
                selects = r.calm.selects;
                allocs = r.calm.allocs;
              };
              input = r.input;
              output = r.output;
              local = r.local;
              sender = r.sender;
              last_xid = r.last_xid;
              padp = refl;
              no_error = r.no_error;
            }))
        where
          c₂ : PConnection
          c₂ = grown (length msg) c₁

          c̃ : PConnection
          c̃ = record c { padp = c₂.padp }

          room : List ℕ
          room = resized (length msg) c₁.padp.inbuf

          came : Frag
          came = record { header = h; buf = chunk ++ r.zeros; len = length chunk }

          second :
              (c₃ : PConnection) × (ignoring_errors
                    (padp_ack h.flags h.size)
                    (with_message (filled [] chunk room) c₂)
                  ≡ (ok tt, c₃))
                × Taken c̃ from xid h.size (filled [] chunk room) (later ++ ys) c₃
              → Returns
                  (Whole c from xid (length msg) 0 (length msg) msg msg ys)
                  (read_message (suc fuel) c)
          second (c₃, e₃, t) = third (
              read_rest_lem (length xs) fuel (length msg) c₃ from to xid chunk (drop 1024 msg)
                (drop (length chunk) room) ys t.calm (still-IsFor c c₃ from to t.local for)
                (All-drop IsByte 1024 msg b) (omega (arith, cut, length-drop 1024 msg, long)) small
                (omega (arith, cut)) (omega (arith, length-drop 1024 msg, long))
                (omega (arith, length-drop 1024 msg, long))
                (omega (arith, length-drop 1024 msg, long, enough))
                (omega (
                  arith,
                  length-drop 1024 msg,
                  length-drop (length chunk) room,
                  cut,
                  length-resized (length msg) c₁.padp.inbuf,
                ))
                t.inbuf
                (t.input
                  ∙ ap
                      (λ (o : ℕ).
                        stream (length xs) from to xid (length msg) o (drop 1024 msg) ++ ys)
                      (sym cut)))
            where
              third :
                  Returns
                    (Whole c₃ from xid
                      (length msg)
                      (length chunk)
                      (length xs)
                      (drop 1024 msg)
                      (chunk ++ drop 1024 msg)
                      ys)
                    (read_rest fuel (length msg) (length chunk) c₃)
                  → Returns
                      (Whole c from xid (length msg) 0 (length msg) msg msg ys)
                      (read_message (suc fuel) c)
              third (p, c₄, e₄, w) = (
                p,
                c₄,
                bind_ok padp_rx_frag _ (e₁ ∙ ap (λ (g : Frag). (ok g, c₁)) r.whole)
                    ∙ bind_ok (grow_message (length msg)) _ {c = c₁}
                        (grow_message_lem (length msg) c₁ r.calm.allocs)
                    ∙ bind_ok (copy_frag 0 came) _ {c = c₂} (
                        copy_frag_lem h [] chunk r.zeros room
                          (omega (arith, cut, long, length-resized (length msg) c₁.padp.inbuf)) c₂
                          refl)
                    ∙ bind_ok (ignoring_errors (padp_ack h.flags h.size)) _ e₃
                    ∙ e₄,
                record {
                  size = w.size;
                  zeros = w.zeros;
                  buf = w.buf ∙ ap (λ (m : List ℕ). m ++ w.zeros) (take-append-drop 1024 msg);
                  calm = w.calm;
                  input = w.input;
                  output =
                      w.output
                      ∙ ap₂
                          (λ (out : List ℕ) (local : SlpAddr).
                            out
                            ++ ack_stream (length xs) local from xid (length msg) (length chunk)
                                (drop 1024 msg))
                          t.output t.local
                      ∙ append_assoc c.device.output (ack_of c.slp.local_addr from xid (length msg))
                          _
                      ∙ ap (λ (acks : List ℕ). c.device.output ++ acks)
                          (ap
                              (λ (o : ℕ).
                                ack_of c.slp.local_addr from xid (length msg)
                                ++ ack_stream (length xs) c.slp.local_addr from xid (length msg) o
                                    (drop 1024 msg))
                              cut
                            ∙ sym (
                                first_ack flag_first (
                                  first_header (length msg) 0 small
                                    (rw (lt→leb (length msg - 0) 1024 (omega (arith, long)))))));
                  local = w.local ∙ t.local;
                },
              )

-- On a device that refuses nothing, where nothing times out and memory is found: when the input
-- begins with the packets into which another end's message of 1 to 65535 bytes is cut, `padp_read`
-- returns the message and its length, in a buffer that may go on behind it, leaves what follows the
-- packets, and answers each of them, in order, with one acknowledgement.
pub padp_read-stream :
    (c : PConnection) (from to : SlpAddr) (xid : ℕ) (msg ys : List ℕ)
    → Calm c
    → IsFor c from to
    → IsBytes msg
    → 0 < length msg
    → length msg < 65536
    → c.device.input ≡ stream (length msg) from to xid (length msg) 0 msg ++ ys
    → Returns (Whole c from xid (length msg) 0 (length msg) msg msg ys) (padp_read c)
unfolding padp_read stream
padp_read-stream c from to xid [] ys calm for b some_bytes small i = absurd (omega arith)
padp_read-stream c from to xid (x ∷ xs) ys calm for b some_bytes small i =
    finish (elim (leb-cases (length msg) 1024) [
      | inl (short, test) ↦ single c₁ from to xid x xs ys calm' for' b small fuel short (
          i
          ∙ ap₂
              (λ (h : PadpHeader) (chunk : List ℕ).
                (frag_packet from to xid h chunk ++ later) ++ ys)
              (first_header (length msg) flag_last small
                (rw (le→leb (length msg - 0) 1024 (omega (arith, short)))))
              (take_all 1024 msg short)
          ∙ ap (λ (t : List ℕ). t ++ ys)
              (ap (λ (t : List ℕ). frag_packet from to xid whole_header msg ++ t)
                  (ap (stream (length xs) from to xid (length msg) 1024) (drop_all 1024 msg short)
                    ∙ stream_done (length xs) from to xid (length msg) 1024)
                ∙ append-nil (frag_packet from to xid whole_header msg)))
      | inr (long, test) ↦
          multi c₁ from to xid x xs ys calm' for' b small fuel long
            (omega (
              arith,
              length-stream (length msg) from to xid (length msg) 0 msg (omega arith),
              ap length i,
              length-append (stream (length msg) from to xid (length msg) 0 msg) ys,
            ))
            (i
              ∙ ap (λ (h : PadpHeader). (frag_packet from to xid h (take 1024 msg) ++ later) ++ ys)
                  (first_header (length msg) 0 small
                    (rw (lt→leb (length msg - 0) 1024 (omega (arith, long)))))
              ∙ append_assoc (frag_packet from to xid _ (take 1024 msg)) later ys)
    ])
  where
    msg : List ℕ
    msg = x ∷ xs

    fuel : ℕ
    fuel = length c.device.input

    c₁ : PConnection
    c₁ = record c { palm_errno = noerr }

    later : List ℕ
    later = stream (length xs) from to xid (length msg) 1024 (drop 1024 msg)

    whole_header : PadpHeader
    whole_header = record {
      type = fragtype_data;
      flags = flag_first + flag_last;
      size = length msg;
    }

    calm' : Calm c₁
    calm' = record {
      reads = calm.reads;
      writes = calm.writes;
      selects = calm.selects;
      allocs = calm.allocs;
    }

    for' : IsFor c₁ from to
    for' = still-IsFor c c₁ from to refl for

    finish :
        Returns
          (Whole c₁ from xid (length msg) 0 (length msg) msg msg ys)
          (read_message (suc fuel) c₁)
        → Returns (Whole c from xid (length msg) 0 (length msg) msg msg ys) (padp_read c)
    finish (p, c', e, w) = (
      p,
      c',
      e,
      record {
        size = w.size;
        zeros = w.zeros;
        buf = w.buf;
        calm = w.calm;
        input = w.input;
        output = w.output;
        local = w.local;
      },
    )
