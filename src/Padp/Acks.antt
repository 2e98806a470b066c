-- ===== src/Padp/Acks.antt =====
-- The acknowledgement of a fragment.
use coldsync.Base.{ℕ, ◌≡◌, refl, ap, ◌∙◌, arith, List, [], ◌++◌, length}
use coldsync.Bytes.{IsUword}
use coldsync.Conn.{PConnection, Reply, ok, noerr}
use coldsync.Conn.Monad.{◌>>=◌, pure, bind_ok}
use coldsync.Conn.Reading.{Willing}
use coldsync.Slp.{slp_write}
use coldsync.Slp.Writing.{slp_write_lem, sent, own_packet}
use coldsync.Padp.{PadpHeader, fragtype_ack}
use coldsync.Padp.Frag.{padp_tx_frag, padp_ack, put_padp_header}
use coldsync.Padp.Fragments.{padp_bytes, put_padp_header_lem, frag_packet}
use coldsync.Padp.Calm.{Calm, Returns}

abbrev pub ack_header : ℕ → PadpHeader
ack_header size = record { type = fragtype_ack; flags = 0; size = size }

-- The bytes of the acknowledgement of a packet that has just come in.
abbrev ack_packet : PConnection → ℕ → List ℕ
ack_packet c size =
    frag_packet c.slp.local_addr c.slp.remote_addr c.slp.last_xid (ack_header size) []

-- Only output, transaction and room for output have changed.
pub record Acked (c : PConnection) (size : ℕ) (u : Unit {0}) (c' : PConnection) : Type 0 where
  pub calm : Calm c'
  pub input : c'.device.input ≡ c.device.input
  pub output : c'.device.output ≡ c.device.output ++ ack_packet c size
  pub local : c'.slp.local_addr ≡ c.slp.local_addr
  pub sender : c'.slp.remote_addr ≡ c.slp.remote_addr
  pub last_xid : c'.slp.last_xid ≡ c.slp.last_xid
  pub padp : c'.padp ≡ record c.padp { xid = c.slp.last_xid }
  pub no_error : c'.palm_errno ≡ noerr

ack_bytes :
    (size : ℕ) → IsUword size → put_padp_header (ack_header size) ≡ padp_bytes (ack_header size)
ack_bytes size h =
    put_padp_header_lem (ack_header size)
      (record { type = omega arith; flags = omega arith; size = h })

-- `padp_ack` for a size that is a uword: on a device that refuses nothing, and where memory is found,
-- it sends one packet to the sender of the last packet, with that packet's transaction, the type of an
-- acknowledgement, the size that was given, and no flags.
pub padp_ack_lem :
    (c : PConnection) (flags size : ℕ)
    → Calm c
    → IsUword size
    → Returns (Acked c size) (padp_ack flags size c)
unfolding padp_ack padp_tx_frag
padp_ack_lem c flags size calm h =
    finish
      (slp_write_lem (padp_bytes (ack_header size) ++ []) c₁ calm.writes calm.allocs (omega arith))
  where
    c₁ : PConnection
    c₁ = record c { padp = record c.padp { xid = c.slp.last_xid } }

    body : List ℕ
    body = padp_bytes (ack_header size) ++ []

    finish :
        (ws : List Reply) × Willing ws
          × (slp_write body c₁ ≡ (ok (length body), sent (length body) (own_packet body c₁) ws c₁))
        → Returns (Acked c size) (padp_ack flags size c)
    finish (ws, w, e) = (
      tt,
      sent (length body) (own_packet body c₁) ws c₁,
      ap (λ (bytes : List ℕ). (slp_write (bytes ++ []) >>= λ _. pure tt) c₁) (ack_bytes size h)
          ∙ bind_ok (slp_write body) _ e,
      record {
        calm = record {
          reads = calm.reads;
          writes = w;
          selects = calm.selects;
          allocs = calm.allocs;
        };
        input = refl;
        output = refl;
        local = refl;
        sender = refl;
        last_xid = refl;
        padp = refl;
        no_error = refl;
      },
    )
