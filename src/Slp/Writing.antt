-- ===== src/Slp/Writing.antt =====
-- What `slp_write` sends.
use coldsync.Base.{ℕ, ◌+◌, ◌-◌, ◌%◌, ◌<◌, ◌≤◌, ◌≡◌, ap, ◌∙◌, arith, ltb, Bool-cases, inl, inr}
use coldsync.Base.{List, [], length, take, take_all, if◌then◌else◌}
use coldsync.Conn.{PConnection, Reply, ok, noerr}
use coldsync.Conn.Monad.{bind_ok}
use coldsync.Conn.Calls.{allocate, allocate_lem, write_all}
use coldsync.Conn.Reading.{Willing}
use coldsync.Conn.Writing.{has_written, write_all_lem}
use coldsync.Slp.{packet_bytes, grow_outbuf, slp_write, slp_header_len, slp_crc_len}
use coldsync.Slp.RoundTrip.{length-packet_bytes}

-- The connection once the output buffer has room for `size` bytes.
abbrev with_room : ℕ → PConnection → PConnection
with_room size c = record c {
  palm_errno = noerr;
  slp = record c.slp { outbuf_len = if ltb c.slp.outbuf_len size then size else c.slp.outbuf_len };
}

grow_outbuf_lem :
    (size : ℕ) (c : PConnection)
    → c.device.allocs ≡ []
    → grow_outbuf size (record c { palm_errno = noerr }) ≡ (ok tt, with_room size c)
unfolding grow_outbuf
grow_outbuf_lem size c e = elim (Bool-cases (ltb c.slp.outbuf_len size)) [
  | inl small ↦ rw small (bind_ok allocate _ (allocate_lem (record c { palm_errno = noerr }) e))
  | inr large ↦ rw large
]

abbrev pub own_packet : List ℕ → PConnection → List ℕ
own_packet buf c = packet_bytes c.slp.local_addr c.slp.remote_addr c.padp.xid buf

-- The connection after `bytes` were sent for a body of that length.
abbrev pub sent : ℕ → List ℕ → List Reply → PConnection → PConnection
sent len bytes ws c = has_written bytes ws (with_room (12 + len) c)

slp_write_bytes :
    (buf : List ℕ) (c : PConnection)
    → Willing c.device.writes
    → c.device.allocs ≡ []
    → (ws : List Reply) × Willing ws
      × (slp_write buf c ≡ (
        ok (length buf),
        sent (length buf) (take ((12 + length buf) % 65536) (own_packet buf c)) ws c,
      ))
unfolding slp_write
slp_write_bytes buf c w e = finish (write_all_lem out (with_room size c) w)
  where
    size : ℕ
    size = slp_header_len + length buf + slp_crc_len

    same_size : size ≡ 12 + length buf
    same_size = omega arith

    out : List ℕ
    out = take (size % 65536) (own_packet buf c)

    finish :
        (ws : List Reply) × Willing ws
          × (write_all out (with_room size c) ≡ (ok tt, has_written out ws (with_room size c)))
        → (ws : List Reply) × Willing ws
          × (slp_write buf c ≡ (
            ok (length buf),
            sent (length buf) (take ((12 + length buf) % 65536) (own_packet buf c)) ws c,
          ))
    finish (ws, w', e') = (
      ws,
      w',
      bind_ok (grow_outbuf size) _ (grow_outbuf_lem size c e)
          ∙ bind_ok (write_all out) _ e'
          ∙ ap
              (λ (n : ℕ). (
                ok (length buf),
                has_written (take (n % 65536) (own_packet buf c)) ws (with_room n c),
              ))
              same_size,
    )

-- On a device that refuses no write, and where memory is found, `slp_write` returns the length of a
-- body that fits a uword with header and CRC, and sends exactly the packet that carries it.
pub slp_write_lem :
    (buf : List ℕ) (c : PConnection)
    → Willing c.device.writes
    → c.device.allocs ≡ []
    → 12 + length buf < 65536
    → (ws : List Reply) × Willing ws
      × (slp_write buf c ≡ (ok (length buf), sent (length buf) (own_packet buf c) ws c))
slp_write_lem buf c w e h =
    let (ws, w', e') = slp_write_bytes buf c w e in
    (
      ws,
      w',
      e'
          ∙ ap (λ (out : List ℕ). (ok (length buf), sent (length buf) out ws c))
              (take_all _ (own_packet buf c) (
                omega (
                  arith,
                  length-packet_bytes c.slp.local_addr c.slp.remote_addr c.padp.xid buf
                      (omega arith),
                ))),
    )

-- The count of bytes to send is a uword: for each of the twelve largest lengths that a uword holds,
-- `slp_write` still returns the length, and sends only the first `length buf - 65524` bytes of the
-- packet, fewer than its header has with the CRC.
pub slp_write_wraps :
    (buf : List ℕ) (c : PConnection)
    → Willing c.device.writes
    → c.device.allocs ≡ []
    → 65524 ≤ length buf
    → length buf < 65536
    → (ws : List Reply) × Willing ws
      × (slp_write buf c ≡ (
        ok (length buf),
        sent (length buf) (take (length buf - 65524) (own_packet buf c)) ws c,
      ))
slp_write_wraps buf c w e h k =
    let (ws, w', e') = slp_write_bytes buf c w e in
    (
      ws,
      w',
      e'
          ∙ ap (λ (n : ℕ). (ok (length buf), sent (length buf) (take n (own_packet buf c)) ws c))
              (omega arith),
    )
