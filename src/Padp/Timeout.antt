-- ===== src/Padp/Timeout.antt =====
-- What the sending of a fragment does on a line that never gets ready.
use coldsync.Base.{ℕ, zero, suc, ◌<◌, ◌≡◌, refl, ap, ◌∙◌, arith, false, Bool}
use coldsync.Base.{List, ◌∷◌, ◌++◌, replicate}
use coldsync.Conn.{PConnection, ok, err, timeout, timeout2, lost}
use coldsync.Conn.Monad.{bind_ok}
use coldsync.Conn.Calls.{ready_of, pconn_timedselect}
use coldsync.Padp.{PadpHeader, next_xid}
use coldsync.Padp.Write.{send_frag}

-- The transaction numbers 0x00 and 0xff are reserved: the next one is neither, whatever the last was.
pub next_xid_valid : (xid : ℕ) → (0 < next_xid xid) × (next_xid xid < 0xff)
unfolding next_xid
next_xid_valid xid = ground arith

not_ready :
    (rest : List Bool) (c : PConnection)
    → c.device.selects ≡ false ∷ rest
    → pconn_timedselect c ≡ (
      ok false,
      record c {
        palm_errno = timeout2;
        status = lost;
        device = record c.device { selects = rest };
      },
    )
unfolding pconn_timedselect
not_ready rest c e = ap (λ (s : List Bool). ready_of s c) e

-- The connection after so many attempts that timed out.
abbrev pub given_up : List Bool → PConnection → PConnection
given_up rest c = record c {
  palm_errno = timeout;
  status = lost;
  device = record c.device { selects = rest };
}

-- A fragment with so many attempts left, on a line that does not get ready in time for any of them,
-- is not sent, whatever its header and data: the call fails with the error number of a timeout, the
-- connection counts as lost, and every attempt has waited once.
pub send_frag_times_out :
    (attempts fuel : ℕ) (header : PadpHeader) (frag : List ℕ) (rest : List Bool) (c : PConnection)
    → c.device.selects ≡ replicate attempts false ++ rest
    → send_frag attempts (suc fuel) header frag c ≡ (err, given_up rest c)
unfolding send_frag
send_frag_times_out zero fuel header frag rest c e = ap (λ (s : List Bool). (err, given_up s c)) e
send_frag_times_out (suc attempts) fuel header frag rest c e =
    bind_ok pconn_timedselect _ (not_ready (replicate attempts false ++ rest) c e)
    ∙ send_frag_times_out attempts fuel header frag rest
        (record c {
          palm_errno = timeout2;
          status = lost;
          device = record c.device { selects = replicate attempts false ++ rest };
        })
        refl
