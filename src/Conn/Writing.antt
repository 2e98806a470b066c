-- ===== src/Conn/Writing.antt =====
-- The loop around PConn_write on a device that refuses nothing.
use coldsync.Base.{ℕ, zero, suc, ◌≤◌, ◌≡◌, refl, sym, ap, ◌∙◌, arith, lt→ltb, le→ltb}
use coldsync.Base.{
  List, [], ◌∷◌, ◌++◌, length, take, drop, take_all, append-nil, append_assoc, length-drop,
  take-append-drop,
}
use native.Mathlib.Decide.{dec_lt}
use coldsync.Conn.{PConnection, Reply, upto, refuse, Result, ok}
use coldsync.Conn.Monad.{bind_ok}
use coldsync.Conn.Reading.{Willing}
use coldsync.Conn.Calls.{transmit, serve_write, write_status, pconn_write, write_loop, write_all}

drop_whole : (xs : List ℕ) → drop (length xs) xs ≡ []
drop_whole [] = refl
drop_whole (x ∷ xs) = drop_whole xs

abbrev Writes : List ℕ → PConnection → Result ℕ × PConnection → Type 0
Writes bytes c r =
    (j : ℕ) × (ws : List Reply) × (suc j ≤ length bytes)
    × Willing ws
    × (r ≡ (ok (suc j), transmit (take (suc j) bytes) ws c))

-- A write of some bytes writes at least one.
serve_write_some :
    (ws : List Reply) (b : ℕ) (bs : List ℕ) (c : PConnection)
    → Willing ws
    → Writes (b ∷ bs) c (serve_write ws (b ∷ bs) c)
unfolding serve_write
serve_write_some [] b bs c w = (
  length bs,
  [],
  omega arith,
  tt,
  ap (λ (t : List ℕ). (ok (suc (length bs)), transmit t [] c))
      (sym (take_all (suc (length bs)) (b ∷ bs) (omega arith))),
)
serve_write_some (refuse ∷ rest) b bs c w = elim w [ ]
serve_write_some (upto k ∷ rest) b bs c w = elim (dec_lt k (suc (length bs))) [
  | yes p ↦ (k, rest, omega arith, w, rw (lt→ltb k (suc (length bs)) p))
  | no p ↦ (length bs, rest, omega arith, w, rw (le→ltb k (suc (length bs)) (omega arith)))
]

pconn_write_some :
    (b : ℕ) (bs : List ℕ) (c : PConnection)
    → Willing c.device.writes
    → Writes (b ∷ bs) c (pconn_write (b ∷ bs) c)
unfolding pconn_write write_status
pconn_write_some b bs c w =
    let (j, ws, le, w', e) = serve_write_some c.device.writes b bs c w in (j, ws, le, w', rw e)

-- The connection after `bytes` were written.
abbrev pub has_written : List ℕ → List Reply → PConnection → PConnection
has_written bytes ws c = record c {
  device = record c.device { output = c.device.output ++ bytes; writes = ws };
}

abbrev pub Puts : List ℕ → PConnection → Result (Unit {0}) × PConnection → Type 0
Puts bytes c r = (ws : List Reply) × Willing ws × (r ≡ (ok tt, has_written bytes ws c))

round_then :
    (fuel b : ℕ) (bs : List ℕ) (c : PConnection)
    → Writes (b ∷ bs) c (pconn_write (b ∷ bs) c)
    → ((bytes : List ℕ) (c' : PConnection)
        → Willing c'.device.writes
        → length bytes ≤ length bs
        → Puts bytes c' (write_loop fuel bytes c'))
    → Puts (b ∷ bs) c (write_loop (suc fuel) (b ∷ bs) c)
unfolding write_loop transmit
round_then fuel b bs c (j, ws, le, w, e) rest =
    finish (rest (drop j bs) (transmit (b ∷ take j bs) ws c) w (omega (arith, length-drop j bs)))
  where
    finish :
        Puts
          (drop j bs)
          (transmit (b ∷ take j bs) ws c)
          (write_loop fuel (drop j bs) (transmit (b ∷ take j bs) ws c))
        → Puts (b ∷ bs) c (write_loop (suc fuel) (b ∷ bs) c)
    finish (ws', w', e') = (
      ws',
      w',
      bind_ok (pconn_write (b ∷ bs)) _ e
          ∙ e'
          ∙ ap
              (λ (t : List ℕ).
                (ok tt, record c { device = record c.device { output = t; writes = ws' } }))
              (append_assoc c.device.output (b ∷ take j bs) (drop j bs)
                ∙ ap (λ (t : List ℕ). c.device.output ++ (b ∷ t)) (take-append-drop j bs)),
    )

write_loop_all :
    (fuel : ℕ) (bytes : List ℕ) (c : PConnection)
    → Willing c.device.writes
    → length bytes ≤ fuel
    → Puts bytes c (write_loop fuel bytes c)
unfolding write_loop
write_loop_all fuel [] c w f = (c.device.writes, w, rw append-nil)
write_loop_all zero (b ∷ bs) c w f = absurd (omega arith)
write_loop_all (suc fuel) (b ∷ bs) c w f =
    round_then fuel b bs c (pconn_write_some b bs c w)
      (λ bytes c' w' le. write_loop_all fuel bytes c' w' (omega arith))

-- On a device that refuses no write, `write_all` appends all bytes to the output, in order, however
-- many writes they take.
pub write_all_lem :
    (bytes : List ℕ) (c : PConnection)
    → Willing c.device.writes
    → (ws : List Reply) × Willing ws × (write_all bytes c ≡ (ok tt, has_written bytes ws c))
unfolding write_all
write_all_lem bytes c w = write_loop_all (length bytes) bytes c w (omega arith)
