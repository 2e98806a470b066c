-- ===== src/Conn/Calls.antt =====
-- PConn_read, PConn_write and PConn_timedselect over the device's script, and the loops that call
-- the first two until all bytes have passed.
use coldsync.Base.{ℕ, zero, suc, ◌-◌, ltb, if◌then◌else◌, Bool, true, false, ◌≡◌, ap}
use coldsync.Base.{List, [], ◌∷◌, ◌++◌, length, take, drop}
use coldsync.Conn.{
  PConnection, Reply, upto, refuse, Result, ok, err, eof, system, timeout2, end_of_file, lost,
}
use coldsync.Conn.Monad.{M, ◌>>=◌, ◌>>◌, pure, fail, no_fuel, set_palmerrno}

-- How many of `n` bytes a reply lets pass.
abbrev pub passing : ℕ → ℕ → ℕ
passing k n = if ltb k n then suc k else n

unfoldable pub receive : ℕ → List Reply → PConnection → PConnection
receive n rest c = record c {
  device = record c.device { input = drop n c.device.input; reads = rest };
}

-- The reply to a read of at most `n` bytes, and the connection after it.
unfoldable pub serve_read : List Reply → ℕ → PConnection → Result (List ℕ) × PConnection
unfolding receive
serve_read [] n c = (ok (take n c.device.input), receive n [] c)
serve_read (refuse ∷ rest) n c = (err, receive 0 rest c)
serve_read (upto k ∷ rest) n c =
    (ok (take (passing k n) c.device.input), receive (passing k n) rest c)

-- The number that `read` returned decides: negative, 0, or the count of the bytes got.
unfoldable pub read_status : Result (List ℕ) → M (List ℕ)
read_status (ok []) = do set_palmerrno end_of_file; (λ c. (eof, c))
read_status (ok (b ∷ bs)) = pure (b ∷ bs)
read_status _ = do set_palmerrno system; fail

unfoldable pub pconn_read : ℕ → M (List ℕ)
unfolding serve_read read_status
pconn_read n c = let (r, c') = serve_read c.device.reads n c in read_status r c'

unfoldable pub transmit : List ℕ → List Reply → PConnection → PConnection
transmit bytes rest c = record c {
  device = record c.device { output = c.device.output ++ bytes; writes = rest };
}

unfoldable pub serve_write : List Reply → List ℕ → PConnection → Result ℕ × PConnection
unfolding transmit
serve_write [] bytes c = (ok (length bytes), transmit bytes [] c)
serve_write (refuse ∷ rest) bytes c = (err, transmit [] rest c)
serve_write (upto k ∷ rest) bytes c =
    let n = passing k (length bytes) in (ok n, transmit (take n bytes) rest c)

unfoldable pub write_status : Result ℕ → M ℕ
write_status (ok n) = pure n
write_status _ = do set_palmerrno system; fail

unfoldable pub pconn_write : List ℕ → M ℕ
unfolding serve_write write_status
pconn_write bytes c = let (r, c') = serve_write c.device.writes bytes c in write_status r c'

-- PConn_timedselect: whether the descriptor got ready. After a timeout PConn_select counts the
-- connection as lost, and the error number is the one that PConn_timedselect sets over its own.
unfoldable pub ready_of : List Bool → PConnection → Result Bool × PConnection
ready_of [] c = (ok true, c)
ready_of (true ∷ rest) c = (ok true, record c { device = record c.device { selects = rest } })
ready_of (false ∷ rest) c = (
  ok false,
  record c { palm_errno = timeout2; status = lost; device = record c.device { selects = rest } },
)

unfoldable pub pconn_timedselect : M Bool
unfolding ready_of
pconn_timedselect c = ready_of c.device.selects c

-- malloc and realloc
unfoldable pub memory_of : List Bool → PConnection → Result Bool × PConnection
memory_of [] c = (ok true, c)
memory_of (b ∷ rest) c = (ok b, record c { device = record c.device { allocs = rest } })

unfoldable pub allocate : M Bool
unfolding memory_of
allocate c = memory_of c.device.allocs c

-- Where the allocator's script has ended, memory is found.
pub allocate_lem : (c : PConnection) → c.device.allocs ≡ [] → allocate c ≡ (ok true, c)
unfolding allocate
allocate_lem c e = ap (λ (t : List Bool). memory_of t c) e

-- Where the script of readiness has ended, the descriptor is ready.
pub timedselect_ready :
    (c : PConnection) → c.device.selects ≡ [] → pconn_timedselect c ≡ (ok true, c)
unfolding pconn_timedselect
timedselect_ready c e = ap (λ (t : List Bool). ready_of t c) e

-- `while (want > got)` around PConn_read: `missing` is want - got. Each round gets a byte at least,
-- so that `missing` rounds are enough.
unfoldable pub read_loop : ℕ → ℕ → List ℕ → M (List ℕ)
read_loop fuel zero got = pure got
read_loop zero (suc missing) got = no_fuel
read_loop (suc fuel) (suc missing) got = do
  bytes ← pconn_read (suc missing)
  read_loop fuel (suc missing - length bytes) (got ++ bytes)

unfoldable pub read_all : ℕ → M (List ℕ)
unfolding read_loop
read_all want = read_loop want want []

-- `while (sent < want)` around PConn_write, over the bytes that are left.
unfoldable pub write_loop : ℕ → List ℕ → M (Unit {0})
write_loop fuel [] = pure tt
write_loop zero (b ∷ bs) = no_fuel
write_loop (suc fuel) (b ∷ bs) = do n ← pconn_write (b ∷ bs); write_loop fuel (drop n (b ∷ bs))

unfoldable pub write_all : List ℕ → M (Unit {0})
unfolding write_loop
write_all bytes = write_loop (length bytes) bytes
