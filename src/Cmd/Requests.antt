-- ===== src/Cmd/Requests.antt =====
-- The requests of libpconn/dlp_cmd.c stay within the buffers that they are written into, but for
-- one of them.
use coldsync.Base.{
  ℕ, ◌+◌, ◌≤◌, ◌<◌, ◌^◌, ◌≡◌, refl, arith, le→leb, some, List, [], ◌∷◌, length, All,
}
use coldsync.Bytes.{IsUword, IsUdword}
use coldsync.Dlp.Packet.{DlpArg}
use coldsync.Dlp.Args.{Fits}
pub mod Lengths
pub mod Kinds
pub mod Sound
pub mod ByIndex
use coldsync.Cmd.{Request, outbuf, one_arg, with_arg, with_allocated, no_args}

-- The arguments are there, one at most, with what the bytes of a request have room for.
pub record IsSound (request : Request) : Type 0 where
  pub argv : List DlpArg
  pub laid_out : request.argv ≡ some argv
  pub fits : All Fits argv
  pub count : length argv < 2
  pub id : request.id < 128

pub no_args-IsSound : (id : ℕ) → id < 128 → IsSound (no_args id)
unfolding no_args
no_args-IsSound id h = record { argv = []; laid_out = refl; fits = tt; count = omega arith; id = h }

pub one_arg_lem :
    (arg room : ℕ) (written : List ℕ)
    → length written ≤ room
    → one_arg arg (outbuf room written) ≡ some (record { id = arg; payload = written } ∷ [])
unfolding one_arg outbuf
one_arg_lem arg room written inside = rw (le→leb (length written) room inside)

module _ (id arg room : ℕ) (written : List ℕ) (h : id < 128) (k : arg < 64)
    (inside : length written ≤ room) (sized : room < 2 ^ 32) where
  pub with_arg-IsSound : IsSound (with_arg id arg room written)
  unfolding with_arg
  with_arg-IsSound = record {
    argv = record { id = arg; payload = written } ∷ [];
    laid_out = one_arg_lem arg room written inside;
    fits = (record { id = k; size = omega (arith, inside, sized) }, tt);
    count = omega arith;
    id = h;
  }

  pub with_allocated-IsSound : IsSound (with_allocated id arg room written)
  unfolding with_allocated
  with_allocated-IsSound = record {
    argv = record { id = arg; payload = written } ∷ [];
    laid_out = one_arg_lem arg room written inside;
    fits = (record { id = k; size = omega (arith, inside, sized) }, tt);
    count = omega arith;
    id = h;
  }
