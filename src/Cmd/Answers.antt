-- ===== src/Cmd/Answers.antt =====
-- What the functions of libpconn/dlp_cmd.c make of a response.
pub mod Record
pub mod DbList
use coldsync.Base.{ℕ, ◌+◌, ◌<◌, ◌≡◌, ◌≢◌, refl, ap, arith, ◌==◌, false, Bool-cases, inl, inr}
use coldsync.Base.{Option, some, List, [], ◌∷◌, length}
use coldsync.Conn.{PConnection, ok}
use coldsync.Conn.Monad.{in_bounds}
use coldsync.Conn.Calls.{allocate, allocate_lem}
use coldsync.Dlp.{Transport, dlp_dlpc_req}
use coldsync.Dlp.Packet.{DlpArg}
use coldsync.Dlp.Exchange.{Replies, answered_with, dlp_dlpc_req_answered}
use coldsync.Cmd.{Request, send, conclude, get_all, call_clearing, call}

module _ (transport : Transport) (request : Request) (argv : List DlpArg) (error : ℕ)
    (ret_argv : List DlpArg) (c c' : PConnection) (h : request.id < 128)
    (laid_out : request.argv ≡ some argv)
    (replies : Replies transport request.id argv error ret_argv c c') where
  pub send_answered : send transport request c ≡ (
    ok (record { id = request.id + 128; argc = length ret_argv; error = error }, ret_argv),
    answered_with request.id error ret_argv c',
  )
  unfolding send
  send_answered = elim (Bool-cases request.allocates) [
    | inl yes_it_does ↦ rw (yes_it_does, allocate_lem c replies.allocs, laid_out) dlpc
    | inr no_it_does_not ↦ rw (no_it_does_not, laid_out) dlpc
  ]
    where
      dlpc : dlp_dlpc_req transport (record { id = request.id; argc = length argv }) argv c ≡ (
        ok (record { id = request.id + 128; argc = length ret_argv; error = error }, ret_argv),
        answered_with request.id error ret_argv c',
      )
      dlpc = dlp_dlpc_req_answered transport request.id argv error ret_argv c c' h replies

  module _ {R : Type 0} (clear : R → R) (get : DlpArg → R → Option R) (r : R) where
    pub call_clearing_error :
        error ≢ 0
        → call_clearing transport request clear get r c
          ≡ (ok (error, r), answered_with request.id error ret_argv c')
    unfolding call_clearing conclude
    call_clearing_error ne = rw (send_answered, ==_ne) refl
      where
        ==_ne : (error == 0) ≡ false
        ==_ne = ground (arith, ne)

    pub call_clearing_ok :
        {r' : R}
        → error ≡ 0
        → get_all get ret_argv (clear r) ≡ some r'
        → call_clearing transport request clear get r c
          ≡ (ok (0, r'), answered_with request.id error ret_argv c')
    unfolding call_clearing conclude
    call_clearing_ok e gets = rw (send_answered, ap (λ (n : ℕ). n == 0) e, gets)

-- The one argument of a request or a response, where it has the first number.
abbrev pub the_arg : List ℕ → List DlpArg
the_arg payload = record { id = 0x20; payload = payload } ∷ []

get_all_one :
    {R : Type 0} (get : DlpArg → R → Option R) (arg : DlpArg) (r : R) {r' : R}
    → get arg r ≡ some r'
    → get_all get (arg ∷ []) r ≡ some r'
unfolding get_all
get_all_one get arg r e = rw e

pub call_one :
    (transport : Transport) (request : Request) (argv : List DlpArg) (payload : List ℕ)
    (c c' : PConnection)
    → request.id < 128
    → request.argv ≡ some argv
    → Replies transport request.id argv 0 (the_arg payload) c c'
    → {R : Type 0} (get : DlpArg → R → Option R) (r : R) {r' : R}
    → get (record { id = 0x20; payload = payload }) r ≡ some r'
    → call transport request get r c ≡ (ok (0, r'), answered_with request.id 0 (the_arg payload) c')
unfolding call
call_one transport request argv payload c c' h laid_out replies get r e =
    call_clearing_ok transport request argv 0 (the_arg payload) c c' h laid_out replies (λ r. r) get
      r refl (get_all_one get _ r e)
