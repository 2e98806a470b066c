-- ===== src/Tests/Commands.antt =====
-- The theorems on the requests of libpconn/dlp_cmd.c, at concrete inputs.
use coldsync.Base.{ℕ, ◌≡◌, refl, arith, some, List, [], ◌∷◌, length, All}
use coldsync.Bytes.{IsByte, IsUword}
use coldsync.Conn.{PConnection, ok, fault}
use coldsync.Dlp.Packet.{DlpArg, request_bytes, response_bytes}
use coldsync.Dlp.Args.{Fits}
use coldsync.Dlp.Exchange.{Replies, answered_with}
use coldsync.Cmd.Records
use coldsync.Cmd.Records.{RecInfo, dlp_read_next_modified_rec, dlp_read_record_by_index}
use coldsync.Cmd.Requests.{IsSound}
use coldsync.Cmd.Requests.Kinds
use coldsync.Cmd.Requests.Sound.{IsRequest-IsSound}
use coldsync.Cmd.Requests.ByIndex.{dlp_read_record_by_index_fault}
use coldsync.Cmd.Answers.{the_arg}
use coldsync.Cmd.Answers.Record.{record_bytes, dlp_read_next_modified_rec_lem}
use coldsync.Tests.Samples.{connection_with}
use coldsync.Tests.Messages.{bringing}

abbrev pub here : PConnection
here = connection_with []

-- A Palm that takes anything, and answers with the same bytes again and again.
pub answering :
    (id : ℕ) (argv : List DlpArg) (error : ℕ) (ret_argv : List DlpArg) (out back : List ℕ)
    → request_bytes (record { id = id; argc = length argv }) argv ≡ some out
    → response_bytes (record { id = id; argc = length ret_argv; error = error }) ret_argv
      ≡ some back
    → IsUword (length out)
    → IsUword error
    → IsByte (length ret_argv)
    → All Fits ret_argv
    → Replies (bringing back) id argv error ret_argv here here
answering id argv error ret_argv out back laid_out answered short word count fits = record {
  out = out;
  laid_out = laid_out;
  short = short;
  between = here;
  sent = refl;
  back = back;
  answered = answered;
  brings = record { rest = 0 ∷ []; result = refl; allocs = refl };
  allocs = refl;
  word = word;
  count = count;
  fits = fits;
}

IsRequest-IsSound_example : IsSound (Records.delete_record 1 0 5)
IsRequest-IsSound_example = IsRequest-IsSound (Kinds.of_delete_record 1 0 5)

-- The request that deletes record 5 of database 1.
abbrev pub deletion : List ℕ
deletion = 1 ∷ 0 ∷ 0 ∷ 0 ∷ 0 ∷ 5 ∷ []

pub deletion_laid_out :
    request_bytes (record { id = 0x22; argc = 1 }) (the_arg deletion)
    ≡ some (0x22 ∷ 1 ∷ 0x20 ∷ 6 ∷ deletion)
unfolding request_bytes coldsync.Bytes.put_ubyte
deletion_laid_out = refl

-- A record that has been modified, with two bytes of data.
abbrev info : RecInfo
info = record { id = 0x10203; index = 4; size = 2; attributes = 0x40; category = 1 }

abbrev modified : List ℕ
modified = record_bytes info (7 ∷ 8 ∷ [])

abbrev modified_response : List ℕ
modified_response = 0x9f ∷ 1 ∷ 0 ∷ 0 ∷ 0x20 ∷ 12 ∷ modified

modified_request :
    request_bytes (record { id = 0x1f; argc = 1 }) (the_arg (1 ∷ []))
    ≡ some (0x1f ∷ 1 ∷ 0x20 ∷ 1 ∷ 1 ∷ [])
unfolding request_bytes coldsync.Bytes.put_ubyte
modified_request = refl

modified_answered :
    response_bytes (record { id = 0x1f; argc = 1; error = 0 }) (the_arg modified)
    ≡ some modified_response
unfolding response_bytes coldsync.Bytes.put_ubyte coldsync.Bytes.put_uword
modified_answered = refl

dlp_read_next_modified_rec_lem_example :
    dlp_read_next_modified_rec (bringing modified_response) 1 (info, []) here
    ≡ (ok (0, (info, 7 ∷ 8 ∷ [])), answered_with 0x1f 0 (the_arg modified) here)
dlp_read_next_modified_rec_lem_example =
    dlp_read_next_modified_rec_lem (bringing modified_response) 1 info (7 ∷ 8 ∷ []) (info, []) here
      here (record { id = omega arith; index = omega arith; size = omega arith })
      (answering 0x1f (the_arg (1 ∷ [])) 0 (the_arg modified) (0x1f ∷ 1 ∷ 0x20 ∷ 1 ∷ 1 ∷ [])
        modified_response modified_request modified_answered (omega arith) (omega arith)
        (omega arith) (record { id = omega arith; size = omega arith }, tt))

dlp_read_record_by_index_fault_example :
    dlp_read_record_by_index (bringing []) 1 0 info here ≡ (fault, here)
dlp_read_record_by_index_fault_example = dlp_read_record_by_index_fault (bringing []) 1 0 info here
