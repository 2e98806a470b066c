-- ===== src/Rpc/Calls.antt =====
-- libpconn/dlp_rpc.c: the wrappers around `DlpRPC`, one for each system function. Their parameters
-- are in reverse order.
use coldsync.Base.{ℕ, zero, suc, ◌%◌, ◌^◌, Bool, true, false, if◌then◌else◌}
use coldsync.Base.{Option, none, some, List, [], ◌∷◌}
use coldsync.Base.Maybe.{◌>>=◌}
use coldsync.Conn.Monad
use coldsync.Conn.Monad.{M, pure, in_bounds}
use coldsync.Dlp.{Transport}
use coldsync.Rpc.{dlp_rpc}
use coldsync.Rpc.Packet.{DlpRpcParam, ParamData, raw_v, bool_v, word_v, dword_v, RpcReturn}

-- A parameter that is not raw. Its `size` is not read.
abbrev pub scalar : Bool → ParamData → DlpRpcParam
scalar byref data_of = record { byref = byref; size = 0; data_of = data_of; target = [] }

abbrev flag : Bool → ParamData
flag b = bool_v (if b then 1 else 0)

-- The members `dword_v` and `word_v`.
dword_member : ParamData → Option ℕ
dword_member (dword_v d) = some d
dword_member _ = none

word_member : ParamData → Option ℕ
word_member (word_v w) = some w
word_member _ = none

param_at : ℕ → List DlpRpcParam → Option DlpRpcParam
param_at i [] = none
param_at zero (param ∷ argv) = some param
param_at (suc i) (param ∷ argv) = param_at i argv

-- `*data_ptr` and `*data_len`
rom_token_of : List DlpRpcParam → Option (ℕ × ℕ)
unfolding param_at dword_member word_member
rom_token_of argv = do
  data_param ← param_at 1 argv
  data_ptr ← dword_member data_param.data_of
  len_param ← param_at 0 argv
  data_len ← word_member len_param.data_of
  some (data_ptr, data_len)

unfoldable pub mem_move_params : List ℕ → ℕ → ℕ → List DlpRpcParam
mem_move_params dst src len =
    scalar false (dword_v len)
    ∷ scalar false (dword_v src)
    ∷ record { byref = true; size = len % 2 ^ 8; data_of = raw_v; target = dst }
    ∷ []

-- What the host's buffer holds after the call.
target_at : ℕ → List DlpRpcParam → Option (List ℕ)
unfolding param_at
target_at i argv = do param ← param_at i argv; some param.target

module _ (transport : Transport) where
  -- The register D0 after a call.
  rpc_d0 : ℕ → List DlpRpcParam → M ℕ
  unfolding dlp_rpc
  rpc_d0 trap argv = Monad.◌>>=◌ (dlp_rpc transport trap 0 0 argv) (λ (r : RpcReturn). pure r.d0)

  -- The result is not looked at.
  rpc_only : ℕ → List DlpRpcParam → M (Unit {0})
  unfolding dlp_rpc
  rpc_only trap argv = Monad.◌>>=◌ (dlp_rpc transport trap 0 0 argv) (λ (r : RpcReturn). pure tt)

  unfoldable rdlp_backlight : Bool → Bool → M ℕ
  unfolding rpc_d0
  rdlp_backlight set new_state =
      rpc_d0 0xa2ea (scalar false (flag new_state) ∷ scalar false (flag set) ∷ [])

  unfoldable rdlp_battery_level : M ℕ
  unfolding rpc_d0
  rdlp_battery_level = rpc_d0 0xa248 []

  unfoldable rdlp_plugged_in : M ℕ
  unfolding rpc_d0
  rdlp_plugged_in = rpc_d0 0xa258 []

  unfoldable rdlp_get_os_version_string : M ℕ
  unfolding rpc_d0
  rdlp_get_os_version_string = rpc_d0 0xa323 []

  unfoldable pub rdlp_mem_move : List ℕ → ℕ → ℕ → M (List ℕ)
  unfolding dlp_rpc mem_move_params target_at
  rdlp_mem_move dst src len =
      Monad.◌>>=◌ (dlp_rpc transport 0xa026 0 0 (mem_move_params dst src len))
        (λ (r : RpcReturn). in_bounds (target_at 2 r.argv))

  unfoldable rdlp_battery_dialog : M (Unit {0})
  unfolding rpc_only
  rdlp_battery_dialog = rpc_only 0xa0bb []

  unfoldable rdlp_mem_handle_new : ℕ → M (Unit {0})
  unfolding rpc_only
  rdlp_mem_handle_new size = rpc_only 0xa01e (scalar true (dword_v size) ∷ [])

  -- The card's number is not used.
  unfoldable pub rdlp_rom_token : ℕ → ℕ → M (ℕ × ℕ)
  unfolding dlp_rpc rom_token_of
  rdlp_rom_token cardno token =
      let argv =
        scalar true (word_v 0)
        ∷ scalar true (dword_v 0)
        ∷ scalar false (dword_v token)
        ∷ scalar false (word_v 0)
        ∷ [] in
      Monad.◌>>=◌ (dlp_rpc transport 0xa340 0 0 argv)
        (λ (r : RpcReturn). in_bounds (rom_token_of r.argv))

  unfoldable rdlp_mem_readable : ℕ → M ℕ
  unfolding rpc_d0
  rdlp_mem_readable addr = rpc_d0 0xa23e (scalar false (dword_v addr) ∷ [])
