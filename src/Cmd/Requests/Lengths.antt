-- ===== src/Cmd/Requests/Lengths.antt =====
-- How many bytes the longer requests of libpconn/dlp_cmd.c take.
use coldsync.Base.{ℕ, ◌+◌, ◌-◌, ◌≤◌, ◌^◌, ◌%◌, ◌≡◌, arith, ltb, Bool-cases, inl, inr, if◌then◌else◌}
use coldsync.Base.{List, [], ◌∷◌, ◌++◌, length, length-append, length-take, length-drop, take, drop}
use coldsync.Bytes.{put_ubyte, put_uword, put_udword}
use coldsync.Cmd.Memory.{put_name, dlpcmd_puttime}
use coldsync.Cmd.Info.{SetUserInfo, user_info_bytes}
use coldsync.Cmd.System.{log_text}
use coldsync.Cmd.Applications.{preference_bytes}
use coldsync.Cmd.NetSync.{NetSyncInfo, net_sync_bytes}

pub length-put_name : (wptr name : List ℕ) → length (put_name wptr name) ≤ length wptr + 32
unfolding put_name put_ubyte
length-put_name wptr name = elim (Bool-cases (ltb 31 (length name))) [
  | inl long ↦ rw long (bound 31 (omega arith))
  | inr short ↦ rw short (bound (length name) (ground (arith, short)))
]
  where
    bound :
        (n : ℕ) → n ≤ 31 → length ((wptr ++ take n name) ++ ((0 % 2 ^ 8) ∷ [])) ≤ length wptr + 32
    bound n h = omega (
      arith,
      h,
      length-append (wptr ++ take n name) ((0 % 2 ^ 8) ∷ []),
      length-append wptr (take n name),
      length-take n name,
    )

pub length-log_text : (msg : List ℕ) → length (log_text msg) ≤ 2047
unfolding log_text
length-log_text msg = ground (arith, length-drop (length msg - 2048 + 1) msg)

pub length-user_info_bytes : (userinfo : SetUserInfo) → length (user_info_bytes userinfo) ≤ 63
unfolding user_info_bytes dlpcmd_puttime put_ubyte put_uword put_udword
length-user_info_bytes userinfo = omega (arith, length-take max userinfo.username, at_most_41)
  where
    max : ℕ
    max = if ltb userinfo.usernamelen 41 then userinfo.usernamelen else 41

    at_most_41 : max ≤ 41
    at_most_41 = ground arith

overwritten :
    (payload buffer : List ℕ)
    → length buffer ≡ 12 + length payload
    → length (payload ++ drop (length payload) buffer) ≡ 12 + length payload
overwritten payload buffer e = omega (
  arith,
  e,
  length-append payload (drop (length payload) buffer),
  length-drop (length payload) buffer,
)

pub length-preference_bytes :
    (creator id flags version : ℕ) (payload fresh : List ℕ)
    → length fresh ≡ length payload
    → length (preference_bytes creator id flags version payload fresh) ≡ 12 + length payload
unfolding preference_bytes put_ubyte put_uword put_udword
length-preference_bytes creator id flags version payload fresh e =
    overwritten payload _ (omega (arith, e, length-take (length payload) fresh))

pub length-net_sync_bytes :
    (modflags : ℕ) (newinfo : NetSyncInfo)
    → length newinfo.hostname ≤ 256
    → length newinfo.hostaddr ≤ 128
    → length newinfo.hostnetmask ≤ 128
    → length (net_sync_bytes modflags newinfo) ≤ 2048
unfolding net_sync_bytes put_ubyte put_uword put_udword
length-net_sync_bytes modflags newinfo h1 h2 h3 = omega (
  arith,
  h1,
  h2,
  h3,
  length-append name (addr ++ mask),
  length-append addr mask,
  length-take newinfo.hostnamesize newinfo.hostname,
  length-take newinfo.hostaddrsize newinfo.hostaddr,
  length-take newinfo.hostnetmasksize newinfo.hostnetmask,
)
  where
    name : List ℕ
    name = take newinfo.hostnamesize newinfo.hostname

    addr : List ℕ
    addr = take newinfo.hostaddrsize newinfo.hostaddr

    mask : List ℕ
    mask = take newinfo.hostnetmasksize newinfo.hostnetmask
