-- ===== src/Rpc/MemMove.antt =====
-- What `RDLP_MemMove` of libpconn/dlp_rpc.c leaves in the host's buffer.
use coldsync.Base.{
  ℕ, ◌≡◌, ◌<◌, ◌%◌, ◌^◌, Option-cases, refl, arith, ◌==◌, true, false, Bool-cases, inl, inr,
  bit_and,
}
use coldsync.Base.{Option, none, some, List, [], ◌∷◌, ◌++◌, length}
use coldsync.Base.{take-append, append-nil, length-append, drop_all, ap, sym, ◌∙◌, le→leb}
use coldsync.Bytes.{get_ubyte, put_ubyte, get_uword, get_udword}
use coldsync.Conn.{PConnection, ok}
use coldsync.Conn.Monad
use coldsync.Dlp.{Transport}
use coldsync.Cmd.Memory.{memcpy}
use coldsync.Rpc.{dlp_rpc}
use coldsync.Rpc.Packet.{DlpRpcParam, raw_v, pad, copy_back, call_bytes, get_return}
use coldsync.Rpc.Calls.{mem_move_params, rdlp_mem_move}

-- Bytes of a length that `DlpRPC` takes for that of a number are stored over the pointer.
abbrev pub landed : List ℕ → List ℕ → List ℕ
landed dst (a ∷ []) = dst
landed dst (a ∷ b ∷ []) = dst
landed dst (a ∷ b ∷ c ∷ d ∷ []) = dst
landed dst bytes = bytes

abbrev dst_param : ℕ → List ℕ → DlpRpcParam
dst_param size dst = record { byref = true; size = size; data_of = raw_v; target = dst }

abbrev target_of : Option (DlpRpcParam × List ℕ) → Option (List ℕ)
target_of none = none
target_of (some (param, rptr)) = some param.target

memcpy_whole :
    (dst bytes ys : List ℕ)
    → length dst ≡ length bytes
    → memcpy dst (bytes ++ ys) (length bytes) ≡ some bytes
unfolding memcpy
memcpy_whole dst bytes ys e =
    rw (le→leb (length bytes) (length (bytes ++ ys)) (omega (arith, length-append bytes ys))) (
      rw (le→leb (length bytes) (length dst) (omega arith)) (
        rw (take-append bytes ys)
          (rw (drop_all (length bytes) dst (omega arith)) (ap some (append-nil bytes)))))

-- The padding stands behind the bytes.
memcpy_padded :
    (dst bytes : List ℕ)
    → length dst ≡ length bytes
    → memcpy dst (pad bytes (length bytes)) (length bytes) ≡ some bytes
unfolding pad put_ubyte
memcpy_padded dst bytes e = elim (Bool-cases (bit_and (length bytes) 1 == 1)) [
  | inl odd ↦ rw odd (memcpy_whole dst bytes (0 ∷ []) e)
  | inr even ↦ rw even (
      ap (λ (src : List ℕ). memcpy dst src (length bytes)) (sym (append-nil bytes))
      ∙ memcpy_whole dst bytes [] e)
]

clash : {xs : List ℕ} → none ≡ some xs → ⊥
clash e = cc

not_small : (k n : ℕ) → k < n → (n == k) ≡ false
not_small k n h = ground arith

copy_back_lem :
    (size : ℕ) (dst bytes : List ℕ)
    → length dst ≡ length bytes
    → target_of (copy_back (length bytes) (pad bytes (length bytes)) (dst_param size dst))
      ≡ some (landed dst bytes)
unfolding copy_back pad get_ubyte put_ubyte get_uword get_udword
copy_back_lem size dst [] e = rw (memcpy_padded dst [] e) refl
copy_back_lem size dst (a ∷ []) e = refl
copy_back_lem size dst (a ∷ b ∷ []) e = refl
copy_back_lem size dst (a ∷ b ∷ c ∷ []) e = rw (memcpy_padded dst (a ∷ b ∷ c ∷ []) e) refl
copy_back_lem size dst (a ∷ b ∷ c ∷ d ∷ []) e = refl
copy_back_lem size dst (a ∷ b ∷ c ∷ d ∷ f ∷ bytes) e =
    let n = length (a ∷ b ∷ c ∷ d ∷ f ∷ bytes) in
    rw (not_small 1 n (omega arith)) (
      rw (not_small 2 n (omega arith)) (
        rw (not_small 4 n (omega arith))
          (rw (memcpy_padded dst (a ∷ b ∷ c ∷ d ∷ f ∷ bytes) e) refl)))

module _ (id argc e1 e2 reqno padding t1 t2 d1 d2 d3 d4 a1 a2 a3 a4 : ℕ)
    (l1 l2 l3 l4 s1 s2 s3 s4 : ℕ) where
  -- An answer of the Palm: the headers, with the error and the registers, then the length and the
  -- address, which were passed by value, and last the bytes that were asked for.
  abbrev pub answer : List ℕ → List ℕ
  answer bytes =
      id
      ∷ argc
      ∷ e1
      ∷ e2
      ∷ reqno
      ∷ padding
      ∷ t1
      ∷ t2
      ∷ d1
      ∷ d2
      ∷ d3
      ∷ d4
      ∷ a1
      ∷ a2
      ∷ a3
      ∷ a4
      ∷ 0
      ∷ 3
      ∷ 0
      ∷ 4
      ∷ l1
      ∷ l2
      ∷ l3
      ∷ l4
      ∷ 0
      ∷ 4
      ∷ s1
      ∷ s2
      ∷ s3
      ∷ s4
      ∷ 1
      ∷ length bytes
      ∷ pad bytes (length bytes)

  -- Where the call fits its buffer and is sent, and an answer comes in that has as many bytes as the
  -- host's buffer: if these are not 1, 2 or 4, then the host's buffer holds them afterwards; if they
  -- are, then it is as it was, and the call still succeeds. The Palm's error is not looked at.
  pub rdlp_mem_move_lem :
      (transport : Transport) (dst bytes call : List ℕ) (src len : ℕ) (c c' c'' : PConnection)
      → length dst ≡ length bytes
      → call_bytes 0xa026 0 0 (mem_move_params dst src (length bytes)) ≡ some call
      → transport.write call c ≡ (ok tt, c')
      → transport.read c' ≡ (ok (record { buf = answer bytes; len = len }), c'')
      → rdlp_mem_move transport dst src (length bytes) c ≡ (ok (landed dst bytes), c'')
  unfolding rdlp_mem_move dlp_rpc get_return get_ubyte get_uword get_udword
  rdlp_mem_move_lem transport dst bytes call src len c c' c'' same laid_out sent brought =
      let x =
        copy_back (length bytes) (pad bytes (length bytes))
          (dst_param (length bytes % 2 ^ 8) dst) in
      let lands = copy_back_lem (length bytes % 2 ^ 8) dst bytes same in
      elim (Option-cases x) [
        | inl outside ↦ absurd (clash (ap target_of (sym outside) ∙ lands))
        | inr (back, got) ↦ rw laid_out (
            rw sent (
              rw brought (
                rw got (
                  ap (λ (o : Option (List ℕ)). Monad.in_bounds o c'')
                    (ap target_of (sym got) ∙ lands)))))
      ]
