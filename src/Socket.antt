-- ===== src/Socket.antt =====
-- `nrdpx_socket_calc_buffer_size` and `nrdpx_socket_adjust_buffers` of src/nrdpx_socket.cpp: the
-- buffer sizes that a socket is given.
pub mod Sizes
pub mod Listen
use nuords_proxy.Prelude.{
  ℕ, ◌*◌, ◌/◌, min, Bool, true, false, ◌||◌, ltb, ◌==◌, if◌then◌else◌, Option, none, some, List, [],
  ◌∷◌, ◌++◌,
}

abbrev pub standard_mss : ℕ
standard_mss = 1460

abbrev pub standard_bss : ℕ
standard_bss = 8760

unfoldable pub calc_buffer_size : ℕ → ℕ → ℕ → ℕ
calc_buffer_size mss bss limit =
    if ltb mss (standard_mss / 3) || ltb bss (standard_bss / 3) || ltb (bss / mss) 4
    then bss
    else (let ret = min bss limit / mss * mss in
        if ltb ret (mss * 6) then min bss (mss * 6) else ret)

-- What `getsockopt` and `setsockopt` answer on one socket; `none` is a failure.
pub record Options : Type 0 where
  pub maxseg : Option ℕ
  pub send_buffer : Option ℕ
  pub recv_buffer : Option ℕ
  pub set_send : ℕ → Bool
  pub set_recv : ℕ → Bool

-- `setsockopt` of the two buffers.
pub data Setting : Type 0 where
  send_size recv_size : ℕ → Setting

-- `nrdpx_socket_get_send_buffer` and its like: Linux gives the double.
unfoldable pub get_buffer : Option ℕ → Option ℕ
get_buffer none = none
get_buffer (some n) = if n == 0 then none else some (n / 2)

unfoldable pub align_one : (ℕ → Setting) → ℕ → ℕ → Option ℕ → List Setting
align_one set mss limit none = []
align_one set mss limit (some bss) = set (calc_buffer_size mss bss limit) ∷ []

unfoldable pub align_both : Options → ℕ → Option ℕ → List Setting
align_both opts limit none = []
align_both opts limit (some mss) =
    if mss == 0
    then []
    else align_one send_size mss limit (get_buffer opts.send_buffer)
      ++ align_one recv_size mss limit (get_buffer opts.recv_buffer)

-- The result and the settings that are made, on a socket that is not `NRD_NOSOCK`.
unfoldable pub socket_adjust_buffers : Options → Bool → ℕ → Bool × List Setting
socket_adjust_buffers opts true limit = (true, align_both opts limit opts.maxseg)
socket_adjust_buffers opts false limit =
    if opts.set_send limit
    then (opts.set_recv limit, send_size limit ∷ recv_size limit ∷ [])
    else (false, send_size limit ∷ [])
