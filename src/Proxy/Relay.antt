-- ===== src/Proxy/Relay.antt =====
-- `nrdpx_main_proc` of src/nrdpx_server.cpp on one channel that is connected or connecting:
-- reading from its two sockets and writing to them, `set_connected` and `adjust_buffers`.
pub mod Balanced
pub mod Passes
use nuords_proxy.Prelude.{
  ℕ, zero, suc, ◌-◌, Bool, true, false, ◌&&◌, ltb, ◌==◌, if◌then◌else◌, Option, none, some, [], ◌∷◌,
  ◌++◌, take, Bytes,
}
use nuords_proxy.Inet.Hosts.{Errno, is_error_fatal}
use nuords_proxy.Buffer.{Buffer, buffer_size_max, content, received, consumed, grow}
use nuords_proxy.Proxy.{Proxy, Server, Channel}
use nuords_proxy.Proxy.Run.{Cmd, pure, ◌>>=◌, ◌>>◌, get, modify, follow, load_route, put_at}

-- What the system answers in one pass of the main loop: the sets of `select`, the error a socket
-- has, and `recv` and `send` (`none` is -1). `last_error` is what `errno` holds after a call on the
-- socket. The sizes are the halves that `nrdpx_socket_get_recv_buffer` and its like give.
pub record Net : Type 0 where
  pub errno : Errno
  pub last_error : ℕ → ℕ
  pub readable : ℕ → Bool
  pub writable : ℕ → Bool
  pub socket_error : ℕ → ℕ
  pub recv : ℕ → ℕ → Option Bytes
  pub send : ℕ → Bytes → Option ℕ
  pub recv_size : ℕ → Option ℕ
  pub send_size : ℕ → Option ℕ

-- All that a channel has read and sent so far. The program does not keep it.
pub record Traffic : Type 0 where
  pub from_source : Bytes
  pub to_target : Bytes
  pub from_target : Bytes
  pub to_source : Bytes

-- One `recv` or `send` on a buffer: the bytes that were moved, or an error that ends the channel.
pub data Io : Type 0 where
  moved : Bytes → Buffer → Io
  broken : Io

unfoldable pub unless_fatal : Net → ℕ → Buffer → Io
unless_fatal net s b =
    if is_error_fatal net.errno (net.last_error s) false then broken else moved [] b

-- `err_rc <= 0` asks `errno` also when the peer has closed and `recv` gives 0.
unfoldable pub took : Net → ℕ → Buffer → Option Bytes → Io
took net s b none = unless_fatal net s b
took net s b (some []) = unless_fatal net s b
took net s b (some (x ∷ xs)) = moved (x ∷ xs) (received (x ∷ xs) b)

unfoldable pub gave : Net → ℕ → Buffer → Option ℕ → Io
gave net s b none = unless_fatal net s b
gave net s b (some zero) = unless_fatal net s b
gave net s b (some (suc n)) = moved (take (suc n) (content b)) (consumed (suc n) b)

-- The guards of the four blocks. `NRD_NOSOCK` is in no set.
unfoldable pub can_read : Net → Option ℕ → Buffer → Bool
can_read net none b = false
can_read net (some s) b = net.readable s && ltb b.pos b.size

unfoldable pub can_write : Net → Option ℕ → Buffer → Bool
can_write net none b = false
can_write net (some s) b = net.writable s && ltb 0 b.pos

unfoldable pub do_read : Net → Option ℕ → Buffer → Io
do_read net none b = moved [] b
do_read net (some s) b = took net s b (net.recv s (b.size - b.pos))

unfoldable pub do_write : Net → Option ℕ → Buffer → Io
do_write net none b = moved [] b
do_write net (some s) b = gave net s b (net.send s (content b))

abbrev size_or : (ℕ → Option ℕ) → Option ℕ → ℕ
size_or size none = 0
size_or size (some s) = elim (size s) [ none ↦ 0 | some n ↦ n ]

abbrev larger : ℕ → ℕ → ℕ
larger a b = if ltb a b then b else a

-- The size for what is read from `input` and sent to `output`. `NRDPX_SOCKET_MODE_ALIGN` is 1 and
-- `NRDPX_SOCKET_MODE_MAXBUF` is 2.
unfoldable pub aligned_size : Net → Proxy → Option ℕ → Option ℕ → ℕ
aligned_size net p input output =
    let snew = larger (size_or net.recv_size input) (size_or net.send_size output) in
    if snew == 0 then p.max_buffer else snew

unfoldable pub buffer_size : Net → Proxy → Option ℕ → Option ℕ → ℕ
buffer_size net p input output =
    if p.buffer_mode == 1
    then aligned_size net p input output
    else if p.buffer_mode == 2
    then p.max_buffer
    else buffer_size_max

unfoldable pub adjust_buffers : Net → Proxy → Channel → Channel
adjust_buffers net p chn = record chn {
  target_input = grow (buffer_size net p chn.target chn.source) chn.target_input;
  source_input = grow (buffer_size net p chn.source chn.target) chn.source_input;
}

unfoldable pub reset_faults : ℕ → Cmd (Unit {0})
reset_faults s = modify λ p.
    let svr = p.server_at s in
    record p { server_at = put_at s (record svr { num_faults = 0 }) p.server_at }

unfoldable pub become_connected : Net → Channel → Cmd Channel
become_connected net chn = do
  p ← get
  r ← load_route chn.route
  server ← follow r.server
  reset_faults server
  let c = adjust_buffers net p chn
  pure (record c { connected = true })

unfoldable pub set_connected : Net → Channel → Cmd Channel
set_connected net chn = if chn.connected then pure chn else become_connected net chn

-- A channel with its traffic; `none` once an error has ended it.
abbrev pub Alive : Type 0
Alive = Option (Channel × Traffic)

unfoldable pub source_read : Channel → Traffic → Io → Alive
source_read chn t broken = none
source_read chn t (moved bytes b) =
    some (record chn { source_input = b }, record t { from_source = t.from_source ++ bytes })

unfoldable pub target_read : Channel → Traffic → Io → Alive
target_read chn t broken = none
target_read chn t (moved bytes b) =
    some (record chn { target_input = b }, record t { from_target = t.from_target ++ bytes })

unfoldable pub source_written : Channel → Traffic → Io → Alive
source_written chn t broken = none
source_written chn t (moved bytes b) =
    some (record chn { target_input = b }, record t { to_source = t.to_source ++ bytes })

unfoldable pub target_written : Channel → Traffic → Io → Alive
target_written chn t broken = none
target_written chn t (moved bytes b) =
    some (record chn { source_input = b }, record t { to_target = t.to_target ++ bytes })

unfoldable pub read_source : Net → Channel → Traffic → Cmd Alive
read_source net chn t =
    if can_read net chn.source chn.source_input
    then pure (source_read chn t (do_read net chn.source chn.source_input))
    else pure (some (chn, t))

unfoldable pub read_target : Net → Channel → Traffic → Cmd Alive
read_target net chn t =
    if can_read net chn.target chn.target_input
    then (do
      c ← set_connected net chn
      pure (target_read c t (do_read net c.target c.target_input)))
    else pure (some (chn, t))

unfoldable pub write_source : Net → Channel → Traffic → Cmd Alive
write_source net chn t =
    if can_write net chn.source chn.target_input
    then pure (source_written chn t (do_write net chn.source chn.target_input))
    else pure (some (chn, t))

unfoldable pub write_target : Net → Channel → Traffic → Cmd Alive
write_target net chn t =
    if can_write net chn.target chn.source_input
    then (do
      c ← set_connected net chn
      pure (target_written c t (do_write net c.target c.source_input)))
    else pure (some (chn, t))

unfoldable pub still : (Channel → Traffic → Cmd Alive) → Alive → Cmd Alive
still next none = pure none
still next (some (chn, t)) = next chn t

unfoldable pub relay : Net → Channel → Traffic → Cmd Alive
relay net chn t = do
  a ← read_source net chn t
  b ← still (read_target net) a
  c ← still (write_source net) b
  still (write_target net) c
