-- ===== src/Socket/Listen.antt =====
-- `nrdpx_socket_listen` of src/nrdpx_socket.cpp, with `nrdpx_socket_create` and
-- `nrdpx_socket_close`, and `set_addr_port` of src/com/xtllib/xtl_inet.h: the socket of a listener.
--
-- What a function does to sockets is the list of its calls of the system that succeed.
use nuords_proxy.Prelude.{
  ℕ, ◌%◌, ◌^◌, ℤ, to_unsigned, Bool, false, if◌then◌else◌, Option, none, some, List, [], ◌∷◌, ◌++◌,
  Bytes,
}
use nuords_proxy.Inet.{Family, Addr, family_of}
use nuords_proxy.Inet.Hosts.{Resolver, guess_addr_family, host_to_addr, addr_any, any_name}

-- `bound` has the address and the port that the socket is bound to.
pub data Deed : Type 0 where
  opened closed listening : ℕ → Deed
  bound : ℕ → Addr → ℕ → Deed

-- What the system answers while one listener is created.
pub record Answers : Type 0 where
  pub socket : Family → Option ℕ
  pub set_nonblocking : ℕ → Bool
  pub bind : ℕ → Addr → ℕ → Bool
  pub listen : ℕ → Bool

-- A socket, or `NRD_NOSOCK`, and what was done.
abbrev pub Opened : Type 0
Opened = Option ℕ × List Deed

-- `nrdpx_socket_create(family, false)`, from what `socket` returns.
unfoldable pub open_socket : Answers → Option ℕ → Opened
open_socket w none = (none, [])
open_socket w (some s) =
    if w.set_nonblocking s then (some s, opened s ∷ []) else (none, opened s ∷ closed s ∷ [])

-- `(short) port`, as the two bytes that `htons` puts in order.
unfoldable pub short_port : ℤ → ℕ
short_port port = to_unsigned port % 2 ^ 16

-- `bind` and `listen`; the socket is closed if one of them fails.
unfoldable pub bind_socket : Answers → Addr → ℕ → ℕ → Opened
bind_socket w addr port s =
    if w.bind s addr port
    then (if w.listen s
        then (some s, bound s addr port ∷ listening s ∷ [])
        else (none, bound s addr port ∷ closed s ∷ []))
    else (none, closed s ∷ [])

unfoldable pub bind_opened : Answers → Addr → ℕ → Opened → Opened
bind_opened w addr port (none, done) = (none, done)
bind_opened w addr port (some s, done) =
    let (sock, more) = bind_socket w addr port s in (sock, done ++ more)

-- The host and its address; a host that has none becomes any address of the family it looks like.
unfoldable pub listen_addr : Bytes → Option Addr → Bytes × Addr
listen_addr host (some addr) = (host, addr)
listen_addr host none =
    let family = guess_addr_family host false in (any_name family, addr_any family)

-- The host after the call, which may be another, and the socket.
unfoldable pub socket_listen : Resolver → Answers → Bytes → ℤ → Bytes × Opened
socket_listen r w host port =
    let (named, addr) = listen_addr host (host_to_addr r host false) in
    (named, bind_opened w addr (short_port port) (open_socket w (w.socket (family_of addr))))
