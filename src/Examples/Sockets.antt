-- ===== src/Examples/Sockets.antt =====
-- Two listeners, of which the second finds its port taken, an address with a port, and the theorems
-- applied to them.
use nuords_proxy.Prelude.{
  ℕ, ◌≡◌, ◌↔◌, refl, pos, Bool, true, false, some, List, [], ◌∷◌, codes, arith,
}
use nuords_proxy.Socket.Listen.{
  Deed, opened, closed, listening, bound, Answers, socket_listen, open_socket, bind_opened,
  bind_socket, listen_addr, short_port,
}
use nuords_proxy.Inet.{ipv4}
use nuords_proxy.Inet.Hosts.{host_to_addr, guess_addr_family, literal}
use nuords_proxy.Inet.Parse.{parse_host_port, is_same_host}
use nuords_proxy.Inet.Parse.Same.{Agree, is_same_host_iff}
use nuords_proxy.Inet.Parse.Ports.{Address, bracketed, print_address, parse_host_port-print_address}
use nuords_proxy.Examples.Files.{atoi}
use nuords_proxy.Setup.{Listener}
use nuords_proxy.Setup.Listeners.{
  Listening, listen_all, listen_at, listen_one, kept, put_or_remove, get_elem?, unopened,
}
use nuords_proxy.Setup.Listeners.Turns.{listened, listen_all-listened}
use nuords_proxy.Setup.Listeners.Balance.{IsBalanced, listen_all-IsBalanced}
use nuords_proxy.Examples.World.{resolver}

abbrev answers : ℕ → Bool → Answers
answers sock free = record {
  socket = λ _. some sock;
  set_nonblocking = λ _. true;
  bind = λ _ _ _. free;
  listen = λ _. true;
}

abbrev listeners : List Listener
listeners =
    record { host = codes "0.0.0.0"; port = pos 3389 }
    ∷ record { host = codes "10.0.0.1"; port = pos 70000 }
    ∷ []

abbrev pub both : List Answers
both = answers 3 true ∷ answers 4 false ∷ []

-- The second socket is closed again, and its listener removed.
deeds :
    (listen_all resolver both listeners).1
    ≡ opened 3 ∷ bound 3 (ipv4 0) 3389 ∷ listening 3 ∷ opened 4 ∷ closed 4 ∷ []
unfolding listen_all listen_at listen_one socket_listen open_socket bind_opened bind_socket
    listen_addr short_port host_to_addr guess_addr_family literal kept put_or_remove get_elem?
    unopened nuords_proxy.Prelude.equal
deeds = refl

listen_all-IsBalanced_example :
    (found : List Listening × List Deed) × (listen_all resolver both listeners
      ≡ (some found.0, found.1))
    × IsBalanced resolver found
listen_all-IsBalanced_example = listen_all-IsBalanced resolver both listeners (omega arith)

listen_all-listened_example : listen_all resolver both listeners ≡ (
  some (listened resolver both (unopened listeners)).0,
  (listened resolver both (unopened listeners)).1,
)
listen_all-listened_example = listen_all-listened resolver both listeners (omega arith)

abbrev link_local : Address
link_local = Address.literal (codes "fe80::1") (codes "24")

parse_host_port-print_address_example :
    parse_host_port atoi (print_address link_local) (pos 3389)
    ≡ (bracketed (codes "fe80::1"), pos 24)
parse_host_port-print_address_example =
    parse_host_port-print_address atoi link_local (pos 3389)
      ((ground arith, ground arith), ((ground arith, ground arith), tt))

is_same_host_iff_example :
    (is_same_host resolver (codes "10.0.0.1") (codes "local") ≡ true)
    ↔ Agree
        (host_to_addr resolver (codes "10.0.0.1") false)
        (host_to_addr resolver (codes "local") false)
is_same_host_iff_example = is_same_host_iff resolver (codes "10.0.0.1") (codes "local")
