-- ===== src/Setup/Listeners.antt =====
-- The creation of the listeners in `main` of src/nrdpx_server.cpp: the loop that removes, from the
-- list that it runs over, each listener that gets no socket.
pub mod Turns
pub mod Balance
use nuords_proxy.Prelude.{
  ℕ, zero, suc, Bool, if◌then◌else◌, Option, none, some, is_some, List, [], ◌∷◌, ◌++◌, Bytes,
}
use nuords_proxy.Inet.Hosts.{Resolver}
use nuords_proxy.Socket.Listen.{Deed, Answers, socket_listen}
use nuords_proxy.Setup.{Listener}

-- A listener of the configuration with its socket; `none` is `NRD_NOSOCK`.
pub record Listening : Type 0 where
  pub listener : Listener
  pub sock : Option ℕ

unfoldable pub unopened : List Listener → List Listening
unopened [] = []
unopened (l ∷ ls) = record { listener = l; sock = none } ∷ unopened ls

unfoldable pub get_elem? : List Listening → ℕ → Option Listening
get_elem? [] i = none
get_elem? (l ∷ ls) zero = some l
get_elem? (l ∷ ls) (suc i) = get_elem? ls i

-- The element at a place is replaced or, with `none`, removed.
unfoldable pub put_or_remove : ℕ → Option Listening → List Listening → List Listening
put_or_remove i l [] = []
put_or_remove zero none (m ∷ ls) = ls
put_or_remove zero (some l) (m ∷ ls) = l ∷ ls
put_or_remove (suc i) l (m ∷ ls) = m ∷ put_or_remove i l ls

-- What `l->sock = nrdpx_socket_listen(l->host, l->port)` leaves of a listener.
unfoldable pub kept : Listener → Bytes → Option ℕ → Option Listening
kept l host none = none
kept l host (some s) = some (record { listener = record (l) { host = host }; sock = some s })

unfoldable pub listen_one : Resolver → Answers → Listening → Option Listening × List Deed
listen_one r w l =
    let (host, (sock, done)) = socket_listen r w l.listener.host l.listener.port in
    (kept l.listener host sock, done)

abbrev pub done_first : {A : Type 0} → List Deed → A × List Deed → A × List Deed
done_first done (result, more) = (result, done ++ more)

-- The loop, with the answers of the system for each turn: the listeners after it, or `none` if there
-- are more turns than answers, and what was done.
unfoldable pub listen_at :
    Resolver
    → ℕ
    → List Answers
    → List Listening
    → Option Listening
    → Option (List Listening) × List Deed
listen_at r i ws ls none = (some ls, [])
listen_at r i [] ls (some l) = (none, [])
listen_at r i (w ∷ ws) ls (some l) =
    let (new, done) = listen_one r w l in
    let left = put_or_remove i new ls in
    let j = if is_some new then suc i else i in
    done_first done (listen_at r j ws left (get_elem? left j))

unfoldable pub listen_all :
    Resolver → List Answers → List Listener → Option (List Listening) × List Deed
listen_all r ws ls = let all = unopened ls in listen_at r 0 ws all (get_elem? all 0)
