-- ===== src/Setup/Listeners/Balance.antt =====
-- The sockets that the creation of the listeners opens: each is closed again or is the socket of a
-- listener, bound to the address of its host.
use nuords_proxy.Prelude.{
  ℕ, ◌+◌, ◌≤◌, ◌==◌, ◌≡◌, refl, arith, false, inl, inr, if◌then◌else◌, Option, none, some, List, [],
  ◌∷◌, ◌++◌, length, All, In, Bytes, Bool-cases, equal,
}
use nuords_proxy.Inet.{Family, inet, inet6, Addr, family_of}
use nuords_proxy.Inet.Hosts.{Resolver, host_to_addr, any_name, addr_any, guess_addr_family, literal}
use nuords_proxy.Socket.Listen.{
  Deed, opened, closed, listening, bound, Answers, Opened, open_socket, short_port, bind_socket,
  bind_opened, listen_addr, socket_listen,
}
use nuords_proxy.Setup.{Listener}
use nuords_proxy.Setup.Listeners.{Listening, unopened, kept, listen_one, listen_all}
use nuords_proxy.Setup.Listeners.Turns.{push_some, listened, listen_all-listened}

abbrev one : ℕ → ℕ → ℕ
one s t = if t == s then 1 else 0

abbrev pub opens : ℕ → List Deed → ℕ
opens s [] = 0
opens s (opened t ∷ done) = one s t + opens s done
opens s (closed t ∷ done) = opens s done
opens s (listening t ∷ done) = opens s done
opens s (bound t a p ∷ done) = opens s done

abbrev pub closes : ℕ → List Deed → ℕ
closes s [] = 0
closes s (opened t ∷ done) = closes s done
closes s (closed t ∷ done) = one s t + closes s done
closes s (listening t ∷ done) = closes s done
closes s (bound t a p ∷ done) = closes s done

abbrev pub holds : ℕ → Option ℕ → ℕ
holds s none = 0
holds s (some t) = one s t

abbrev pub hold : ℕ → List Listening → ℕ
hold s [] = 0
hold s (l ∷ ls) = holds s l.sock + hold s ls

opens-append : (s : ℕ) (xs ys : List Deed) → opens s (xs ++ ys) ≡ opens s xs + opens s ys
opens-append s [] ys = omega arith
opens-append s (opened t ∷ xs) ys = omega (arith, opens-append s xs ys)
opens-append s (closed t ∷ xs) ys = opens-append s xs ys
opens-append s (listening t ∷ xs) ys = opens-append s xs ys
opens-append s (bound t a p ∷ xs) ys = opens-append s xs ys

closes-append : (s : ℕ) (xs ys : List Deed) → closes s (xs ++ ys) ≡ closes s xs + closes s ys
closes-append s [] ys = omega arith
closes-append s (opened t ∷ xs) ys = closes-append s xs ys
closes-append s (closed t ∷ xs) ys = omega (arith, closes-append s xs ys)
closes-append s (listening t ∷ xs) ys = closes-append s xs ys
closes-append s (bound t a p ∷ xs) ys = closes-append s xs ys

-- What is done for one listener: a socket that is returned is bound and listens, and without one
-- what was opened is closed.
abbrev Served : Addr → ℕ → Opened → Type 0
Served addr port (none, done) = (s : ℕ) → opens s done ≡ closes s done
Served addr port (some s, done) = done ≡ opened s ∷ bound s addr port ∷ listening s ∷ []

bind_opened-Served :
    (w : Answers) (addr : Addr) (port : ℕ) (got : Option ℕ)
    → Served addr port (bind_opened w addr port (open_socket w got))
unfolding bind_opened open_socket bind_socket
bind_opened-Served w addr port none = λ _. refl
bind_opened-Served w addr port (some s) = elim (Bool-cases (w.set_nonblocking s)) [
  | inr e ↦ rw e (λ _. refl)
  | inl e ↦ rw e (elim (Bool-cases (w.bind s addr port)) [
    | inr f ↦ rw f (λ _. refl)
    | inl f ↦ rw f (elim (Bool-cases (w.listen s)) [ inr g ↦ rw g (λ _. refl) | inl g ↦ rw g refl ])
  ])
]

-- The address of any host of a family is found without the resolver.
host_to_addr-any_name :
    (r : Resolver) (family : Family)
    → host_to_addr r (any_name family) false ≡ some (addr_any family)
unfolding host_to_addr guess_addr_family literal equal
host_to_addr-any_name r inet = refl
host_to_addr-any_name r inet6 = refl

-- The host that a listener has in the end names the address that its socket is bound to.
listen_addr-named :
    (r : Resolver) (host : Bytes) (found : Option Addr)
    → host_to_addr r host false ≡ found
    → let (named, addr) = listen_addr host found in host_to_addr r named false ≡ some addr
unfolding listen_addr
listen_addr-named r host (some addr) e = e
listen_addr-named r host none e = host_to_addr-any_name r (guess_addr_family host false)

-- A listener whose socket is bound to the address of its host, at the low 16 bits of its port, and
-- listens.
abbrev pub IsOpen : Resolver → List Deed → Listening → Type 0
IsOpen r done l =
    (s : ℕ) × (addr : Addr) × (l.sock ≡ some s)
    × (host_to_addr r l.listener.host false ≡ some addr)
    × In (bound s addr (short_port l.listener.port)) done
    × In (listening s) done

-- What is done leaves open the sockets of these listeners, and no other that it opened.
abbrev pub IsBalanced : Resolver → List Listening × List Deed → Type 0
IsBalanced r (ls, done) =
    ((s : ℕ) → opens s done ≡ closes s done + hold s ls) × All (IsOpen r done) ls

abbrev as_list : Option Listening → List Listening
as_list new = push_some new []

kept-IsBalanced :
    (r : Resolver) (l : Listener) (host : Bytes) (addr : Addr) (got : Opened)
    → host_to_addr r host false ≡ some addr
    → Served addr (short_port l.port) got
    → IsBalanced r (as_list (kept l host got.0), got.1)
unfolding kept
kept-IsBalanced r l host addr (none, done) e served = ((λ s. omega (arith, served s)), tt)
kept-IsBalanced r l host addr (some t, done) e served =
    rw served ((λ s. omega arith), ((t, addr, refl, e, inr (inl refl), inr (inr (inl refl))), tt))

listen_one-IsBalanced :
    (r : Resolver) (w : Answers) (l : Listening)
    → IsBalanced r (as_list (listen_one r w l).0, (listen_one r w l).1)
unfolding listen_one socket_listen
listen_one-IsBalanced r w l =
    let host = l.listener.host in
    let found = listen_addr host (host_to_addr r host false) in
    let port = short_port l.listener.port in
    kept-IsBalanced r l.listener found.0 found.1
      (bind_opened w found.1 port (open_socket w (w.socket (family_of found.1))))
      (listen_addr-named r host (host_to_addr r host false) refl)
      (bind_opened-Served w found.1 port (w.socket (family_of found.1)))

In-append_left : (d : Deed) (xs ys : List Deed) → In d xs → In d (xs ++ ys)
In-append_left d [] ys m = elim m [ ]
In-append_left d (x ∷ xs) ys (inl e) = inl e
In-append_left d (x ∷ xs) ys (inr m) = inr (In-append_left d xs ys m)

In-append_right : (d : Deed) (xs ys : List Deed) → In d ys → In d (xs ++ ys)
In-append_right d [] ys m = m
In-append_right d (x ∷ xs) ys m = inr (In-append_right d xs ys m)

All-IsOpen :
    (r : Resolver) (done more : List Deed) (ls : List Listening)
    → ((d : Deed) → In d done → In d more)
    → All (IsOpen r done) ls
    → All (IsOpen r more) ls
All-IsOpen r done more [] f h = tt
All-IsOpen r done more (l ∷ ls) f ((s, addr, e, named, m, n), h) =
    ((s, addr, e, named, f _ m, f _ n), All-IsOpen r done more ls f h)

IsBalanced-push_some :
    (r : Resolver) (new : Option Listening) (done : List Deed) (ls : List Listening)
    (more : List Deed)
    → IsBalanced r (as_list new, done)
    → IsBalanced r (ls, more)
    → IsBalanced r (push_some new ls, done ++ more)
IsBalanced-push_some r none done ls more (b, _) (c, h) = (
  λ s. omega (arith, opens-append s done more, closes-append s done more, b s, c s),
  All-IsOpen r more (done ++ more) ls (λ d. In-append_right d done more) h,
)
IsBalanced-push_some r (some l) done ls more (b, k) (c, h) = (
  λ s. omega (arith, opens-append s done more, closes-append s done more, b s, c s),
  (
    (All-IsOpen r done (done ++ more) (l ∷ []) (λ d. In-append_left d done more) k).0,
    All-IsOpen r more (done ++ more) ls (λ d. In-append_right d done more) h,
  ),
)

listened-IsBalanced :
    (r : Resolver) (ws : List Answers) (ls : List Listening) → IsBalanced r (listened r ws ls)
listened-IsBalanced r ws [] = ((λ _. refl), tt)
listened-IsBalanced r [] (l ∷ ls) = ((λ _. refl), tt)
listened-IsBalanced r (w ∷ ws) (l ∷ ls) =
    IsBalanced-push_some r (listen_one r w l).0 (listen_one r w l).1 (listened r ws ls).0
      (listened r ws ls).1 (listen_one-IsBalanced r w l) (listened-IsBalanced r ws ls)

-- Given answers for each listener, the creation of the listeners ends, and leaves open just the
-- sockets of the listeners that it keeps: a socket is opened as often as it is closed and held by a
-- listener. Each listener that is kept listens on the address that its host, as it then stands,
-- names, at the low 16 bits of its port.
pub listen_all-IsBalanced :
    (r : Resolver) (ws : List Answers) (ls : List Listener)
    → length ls ≤ length ws
    → (found : List Listening × List Deed) × (listen_all r ws ls ≡ (some found.0, found.1))
      × IsBalanced r found
listen_all-IsBalanced r ws ls enough = (
  listened r ws (unopened ls),
  listen_all-listened r ws ls enough,
  listened-IsBalanced r ws (unopened ls),
)
