-- ===== src/Proxy/Run.antt =====
-- Commands on the proxy's state. A read, write or deletion through a pointer to no route is a
-- fault, as is a NULL pointer that is followed.
use nuords_proxy.Prelude.{ℕ, suc, ◌==◌, if◌then◌else◌, Option, none, some, ◌∷◌}
use nuords_proxy.Proxy.{Proxy, Route}

pub data Run (A : Type 0) : Type 0 where
  ok : A → Proxy → Run A
  fault : Run A

abbrev pub Cmd : Type 0 → Type 0
Cmd A = Proxy → Run A

module _ {A B : Type 0} where
  abbrev pub and_then : Run A → (A → Cmd B) → Run B
  and_then fault _ = fault
  and_then (ok x p) next = next x p

  infixl 5 ◌>>=◌ ◌>>◌
  abbrev pub ◌>>=◌ : Cmd A → (A → Cmd B) → Cmd B
  m >>= next = λ p. and_then (m p) next

  abbrev pub ◌>>◌ : Cmd A → Cmd B → Cmd B
  m >> n = m >>= λ _. n

abbrev pub pure : {A : Type 0} → A → Cmd A
pure = ok

abbrev pub get : Cmd Proxy
get p = ok p p

abbrev pub modify : (Proxy → Proxy) → Cmd (Unit {0})
modify f p = ok tt (f p)

-- A pointer that must not be NULL.
unfoldable pub follow : Option ℕ → Cmd ℕ
follow none p = fault
follow (some a) p = ok a p

abbrev pub put_at {ℓ} : {A : Type ℓ} → ℕ → A → (ℕ → A) → ℕ → A
put_at a v f b = if b == a then v else f b

unfoldable pub load_route : ℕ → Cmd Route
load_route a p = elim (p.route_at a) [ none ↦ fault | some r ↦ ok r p ]

unfoldable pub store_route : ℕ → Route → Cmd (Unit {0})
store_route a r p = elim (p.route_at a) [
  | none ↦ fault
  | some _ ↦ ok tt (record p { route_at = put_at a (some r) p.route_at })
]

unfoldable pub free_route : ℕ → Cmd (Unit {0})
free_route a p = elim (p.route_at a) [
  | none ↦ fault
  | some _ ↦ ok tt (record p { route_at = put_at a none p.route_at })
]

unfoldable pub new_route : Route → Cmd ℕ
new_route r p =
    ok p.next_addr
      (record p { route_at = put_at p.next_addr (some r) p.route_at; next_addr = suc p.next_addr })

-- `nrdpx_socket_close`: nothing to close at `NRD_NOSOCK`.
unfoldable pub socket_close : Option ℕ → Cmd (Unit {0})
socket_close none p = ok tt p
socket_close (some s) p = ok tt (record p { closed = s ∷ p.closed })

unfoldable pub server_slots : (ℕ → ℕ) → ℕ → Cmd (Unit {0})
server_slots f s p =
    let svr = p.server_at s in
    ok tt
      (record p { server_at = put_at s (record svr { num_slots = f svr.num_slots }) p.server_at })

unfoldable pub client_slots : (ℕ → ℕ) → ℕ → Cmd (Unit {0})
client_slots f c p =
    let cln = p.client_at c in
    ok tt
      (record p { client_at = put_at c (record cln { num_slots = f cln.num_slots }) p.client_at })
