-- ===== src/Proxy/Detect/Offers.antt =====
-- What the balancers have to offer an address, and the route that is detected for it.
use nuords_proxy.Prelude.{
  ℕ, ◌<◌, ◌≡◌, refl, ap, ◌∙◌, sym, subst, ◌⊎◌, inl, inr, Bool, true, false, Bool-cases,
  Option-cases, ◌&&◌, not, leb, if◌then◌else◌, Option, none, some, List, [], ◌∷◌, ◌++◌, In, All,
  arith,
}
use nuords_proxy.Inet.{Addr}
use nuords_proxy.Proxy.{Proxy, Server, Client, Route}
use nuords_proxy.Proxy.Select.{Double, score, select_server}
use nuords_proxy.Proxy.Select.Best.{IsFit}
use nuords_proxy.Proxy.Select.Choice.{Chooses, select_server-Chooses}
use nuords_proxy.Proxy.Detect.{
  in_sources, find_client, is_available, available, empty_route, detect_route,
}

-- A client of the list that has a free slot and the address among its sources.
pub record IsClient (at : ℕ → Client) (addr : Addr) (clients : List ℕ) (c : ℕ) : Type 0 where
  pub listed : In c clients
  pub free : (at c).num_slots < (at c).max_slots
  pub source : in_sources addr (at c).sources ≡ true

find_client-IsClient :
    (at : ℕ → Client) (addr : Addr) (clients : List ℕ) (c : ℕ)
    → find_client at addr clients ≡ some c
    → IsClient at addr clients c
unfolding find_client
find_client-IsClient at addr [] c e = cc
find_client-IsClient at addr (k ∷ clients) c e =
    elim (Bool-cases
      (not (leb (at k).max_slots (at k).num_slots) && in_sources addr (at k).sources)) [
        | inl good ↦
            let same : k ≡ c = ground arith in
            subst (IsClient at addr (k ∷ clients)) same
              (record { listed = inl refl; free = ground arith; source = ground arith })
        | inr bad ↦
            let rest = find_client-IsClient at addr clients c (ground arith) in
            record { listed = inr rest.listed; free = rest.free; source = rest.source }
      ]

find_client-none :
    (at : ℕ → Client) (addr : Addr) (clients : List ℕ)
    → find_client at addr clients ≡ none
    → (c : ℕ) → IsClient at addr clients c
    → ⊥
unfolding find_client
find_client-none at addr [] e c w = w.listed
find_client-none at addr (k ∷ clients) e c w = elim w.listed [
  | inl same ↦
      let good : IsClient at addr (k ∷ clients) k = subst (IsClient at addr (k ∷ clients)) same w in
      let free = good.free in let source = good.source in ground arith
  | inr m ↦
      find_client-none at addr clients (ground arith) c
        (record { listed = m; free = w.free; source = w.source })
]

-- Membership in a list that has one more element if a test holds.
In-kept :
    (b : Bool) (k s : ℕ) (xs : List ℕ)
    → In s (if b then k ∷ xs else xs)
    → (s ≡ k) × (b ≡ true) ⊎ In s xs
In-kept true k s xs (inl e) = inl (e, refl)
In-kept true k s xs (inr m) = inr m
In-kept false k s xs m = inr m

kept-In : (b : Bool) (k s : ℕ) (xs : List ℕ) → In s xs → In s (if b then k ∷ xs else xs)
kept-In true k s xs m = inr m
kept-In false k s xs m = m

In-append : (s : ℕ) (xs ys : List ℕ) → In s (xs ++ ys) → In s xs ⊎ In s ys
In-append s [] ys m = inr m
In-append s (x ∷ xs) ys (inl e) = inl (inl e)
In-append s (x ∷ xs) ys (inr m) = elim (In-append s xs ys m) [ inl l ↦ inl (inr l) | inr r ↦ inr r ]

append-In : (s : ℕ) (xs ys : List ℕ) → In s ys → In s (xs ++ ys)
append-In s [] ys m = m
append-In s (x ∷ xs) ys m = inr (append-In s xs ys m)

module _ (at : ℕ → Server) (nosvr : Option ℕ) where
  In-available :
      (svrs : List ℕ) (s : ℕ)
      → In s (available at nosvr svrs)
      → In s svrs × (is_available at nosvr s ≡ true)
  unfolding available
  In-available [] s m = elim m [ ]
  In-available (k ∷ svrs) s m = elim (In-kept (is_available at nosvr k) k s _ m) [
    | inl (same, good) ↦ (inl same, ap (is_available at nosvr) same ∙ good)
    | inr m' ↦ let (l, g) = In-available svrs s m' in (inr l, g)
  ]

  available-In :
      (svrs : List ℕ) (s : ℕ)
      → In s svrs
      → is_available at nosvr s ≡ true
      → In s (available at nosvr svrs)
  unfolding available
  available-In [] s m e = elim m [ ]
  available-In (k ∷ svrs) s (inl same) e =
      let good : is_available at nosvr k ≡ true = ap (is_available at nosvr) (sym same) ∙ e in
      rw good (inl same)
  available-In (k ∷ svrs) s (inr m) e =
      kept-In (is_available at nosvr k) k s _ (available-In svrs s m e)

-- A fit server of two lists, when none of the first is fit.
offered :
    (at : ℕ → Server) (xs ys : List ℕ) (s : ℕ)
    → ((j : ℕ) → In j xs → ¬ IsFit (at j))
    → In s (xs ++ ys)
    → IsFit (at s)
    → In s ys
offered at xs ys s unfit m fit = elim (In-append s xs ys m) [
  | inl l ↦ absurd (unfit s l fit)
  | inr r ↦ r
]

module _ (d : Double) (p : Proxy) (addr : Addr) (nosvr : Option ℕ) where
  -- Server `s` of balancer `b` may serve the address by client `c`.
  pub record IsOffer (bals : List ℕ) (b c s : ℕ) : Type 0 where
    pub balancer_listed : In b bals
    pub client : IsClient p.client_at addr (p.balancer_at b).clients c
    pub server_listed : In s (p.balancer_at b).servers
    pub is_available : is_available p.server_at nosvr s ≡ true
    pub fit : IsFit (p.server_at s)

  -- A route with a server is such an offer; without one, there is no offer.
  abbrev pub Detected : List ℕ → Route → Option ℕ → Type 0
  Detected bals r none = (b c s : ℕ) → ¬ IsOffer bals b c s
  Detected bals r (some s) =
      (b : ℕ) × (c : ℕ) × (r.balancer ≡ some b) × (r.client ≡ some c) × IsOffer bals b c s

  later :
      (bals : List ℕ) (b : ℕ) (r : Route) (o : Option ℕ)
      → ((c s : ℕ) → ¬ IsOffer (b ∷ bals) b c s)
      → Detected bals r o
      → Detected (b ∷ bals) r o
  later bals b r none skip h = λ b' c s w. elim w.balancer_listed [
    | inl same ↦ skip c s (subst (λ i. IsOffer (b ∷ bals) i c s) same w)
    | inr m ↦ h b' c s (record {
      balancer_listed = m;
      client = w.client;
      server_listed = w.server_listed;
      is_available = w.is_available;
      fit = w.fit;
    })
  ]
  later bals b r (some s) skip (b', c, eb, ec, w) = (
    b',
    c,
    eb,
    ec,
    record {
      balancer_listed = inr w.balancer_listed;
      client = w.client;
      server_listed = w.server_listed;
      is_available = w.is_available;
      fit = w.fit;
    },
  )

  module _ (numbers : (b j : ℕ) → d.number (score d (p.balancer_at b) (p.server_at j)) ≡ true) where
    AllNumbers :
        (b : ℕ) (xs : List ℕ)
        → All (λ j. d.number (score d (p.balancer_at b) (p.server_at j)) ≡ true) xs
    AllNumbers b [] = tt
    AllNumbers b (x ∷ xs) = (numbers b x, AllNumbers b xs)

    detect_route-from :
        (servers bals : List ℕ) (r : Route)
        → r.server ≡ none
        → ((j : ℕ) → In j servers → ¬ IsFit (p.server_at j))
        → (let r' = detect_route d p addr nosvr servers bals r in Detected bals r' r'.server)
    unfolding detect_route
    detect_route-from servers [] r e unfit = rw e λ b c s w. w.balancer_listed
    detect_route-from servers (b ∷ bals) r e unfit =
        let bal = p.balancer_at b in
        let at = p.server_at in
        elim (Option-cases (find_client p.client_at addr bal.clients)) [
          | inl bad ↦
              let found =
                detect_route d p addr nosvr servers bals (record r { balancer = some b }) in
              rw (bad, detect_route)
                (later bals b found found.server
                  (λ c s w. find_client-none p.client_at addr bal.clients bad c w.client)
                  (detect_route-from servers bals _ e unfit))
          | inr (c, client) ↦
              let servers' = servers ++ available at nosvr bal.servers in
              let choice = select_server-Chooses d at bal servers' (AllNumbers b servers') in
              elim (Option-cases (select_server d at bal servers')) [
                | inl bad ↦
                    let none_fit = subst (Chooses d at bal servers') bad choice in
                    let r' : Route = record r {
                      balancer = some b;
                      client = some c;
                      server = none;
                    } in
                    let found = detect_route d p addr nosvr servers' bals r' in
                    rw (client, detect_route)
                      (rw (bad, detect_route)
                        (later bals b found found.server
                          (λ c s w.
                            none_fit s
                              (append-In s servers (available at nosvr bal.servers) (
                                available-In at nosvr bal.servers s w.server_listed w.is_available))
                              w.fit)
                          (detect_route-from servers' bals _ refl none_fit)))
                | inr (s, server) ↦
                    let best = subst (Chooses d at bal servers') server choice in
                    let (listed, good) = In-available at nosvr bal.servers s (
                      offered at servers (available at nosvr bal.servers) s unfit best.listed
                        best.fit) in
                    rw (client, detect_route)
                      (rw server (
                        b,
                        c,
                        refl,
                        refl,
                        record {
                          balancer_listed = inl refl;
                          client = find_client-IsClient p.client_at addr bal.clients c client;
                          server_listed = listed;
                          is_available = good;
                          fit = best.fit;
                        },
                      ))
              ]
        ]

    -- Where no score is NaN: a route detected for an address leads to a server that its balancer
    -- lists, that is not the one to avoid, is active and within its limits, by a client that the
    -- balancer lists, has a free slot and knows the address. If it leads to no server, no balancer of
    -- the proxy has both such a client and such a server of positive weight.
    pub detect_route-Detected :
        let r = detect_route d p addr nosvr [] p.balancers empty_route in
        Detected p.balancers r r.server
    detect_route-Detected = detect_route-from [] p.balancers empty_route refl λ j m. elim m [ ]
