-- ===== src/Process/Released.antt =====
-- What the end of the process releases, and how often.
use nuords_proxy.Prelude.{
  ℕ, ◌≡◌, refl, sym, subst, arith, true, Bool-cases, inl, inr, Option, none, some, List, [], ◌∷◌,
}
use nuords_proxy.Proxy.{Proxy, Channel, Route}
use nuords_proxy.Proxy.Run.{◌>>◌}
use nuords_proxy.Proxy.Ownership.{
  Safe, safe, then-Safe, socket_close-ok, slots_of, keys_of, held_by, Owned, Wf, IsSound,
}
use nuords_proxy.Proxy.Ownership.Linked.{channel_delete-Wf}
use nuords_proxy.Proxy.Select.{Double}
use nuords_proxy.Proxy.Loop.{Pass, main_loop}
use nuords_proxy.Proxy.Loop.Sound.{Steady, ObeysAll, main_loop-Steady}
use nuords_proxy.Process.Exit.{delete_channels, close_sockets, release_channels}

delete_channels-Wf :
    (time : Channel → ℕ) (chns : List Channel) (p : Proxy)
    → Wf p (λ a. slots_of a chns) (held_by none)
    → Safe (λ _ q. Wf q (λ _. 0) (held_by none)) (delete_channels time chns p)
unfolding delete_channels
delete_channels-Wf time [] p w = safe w
delete_channels-Wf time (c ∷ chns) p w =
    then-Safe (channel_delete-Wf (time c) c p (λ a. slots_of a chns) w)
      (λ _ q (v, _). delete_channels-Wf time chns q v)

close_sockets-Wf :
    (socks : List (Option ℕ)) (p : Proxy) (n : ℕ → ℕ)
    → Wf p n (held_by none)
    → Safe (λ _ q. Wf q n (held_by none) × (q.channels ≡ p.channels)) (close_sockets socks p)
unfolding close_sockets
close_sockets-Wf [] p n w = safe (w, refl)
close_sockets-Wf (s ∷ socks) p n w =
    let (closed, e) = socket_close-ok s p in
    rw e (
      close_sockets-Wf socks (record p { closed = closed }) n
        (record { owned = w.owned; fresh = w.fresh; distinct = w.distinct }))

-- Only routes that the cache keeps, and none of them in use.
abbrev pub OnlyCached : Proxy → Type 0
OnlyCached q = (a : ℕ) (r : Route) → q.route_at a ≡ some r → (r.cached ≡ true) × (r.num_slots ≡ 0)

unused :
    (o : Option Route) (k : ℕ) (r : Route)
    → Owned o 0 k 0
    → o ≡ some r
    → (r.cached ≡ true) × (r.num_slots ≡ 0)
unused o k r w e = elim (Bool-cases r.cached) [
  | inl cached ↦ (cached, ground (arith, subst (λ o. Owned o 0 k 0) e w))
  | inr own ↦ absurd (ground (arith, subst (λ o. Owned o 0 k 0) e w))
]

-- In a sound state, the release of the listeners and channels faults at nothing. Every route of a
-- channel is freed or, if the cache keeps it, left with no slots.
release_channels-OnlyCached :
    (time : Channel → ℕ) (socks : List (Option ℕ)) (p : Proxy)
    → IsSound p
    → Safe (λ _ q. (q.channels ≡ []) × OnlyCached q) (release_channels time socks p)
unfolding release_channels
release_channels-OnlyCached time socks p w =
    then-Safe (close_sockets-Wf socks p (λ a. slots_of a p.channels) w) (λ _ q (v, same).
      then-Safe
        (delete_channels-Wf time q.channels q
          (subst (λ chns. Wf q (λ a. slots_of a chns) (held_by none)) (sym same) v))
        (λ _ u x.
          safe (refl, λ a r e. unused (u.route_at a) (keys_of a u.cache.routes) r (x.owned a) e)))

-- The proxy, from a state in order through any number of passes of the main loop to the point in its
-- destructor where the listeners and channels are released, faults at nothing, if `recv` and `send`
-- give no more than they are asked for: no route is deleted twice or read after its deletion. Then no
-- channel is left, and no route but those that the cache keeps, with no slots in use.
pub main_loop-release_channels :
    (d : Double) (passes : List Pass) (time : Channel → ℕ) (socks : List (Option ℕ)) (p : Proxy)
    → ObeysAll passes
    → Steady p
    → Safe
        (λ _ q. (q.channels ≡ []) × OnlyCached q)
        ((main_loop d passes >> release_channels time socks) p)
main_loop-release_channels d passes time socks p obeys steady =
    then-Safe (main_loop-Steady d passes p obeys steady)
      (λ _ q (w, _). release_channels-OnlyCached time socks q w)
