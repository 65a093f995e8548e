-- ===== src/Proxy/Ownership/Finished.antt =====
-- The ends of `nrdpx_channel_create`: with a channel that is installed, or with nothing.
use nuords_proxy.Prelude.{
  ℕ, suc, ◌+◌, ◌%◌, ◌^◌, ◌≡◌, refl, ap, ◌∙◌, sym, subst, inl, inr, true, false, Bool-cases, ◌==◌,
  ==_self, if◌then◌else◌, if_true, is_empty, Option, none, some, List, [], ◌∷◌, ◌++◌, Bytes, arith,
}
use nuords_proxy.Prelude.{In}
use nuords_proxy.Buffer.{empty_buffer}
use nuords_proxy.Inet.{Addr}
use nuords_proxy.Inet.Hosts.{addr_to_host}
use nuords_proxy.Proxy.{Proxy, Route, Channel}
use nuords_proxy.Proxy.Run.{put_at, free_route, client_slots, server_slots, socket_close}
use nuords_proxy.Proxy.Caching.{cache_remove}
use nuords_proxy.Proxy.Select.{Double}
use nuords_proxy.Proxy.Channels.{channel_new, add_channel}
use nuords_proxy.Proxy.Connect.{
  Os, Attempt, failed, connected, check_route, give_up, install, finish, refuse_source, serve,
  obtain_route, accept_peer, channel_create,
}
use nuords_proxy.Proxy.Ownership.{
  Safe, safe, then-Safe, mono-Safe, load_route-ok, store_route-ok, free_route-ok, follow-ok,
  socket_close-ok, slots_of, keys_of, held_by, Owned, Wf, IsSound,
}
use nuords_proxy.Proxy.Ownership.Cached.{cache_add-Wf, cache_remove-Wf}
use nuords_proxy.Proxy.Ownership.Linked.{
  check_route_ends, plus, slots_of-append, Wf-slots, Wf-linked,
}
use nuords_proxy.Proxy.Ownership.Created.{Own, Leads, obtain_route-Obtained, attempt_route-Leads}
use nuords_proxy.Proxy.Ownership.Frame.{core, Safe-Kept, cache_remove-Kept, obtain_route-Kept}

-- A channel as it is made: with the accepted socket and nothing in its buffers.
abbrev pub IsNew : Option ℕ → Channel → Type 0
IsNew src chn =
    (chn.source ≡ src) × (chn.source_input ≡ empty_buffer) × (chn.target_input ≡ empty_buffer)

-- What becomes of an accepted socket: a new channel at the end of the list, or it is closed.
abbrev pub Settled : ℕ → List Channel → Option Channel → Proxy → Type 0
Settled src chns none q = (q.channels ≡ chns) × In src q.closed
Settled src chns (some chn) q = (q.channels ≡ chns ++ chn ∷ []) × IsNew (some src) chn

-- A channel of `nrdpx_channel_t`'s constructor, over a route that is not held any more.
abbrev Linked : Option ℕ → (ℕ → ℕ) → ℕ → Route → Proxy → Channel → Proxy → Type 0
Linked src n a r p chn q =
    (chn.route ≡ a)
    × IsNew src chn
    × (q.channels ≡ p.channels)
    × ((r' : Route) × (q.route_at a ≡ some r') × (r'.cached ≡ r.cached))
    × Wf q (plus a n) (held_by none)

channel_new-at-Linked :
    (time : ℕ) (src dst : Option ℕ) (a now : ℕ) (r : Route) (c s : ℕ) (p : Proxy) (n : ℕ → ℕ)
    (held : Option ℕ)
    → Wf p n (held_by held)
    → p.route_at a ≡ some r
    → Own r a held
    → check_route r.balancer r.client r.server ≡ true
    → r.client ≡ some c
    → r.server ≡ some s
    → Safe (Linked src n a r p) (channel_new time src dst a now p)
unfolding channel_new client_slots server_slots
channel_new-at-Linked time src dst a now r c s p n held w live own links ec es =
    let p' : Proxy = record p {
      next_addr = suc p.next_addr;
      id_count = (p.id_count + 1) % 2 ^ 64;
    } in
    let r' : Route = record r { act_time = time; num_slots = r.num_slots + 1 } in
    rw (load_route-ok a r p' live, store_route-ok a r r' p' live)
      (rw (follow-ok r.client c _ ec) (
        rw (follow-ok r.server s _ es) (
          safe (
            refl,
            (refl, refl, refl),
            refl,
            (r', if_true _ _ _ (==_self a), refl),
            Wf-linked p n held a time r _ _ _ w live own links,
          ))))

channel_new-Linked :
    (time : ℕ) (src dst : Option ℕ) (a now : ℕ) (r : Route) (p : Proxy) (n : ℕ → ℕ)
    (held : Option ℕ)
    → Wf p n (held_by held)
    → p.route_at a ≡ some r
    → Own r a held
    → check_route r.balancer r.client r.server ≡ true
    → Safe (Linked src n a r p) (channel_new time src dst a now p)
channel_new-Linked time src dst a now r p n held w live own links =
    let (b, c, s, eb, ec, es) = check_route_ends r.balancer r.client r.server links in
    channel_new-at-Linked time src dst a now r c s p n held w live own links ec es

add_channel-IsSound :
    (p : Proxy) (chn : Channel)
    → Wf p (plus chn.route λ a. slots_of a p.channels) (held_by none)
    → Safe (λ _ q. IsSound q × (q.channels ≡ p.channels ++ chn ∷ [])) (add_channel chn p)
unfolding add_channel
add_channel-IsSound p chn w =
    let w' : Wf (record p { channels = p.channels ++ chn ∷ [] })
        (plus chn.route λ a. slots_of a p.channels) (held_by none) =
      record { owned = w.owned; fresh = w.fresh; distinct = w.distinct } in
    safe (Wf-slots _ _ _ (λ a. sym (slots_of-append a p.channels chn)) w', refl)

install-IsSound :
    (time : ℕ) (key : Bytes) (r : Route) (chn : Channel) (src : ℕ) (p : Proxy)
    → IsNew (some src) chn
    → p.route_at chn.route ≡ some r
    → Wf p (plus chn.route λ a. slots_of a p.channels) (held_by none)
    → Safe (λ res q. IsSound q × Settled src p.channels res q) (install time key chn.route chn p)
unfolding install
install-IsSound time key r chn src p new live w =
    let a = chn.route in
    let n : ℕ → ℕ = plus a λ b. slots_of b p.channels in
    rw (load_route-ok a r p live) elim (Bool-cases r.cached) [
      | inl cached ↦
          rw cached (then-Safe (add_channel-IsSound p chn w) λ _ q (v, e). safe (v, (e, new)))
      | inr own ↦ rw own (
          then-Safe (cache_add-Wf p n (held_by none) time key a r w live own refl) λ _ q (v, kept).
            then-Safe
              (add_channel-IsSound q chn
                (subst (λ chns. Wf q (plus a λ b. slots_of b chns) (held_by none)) (sym kept) v))
              λ _ q' (u, e).
                safe (u, (e ∙ ap (λ (chns : List Channel). chns ++ chn ∷ []) kept, new)))
    ]

-- The route that the function still holds is freed.
Wf-freed :
    (p : Proxy) (n : ℕ → ℕ) (a : ℕ) (r : Route)
    → Wf p n (held_by (some a))
    → p.route_at a ≡ some r
    → r.cached ≡ false
    → Wf (record p { route_at = put_at a none p.route_at }) n (held_by none)
Wf-freed p n a r w live own = record {
  owned = λ b.
      let k = keys_of b p.cache.routes in
      let wa =
        subst (λ o. Owned o (n a) (keys_of a p.cache.routes) (held_by (some a) a)) live
          (w.owned a) in
      elim (Bool-cases (b == a)) [
        | inl same ↦ rw same (ground (arith, ==_self a))
        | inr other ↦
            rw other (subst (λ x. Owned (p.route_at b) (n b) k x) (ground arith) (w.owned b))
      ];
  fresh = λ b le. ground (arith, w.fresh b);
  distinct = w.distinct;
}

release-IsSound :
    (key : Bytes) (a : ℕ) (r : Route) (held : Option ℕ) (p : Proxy)
    → Wf p (λ b. slots_of b p.channels) (held_by held)
    → p.route_at a ≡ some r
    → Own r a held
    → Safe
        (λ _ q. IsSound q × (q.channels ≡ p.channels) × (q.closed ≡ p.closed))
        ((if r.cached then cache_remove key else free_route a) p)
release-IsSound key a r held p w live (inl (cached, e)) =
    let w' = subst (λ h. Wf p (λ b. slots_of b p.channels) (held_by h)) e w in
    rw cached (
      mono-Safe
        (Safe-Kept (core p) (cache_remove key p) (cache_remove-Wf p _ _ w' key)
          (cache_remove-Kept (core p) key p refl))
        λ _ q (v, kept). (
          subst (λ (chns : List Channel). Wf q (λ b. slots_of b chns) (held_by none))
              (sym (ap (λ z. z.0) kept)) v,
          ap (λ z. z.0) kept,
          ap (λ z. z.1) kept,
        ))
release-IsSound key a r held p w live (inr (own, e)) =
    let w' = subst (λ h. Wf p (λ b. slots_of b p.channels) (held_by h)) e w in
    rw (own, free_route-ok a r p live) (safe (Wf-freed p _ a r w' live own, refl, refl))

give_up-IsSound :
    (key : Bytes) (svr_sock : Option ℕ) (src a : ℕ) (r : Route) (held : Option ℕ) (p : Proxy)
    → Wf p (λ b. slots_of b p.channels) (held_by held)
    → p.route_at a ≡ some r
    → Own r a held
    → Safe (λ res q. IsSound q × Settled src p.channels res q) (give_up key svr_sock (some src) a p)
unfolding give_up socket_close
give_up-IsSound key svr_sock src a r held p w live own =
    let (c1, e1) = socket_close-ok svr_sock p in
    let p2 : Proxy = record p { closed = src ∷ c1 } in
    let w2 : Wf p2 (λ b. slots_of b p.channels) (held_by held) = record {
      owned = w.owned;
      fresh = w.fresh;
      distinct = w.distinct;
    } in
    rw (e1, load_route-ok a r p2 live)
      (then-Safe (release-IsSound key a r held p2 w2 live own) λ _ q (v, kept, shut).
        safe (v, (kept, subst (λ (l : List ℕ). In src l) (sym shut) (inl refl))))

finish-IsSound :
    (os : Os) (now : ℕ) (key : Bytes) (src a : ℕ) (t : Attempt) (r : Route) (held : Option ℕ)
    (p : Proxy)
    → Wf p (λ b. slots_of b p.channels) (held_by held)
    → p.route_at a ≡ some r
    → Own r a held
    → Leads t r
    → Safe (λ res q. IsSound q × Settled src p.channels res q) (finish os now key (some src) a t p)
unfolding finish
finish-IsSound os now key src a (failed svr_sock) r held p w live own links =
    give_up-IsSound key svr_sock src a r held p w live own
finish-IsSound os now key src a (connected svr_sock) r held p w live own links =
    then-Safe
      (channel_new-Linked os.time_open (some src) svr_sock a now r p _ held w live own links)
      λ chn q (at, new, kept, (r', live', _), v).
        subst
          (λ b.
            Safe (λ res z. IsSound z × Settled src p.channels res z)
              (install os.time_add key b chn q))
          at
          (subst
            (λ (chns : List Channel).
              Safe (λ res z. IsSound z × Settled src chns res z)
                (install os.time_add key chn.route chn q))
            kept
            (install-IsSound os.time_add key r' chn src q new
              (subst (λ b. q.route_at b ≡ some r') (sym at) live')
              (subst
                (λ (chns : List Channel). Wf q (plus chn.route λ b. slots_of b chns) (held_by none))
                (sym kept)
                (subst (λ b. Wf q (plus b λ b. slots_of b p.channels) (held_by none)) (sym at) v))))

serve-IsSound :
    (d : Double) (os : Os) (src_sock now : ℕ) (nosvr : Option ℕ) (addr : Addr) (key : Bytes)
    (p : Proxy)
    → IsSound p
    → Safe
        (λ res q. IsSound q × Settled src_sock p.channels res q)
        (serve d os src_sock now nosvr addr key p)
unfolding serve
serve-IsSound d os src_sock now nosvr addr key p w =
    then-Safe
      (Safe-Kept (core p) (obtain_route d os.time_find addr key nosvr p)
        (obtain_route-Obtained d os.time_find addr key nosvr p _ w)
        (obtain_route-Kept (core p) d os.time_find addr key nosvr p refl))
      λ a q ((r, held, live, own, v), kept).
        let chns : q.channels ≡ p.channels = ap (λ z. z.0) kept in
        then-Safe (attempt_route-Leads os a r q live) λ t q' ((closed, e), links).
          let q1 : Proxy = record q { closed = closed } in
          subst
            (λ (z : Proxy).
              Safe (λ res y. IsSound y × Settled src_sock p.channels res y)
                (finish os now key (some src_sock) a t z))
            (sym e)
            (subst
              (λ (l : List Channel).
                Safe (λ res y. IsSound y × Settled src_sock l res y)
                  (finish os now key (some src_sock) a t q1))
              chns
              (finish-IsSound os now key src_sock a t r held q1
                (let u =
                    subst (λ (l : List Channel). Wf q (λ b. slots_of b l) (held_by held)) (sym chns)
                      v in
                  record { owned = u.owned; fresh = u.fresh; distinct = u.distinct })
                live own links))

accept_peer-IsSound :
    (d : Double) (os : Os) (src_sock now : ℕ) (nosvr : Option ℕ) (peer : Option Addr) (p : Proxy)
    → IsSound p
    → Safe
        (λ res q. IsSound q × Settled src_sock p.channels res q)
        (accept_peer d os src_sock now nosvr peer p)
unfolding accept_peer refuse_source socket_close
accept_peer-IsSound d os src_sock now nosvr none p w =
    safe (record { owned = w.owned; fresh = w.fresh; distinct = w.distinct }, (refl, inl refl))
accept_peer-IsSound d os src_sock now nosvr (some addr) p w =
    let key = addr_to_host os.resolver addr in
    elim (Bool-cases (is_empty key)) [
      | inl nameless ↦ rw nameless (
          safe
            (record { owned = w.owned; fresh = w.fresh; distinct = w.distinct }, (refl, inl refl)))
      | inr named ↦ rw named (serve-IsSound d os src_sock now nosvr addr key p w)
    ]

-- In a sound state, whatever the system answers and whichever server has failed: the call reads,
-- writes and deletes no route that is not there, and follows no NULL pointer. The state is sound
-- after it, and the accepted socket is either closed, with the list of channels as it was, or that
-- of a new channel at the end of the list whose buffers are empty.
pub channel_create-IsSound :
    (d : Double) (os : Os) (src_sock now : ℕ) (nosvr : Option ℕ) (p : Proxy)
    → IsSound p
    → Safe
        (λ res q. IsSound q × Settled src_sock p.channels res q)
        (channel_create d os src_sock now nosvr p)
channel_create-IsSound d os src_sock now nosvr p w =
    accept_peer-IsSound d os src_sock now nosvr (os.getpeername src_sock) p w
