-- ===== src/Proxy/Loop/Sound.antt =====
-- The state of the proxy over the turns and passes of the main loop.
use nuords_proxy.Prelude.{
  ℕ, suc, ◌≡◌, refl, ap, ◌∙◌, sym, subst, Bool, not, if◌then◌else◌, Option, none, some, List, [],
  ◌∷◌, All,
}
use nuords_proxy.Buffer.Stream.{IsBuffer, empty_buffer-IsBuffer}
use nuords_proxy.Proxy.{Proxy, Route, Channel}
use nuords_proxy.Proxy.Select.{Double}
use nuords_proxy.Proxy.Channels.{del_channel}
use nuords_proxy.Proxy.Connect.{Os, channel_create}
use nuords_proxy.Proxy.Relay.{Net, Alive}
use nuords_proxy.Proxy.Relay.Balanced.{Obeys, Balanced, Good}
use nuords_proxy.Proxy.Relay.Passes.{Served, relay-Balanced}
use nuords_proxy.Proxy.Ownership.{
  Safe, safe, then-Safe, if_Safe, mono-Safe, load_route-ok, follow-ok, slots_of, keys_of, held_by,
  Wf, IsSound,
}
use nuords_proxy.Proxy.Ownership.Linked.{
  check_route_ends, Owned-used, Wf-slots, del_channel-IsSound,
}
use nuords_proxy.Proxy.Ownership.Finished.{Settled, channel_create-IsSound}
use nuords_proxy.Proxy.Loop.{
  has_failed, count_fault, retry, nth, replace, store_channel, fail_over, in_hand, settle, visit,
  Turn, turns, turn_at, accept_all, main_pass, Pass, main_loop,
}
use nuords_proxy.Proxy.Loop.Places.{
  slots_of-replace, slots_of-nth, nth-append, All-nth, All-replace, All-append, All-erase,
}

-- Both buffers of a channel lie within their memory.
abbrev pub Buffered : Channel → Type 0
Buffered chn = IsBuffer chn.source_input × IsBuffer chn.target_input

-- The invariant of the main loop.
abbrev pub Steady : Proxy → Type 0
Steady p = IsSound p × All Buffered p.channels

-- A new channel joins the list, and no place of the list changes.
Settled-Buffered :
    (src : ℕ) (chns : List Channel) (res : Option Channel) (q : Proxy)
    → Settled src chns res q
    → All Buffered chns
    → All Buffered q.channels
Settled-Buffered src chns none q (e, _) h = subst (All Buffered) (sym e) h
Settled-Buffered src chns (some c) q (e, (_, e1, e2)) h = subst (All Buffered) (sym e) (
    All-append Buffered chns c h (
      subst IsBuffer (sym e1) empty_buffer-IsBuffer,
      subst IsBuffer (sym e2) empty_buffer-IsBuffer,
    ))

Settled-nth :
    (src : ℕ) (chns : List Channel) (res : Option Channel) (q : Proxy) (i : ℕ) (c : Channel)
    → Settled src chns res q
    → nth i chns ≡ some c
    → nth i q.channels ≡ some c
Settled-nth src chns none q i c (e, _) at = ap (nth i) e ∙ at
Settled-nth src chns (some new) q i c (e, _) at = ap (nth i) e ∙ nth-append i c chns (new ∷ []) at

create-Steady :
    (d : Double) (os : Os) (src now : ℕ) (nosvr : Option ℕ) (p : Proxy)
    → Steady p
    → Safe (λ res q. Steady q × Settled src p.channels res q) (channel_create d os src now nosvr p)
create-Steady d os src now nosvr p (w, h) =
    mono-Safe (channel_create-IsSound d os src now nosvr p w)
      λ res q (v, e). ((v, Settled-Buffered src p.channels res q e h), e)

store_channel-Steady :
    (i : ℕ) (c chn : Channel) (p : Proxy)
    → Steady p
    → nth i p.channels ≡ some c
    → chn.route ≡ c.route
    → Buffered chn
    → Safe (λ _ q. Steady q) (store_channel i chn p)
unfolding store_channel
store_channel-Steady i c chn p (w, h) at same b =
    let chns = replace i chn p.channels in
    let w' : Wf (record p { channels = chns }) (λ a. slots_of a p.channels) (held_by none) =
      record { owned = w.owned; fresh = w.fresh; distinct = w.distinct } in
    safe (
      Wf-slots _ _ _ (λ a. sym (slots_of-replace a i c chn p.channels at same)) w',
      All-replace Buffered i chn p.channels h b,
    )

del_channel-Steady :
    (time self : ℕ) (p : Proxy) → Steady p → Safe (λ _ q. Steady q) (del_channel time self p)
del_channel-Steady time self p (w, h) =
    mono-Safe (del_channel-IsSound time self p w)
      λ _ q (v, e). (v, subst (All Buffered) (sym e) (All-erase Buffered self p.channels h))

-- The route of a channel in the list is live and leads to a server.
route_served :
    (i : ℕ) (c : Channel) (p : Proxy)
    → IsSound p
    → nth i p.channels ≡ some c
    → (r : Route) × (s : ℕ) × (p.route_at c.route ≡ some r) × (r.server ≡ some s)
route_served i c p w at =
    let a = c.route in
    let (r, live, links) =
      Owned-used (p.route_at a) (slots_of a p.channels) (keys_of a p.cache.routes) (w.owned a)
        (slots_of-nth i c p.channels at) in
    let (_, _, s, _, _, es) = check_route_ends r.balancer r.client r.server links in
    (r, s, live, es)

retry-Steady :
    (d : Double) (os : Os) (now server : ℕ) (src : Option ℕ) (i : ℕ) (c : Channel) (p : Proxy)
    → Steady p
    → nth i p.channels ≡ some c
    → Safe (λ _ q. Steady q × (nth i q.channels ≡ some c)) (retry d os now server src p)
unfolding retry
retry-Steady d os now server none i c p w at = safe (w, at)
retry-Steady d os now server (some src) i c p w at =
    mono-Safe (create-Steady d os src now (some server) p w)
      λ res q (v, e). (v, Settled-nth src p.channels res q i c e at)

fail_over-at :
    (d : Double) (os : Os) (now time i : ℕ) (chn : Channel) (r : Route) (s : ℕ) (p : Proxy)
    → Steady p
    → nth i p.channels ≡ some chn
    → p.route_at chn.route ≡ some r
    → r.server ≡ some s
    → Safe (λ _ q. Steady q) (fail_over d os now time i chn p)
unfolding fail_over count_fault
fail_over-at d os now time i chn r s p (w, h) at live es = rw (load_route-ok chn.route r p live) (
    rw (follow-ok r.server s p es) (
      then-Safe
        (retry-Steady d os now s chn.source i chn _
          (record { owned = w.owned; fresh = w.fresh; distinct = w.distinct }, h) at)
        λ _ q (v, at').
          then-Safe
            (store_channel-Steady i chn (record chn { source = none }) q v at' refl
              (All-nth Buffered i chn q.channels v.1 at'))
            λ _ q' u. del_channel-Steady time chn.self q' u))

fail_over-Steady :
    (d : Double) (os : Os) (now time i : ℕ) (chn : Channel) (p : Proxy)
    → Steady p
    → nth i p.channels ≡ some chn
    → Safe (λ _ q. Steady q) (fail_over d os now time i chn p)
unfolding fail_over count_fault
fail_over-Steady d os now time i chn p w at =
    let (r, s, live, es) = route_served i chn p w.0 at in
    fail_over-at d os now time i chn r s p w at live es

in_hand-Balanced : (chn : Channel) → Buffered chn → Balanced chn (in_hand chn)
in_hand-Balanced chn (b, c) = record {
  source_buffer = b;
  target_buffer = c;
  forth = refl;
  back = refl;
}

Served-Steady : (p q : Proxy) → Served p q → Steady p → Steady q
Served-Steady p q e (w, h) =
    subst Steady (sym e) (record { owned = w.owned; fresh = w.fresh; distinct = w.distinct }, h)

settle-Steady :
    (time i : ℕ) (chn : Channel) (a : Alive) (p : Proxy)
    → Good chn a
    → Steady p
    → nth i p.channels ≡ some chn
    → Safe (λ _ q. Steady q) (settle time i chn.self a p)
unfolding settle
settle-Steady time i chn none p good w at =
    then-Safe (del_channel-Steady time chn.self p w) λ _ q v. safe v
settle-Steady time i chn (some (c, t)) p (b, (_, same, _, _)) w at =
    then-Safe (store_channel-Steady i chn c p w at same (b.source_buffer, b.target_buffer))
      λ _ q v. safe v

visit-Steady :
    (d : Double) (os : Os) (net : Net) (selected : Bool) (now time i : ℕ) (chn : Channel)
    (p : Proxy)
    → Obeys net
    → Steady p
    → nth i p.channels ≡ some chn
    → Safe (λ _ q. Steady q) (visit d os net selected now time i chn p)
unfolding visit
visit-Steady d os net selected now time i chn p obeys w at =
    let (r, s, live, es) = route_served i chn p w.0 at in
    if_Safe (has_failed net p.conn_timeout now chn) _ _ p
      (then-Safe (fail_over-Steady d os now time i chn p w at) λ _ q v. safe v)
      (if_Safe (not selected) _ _ p (safe w) (
        then-Safe
          (relay-Balanced net p chn (in_hand chn) r s obeys live es
            (in_hand-Balanced chn (All-nth Buffered i chn p.channels w.1 at)))
          λ a q (good, e).
            settle-Steady time i chn a q good (Served-Steady p q e w)
              (ap (λ (z : Proxy). nth i z.channels) e ∙ at)))

turn_at-Steady :
    (d : Double) (selected : Bool) (now : ℕ) (answers : List Turn) (i : ℕ) (found : Option Channel)
    (p : Proxy)
    → nth i p.channels ≡ found
    → All (λ turn. Obeys turn.net) answers
    → Steady p
    → Safe (λ _ q. Steady q) (turn_at d selected now answers i found p)
unfolding turn_at
turn_at-Steady d selected now answers i none p e obeys w = safe w
turn_at-Steady d selected now [] i (some chn) p e obeys w = safe w
turn_at-Steady d selected now (turn ∷ rest) i (some chn) p e (o, os) w =
    then-Safe (visit-Steady d turn.os turn.net selected now turn.time i chn p o w e) λ gone q v.
      let j = if gone then i else suc i in
      turn_at-Steady d selected now rest j (nth j q.channels) q refl os v

accept_all-Steady :
    (d : Double) (now : ℕ) (accepted : List (ℕ × Os)) (p : Proxy)
    → Steady p
    → Safe (λ _ q. Steady q) (accept_all d now accepted p)
unfolding accept_all
accept_all-Steady d now [] p w = safe w
accept_all-Steady d now ((sock, os) ∷ rest) p w =
    then-Safe (create-Steady d os sock now none p w) λ _ q (v, _). accept_all-Steady d now rest q v

main_pass-Steady :
    (d : Double) (selected : Bool) (now : ℕ) (accepted : List (ℕ × Os)) (answers : List Turn)
    (p : Proxy)
    → All (λ turn. Obeys turn.net) answers
    → Steady p
    → Safe (λ _ q. Steady q) (main_pass d selected now accepted answers p)
unfolding main_pass turns
main_pass-Steady d selected now accepted answers p obeys w =
    then-Safe (if_Safe selected _ _ p (accept_all-Steady d now accepted p w) (safe w))
      λ _ q v. turn_at-Steady d selected now answers 0 (nth 0 q.channels) q refl obeys v

-- `recv` and `send` keep their promise in every turn.
abbrev pub ObeysAll : List Pass → Type 0
ObeysAll passes = All (λ pass. All (λ turn. Obeys turn.net) pass.answers) passes

-- The main loop, for any number of passes with any sockets accepted, any answers of the system
-- (`recv` and `send` give no more than they are asked for) and any failures of connections, from a
-- state where every route is held by its channels and its cache entry as it records and every buffer
-- lies within its memory: no route is read, written or freed that is not there, no NULL pointer is
-- followed, and the state at the end is again such a state.
pub main_loop-Steady :
    (d : Double) (passes : List Pass) (p : Proxy)
    → ObeysAll passes
    → Steady p
    → Safe (λ _ q. Steady q) (main_loop d passes p)
unfolding main_loop
main_loop-Steady d [] p obeys w = safe w
main_loop-Steady d (pass ∷ rest) p (o, os) w =
    then-Safe (main_pass-Steady d pass.selected pass.now pass.accepted pass.answers p o w)
      λ _ q v. main_loop-Steady d rest q os v
