-- ===== src/Proxy/Relay/Passes.antt =====
-- A whole pass over a channel.
use nuords_proxy.Prelude.{ℕ, ◌≡◌, refl, ap, ◌∙◌, sym, Bool-cases, inl, inr, none, some, ◌++◌}
use nuords_proxy.Buffer.Stream.{grow-IsBuffer, content-grow}
use nuords_proxy.Proxy.{Proxy, Route, Channel}
use nuords_proxy.Proxy.Run.{Cmd, put_at}
use nuords_proxy.Proxy.Ownership.{Safe, safe, then-Safe, if_Safe, load_route-ok, follow-ok}
use nuords_proxy.Proxy.Relay.{
  Net, Traffic, can_read, can_write, buffer_size, adjust_buffers, reset_faults, become_connected,
  set_connected, Alive, read_source, read_target, write_source, write_target, still, relay,
}
use nuords_proxy.Proxy.Relay.Balanced.{
  Obeys, Balanced, do_read-Read, do_write-Written, Good, source_read-Good, target_read-Good,
  source_written-Good, target_written-Good,
}

-- Only the servers may differ: their faults are reset.
abbrev pub Served : Proxy → Proxy → Type 0
Served p q = q ≡ record p { server_at = q.server_at }

module _ (net : Net) (obeys : Obeys net) (p : Proxy) (chn : Channel) (r : Route) (s : ℕ)
    (live : p.route_at chn.route ≡ some r) (server : r.server ≡ some s) where
  -- A stage of a pass, from and to a channel that is in order.
  Keeps : (Channel → Traffic → Cmd Alive) → Type 0
  Keeps stage =
      (c : Channel) (t : Traffic) (q : Proxy)
      → Good chn (some (c, t))
      → Served p q
      → Safe (λ a q'. Good chn a × Served p q') (stage c t q)

  adjust_buffers-Balanced :
      (c : Channel) (t : Traffic) (q : Proxy) → Balanced c t → Balanced (adjust_buffers net q c) t
  unfolding adjust_buffers
  adjust_buffers-Balanced c t q w =
      let m = buffer_size net q c.source c.target in
      let n = buffer_size net q c.target c.source in
      record {
        source_buffer = grow-IsBuffer m c.source_input w.source_buffer;
        target_buffer = grow-IsBuffer n c.target_input w.target_buffer;
        forth =
            w.forth
            ∙ ap (λ xs. t.to_target ++ xs) (sym (content-grow m c.source_input w.source_buffer));
        back =
            w.back
            ∙ ap (λ xs. t.to_source ++ xs) (sym (content-grow n c.target_input w.target_buffer));
      }

  become_connected-Good :
      (c : Channel) (t : Traffic) (q : Proxy)
      → Good chn (some (c, t))
      → Served p q
      → Safe (λ c' q'. Good chn (some (c', t)) × Served p q') (become_connected net c q)
  unfolding become_connected reset_faults adjust_buffers
  become_connected-Good c t q (w, same) e =
      let live' : q.route_at c.route ≡ some r =
        ap (λ (a : ℕ). q.route_at a) same.1 ∙ (ap (λ (z : Proxy). z.route_at chn.route) e ∙ live) in
      let svr = q.server_at s in
      let v = adjust_buffers-Balanced c t q w in
      rw (load_route-ok c.route r q live') (
        rw (follow-ok r.server s q server) (
          safe (
            (
              record {
                source_buffer = v.source_buffer;
                target_buffer = v.target_buffer;
                forth = v.forth;
                back = v.back;
              },
              same,
            ),
            ap
                (λ (z : Proxy). record z {
                  server_at = put_at s (record svr { num_faults = 0 }) q.server_at;
                })
                e,
          )))

  set_connected-Good :
      (c : Channel) (t : Traffic) (q : Proxy)
      → Good chn (some (c, t))
      → Served p q
      → Safe (λ c' q'. Good chn (some (c', t)) × Served p q') (set_connected net c q)
  unfolding set_connected
  set_connected-Good c t q w e =
      if_Safe c.connected _ _ q (safe (w, e)) (become_connected-Good c t q w e)

  read_source-Keeps : Keeps (read_source net)
  unfolding Keeps read_source
  read_source-Keeps c t q (w, same) e = elim (Bool-cases (can_read net c.source c.source_input)) [
    | inr shut ↦ rw shut (safe ((w, same), e))
    | inl ready ↦ rw ready (
        safe (
          source_read-Good chn c t _
              (do_read-Read net obeys c.source c.source_input w.source_buffer) w same,
          e,
        ))
  ]

  write_source-Keeps : Keeps (write_source net)
  unfolding Keeps write_source
  write_source-Keeps c t q (w, same) e = elim (Bool-cases (can_write net c.source c.target_input)) [
    | inr shut ↦ rw shut (safe ((w, same), e))
    | inl ready ↦ rw ready (
        safe (
          source_written-Good chn c t _
              (do_write-Written net obeys c.source c.target_input w.target_buffer) w same,
          e,
        ))
  ]

  read_target-Keeps : Keeps (read_target net)
  unfolding Keeps read_target
  read_target-Keeps c t q (w, same) e = elim (Bool-cases (can_read net c.target c.target_input)) [
    | inr shut ↦ rw shut (safe ((w, same), e))
    | inl ready ↦ rw ready (
        then-Safe (set_connected-Good c t q (w, same) e) λ c' q' ((w', same'), e'). safe (
          target_read-Good chn c' t _
              (do_read-Read net obeys c'.target c'.target_input w'.target_buffer) w' same',
          e',
        ))
  ]

  write_target-Keeps : Keeps (write_target net)
  unfolding Keeps write_target
  write_target-Keeps c t q (w, same) e = elim (Bool-cases (can_write net c.target c.source_input)) [
    | inr shut ↦ rw shut (safe ((w, same), e))
    | inl ready ↦ rw ready (
        then-Safe (set_connected-Good c t q (w, same) e) λ c' q' ((w', same'), e'). safe (
          target_written-Good chn c' t _
              (do_write-Written net obeys c'.target c'.source_input w'.source_buffer) w' same',
          e',
        ))
  ]

  still-Good :
      (stage : Channel → Traffic → Cmd Alive) (a : Alive) (q : Proxy)
      → Keeps stage
      → Good chn a
      → Served p q
      → Safe (λ a' q'. Good chn a' × Served p q') (still stage a q)
  unfolding still Keeps
  still-Good stage none q k w e = safe (w, e)
  still-Good stage (some (c, t)) q k w e = k c t q w e

  relay-Good :
      (t : Traffic) → Balanced chn t → Safe (λ a q. Good chn a × Served p q) (relay net chn t p)
  unfolding relay Keeps
  relay-Good t w =
      then-Safe (read_source-Keeps chn t p (w, (refl, refl, refl, refl)) refl) λ a q (v, e).
        then-Safe (still-Good _ a q read_target-Keeps v e) λ b q' (v', e').
          then-Safe (still-Good _ b q' write_source-Keeps v' e')
            λ c q'' (v'', e''). still-Good _ c q'' write_target-Keeps v'' e''

-- For a channel in order whose route leads to a server, a pass does not fault. If the channel is
-- still there, what each socket has given since the start is what the other has been sent, followed
-- by what its buffer holds; the channel has its address, route and sockets, and of the proxy only
-- the servers may have changed.
pub relay-Balanced :
    (net : Net) (p : Proxy) (chn : Channel) (t : Traffic) (r : Route) (s : ℕ)
    → Obeys net
    → p.route_at chn.route ≡ some r
    → r.server ≡ some s
    → Balanced chn t
    → Safe (λ a q. Good chn a × Served p q) (relay net chn t p)
relay-Balanced net p chn t r s obeys live server w = relay-Good net obeys p chn r s live server t w
