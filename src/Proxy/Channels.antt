-- ===== src/Proxy/Channels.antt =====
-- `nrdpx_channel_t` of src/nrdpx_server.cpp: making and destroying a channel, and the proxy's list
-- of channels. `now` and `time` are the two readings of the clock. What `adjust_source` asks of the
-- socket is the system's affair.
use nuords_proxy.Prelude.{
  ℕ, suc, ◌+◌, ◌-◌, ◌%◌, ◌^◌, false, ◌==◌, if◌then◌else◌, Option, none, some, List, [], ◌∷◌, ◌++◌,
}
use nuords_proxy.Buffer.{empty_buffer}
use nuords_proxy.Proxy.{Channel}
use nuords_proxy.Proxy.Run.{
  Cmd, pure, ◌>>=◌, ◌>>◌, get, modify, follow, load_route, store_route, free_route, socket_close,
  server_slots, client_slots,
}

-- `if(!(id = ++id_count)) id = 1` on a `size_t`.
unfoldable pub next_id : ℕ → ℕ
next_id count = let id = (count + 1) % 2 ^ 64 in if id == 0 then 1 else id

unfoldable pub channel_new : ℕ → Option ℕ → Option ℕ → ℕ → ℕ → Cmd Channel
channel_new time src dst route now = do
  p ← get
  let self = p.next_addr
  let id = next_id p.id_count
  modify λ q. record q { next_addr = suc p.next_addr; id_count = (p.id_count + 1) % 2 ^ 64 }
  r ← load_route route
  store_route route (record r { act_time = time; num_slots = r.num_slots + 1 })
  client ← follow r.client
  client_slots (λ n. n + 1) client
  server ← follow r.server
  server_slots (λ n. n + 1) server
  pure (record {
    self = self;
    id = id;
    route = route;
    conn_time = now;
    connected = false;
    source = src;
    target = dst;
    source_input = empty_buffer;
    target_input = empty_buffer;
  })

unfoldable pub channel_delete : ℕ → Channel → Cmd (Unit {0})
channel_delete time chn = do
  socket_close chn.source
  socket_close chn.target
  r ← load_route chn.route
  client ← follow r.client
  client_slots (λ n. n - 1) client
  server ← follow r.server
  server_slots (λ n. n - 1) server
  if r.cached
      then store_route chn.route (record r { act_time = time; num_slots = r.num_slots - 1 })
      else free_route chn.route

unfoldable pub find_channel : ℕ → List Channel → Option Channel
find_channel self [] = none
find_channel self (c ∷ chns) = if c.self == self then some c else find_channel self chns

unfoldable pub erase_channel : ℕ → List Channel → List Channel
erase_channel self [] = []
erase_channel self (c ∷ chns) = if c.self == self then chns else c ∷ erase_channel self chns

abbrev pub set_channels : List Channel → Cmd (Unit {0})
set_channels chns = modify λ p. record p { channels = chns }

unfoldable pub add_channel : Channel → Cmd (Unit {0})
add_channel chn = do p ← get; set_channels (p.channels ++ chn ∷ [])

-- What `del_channel` does with the channel that it finds.
unfoldable pub del_found : ℕ → ℕ → Option Channel → Cmd (Unit {0})
del_found time self none = pure tt
del_found time self (some chn) = do
  p ← get
  set_channels (erase_channel self p.channels)
  channel_delete time chn

-- `del_channel`: nothing happens to a channel that is not in the list.
unfoldable pub del_channel : ℕ → ℕ → Cmd (Unit {0})
del_channel time self = do p ← get; del_found time self (find_channel self p.channels)
