-- ===== src/Examples/Runs.antt =====
-- Runs of the operations on the small proxy, and the theorems applied to them.
use nuords_proxy.Prelude.{
  ◌<◌, ◌≤◌, pos, codes, equal, none, ◌≡◌, refl, true, false, Bool-cases, inl, inr, ◌==◌, some, [],
  ◌∷◌, ◌↔◌, arith, All,
}
use nuords_proxy.Inet.{ipv4}
use nuords_proxy.Inet.Cidrs.{is_addr_in_cidr}
use nuords_proxy.Inet.Prefix.{width, leading, is_addr_in_cidr-leading}
use nuords_proxy.Proxy.Select.{select_server}
use nuords_proxy.Proxy.Select.Choice.{Chooses, select_server-Chooses}
use nuords_proxy.Inet.Hosts.{
  host_to_addr, literal, lookup_name, guess_addr_family, strip_host_name, has_byte,
}
use nuords_proxy.Inet.Parse.{
  strim, split_bracket, parse_host_port, parse_cidr_notation, parse_parts, split_last, with_prefix,
}
use nuords_proxy.Inet.Parse.Blocks.{parse_cidr_notation-IsCidr}
use nuords_proxy.Socket.{socket_adjust_buffers}
use nuords_proxy.Socket.Sizes.{IsAligned, socket_adjust_buffers-IsAligned}
use nuords_proxy.Proxy.{Proxy, temp_mode}
use nuords_proxy.Proxy.Run.{ok}
use nuords_proxy.Proxy.Caching.{lookup, cache_find, cache_add}
use nuords_proxy.Proxy.Detect.{detect_route, empty_route}
use nuords_proxy.Proxy.Detect.Offers.{Detected, detect_route-Detected}
use nuords_proxy.Proxy.Watch.{Fds, fill_fds}
use nuords_proxy.Proxy.Watch.Open.{IsWatchable}
use nuords_proxy.Proxy.Watch.Sets.{Watches, fill_fds_iff}
use nuords_proxy.Proxy.Ownership.Cached.{Hit, cache_find-Hit}
use nuords_proxy.Proxy.Caching.Fresh.{with_cached, cache_add-find}
use nuords_proxy.Buffer.Stream.{empty_buffer-IsBuffer}
use nuords_proxy.Proxy.Channels.{del_channel, erase_channel}
use nuords_proxy.Proxy.Connect.{check_route, channel_create}
use nuords_proxy.Proxy.Relay.{relay}
use nuords_proxy.Proxy.Relay.Balanced.{Good, Balanced}
use nuords_proxy.Proxy.Relay.Passes.{Served, relay-Balanced}
use nuords_proxy.Proxy.Ownership.{slots_of, held_by, Safe, IsSound}
use nuords_proxy.Proxy.Ownership.Linked.{del_channel-IsSound}
use nuords_proxy.Proxy.Ownership.Finished.{Settled, channel_create-IsSound}
use nuords_proxy.Proxy.Loop.{Pass, main_loop, in_hand}
use nuords_proxy.Proxy.Loop.Sound.{Steady, main_loop-Steady}
use nuords_proxy.Examples.World.{
  options, naturals, route, channel, balancer, proxy, os, net, net-Obeys, turn,
}

proxy-IsSound : IsSound proxy
unfolding check_route
proxy-IsSound = record {
  owned = λ a. elim (Bool-cases (a == 0)) [
    | inl same ↦ rw same (ground arith)
    | inr other ↦ rw other (ground arith)
  ];
  fresh = λ a le. ground arith;
  distinct = tt;
}

pub proxy-Steady : Steady proxy
proxy-Steady = (proxy-IsSound, ((empty_buffer-IsBuffer, empty_buffer-IsBuffer), tt))

channel-Balanced : Balanced channel (in_hand channel)
channel-Balanced = record {
  source_buffer = empty_buffer-IsBuffer;
  target_buffer = empty_buffer-IsBuffer;
  forth = refl;
  back = refl;
}

abbrev pub pass : Pass
pass = record { selected = true; now = 20; accepted = (7, os) ∷ []; answers = turn ∷ turn ∷ [] }

main_loop-Steady_example : Safe (λ _ q. Steady q) (main_loop naturals (pass ∷ pass ∷ []) proxy)
main_loop-Steady_example =
    main_loop-Steady naturals (pass ∷ pass ∷ []) proxy
      ((net-Obeys, (net-Obeys, tt)), ((net-Obeys, (net-Obeys, tt)), tt)) proxy-Steady

channel_create-IsSound_example :
    Safe
      (λ res q. IsSound q × Settled 7 proxy.channels res q)
      (channel_create naturals os 7 20 (some 0) proxy)
channel_create-IsSound_example =
    channel_create-IsSound naturals os 7 20 (some 0) proxy proxy-IsSound

del_channel-IsSound_example :
    Safe (λ _ q. IsSound q × (q.channels ≡ erase_channel 1 proxy.channels)) (del_channel 30 1 proxy)
del_channel-IsSound_example = del_channel-IsSound 30 1 proxy proxy-IsSound

relay-Balanced_example :
    Safe (λ a q. Good channel a × Served proxy q) (relay net channel (in_hand channel) proxy)
relay-Balanced_example =
    relay-Balanced net proxy channel (in_hand channel) route 0 net-Obeys refl refl channel-Balanced

is_addr_in_cidr-leading_example :
    (is_addr_in_cidr (ipv4 167772162) (record { addr = ipv4 167772160; pref = 8 }) ≡ true) ↔ (
      (width (ipv4 167772162) ≡ width (ipv4 167772160))
      × (leading 8 (ipv4 167772162) ≡ leading 8 (ipv4 167772160)))
is_addr_in_cidr-leading_example =
    is_addr_in_cidr-leading (ipv4 167772162) (ipv4 167772160) 8 (omega arith) (omega arith)
      (omega arith)

select_server-Chooses_example :
    Chooses naturals proxy.server_at balancer
      (0 ∷ 1 ∷ [])
      (select_server naturals proxy.server_at balancer (0 ∷ 1 ∷ []))
select_server-Chooses_example =
    select_server-Chooses naturals proxy.server_at balancer (0 ∷ 1 ∷ []) (refl, (refl, tt))

detect_route-Detected_example :
    Detected naturals proxy
      (ipv4 167772162)
      none
      proxy.balancers
      (detect_route naturals proxy (ipv4 167772162) none [] proxy.balancers empty_route)
      (detect_route naturals proxy (ipv4 167772162) none [] proxy.balancers empty_route).server
detect_route-Detected_example =
    detect_route-Detected naturals proxy (ipv4 167772162) none (λ b j. refl)

cache_find-Hit_example :
    Safe (Hit (λ a. slots_of a proxy.channels) (held_by none)) (cache_find 100 (b'x' ∷ []) proxy)
cache_find-Hit_example =
    cache_find-Hit proxy (λ a. slots_of a proxy.channels) (held_by none) 100 (b'x' ∷ [])
      proxy-IsSound

-- With the cleaning an hour away.
abbrev checked : Proxy
checked = record (proxy) {
  cache = record { mode = temp_mode; routes = []; timeout = 60; chktime = 3600 };
}

cache_add-find_example :
    let q = with_cached 20 (codes "10.0.0.2") 0 route checked in
    (cache_add 20 (codes "10.0.0.2") 0 checked ≡ ok true q)
    × (cache_find 70 (codes "10.0.0.2") q ≡ ok (some 0) q)
    × (cache_add 70 (codes "10.0.0.2") 1 q ≡ ok false q)
unfolding lookup
cache_add-find_example =
    cache_add-find 20 70 (codes "10.0.0.2") 0 1 route checked refl refl refl (omega arith)
      (omega arith)

socket_adjust_buffers-IsAligned_example :
    All (IsAligned options) (socket_adjust_buffers options true 65536).1
socket_adjust_buffers-IsAligned_example = socket_adjust_buffers-IsAligned options 65536

channel-IsWatchable : IsWatchable 1024 channel
channel-IsWatchable = record {
  source_read = λ room. (3, refl, omega arith);
  target_read = λ room. (4, refl, omega arith);
  target_write = λ bytes. (4, refl, omega arith);
  source_write = λ bytes. (3, refl, omega arith);
}

fill_fds_iff_example :
    (fds : Fds) × (fill_fds 1024 (some 2 ∷ []) (channel ∷ []) ≡ some fds)
    × Watches (some 2 ∷ []) (channel ∷ []) fds
fill_fds_iff_example =
    fill_fds_iff 1024 (some 2 ∷ []) (channel ∷ []) ((2, refl, omega arith), tt)
      (channel-IsWatchable, tt)

block_read :
    parse_cidr_notation os.resolver (λ _. pos 8) (codes "10.0.0.0/8")
    ≡ some (record { addr = ipv4 167772161; pref = 8 })
unfolding parse_cidr_notation parse_parts split_last with_prefix host_to_addr literal lookup_name
    guess_addr_family strip_host_name has_byte equal
block_read = refl

parse_cidr_notation-IsCidr_example : (0 < width (ipv4 167772161)) × (8 ≤ width (ipv4 167772161))
parse_cidr_notation-IsCidr_example =
    parse_cidr_notation-IsCidr os.resolver (λ _. pos 8) (codes "10.0.0.0/8")
      (record { addr = ipv4 167772161; pref = 8 }) (λ f s e. cc) block_read

-- An IPv6 address without a port is cut inside its brackets, and its end is taken for a port.
bracketed_host : (parse_host_port (λ _. pos 1) (codes "[fec0::1]") (pos 3389)).0 ≡ codes "[fec0:"
unfolding parse_host_port split_bracket split_last strim
bracketed_host = refl

bracketed_port : (parse_host_port (λ _. pos 1) (codes "[fec0::1]") (pos 3389)).1 ≡ pos 1
unfolding parse_host_port split_bracket split_last strim
bracketed_port = refl
