-- ===== src/Examples/World.antt =====
-- The values that the examples share. The numbers of the scores are natural, and the system
-- connects at once, reads three bytes from a socket and takes two bytes for each `send`.
use nuords_proxy.Prelude.{
  ℕ, pos, ◌+◌, ◌-◌, ◌*◌, ◌/◌, ◌≤◌, ◌≡◌, subst, some-injective, true, false, ltb, ◌==◌,
  if◌then◌else◌, none, some, [], ◌∷◌, length, take, Bytes, arith, min, length-take,
}
use nuords_proxy.Inet.{ipv4}
use nuords_proxy.Inet.Hosts.{Resolver, Errno}
use nuords_proxy.Buffer.{empty_buffer}
use nuords_proxy.Proxy.{
  Usage, Server, Client, by_requests, Balancer, Route, temp_mode, Channel, Proxy,
}
use nuords_proxy.Proxy.Select.{Double}
use nuords_proxy.Proxy.Connect.{Os}
use nuords_proxy.Proxy.Relay.{Net}
use nuords_proxy.Proxy.Relay.Balanced.{Obeys}
use nuords_proxy.Proxy.Loop.{Turn}
use nuords_proxy.Socket.{Options}

pub ltb_asymm : (a b : ℕ) → ltb b a ≡ true → ltb a b ≡ false
ltb_asymm a b e = ground arith

pub ltb-false_trans : (a b c : ℕ) → ltb b a ≡ false → ltb c b ≡ false → ltb c a ≡ false
ltb-false_trans a b c e f = ground arith

abbrev pub naturals : Double
naturals = record {
  Carrier = ℕ;
  of_ℕ = λ n. n;
  add = ◌+◌;
  sub = ◌-◌;
  mul = ◌*◌;
  div = ◌/◌;
  gtb = λ a b. ltb b a;
  number = λ _. true;
  gtb_asymm = ltb_asymm;
  gtb_false_trans = λ a b c _. ltb-false_trans a b c;
}

abbrev idle : Usage
idle = record { stat = 0; free = 0; used = 0 }

-- A server that is active and has ten slots.
abbrev pub server : Server
server = record {
  name = [];
  info = record {
    kind = 0;
    cmax = 0;
    pver = 1;
    port = 0;
    ccnt = 0;
    stat = 1;
    mem = idle;
    cpu = idle;
  };
  host = b'h' ∷ [];
  port = pos 8080;
  info_port = pos 8081;
  stat_time = 0;
  info_time = 0;
  max_slots = 10;
  num_slots = 1;
  max_weight = 100;
  num_faults = 0;
  redundant = false;
  check_mode = 0;
  first_check = true;
}

abbrev pub client : Client
client = record {
  name = [];
  sources = (record { addr = ipv4 0; pref = 0 }) ∷ [];
  num_slots = 1;
  max_slots = 10;
}

abbrev pub balancer : Balancer
balancer = record {
  name = [];
  clients = 0 ∷ [];
  servers = 0 ∷ [];
  metrics = record { cap = true; mem = false; cpu = false };
  method = by_requests;
}

abbrev pub route : Route
route = record {
  balancer = some 0;
  client = some 0;
  server = some 0;
  cached = false;
  act_time = 5;
  num_slots = 1;
}

abbrev pub channel : Channel
channel = record {
  self = 1;
  id = 1;
  route = 0;
  conn_time = 5;
  connected = false;
  source = some 3;
  target = some 4;
  source_input = empty_buffer;
  target_input = empty_buffer;
}

-- One channel is open, over a route that is not cached.
abbrev pub proxy : Proxy
proxy = record {
  server_at = λ _. server;
  client_at = λ _. client;
  balancer_at = λ _. balancer;
  balancers = 0 ∷ [];
  route_at = λ a. if a == 0 then some route else none;
  next_addr = 2;
  channels = channel ∷ [];
  id_count = 1;
  cache = record { mode = temp_mode; routes = []; timeout = 60; chktime = 0 };
  max_faults = 2;
  conn_timeout = 30;
  max_buffer = 65536;
  socket_mode = 0;
  buffer_mode = 0;
  closed = [];
}

abbrev errno : Errno
errno = record { eagain = 11; eintr = 4; einpr = 115; ealred = 114 }

abbrev pub resolver : Resolver
resolver = record {
  inet_pton = λ _ _. some (ipv4 167772161);
  getaddrinfo = λ _ _. none;
  inet_ntop = λ _. b'x' ∷ [];
}

abbrev pub os : Os
os = record {
  resolver = resolver;
  errno = errno;
  getpeername = λ _. some (ipv4 167772162);
  socket = λ _. some 9;
  set_nonblocking = λ _. true;
  connect = λ _ _ _. 0;
  time_find = 20;
  time_open = 20;
  time_add = 20;
}

abbrev pub net : Net
net = record {
  errno = errno;
  last_error = λ _. 11;
  readable = λ _. true;
  writable = λ _. true;
  socket_error = λ _. 0;
  recv = λ s len. some (take len (1 ∷ 2 ∷ 3 ∷ []));
  send = λ s bytes. some (min 2 (length bytes));
  recv_size = λ _. none;
  send_size = λ _. none;
}

pub net-Obeys : Obeys net
net-Obeys = record {
  recv_le = λ s len bytes e.
      let bs : Bytes = 1 ∷ 2 ∷ 3 ∷ [] in
      subst (λ xs. length xs ≤ len) (some-injective (take len bs) bytes e)
        (omega (arith, length-take len bs));
  send_le = λ s bytes n e. omega (arith, some-injective (min 2 (length bytes)) n e);
}

abbrev pub turn : Turn
turn = record { os = os; net = net; time = 20 }

abbrev pub options : Options
options = record {
  maxseg = some 1460;
  send_buffer = some 87380;
  recv_buffer = some 131072;
  set_send = λ _. true;
  set_recv = λ _. true;
}
