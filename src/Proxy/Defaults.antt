-- ===== src/Proxy/Defaults.antt =====
-- The constructors of src/nrdpx_server.cpp: a server, a client, a balancer, a cache and a proxy as
-- they are before the configuration is loaded.
use nuords_proxy.Prelude.{ℕ, pos, true, false, none, []}
use nuords_proxy.Buffer.{buffer_size_max}
use nuords_proxy.Proxy.{Usage, Server, Client, by_busyness, Balancer, temp_mode, Cache, Proxy}

abbrev pub no_usage : Usage
no_usage = record { stat = 0; free = 0; used = 0 }

-- `NRDPX_CONN_PORT` is 3389, `NRDPX_INFO_PORT` is 4073 and `NRDPX_CHECK_MODE_INFO` is 2.
unfoldable pub new_server : Server
new_server = record {
  name = [];
  info = record {
    kind = 0;
    cmax = 0;
    pver = 0;
    port = 0;
    ccnt = 0;
    stat = 0;
    mem = no_usage;
    cpu = no_usage;
  };
  host = [];
  port = pos 3389;
  info_port = pos 4073;
  stat_time = 0;
  info_time = 0;
  max_slots = 100;
  num_slots = 0;
  max_weight = 100;
  num_faults = 0;
  redundant = false;
  check_mode = 2;
  first_check = true;
}

unfoldable pub new_client : Client
new_client = record { name = []; sources = []; num_slots = 0; max_slots = 1000 }

unfoldable pub new_balancer : Balancer
new_balancer = record {
  name = [];
  clients = [];
  servers = [];
  metrics = record { cap = true; mem = false; cpu = false };
  method = by_busyness;
}

-- `chktime` is not initialised: it is whatever the memory holds.
unfoldable pub new_cache : ℕ → Cache
new_cache chktime = record { mode = temp_mode; routes = []; timeout = 60; chktime = chktime }

unfoldable pub new_proxy : ℕ → Proxy
new_proxy chktime = record {
  server_at = λ _. new_server;
  client_at = λ _. new_client;
  balancer_at = λ _. new_balancer;
  balancers = [];
  route_at = λ _. none;
  next_addr = 0;
  channels = [];
  id_count = 0;
  cache = new_cache chktime;
  max_faults = 2;
  conn_timeout = 30;
  max_buffer = buffer_size_max;
  socket_mode = 0;
  buffer_mode = 0;
  closed = [];
}
