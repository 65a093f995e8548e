-- ===== src/Proxy/Servers.antt =====
-- The functions of src/nrdpx_server.cpp on one server: its activity, slots and users. Each test of
-- a NULL pointer there is the caller's, which holds a server here. A flag is one bit of its field.
use nuords_proxy.Prelude.{ℕ, ◌+◌, ◌*◌, ◌/◌, ◌%◌, Bool, not, ◌==◌, if◌then◌else◌}
use nuords_proxy.Proxy.{Server, Usage}

-- `NRDNBS_ACTIVE` is the bit 0x0001 of `svc.stat`.
unfoldable pub server_is_active : Server → Bool
server_is_active svr = not (svr.info.stat % 2 == 0)

unfoldable pub server_activate : Server → Server
server_activate svr =
    let info = svr.info in record svr { info = record info { stat = info.stat / 2 * 2 + 1 } }

unfoldable pub server_deactivate : Server → Server
server_deactivate svr =
    let info = svr.info in
    let mem = info.mem in
    let cpu = info.cpu in
    record svr {
      info = record info {
        stat = info.stat / 2 * 2;
        ccnt = 0;
        mem = record mem { stat = 0 };
        cpu = record cpu { stat = 0 };
      };
      num_faults = 0;
    }

abbrev pub server_slot_count : Server → ℕ
server_slot_count svr = svr.num_slots

abbrev pub server_slot_limit : Server → ℕ
server_slot_limit svr = svr.max_slots

abbrev pub server_user_count : Server → ℕ
server_user_count svr = svr.info.ccnt

-- A server that reports no limit has the default one.
abbrev pub server_user_limit : Server → ℕ
server_user_limit svr = if svr.info.cmax == 0 then 65535 else svr.info.cmax

abbrev pub server_max_weight : Server → ℕ
server_max_weight svr = svr.max_weight

-- `NRDNBU_FREE` is the bit 0x01 of `mem.stat` and `cpu.stat`.
abbrev pub has_free : Usage → Bool
has_free use_of = not (use_of.stat % 2 == 0)
