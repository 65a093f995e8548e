-- ===== src/Health/Callback.antt =====
-- `nrdpx_info_callback`, by its events. Data of another type than `NRDNBT_INFO`, which is 1, is
-- ignored, and the servers are then handled as at the timer.
use nuords_proxy.Prelude.{ℕ, ◌==◌, if◌then◌else◌, List}
use nuords_proxy.Proxy.{Server}
use nuords_proxy.Tracker.{Item, Event, on_timer, svr_info, svr_here, svr_lost}
use nuords_proxy.Health.{Probe, Settings}
use nuords_proxy.Health.Reports.{report_servers}
use nuords_proxy.Health.Timer.{time_servers}

module _ (set : Settings) (probe : Server → Probe) (now : ℕ) where
  unfoldable pub on_item : Item → List Server → List Server
  on_item item svrs =
      if item.info.kind == 1
      then report_servers set now item svrs
      else time_servers set probe now svrs

  unfoldable pub info_callback : Event → List Server → List Server
  info_callback on_timer svrs = time_servers set probe now svrs
  info_callback (svr_info item) svrs = on_item item svrs
  info_callback (svr_here item) svrs = on_item item svrs
  info_callback (svr_lost item) svrs = on_item item svrs
  info_callback _ svrs = svrs
