-- ===== src/Tracker/Items.antt =====
-- The list of servers in src/nrdnb_client.cpp: the messages that `main` handles, `check_svrs` and
-- `refresh_svrs`. `itos` is `xtl::itos`, and `now` what `time` gives.
use nuords_proxy.Prelude.{
  ℕ, ◌+◌, ◌-◌, ◌*◌, ◌/◌, ◌%◌, ◌^◌, Bool, true, false, ◌&&◌, ◌||◌, not, ltb, leb, ◌==◌,
  if◌then◌else◌, none, List, [], ◌∷◌, ◌++◌, Bytes, codes, equal,
}
use nuords_proxy.Inet.{Addr}
use nuords_proxy.Inet.Hosts.{Resolver, addr_to_host}
use nuords_proxy.Tracker.{
  Status, waiting, here, listed, lost, Item, Message, Event, svr_list, svr_info, svr_here, svr_lost,
  Tracker,
}

abbrev pub is_lost : Status → Bool
is_lost lost = true
is_lost _ = false

abbrev pub is_here : Status → Bool
is_here here = true
is_here _ = false

abbrev pub is_waiting : Status → Bool
is_waiting waiting = true
is_waiting _ = false

abbrev pub is_listed : Status → Bool
is_listed listed = true
is_listed _ = false

-- What `main` makes of a message from an address.
unfoldable pub item_of : Resolver → (ℕ → Bytes) → Message → Addr → Item
item_of resolver itos m addr =
    let host = addr_to_host resolver addr in
    record {
      info = m.info;
      name = m.name;
      host = host;
      lsid = host ++ codes ":" ++ itos m.info.port;
      state = waiting;
      time = 0;
    }

-- A known server that has gone: what was known of it, but not active and without connections.
unfoldable pub lose : Item → Item
lose i =
    let info = i.info in
    record i { state = lost; info = record info { stat = info.stat / 2 * 2; ccnt = 0 } }

-- A known server that is there: listed already, or new under its name.
unfoldable pub meet : ℕ → Item → Item → Item
meet now item i = record item {
  time = now;
  state =
      if equal item.name i.name && (is_waiting i.state || is_listed i.state) then listed else here;
}

-- `NRDNBM_IAMLOST` is 3.
unfoldable pub renew : ℕ → ℕ → Item → Item → Item
renew msg now item i = if msg == 3 then lose i else meet now item i

unfoldable pub arrive : ℕ → Item → Item
arrive now item = record item { state = here; time = now }

-- The list after the message, and the item that is reported.
unfoldable pub place : ℕ → ℕ → Item → List Item → Item × List Item
place msg now item [] = let new = arrive now item in (new, new ∷ [])
place msg now item (i ∷ svrs) =
    let (other, rest) = place msg now item svrs in
    if equal i.lsid item.lsid
    then (renew msg now item i, renew msg now item i ∷ svrs)
    else (other, i ∷ rest)

-- `NRDNBM_IAMHERE` is 2 and `NRDNBM_RETINFO` is 5.
abbrev pub event_of : ℕ → Item → Event
event_of msg item =
    if msg == 2 then svr_here item else if msg == 3 then svr_lost item else svr_info item

unfoldable pub on_message :
    Resolver → (ℕ → Bytes) → ℕ → Message → Addr → List Item → List Item × List Event
on_message resolver itos now m addr svrs =
    if (m.msg == 2) || (m.msg == 3) || (m.msg == 5)
    then (let (item, placed) = place m.msg now (item_of resolver itos m addr) svrs in
        (placed, event_of m.msg item ∷ []))
    else (svrs, [])

-- The signature is that of the protocol; `NRDNBM_MIN` is 1 and `NRDNBM_MAX` is 5.
abbrev pub is_message : ℕ → Bool
is_message msg = leb 1 msg && leb msg 5

-- `(NRD_UINT)(now - time)`.
abbrev pub elapsed : ℕ → ℕ → ℕ
elapsed now time = (now + (2 ^ 32 - time % 2 ^ 32)) % 2 ^ 32

unfoldable pub is_stale : ℕ → ℕ → Item → Bool
is_stale tref now i = ltb 0 tref && ltb tref (elapsed now i.time)

abbrev pub list_here : Item → Item
list_here i = if is_here i.state then record i { state = listed } else i

-- The loop of `check_svrs`: the list, and whether it has changed and is to be refreshed.
unfoldable pub check_items : ℕ → ℕ → List Item → List Item × Bool × Bool
check_items tref now [] = ([], false, false)
check_items tref now (i ∷ svrs) =
    let (rest, evt, rfr) = check_items tref now svrs in
    if is_lost i.state
    then (rest, true, rfr)
    else (list_here i ∷ rest, is_here i.state || evt, is_stale tref now i || rfr)

-- `refresh_svrs`: a server that still waits is lost, if `lostw`, and one that is listed waits.
unfoldable pub refresh_item : Bool → ℕ → Item → Item
refresh_item lostw now i = record i {
  time = now;
  state =
      if lostw && is_waiting i.state then lost else if is_listed i.state then waiting else i.state;
}

unfoldable pub refresh_items : Bool → ℕ → List Item → List Item
refresh_items lostw now [] = []
refresh_items lostw now (i ∷ svrs) = refresh_item lostw now i ∷ refresh_items lostw now svrs

unfoldable pub refresh_svrs : Bool → ℕ → Tracker → Tracker
refresh_svrs lostw now t =
    if not t.created
    then t
    else record t { svrs = refresh_items lostw now t.svrs; refr = true; sock = none }

unfoldable pub check_svrs : ℕ → Tracker → Tracker × List Event
check_svrs now t =
    let (svrs, evt, rfr) = check_items t.tref now t.svrs in
    let checked = record t { svrs = svrs } in
    (if rfr then refresh_svrs true now checked else checked, if evt then svr_list ∷ [] else [])

-- `refresh_servers_list`.
unfoldable pub refresh_servers_list : Bool → ℕ → Tracker → Bool × Tracker
refresh_servers_list clear now t =
    if not t.created
    then (false, t)
    else (true, refresh_svrs false now (if clear then record t { svrs = [] } else t))
