-- ===== src/Tracker/Moves.antt =====
-- What each step of the tracker does to the map from identifiers to items, case by case.
use nuords_proxy.Prelude.{
  ℕ, ◌*◌, ◌/◌, ◌<◌, ◌≡◌, ◌≢◌, ◌⊎◌, Bool, true, false, Option, none, some, List, [], ◌∷◌, Bytes,
  equal,
}
use nuords_proxy.Inet.{Addr}
use nuords_proxy.Inet.Hosts.{Resolver}
use nuords_proxy.Tracker.{Status, waiting, here, listed, lost, Item, Message}
use nuords_proxy.Tracker.Items.{item_of, elapsed}
use nuords_proxy.Tracker.Checks.{Step, message, check, refresh_by}

abbrev pub View : Type 0
View = Bytes → Option Item

-- The messages that are handled: IAMHERE, IAMLOST and RETINFO.
abbrev pub IsHandled : ℕ → Type 0
IsHandled msg = (msg ≡ 2) ⊎ (msg ≡ 3) ⊎ (msg ≡ 5)

-- The state of a server that tells of itself, from the one it had.
abbrev pub met_as : Bool → Status → Status
met_as true waiting = listed
met_as true listed = listed
met_as true here = here
met_as true lost = here
met_as false _ = here

-- A known server that goes down is lost, not active and without connections.
abbrev pub gone_down : Item → Item
gone_down i =
    let info = i.info in
    record i { state = lost; info = record info { stat = info.stat / 2 * 2; ccnt = 0 } }

-- A message about a server.
pub record Heard (msg now : ℕ) (item : Item) (v w : View) : Type 0 where
  pub others : (k : Bytes) → k ≢ item.lsid → w k ≡ v k
  pub unknown : v item.lsid ≡ none → w item.lsid ≡ some (record item { state = here; time = now })
  pub down : msg ≡ 3 → (i : Item) → v item.lsid ≡ some i → w item.lsid ≡ some (gone_down i)
  pub known :
      msg ≢ 3
      → (i : Item) → v item.lsid ≡ some i
      → w item.lsid
        ≡ some (record item { time = now; state = met_as (equal item.name i.name) i.state })

abbrev pub swept_as : Status → Item → Option Item
swept_as lost i = none
swept_as here i = some (record i { state = listed })
swept_as waiting i = some i
swept_as listed i = some i

-- A check drops what is lost and lists what is new.
abbrev pub swept : Option Item → Option Item
swept none = none
swept (some i) = swept_as i.state i

abbrev pub aged_as : Bool → Status → Status
aged_as true waiting = lost
aged_as false waiting = waiting
aged_as lostw listed = waiting
aged_as lostw here = here
aged_as lostw lost = lost

-- A refresh makes what is listed wait; what still waits is lost, if `lostw`.
abbrev pub aged : Bool → ℕ → Option Item → Option Item
aged lostw now none = none
aged lostw now (some i) = some (record i { time = now; state = aged_as lostw i.state })

-- Some server, not lost, has not been heard for longer than the refresh time, which is not 0.
abbrev pub IsLate : ℕ → ℕ → View → Type 0
IsLate tref now v =
    (k : Bytes) × (i : Item) × (v k ≡ some i)
    × (i.state ≢ lost)
    × (0 < tref)
    × (tref < elapsed now i.time)

module _ (resolver : Resolver) (itos : ℕ → Bytes) (tref : ℕ) (created : Bool) where
  pub data Moves (v w : View) : Step → Type 0 where
    heard :
        (now : ℕ) (m : Message) (addr : Addr)
        → IsHandled m.msg
        → Heard m.msg now (item_of resolver itos m addr) v w
        → Moves v w (message now m addr)
    ignored :
        (now : ℕ) (m : Message) (addr : Addr)
        → (IsHandled m.msg → ⊥)
        → ((k : Bytes) → w k ≡ v k)
        → Moves v w (message now m addr)
    in_time :
        (now : ℕ)
        → (IsLate tref now v × (created ≡ true) → ⊥)
        → ((k : Bytes) → w k ≡ swept (v k))
        → Moves v w (check now)
    late :
        (now : ℕ)
        → IsLate tref now v
        → created ≡ true
        → ((k : Bytes) → w k ≡ aged true now (swept (v k)))
        → Moves v w (check now)
    refreshed :
        (now : ℕ)
        → created ≡ true
        → ((k : Bytes) → w k ≡ aged false now (v k))
        → Moves v w (refresh_by false now)
    cleared :
        (now : ℕ) → created ≡ true → ((k : Bytes) → w k ≡ none) → Moves v w (refresh_by true now)
    stopped :
        (clear : Bool) (now : ℕ)
        → created ≡ false
        → ((k : Bytes) → w k ≡ v k)
        → Moves v w (refresh_by clear now)

  -- One move for each step, in order.
  pub data Reaches : List Step → View → View → Type 0 where
    done : {v : View} → Reaches [] v v
    then_move :
        {v u w : View} (s : Step) (steps : List Step)
        → Moves v u s
        → Reaches steps u w
        → Reaches (s ∷ steps) v w
