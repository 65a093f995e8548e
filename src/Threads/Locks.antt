-- ===== src/Threads/Locks.antt =====
-- `rwmutex_impl`, `rwlocker_impl` and the lockers of src/com/xtllib/xtl_thread.h. A part that runs
-- under the mutex is one step.
use nuords_proxy.Prelude.{
  ℕ, suc, ◌-◌, ◌<◌, ◌==◌, ◌≡◌, ◌≢◌, Bool, true, false, ◌&&◌, if◌then◌else◌, Option, none, some,
  List, [], ◌∷◌, ◌++◌,
}

-- A recursive mutex of the system: `lock` gives `none` where it blocks.
pub record Mutex : Type 1 where
  pub State : Type 0
  pub unlocked : State
  pub lock : ℕ → State → Option State
  pub unlock : ℕ → State → State

-- Its documented behaviour, by how often a thread holds it.
pub record IsMutex (m : Mutex) (holds : m.State → ℕ → ℕ) : Type 0 where
  pub held_by_none : (t : ℕ) → holds m.unlocked t ≡ 0
  pub one_holder : (s : m.State) (t u : ℕ) → 0 < holds s t → 0 < holds s u → t ≡ u
  pub locked : (s s' : m.State) (t : ℕ) → m.lock t s ≡ some s' → holds s' t ≡ suc (holds s t)
  pub locked_other :
      (s s' : m.State) (t u : ℕ) → m.lock t s ≡ some s' → u ≢ t → holds s' u ≡ holds s u
  pub released : (s : m.State) (t : ℕ) → holds (m.unlock t s) t ≡ holds s t - 1
  pub released_other :
      (s : m.State) (t u : ℕ) → 0 < holds s t → u ≢ t → holds (m.unlock t s) u ≡ holds s u

unfoldable pub erase_reader : ℕ → List ℕ → List ℕ
erase_reader t [] = []
erase_reader t (u ∷ readers) = if u == t then readers else u ∷ erase_reader t readers

-- No other thread is a reader.
unfoldable pub only_reader : ℕ → List ℕ → Bool
only_reader t [] = true
only_reader t (u ∷ readers) = (u == t) && only_reader t readers

module _ (m : Mutex) where
  pub record RwMutex : Type 0 where
    pub mutex : m.State
    pub readers : List ℕ
    pub write : Bool

  abbrev pub new_rwmutex : RwMutex
  new_rwmutex = record { mutex = m.unlocked; readers = []; write = false }

  -- Under the mutex, where a thread gets it.
  abbrev pub with_lock : {B : Type 0} → Option m.State → (m.State → B) → Option B
  with_lock none inside = none
  with_lock (some s) inside = some (inside s)

  unfoldable pub begin_read : ℕ → RwMutex → Option RwMutex
  begin_read t l =
      with_lock (m.lock t l.mutex)
        λ s. record l { mutex = m.unlock t s; readers = l.readers ++ t ∷ [] }

  unfoldable pub end_read : ℕ → RwMutex → Option RwMutex
  end_read t l =
      with_lock (m.lock t l.mutex)
        λ s. record l { mutex = m.unlock t s; readers = erase_reader t l.readers }

  -- The mutex is kept where the answer is true.
  unfoldable pub try_write : ℕ → RwMutex → Option (Bool × RwMutex)
  try_write t l = with_lock (m.lock t l.mutex) λ s.
      if only_reader t l.readers
      then (true, record l { mutex = s; write = true })
      else (false, record l { mutex = m.unlock t s; write = false })

  unfoldable pub end_write : ℕ → RwMutex → RwMutex
  end_write t l = if l.write then record l { mutex = m.unlock t l.mutex } else l

-- What a locker is made for; `rwlocker_impl` keeps `write`, whatever it is given.
pub data LockMode : Type 0 where
  read_mode write_mode : LockMode

unfoldable pub rwlocker_mode : LockMode → LockMode
rwlocker_mode mode = write_mode
