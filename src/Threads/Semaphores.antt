-- ===== src/Threads/Semaphores.antt =====
-- `semaphore_impl` of src/com/xtllib/xtl_thread.h. What `semget` and `semop` answer are arguments.
use nuords_proxy.Prelude.{
  ℕ, ◌/◌, leb, ℤ, pos, negsuc, Bool, true, false, ◌&&◌, if◌then◌else◌, Option, none, some, is_some,
}

abbrev pub sem_max : ℕ
sem_max = 32766

-- `m_sem`, and `none` its `XTL_NOSEMAPHORE`.
pub record Semaphore : Type 0 where
  pub sem : Option ℕ

-- By how much `semop` is asked to change a semaphore, or `none` where it is not called.
abbrev pub asked_for : Semaphore → ℤ → Option ℕ
asked_for s (negsuc n) = none
asked_for s (pos n) = if is_some s.sem && leb n sem_max then some n else none

abbrev pub answered : (ℕ → Bool) → Option ℕ → Bool
answered semop none = false
answered semop (some n) = semop n

unfoldable pub signal_semaphore : (ℕ → Bool) → ℤ → Semaphore → Bool
signal_semaphore semop count s = answered semop (asked_for s count)

unfoldable pub wait_semaphore : Bool → Semaphore → Bool
wait_semaphore semop s = is_some s.sem && semop

-- The semaphore after the call, and the number it is signalled by, if it is.
unfoldable pub create_semaphore : Option ℕ → Bool → Semaphore → Bool × Semaphore × Option ℕ
create_semaphore made signal_it s =
    if is_some s.sem
    then (false, s, none)
    else (let t : Semaphore = record { sem = made } in
        (is_some made, t, if signal_it then asked_for t (pos 1) else none))

unfoldable pub destroy_semaphore : Semaphore → Bool × Semaphore × Option ℕ
destroy_semaphore s =
    if is_some s.sem
    then (true, record { sem = none }, asked_for s (pos (sem_max / 2)))
    else (true, s, none)
