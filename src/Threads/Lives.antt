-- ===== src/Threads/Lives.antt =====
-- The life of a thread: `thread_impl` of src/com/xtllib/xtl_thread.h. What the system and the thread
-- itself do meanwhile are arguments.
use nuords_proxy.Prelude.{
  ℕ, zero, suc, ◌+◌, ◌-◌, ◌%◌, ◌^◌, ltb, ◌==◌, Bool, true, false, not, ◌&&◌, ◌||◌, if◌then◌else◌,
  Option, none, some, is_some, ℤ, pos, negsuc,
}

-- `handle` is `m_thread`, and `none` its 0.
pub record Thread : Type 0 where
  pub handle : Option ℕ
  pub terminated : Bool
  pub free_on_term : Bool
  pub waiting : Bool
  pub wait_on_destroy : Bool
  pub yield_count : ℕ
  pub priority : ℤ

abbrev pub new_thread : Thread
new_thread = record {
  handle = none;
  terminated = false;
  free_on_term = false;
  waiting = false;
  wait_on_destroy = true;
  yield_count = 0;
  priority = pos 0;
}

-- With the handle that `pthread_create` gives.
unfoldable pub create : Option ℕ → Thread → Bool × Thread
create made t = if is_some t.handle then (false, t) else (
  is_some made,
  record t {
    handle = made;
    terminated = false;
    waiting = false;
    wait_on_destroy = true;
    yield_count = 0;
  },
)

abbrev pub kill_handle : Thread → Thread
kill_handle t = record t { handle = none }

-- The end of `thread_main_func`; `none` is an object that is deleted.
unfoldable pub end_main : Thread → Option Thread
end_main t = if t.free_on_term then none else some (kill_handle t)

abbrev pub terminate : Thread → Thread
terminate t = record t { terminated = true }

-- `wTimeOut -= 25` on a word of 64 bits.
abbrev pub less_25 : ℕ → ℕ
less_25 w = (w + (2 ^ 64 - 25)) % 2 ^ 64

-- The loop of `wait_for`: the number of its sleeps, or `none` where the fuel does not suffice.
-- `alive` says at each test whether the thread is still there.
unfoldable pub wait_loop : ℕ → ℕ → (ℕ → Bool) → ℕ → Option ℕ
wait_loop zero i alive w = none
wait_loop (suc fuel) i alive w =
    let rest = wait_loop fuel (suc i) alive (less_25 w) in
    if alive i && not (w == 0) then rest else some i

-- The answer of `wait_for`, and that the thread is waited for from then on.
unfoldable pub wait_for : Thread → ℤ × Thread
wait_for t = if t.waiting then (negsuc 0, t) else (pos 258, record t { waiting = true })

unfoldable pub terminate_and_wait : Thread → ℤ × Thread
unfolding wait_for
terminate_and_wait t = wait_for (terminate t)

unfoldable pub destroy : Thread → Bool × Thread
unfolding terminate_and_wait
destroy t =
    if t.free_on_term || t.waiting || not (is_some t.handle)
    then (false, t)
    else (true, kill_handle (if t.wait_on_destroy then (terminate_and_wait t).1 else t))

-- `count > 20 + m_priority`, of a priority that may be negative.
abbrev pub is_over : ℤ → ℕ → Bool
is_over (pos more) count = ltb (20 + more) count
is_over (negsuc less) count = ltb 20 (count + suc less)

-- Every so often, the thread sleeps.
unfoldable pub yield_now : Thread → Bool × Thread
yield_now t =
    if is_over t.priority (suc t.yield_count)
    then (true, record t { yield_count = 0 })
    else (false, record t { yield_count = suc t.yield_count })

-- The destructor: the thread that it is left with.
unfoldable pub delete_thread : Thread → Thread
unfolding terminate_and_wait
delete_thread t =
    if is_some t.handle
    then kill_handle
        (if not t.free_on_term && t.wait_on_destroy then (terminate_and_wait t).1 else t)
    else t
