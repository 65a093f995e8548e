-- ===== src/Examples/Locks.antt =====
-- A recursive mutex, a reader and a writer at it, and the theorems on locks and threads applied.
use nuords_proxy.Prelude.{
  ℕ, zero, suc, ◌-◌, ◌<◌, ltb, ◌==◌, ◌≡◌, ◌≢◌, refl, sym, ◌∙◌, arith, Bool, true, false, Option,
  none, some, [], ◌∷◌, if◌then◌else◌,
}
use nuords_proxy.Threads.Locks.{
  Mutex, IsMutex, begin_read, end_read, try_write, erase_reader, only_reader,
}
use nuords_proxy.Threads.Exclusion.{
  update, count, System, Reach, here, next, begin_reading, end_reading, begin_writing,
}
use nuords_proxy.Threads.Steps.{Reach-Excludes}
use nuords_proxy.Threads.Lives.{wait_loop}
use nuords_proxy.Threads.Waiting.{Ends, wait_loop-Ends}

-- A thread, and how often it holds the mutex besides.
record Holder : Type 0 where
  owner : ℕ
  more : ℕ

abbrev lock_held : ℕ → Option Holder → Option (Option Holder)
lock_held t none = some (some (record { owner = t; more = 0 }))
lock_held t (some h) =
    if h.owner == t then some (some (record { owner = t; more = suc h.more })) else none

abbrev less_one : ℕ → ℕ → Option Holder
less_one t zero = none
less_one t (suc n) = some (record { owner = t; more = n })

abbrev unlock_held : ℕ → Option Holder → Option Holder
unlock_held t none = none
unlock_held t (some h) = if h.owner == t then less_one t h.more else some h

abbrev times_held : Option Holder → ℕ → ℕ
times_held none t = 0
times_held (some h) t = if h.owner == t then suc h.more else 0

abbrev sample : Mutex
sample = record { State = Option Holder; unlocked = none; lock = lock_held; unlock = unlock_held }

none-some : {A : Type 0} {x : A} → none ≡ some x → ⊥
none-some e = cc

from_some : {A : Type 0} {x y : A} → some x ≡ some y → x ≡ y
from_some e = cc

one_owner : (s : Option Holder) (t u : ℕ) → 0 < times_held s t → 0 < times_held s u → t ≡ u
one_owner none t u a b = absurd (omega arith)
one_owner (some h) t u a b = ground arith

lock_if :
    (b : Bool) (t n : ℕ) (s' : Option Holder)
    → (if b then some (some (record { owner = t; more = suc n })) else none) ≡ some s'
    → (b ≡ true) × (some (record { owner = t; more = suc n }) ≡ s')
lock_if true t n s' e = (refl, from_some e)
lock_if false t n s' e = absurd (none-some e)

locked_more :
    (s s' : Option Holder) (t : ℕ)
    → lock_held t s ≡ some s'
    → times_held s' t ≡ suc (times_held s t)
locked_more none s' t e = rw (sym (from_some e)) (ground arith)
locked_more (some h) s' t e =
    let (mine, got) = lock_if (h.owner == t) t h.more s' e in rw (sym got) (ground arith)

locked_others :
    (s s' : Option Holder) (t u : ℕ)
    → lock_held t s ≡ some s'
    → u ≢ t
    → times_held s' u ≡ times_held s u
locked_others none s' t u e ne = rw (sym (from_some e)) (ground arith)
locked_others (some h) s' t u e ne =
    let (mine, got) = lock_if (h.owner == t) t h.more s' e in rw (sym got) (ground arith)

unlock_if :
    (b : Bool) (o n t u : ℕ)
    → times_held (if b then less_one t n else some (record { owner = o; more = n })) u
      ≡ (if b then (if t == u then n else 0) else (if o == u then suc n else 0))
unlock_if true o zero t u = ground arith
unlock_if true o (suc n) t u = refl
unlock_if false o n t u = refl

released_one : (s : Option Holder) (t : ℕ) → times_held (unlock_held t s) t ≡ times_held s t - 1
released_one none t = refl
released_one (some h) t = unlock_if (h.owner == t) h.owner h.more t t ∙ ground arith

released_others :
    (s : Option Holder) (t u : ℕ)
    → 0 < times_held s t
    → u ≢ t
    → times_held (unlock_held t s) u ≡ times_held s u
released_others none t u a ne = refl
released_others (some h) t u a ne = unlock_if (h.owner == t) h.owner h.more t u ∙ ground arith

sample-IsMutex : IsMutex sample times_held
sample-IsMutex = record {
  held_by_none = λ t. refl;
  one_holder = one_owner;
  locked = locked_more;
  locked_other = locked_others;
  released = released_one;
  released_other = released_others;
}

-- Thread 1 reads and stops, and thread 2 writes.
abbrev reading : System sample times_held
reading = record {
  lock = record { mutex = none; readers = 1 ∷ []; write = false };
  reads = update 1 1 (λ _. 0);
  writes = λ _. 0;
}

abbrev idle : System sample times_held
idle = record {
  lock = record { mutex = none; readers = []; write = false };
  reads = update 1 0 (update 1 1 (λ _. 0));
  writes = λ _. 0;
}

abbrev writing : System sample times_held
writing = record {
  lock = record { mutex = some (record { owner = 2; more = 0 }); readers = []; write = true };
  reads = update 1 0 (update 1 1 (λ _. 0));
  writes = update 2 1 (λ _. 0);
}

writing-Reach : Reach sample times_held writing
unfolding begin_read end_read try_write erase_reader only_reader
writing-Reach =
    next
      (next (next here (begin_reading 1 reading.lock refl))
        (end_reading 1 idle.lock (omega arith) refl))
      (begin_writing 2 writing.lock refl)

Reach-Excludes_example :
    (writing.reads 1 ≡ 0) × (writing.writes 1 ≡ 0) × (count 1 writing.lock.readers ≡ 0)
Reach-Excludes_example =
    Reach-Excludes sample times_held sample-IsMutex writing 2 1 writing-Reach (omega arith)
      (λ e. absurd (omega (arith, e)))

-- A thread that is gone at the fourth test.
wait_loop-Ends_example : Ends 0 10 (λ n. ltb n 3) (wait_loop 11 0 (λ n. ltb n 3) 250)
wait_loop-Ends_example = wait_loop-Ends (λ n. ltb n 3) 10 (omega arith)
