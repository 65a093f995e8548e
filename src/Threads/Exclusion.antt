-- ===== src/Threads/Exclusion.antt =====
-- Threads that use one `rwmutex` through its lockers, in any order, and what holds of them all the
-- time.
use nuords_proxy.Prelude.{
  ℕ, suc, ◌+◌, ◌-◌, ◌<◌, ◌==◌, ◌≡◌, ◌≢◌, refl, arith, true, false, Bool-cases, inl, inr, some, List,
  [], ◌∷◌, ◌++◌, if◌then◌else◌,
}
use nuords_proxy.Threads.Locks.{
  Mutex, RwMutex, new_rwmutex, erase_reader, only_reader, begin_read, end_read, try_write,
  end_write,
}

abbrev pub update : ℕ → ℕ → (ℕ → ℕ) → ℕ → ℕ
update t n f u = if u == t then n else f u

abbrev pub count : ℕ → List ℕ → ℕ
count t [] = 0
count t (u ∷ us) = (if u == t then 1 else 0) + count t us

pub count-snoc :
    (t u : ℕ) (us : List ℕ) → count t (us ++ u ∷ []) ≡ count t us + (if u == t then 1 else 0)
count-snoc t u [] = omega arith
count-snoc t u (v ∷ us) = omega (arith, count-snoc t u us)

pub count-erase_reader :
    (t u : ℕ) (us : List ℕ)
    → count u (erase_reader t us) ≡ (if u == t then count u us - 1 else count u us)
unfolding erase_reader
count-erase_reader t u [] = ground arith
count-erase_reader t u (v ∷ us) = ground (arith, count-erase_reader t u us)

pub only_reader-count : (t u : ℕ) (us : List ℕ) → only_reader t us ≡ true → u ≢ t → count u us ≡ 0
unfolding only_reader
only_reader-count t u [] e ne = refl
only_reader-count t u (v ∷ us) e ne = ground (arith, only_reader-count t u us)

pub count-only_reader :
    (t : ℕ) (us : List ℕ) → ((u : ℕ) → u ≢ t → count u us ≡ 0) → only_reader t us ≡ true
unfolding only_reader
count-only_reader t [] h = refl
count-only_reader t (v ∷ us) h = elim (Bool-cases (v == t)) [
  | inl same ↦ rw same (count-only_reader t us (λ u ne. omega (arith, h u ne)))
  | inr other ↦ absurd (ground (arith, h v))
]

module _ (m : Mutex) (holds : m.State → ℕ → ℕ) where
  -- How often each thread has begun to read and to write, and not ended.
  pub record System : Type 0 where
    pub lock : RwMutex m
    pub reads : ℕ → ℕ
    pub writes : ℕ → ℕ

  -- A thread ends only what it has begun. `begin_write` is any number of refusals and a success.
  pub data Step (s : System) : System → Type 0 where
    begin_reading :
        (t : ℕ) (l : RwMutex m)
        → begin_read m t s.lock ≡ some l
        → Step s (record s { lock = l; reads = update t (suc (s.reads t)) s.reads })
    end_reading :
        (t : ℕ) (l : RwMutex m)
        → 0 < s.reads t
        → end_read m t s.lock ≡ some l
        → Step s (record s { lock = l; reads = update t (s.reads t - 1) s.reads })
    refused :
        (t : ℕ) (l : RwMutex m)
        → try_write m t s.lock ≡ some (false, l)
        → Step s (record s { lock = l })
    begin_writing :
        (t : ℕ) (l : RwMutex m)
        → try_write m t s.lock ≡ some (true, l)
        → Step s (record s { lock = l; writes = update t (suc (s.writes t)) s.writes })
    end_writing :
        (t : ℕ)
        → 0 < s.writes t
        → Step s
            (record s { lock = end_write m t s.lock; writes = update t (s.writes t - 1) s.writes })

  abbrev pub start : System
  start = record { lock = new_rwmutex m; reads = λ _. 0; writes = λ _. 0 }

  pub data Reach : System → Type 0 where
    here : Reach start
    next : {s t : System} → Reach s → Step s t → Reach t

  pub record Inv (s : System) : Type 0 where
    pub counted : (t : ℕ) → count t s.lock.readers ≡ s.reads t
    pub held : (t : ℕ) → holds s.lock.mutex t ≡ s.writes t
    pub flagged : (t : ℕ) → 0 < s.writes t → s.lock.write ≡ true
    pub alone : (t u : ℕ) → 0 < s.writes t → u ≢ t → s.reads u ≡ 0
