-- ===== src/Threads/Steps.antt =====
-- Every step of the threads that use one `rwmutex` keeps its invariant.
use nuords_proxy.Prelude.{
  ℕ, suc, ◌-◌, ◌<◌, ◌==◌, ◌≡◌, ◌≢◌, refl, ap, sym, ◌∙◌, subst, arith, Bool, true, false, Bool-cases,
  inl, inr, if_true, Option, none, some, [], ◌∷◌, ◌++◌, if◌then◌else◌,
}
use nuords_proxy.Threads.Locks.{
  Mutex, IsMutex, with_lock, erase_reader, only_reader, begin_read, end_read, try_write, end_write,
}
use nuords_proxy.Threads.Exclusion.{
  update, count, count-snoc, count-erase_reader, only_reader-count, count-only_reader, System, Step,
  begin_reading, end_reading, refused, begin_writing, end_writing, Reach, here, next, Inv,
}

module _ {A : Type 0} where
  accepted :
      (c : Bool) (x y l : A)
      → ◌≡◌ {A = Bool × A} (if c then (true, x) else (false, y)) (true, l)
      → (c ≡ true) × (x ≡ l)
  accepted true x y l e = (refl, ap (λ p. p.1) e)
  accepted false x y l e = absurd (cc (ap (λ p. p.0) e))

  denied :
      (c : Bool) (x y l : A)
      → ◌≡◌ {A = Bool × A} (if c then (true, x) else (false, y)) (false, l)
      → (c ≡ false) × (y ≡ l)
  denied true x y l e = absurd (cc (ap (λ p. p.0) e))
  denied false x y l e = (refl, ap (λ p. p.1) e)

module _ (m : Mutex) (holds : m.State → ℕ → ℕ) where
  -- Who holds the mutex, after a thread gets it and gives it back.
  cycle :
      (laws : IsMutex m holds) (x y : m.State) (t u : ℕ)
      → m.lock t x ≡ some y
      → holds (m.unlock t y) u ≡ holds x u
  cycle laws x y t u e = elim (Bool-cases (u == t)) [
    | inl same ↦
        let eq : u ≡ t = ground arith in
        rw eq (omega (arith, laws.released y t, laws.locked x y t e))
    | inr other ↦
        let ne : u ≢ t = ground arith in
        omega (
          arith,
          laws.released_other y t u (omega (arith, laws.locked x y t e)) ne,
          laws.locked_other x y t u e ne,
        )
  ]

  -- A thread that gets the mutex is the only one that has begun to write.
  sole_writer :
      (laws : IsMutex m holds) (s : System m holds) (y : m.State) (t u : ℕ)
      → Inv m holds s
      → m.lock t s.lock.mutex ≡ some y
      → 0 < s.writes u
      → u ≡ t
  sole_writer laws s y t u inv e h = elim (Bool-cases (u == t)) [
    | inl same ↦ ground arith
    | inr other ↦
        let ne : u ≢ t = ground arith in
        laws.one_holder y u t
          (omega (arith, laws.locked_other s.lock.mutex y t u e ne, inv.held u, h))
          (omega (arith, laws.locked s.lock.mutex y t e))
  ]

  abbrev Found : {B : Type 0} → Option m.State → (m.State → B) → B → Type 0
  Found o inside b = (y : m.State) × (o ≡ some y) × (inside y ≡ b)

  with_lock-Found :
      {B : Type 0} (o : Option m.State) (inside : m.State → B) (b : B)
      → with_lock m o inside ≡ some b
      → Found o inside b
  with_lock-Found none inside b e = absurd cc
  with_lock-Found (some y) inside b e = (y, refl, cc)

  pub begin_reading-Inv :
      (laws : IsMutex m holds) (s : System m holds) (t : ℕ) (y : m.State)
      → Inv m holds s
      → m.lock t s.lock.mutex ≡ some y
      → Inv m holds (record s {
        lock = record (s.lock) { mutex = m.unlock t y; readers = s.lock.readers ++ t ∷ [] };
        reads = update t (suc (s.reads t)) s.reads;
      })
  begin_reading-Inv laws s t y inv e = record {
    counted = λ u. grind (arith, count-snoc u t s.lock.readers, inv.counted u);
    held = λ u. cycle laws s.lock.mutex y t u e ∙ inv.held u;
    flagged = inv.flagged;
    alone = λ w u writing ne.
        let same : w ≡ t = sole_writer laws s y t w inv e writing in
        grind (arith, inv.alone w u writing ne);
  }

  pub end_reading-Inv :
      (laws : IsMutex m holds) (s : System m holds) (t : ℕ) (y : m.State)
      → Inv m holds s
      → m.lock t s.lock.mutex ≡ some y
      → Inv m holds (record s {
        lock = record (s.lock) { mutex = m.unlock t y; readers = erase_reader t s.lock.readers };
        reads = update t (s.reads t - 1) s.reads;
      })
  end_reading-Inv laws s t y inv e = record {
    counted = λ u. grind (arith, count-erase_reader t u s.lock.readers, inv.counted u);
    held = λ u. cycle laws s.lock.mutex y t u e ∙ inv.held u;
    flagged = inv.flagged;
    alone = λ w u writing ne.
        let same : w ≡ t = sole_writer laws s y t w inv e writing in
        grind (arith, inv.alone w u writing ne);
  }

  -- Other readers, and hence no writer: a writer would be the thread that gets the mutex, and alone.
  pub refused-Inv :
      (laws : IsMutex m holds) (s : System m holds) (t : ℕ) (y : m.State)
      → Inv m holds s
      → m.lock t s.lock.mutex ≡ some y
      → only_reader t s.lock.readers ≡ false
      → Inv m holds (record s { lock = record (s.lock) { mutex = m.unlock t y; write = false } })
  refused-Inv laws s t y inv e others = record {
    counted = inv.counted;
    held = λ u. cycle laws s.lock.mutex y t u e ∙ inv.held u;
    flagged = λ w writing.
        let same : w ≡ t = sole_writer laws s y t w inv e writing in
        absurd (
          cc (
            others,
            count-only_reader t s.lock.readers
                (λ u ne. inv.counted u ∙ inv.alone w u writing (subst (λ v. u ≢ v) (sym same) ne)),
          ));
    alone = inv.alone;
  }

  pub begin_writing-Inv :
      (laws : IsMutex m holds) (s : System m holds) (t : ℕ) (y : m.State)
      → Inv m holds s
      → m.lock t s.lock.mutex ≡ some y
      → only_reader t s.lock.readers ≡ true
      → Inv m holds (record s {
        lock = record (s.lock) { mutex = y; write = true };
        writes = update t (suc (s.writes t)) s.writes;
      })
  begin_writing-Inv laws s t y inv e only = record {
    counted = inv.counted;
    held = λ u. elim (Bool-cases (u == t)) [
      | inl same ↦
          let eq : u ≡ t = ground arith in
          rw same (rw eq (omega (arith, laws.locked s.lock.mutex y t e, inv.held t)))
      | inr other ↦
          let ne : u ≢ t = ground arith in
          rw other (laws.locked_other s.lock.mutex y t u e ne ∙ inv.held u)
    ];
    flagged = λ _ _. refl;
    alone = λ w u writing ne.
        let same : w ≡ t = elim (Bool-cases (w == t)) [
          | inl eq ↦ ground arith
          | inr other ↦ sole_writer laws s y t w inv e (rw other at writing)
        ] in
        sym (inv.counted u)
        ∙ only_reader-count t u s.lock.readers only (subst (λ v. u ≢ v) same ne);
  }

  pub end_writing-Inv :
      (laws : IsMutex m holds) (s : System m holds) (t : ℕ)
      → Inv m holds s
      → 0 < s.writes t
      → Inv m holds (record s {
        lock = record (s.lock) { mutex = m.unlock t s.lock.mutex };
        writes = update t (s.writes t - 1) s.writes;
      })
  end_writing-Inv laws s t inv writing = record {
    counted = inv.counted;
    held = λ u. elim (Bool-cases (u == t)) [
      | inl same ↦
          let eq : u ≡ t = ground arith in
          rw same (rw eq (omega (arith, laws.released s.lock.mutex t, inv.held t)))
      | inr other ↦
          let ne : u ≢ t = ground arith in
          rw other
            (laws.released_other s.lock.mutex t u (omega (arith, inv.held t)) ne ∙ inv.held u)
    ];
    flagged = λ w h. inv.flagged t writing;
    alone = λ w u h ne. inv.alone w u (still t w h) ne;
  }
    where
      still : (t w : ℕ) → 0 < update t (s.writes t - 1) s.writes w → 0 < s.writes w
      still t w h = grind arith

  Step-Inv :
      (laws : IsMutex m holds) (s s' : System m holds)
      → Step m holds s s'
      → Inv m holds s
      → Inv m holds s'
  unfolding begin_read end_read try_write end_write
  Step-Inv laws s s' (begin_reading t l e) inv =
      let (y, got, made) = with_lock-Found _ _ l e in
      subst (λ l. Inv m holds (record s { lock = l; reads = update t (suc (s.reads t)) s.reads }))
        made (begin_reading-Inv laws s t y inv got)
  Step-Inv laws s s' (end_reading t l began e) inv =
      let (y, got, made) = with_lock-Found _ _ l e in
      subst (λ l. Inv m holds (record s { lock = l; reads = update t (s.reads t - 1) s.reads }))
        made (end_reading-Inv laws s t y inv got)
  Step-Inv laws s s' (refused t l e) inv =
      let (y, got, made) = with_lock-Found _ _ (false, l) e in
      let (others, left) = denied (only_reader t s.lock.readers) _ _ l made in
      subst (λ l. Inv m holds (record s { lock = l })) left (refused-Inv laws s t y inv got others)
  Step-Inv laws s s' (begin_writing t l e) inv =
      let (y, got, made) = with_lock-Found _ _ (true, l) e in
      let (only, left) = accepted (only_reader t s.lock.readers) _ _ l made in
      subst
        (λ l. Inv m holds (record s { lock = l; writes = update t (suc (s.writes t)) s.writes }))
        left (begin_writing-Inv laws s t y inv got only)
  Step-Inv laws s s' (end_writing t writing) inv =
      subst (λ l. Inv m holds (record s { lock = l; writes = update t (s.writes t - 1) s.writes }))
        (sym (if_true s.lock.write _ s.lock (inv.flagged t writing)))
        (end_writing-Inv laws s t inv writing)

  Reach-Inv : (laws : IsMutex m holds) (s : System m holds) → Reach m holds s → Inv m holds s
  Reach-Inv laws s here = record {
    counted = λ _. refl;
    held = laws.held_by_none;
    flagged = λ t h. absurd (omega arith);
    alone = λ t u h ne. refl;
  }
  Reach-Inv laws s (next {s = before} r step) =
      Step-Inv laws before s step (Reach-Inv laws before r)

  -- In any interleaving of threads that use the lock through its lockers: while one has begun to
  -- write and not ended, no other thread reads or writes, nor is one listed as a reader.
  pub Reach-Excludes :
      (laws : IsMutex m holds) (s : System m holds) (t u : ℕ)
      → Reach m holds s
      → 0 < s.writes t
      → u ≢ t
      → (s.reads u ≡ 0) × (s.writes u ≡ 0) × (count u s.lock.readers ≡ 0)
  Reach-Excludes laws s t u r writing ne =
      let inv = Reach-Inv laws s r in
      let quiet = inv.alone t u writing ne in
      (
        quiet,
        elim (Bool-cases (s.writes u == 0)) [
          | inl idle ↦ ground arith
          | inr busy ↦ absurd (
              ne (
                laws.one_holder s.lock.mutex u t (ground (arith, inv.held u))
                  (omega (arith, inv.held t, writing))))
        ],
        inv.counted u ∙ quiet,
      )
