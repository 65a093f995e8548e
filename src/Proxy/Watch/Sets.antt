-- ===== src/Proxy/Watch/Sets.antt =====
-- The members of the sets of `fill_fds`.
use nuords_proxy.Prelude.{
  ℕ, ◌<◌, ◌≡◌, refl, ap, ◌∙◌, subst, ◌⊎◌, inl, inr, ◌↔◌, Bool, true, false, ltb, Option, none, some,
  some-injective, List, [], ◌∷◌, In, All, sym,
}
use nuords_proxy.Proxy.{Channel}
use nuords_proxy.Proxy.Watch.{Fds, fill_fds}
use nuords_proxy.Proxy.Watch.Open.{
  ltb_iff, with_read, with_write, listener_sets, channel_sets, all_sets, IsOpen, IsWatchable,
  watch_listeners-IsOpen, watch_channels-IsWatchable,
}

-- A channel waits to read from a socket while its buffer has room, and to write to one while the
-- buffer of the other side holds something.
abbrev pub Reads : Channel → ℕ → Type 0
Reads c s =
    (c.source ≡ some s) × (c.source_input.pos < c.source_input.size)
    ⊎ (c.target ≡ some s) × (c.target_input.pos < c.target_input.size)

abbrev pub Writes : Channel → ℕ → Type 0
Writes c s =
    (c.target ≡ some s) × (0 < c.source_input.pos) ⊎ (c.source ≡ some s) × (0 < c.target_input.pos)

abbrev pub Some : (Channel → ℕ → Type 0) → List Channel → ℕ → Type 0
Some P [] s = ⊥
Some P (c ∷ chns) s = P c s ⊎ Some P chns s

with_read_iff :
    (b : Bool) (o : Option ℕ) (fds : Fds) (s : ℕ)
    → In s (with_read b o fds).read_set ↔ ((o ≡ some s) × (b ≡ true) ⊎ In s fds.read_set)
unfolding with_read
with_read_iff true (some k) fds s = (
  λ m. elim m [ inl e ↦ inl (ap some (sym e), refl) | inr m' ↦ inr m' ],
  λ m. elim m [ inl e ↦ inl (sym (some-injective k s e.0)) | inr m' ↦ inr m' ],
)
with_read_iff true none fds s = (λ m. inr m, λ m. elim m [ inl e ↦ cc e.0 | inr m' ↦ m' ])
with_read_iff false o fds s = (λ m. inr m, λ m. elim m [ inl e ↦ cc e.1 | inr m' ↦ m' ])

with_write_iff :
    (b : Bool) (o : Option ℕ) (fds : Fds) (s : ℕ)
    → In s (with_write b o fds).write_set ↔ ((o ≡ some s) × (b ≡ true) ⊎ In s fds.write_set)
unfolding with_write
with_write_iff true (some k) fds s = (
  λ m. elim m [ inl e ↦ inl (ap some (sym e), refl) | inr m' ↦ inr m' ],
  λ m. elim m [ inl e ↦ inl (sym (some-injective k s e.0)) | inr m' ↦ inr m' ],
)
with_write_iff true none fds s = (λ m. inr m, λ m. elim m [ inl e ↦ cc e.0 | inr m' ↦ m' ])
with_write_iff false o fds s = (λ m. inr m, λ m. elim m [ inl e ↦ cc e.1 | inr m' ↦ m' ])

read_set-with_write :
    (b : Bool) (o : Option ℕ) (fds : Fds) → (with_write b o fds).read_set ≡ fds.read_set
unfolding with_write
read_set-with_write true (some k) fds = refl
read_set-with_write true none fds = refl
read_set-with_write false o fds = refl

write_set-with_read :
    (b : Bool) (o : Option ℕ) (fds : Fds) → (with_read b o fds).write_set ≡ fds.write_set
unfolding with_read
write_set-with_read true (some k) fds = refl
write_set-with_read true none fds = refl
write_set-with_read false o fds = refl

channel_sets-read_iff :
    (c : Channel) (fds : Fds) (s : ℕ)
    → In s (channel_sets c fds).read_set ↔ (Reads c s ⊎ In s fds.read_set)
unfolding channel_sets
channel_sets-read_iff c fds s =
    let room1 = ltb c.source_input.pos c.source_input.size in
    let room2 = ltb c.target_input.pos c.target_input.size in
    let f1 = with_read room1 c.source fds in
    let f2 = with_read room2 c.target f1 in
    let f3 = with_write (ltb 0 c.source_input.pos) c.target f2 in
    let one = with_read_iff room1 c.source fds s in
    let two = with_read_iff room2 c.target f1 s in
    rw
      (
        read_set-with_write (ltb 0 c.target_input.pos) c.source f3,
        read_set-with_write (ltb 0 c.source_input.pos) c.target f2,
      )
      (
        λ m. elim (two.0 m) [
          | inl (e, r) ↦ inl (inr (e, (ltb_iff _ _).0 r))
          | inr m' ↦ elim (one.0 m') [
            | inl (e, r) ↦ inl (inl (e, (ltb_iff _ _).0 r))
            | inr m'' ↦ inr m''
          ]
        ],
        λ m. elim m [
          | inl (inl (e, r)) ↦ two.1 (inr (one.1 (inl (e, (ltb_iff _ _).1 r))))
          | inl (inr (e, r)) ↦ two.1 (inl (e, (ltb_iff _ _).1 r))
          | inr m' ↦ two.1 (inr (one.1 (inr m')))
        ],
      )

channel_sets-write_iff :
    (c : Channel) (fds : Fds) (s : ℕ)
    → In s (channel_sets c fds).write_set ↔ (Writes c s ⊎ In s fds.write_set)
unfolding channel_sets
channel_sets-write_iff c fds s =
    let room1 = ltb c.source_input.pos c.source_input.size in
    let room2 = ltb c.target_input.pos c.target_input.size in
    let f1 = with_read room1 c.source fds in
    let f2 = with_read room2 c.target f1 in
    let f3 = with_write (ltb 0 c.source_input.pos) c.target f2 in
    let one = with_write_iff (ltb 0 c.source_input.pos) c.target f2 s in
    let two = with_write_iff (ltb 0 c.target_input.pos) c.source f3 s in
    let same : f2.write_set ≡ fds.write_set =
      write_set-with_read room2 c.target f1 ∙ write_set-with_read room1 c.source fds in
    subst
      (λ (xs : List ℕ).
        In s (with_write (ltb 0 c.target_input.pos) c.source f3).write_set ↔ (Writes c s ⊎ In s xs))
      same
      (
        λ m. elim (two.0 m) [
          | inl (e, r) ↦ inl (inr (e, (ltb_iff _ _).0 r))
          | inr m' ↦ elim (one.0 m') [
            | inl (e, r) ↦ inl (inl (e, (ltb_iff _ _).0 r))
            | inr m'' ↦ inr m''
          ]
        ],
        λ m. elim m [
          | inl (inl (e, r)) ↦ two.1 (inr (one.1 (inl (e, (ltb_iff _ _).1 r))))
          | inl (inr (e, r)) ↦ two.1 (inl (e, (ltb_iff _ _).1 r))
          | inr m' ↦ two.1 (inr (one.1 (inr m')))
        ],
      )

-- One element of a list, then the rest.
after_one :
    {A B : Type 0} (P Q : Type 0) → A ↔ (P ⊎ B) → {C : Type 0} → C ↔ (Q ⊎ A) → C ↔ ((P ⊎ Q) ⊎ B)
after_one P Q one rest = (
  λ c. elim (rest.0 c) [
    | inl q ↦ inl (inr q)
    | inr a ↦ elim (one.0 a) [ inl p ↦ inl (inl p) | inr b ↦ inr b ]
  ],
  λ m. elim m [
    | inl (inl p) ↦ rest.1 (inr (one.1 (inl p)))
    | inl (inr q) ↦ rest.1 (inl q)
    | inr b ↦ rest.1 (inr (one.1 (inr b)))
  ],
)

all_sets-read_iff :
    (chns : List Channel) (fds : Fds) (s : ℕ)
    → In s (all_sets chns fds).read_set ↔ (Some Reads chns s ⊎ In s fds.read_set)
unfolding all_sets
all_sets-read_iff [] fds s = (λ m. inr m, λ m. elim m [ inl e ↦ absurd e | inr m' ↦ m' ])
all_sets-read_iff (c ∷ chns) fds s =
    after_one (Reads c s) (Some Reads chns s) (channel_sets-read_iff c fds s)
      (all_sets-read_iff chns (channel_sets c fds) s)

all_sets-write_iff :
    (chns : List Channel) (fds : Fds) (s : ℕ)
    → In s (all_sets chns fds).write_set ↔ (Some Writes chns s ⊎ In s fds.write_set)
unfolding all_sets
all_sets-write_iff [] fds s = (λ m. inr m, λ m. elim m [ inl e ↦ absurd e | inr m' ↦ m' ])
all_sets-write_iff (c ∷ chns) fds s =
    after_one (Writes c s) (Some Writes chns s) (channel_sets-write_iff c fds s)
      (all_sets-write_iff chns (channel_sets c fds) s)

-- The first listener, then the rest.
first_listener :
    (o : Option ℕ) (fds : Fds) (s : ℕ)
    → In s (with_read true o fds).read_set ↔ ((some s ≡ o) ⊎ In s fds.read_set)
first_listener o fds s =
    let one = with_read_iff true o fds s in
    (
      λ m. elim (one.0 m) [ inl (e, _) ↦ inl (sym e) | inr m' ↦ inr m' ],
      λ m. elim m [ inl e ↦ one.1 (inl (sym e, refl)) | inr m' ↦ one.1 (inr m') ],
    )

listener_sets-read_iff :
    (socks : List (Option ℕ)) (fds : Fds) (s : ℕ)
    → In s (listener_sets socks fds).read_set ↔ (In (some s) socks ⊎ In s fds.read_set)
unfolding listener_sets
listener_sets-read_iff [] fds s = (λ m. inr m, λ m. elim m [ inl e ↦ absurd e | inr m' ↦ m' ])
listener_sets-read_iff (o ∷ socks) fds s =
    after_one (some s ≡ o) (In (some s) socks) (first_listener o fds s)
      (listener_sets-read_iff socks (with_read true o fds) s)

listener_sets-write :
    (socks : List (Option ℕ)) (fds : Fds) → (listener_sets socks fds).write_set ≡ fds.write_set
unfolding listener_sets
listener_sets-write [] fds = refl
listener_sets-write (o ∷ socks) fds =
    listener_sets-write socks (with_read true o fds) ∙ write_set-with_read true o fds

-- What the sets hold: the read set the listeners and the sockets of channels whose buffer for that
-- side has room, the write set the sockets for which the other side's buffer holds something.
pub record Watches (listeners : List (Option ℕ)) (chns : List Channel) (fds : Fds) : Type 0 where
  pub reads : (s : ℕ) → In s fds.read_set ↔ (Some Reads chns s ⊎ In (some s) listeners)
  pub writes : (s : ℕ) → In s fds.write_set ↔ Some Writes chns s

sets-Watches :
    (listeners : List (Option ℕ)) (chns : List Channel)
    → Watches listeners chns (
        all_sets chns
          (listener_sets listeners (record { read_set = []; write_set = []; top = none })))
sets-Watches listeners chns =
    let start : Fds = record { read_set = []; write_set = []; top = none } in
    let fds = listener_sets listeners start in
    let no_write = listener_sets-write listeners start in
    record {
      reads = λ s.
          let read = all_sets-read_iff chns fds s in
          let heard = listener_sets-read_iff listeners start s in
          (
            λ m. elim (read.0 m) [
              | inl r ↦ inl r
              | inr m' ↦ elim (heard.0 m') [ inl l ↦ inr l | inr no_one ↦ absurd no_one ]
            ],
            λ m. elim m [ inl r ↦ read.1 (inl r) | inr l ↦ read.1 (inr (heard.1 (inl l))) ],
          );
      writes = λ s.
          let write = all_sets-write_iff chns fds s in
          (
            λ m. elim (write.0 m) [ inl r ↦ r | inr m' ↦ absurd (subst (In s) no_write m') ],
            λ r. write.1 (inl r),
          );
    }

-- If every listener has a socket below `FD_SETSIZE`, and so has every channel for each side that it
-- waits for, `fill_fds` writes nothing outside the sets, and a pass waits to read from exactly the
-- listeners and the sockets of channels whose buffer for that side has room, and to write to exactly
-- the sockets of channels for which the other side's buffer holds something.
pub fill_fds_iff :
    (limit : ℕ) (listeners : List (Option ℕ)) (chns : List Channel)
    → All (IsOpen limit) listeners
    → All (IsWatchable limit) chns
    → (fds : Fds) × (fill_fds limit listeners chns ≡ some fds) × Watches listeners chns fds
unfolding fill_fds
fill_fds_iff limit listeners chns open_all watchable =
    let start : Fds = record { read_set = []; write_set = []; top = none } in
    (
      all_sets chns (listener_sets listeners start),
      rw (watch_listeners-IsOpen limit listeners start open_all)
          (watch_channels-IsWatchable limit chns (listener_sets listeners start) watchable),
      sets-Watches listeners chns,
    )
