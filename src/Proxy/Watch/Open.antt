-- ===== src/Proxy/Watch/Open.antt =====
-- `fill_fds` where every socket that it looks at is open and below `FD_SETSIZE`.
use nuords_proxy.Prelude.{
  ℕ, ◌<◌, ◌≡◌, refl, ◌↔◌, Bool, true, false, ltb, Option, none, some, some-injective, List, [], ◌∷◌,
  All, arith,
}
use nuords_proxy.Proxy.{Channel}
use nuords_proxy.Proxy.Watch.{
  Fds, raise, set_read, set_write, read_if, write_if, watch_listeners, watch_channel,
  watch_channels,
}

pub ltb_iff : (a b : ℕ) → (ltb a b ≡ true) ↔ (a < b)
ltb_iff a b = (λ e. ground arith, λ lt. ground arith)

-- The sets where every socket is there and below the limit.
unfoldable pub with_read : Bool → Option ℕ → Fds → Fds
with_read true (some s) fds = record fds { read_set = s ∷ fds.read_set; top = raise s fds.top }
with_read true none fds = fds
with_read false o fds = fds

unfoldable pub with_write : Bool → Option ℕ → Fds → Fds
with_write true (some s) fds = record fds { write_set = s ∷ fds.write_set; top = raise s fds.top }
with_write true none fds = fds
with_write false o fds = fds

unfoldable pub listener_sets : List (Option ℕ) → Fds → Fds
listener_sets [] fds = fds
listener_sets (o ∷ socks) fds = listener_sets socks (with_read true o fds)

unfoldable pub channel_sets : Channel → Fds → Fds
channel_sets c fds =
    let source = with_read (ltb c.source_input.pos c.source_input.size) c.source fds in
    let target = with_read (ltb c.target_input.pos c.target_input.size) c.target source in
    let forth = with_write (ltb 0 c.source_input.pos) c.target target in
    with_write (ltb 0 c.target_input.pos) c.source forth

unfoldable pub all_sets : List Channel → Fds → Fds
all_sets [] fds = fds
all_sets (c ∷ chns) fds = all_sets chns (channel_sets c fds)

-- A socket that a set has room for.
abbrev pub IsOpen : ℕ → Option ℕ → Type 0
IsOpen limit o = (s : ℕ) × (o ≡ some s) × (s < limit)

-- The sockets that a channel waits for are open.
pub record IsWatchable (limit : ℕ) (c : Channel) : Type 0 where
  pub source_read : c.source_input.pos < c.source_input.size → IsOpen limit c.source
  pub target_read : c.target_input.pos < c.target_input.size → IsOpen limit c.target
  pub target_write : 0 < c.source_input.pos → IsOpen limit c.target
  pub source_write : 0 < c.target_input.pos → IsOpen limit c.source

module _ (limit : ℕ) where
  set_read-IsOpen :
      (o : Option ℕ) (fds : Fds)
      → IsOpen limit o
      → set_read limit o fds ≡ some (with_read true o fds)
  unfolding set_read with_read
  set_read-IsOpen none fds (s, e, below) = cc
  set_read-IsOpen (some t) fds (s, e, below) =
      let same : t ≡ s = some-injective t s e in
      let fits : ltb t limit ≡ true = ground (arith, same) in rw fits refl

  set_write-IsOpen :
      (o : Option ℕ) (fds : Fds)
      → IsOpen limit o
      → set_write limit o fds ≡ some (with_write true o fds)
  unfolding set_write with_write
  set_write-IsOpen none fds (s, e, below) = cc
  set_write-IsOpen (some t) fds (s, e, below) =
      let same : t ≡ s = some-injective t s e in
      let fits : ltb t limit ≡ true = ground (arith, same) in rw fits refl

  read_if-IsOpen :
      (b : Bool) (o : Option ℕ) (fds : Fds)
      → (b ≡ true → IsOpen limit o)
      → read_if limit b o fds ≡ some (with_read b o fds)
  unfolding read_if with_read
  read_if-IsOpen true o fds h = set_read-IsOpen o fds (h refl)
  read_if-IsOpen false o fds h = refl

  write_if-IsOpen :
      (b : Bool) (o : Option ℕ) (fds : Fds)
      → (b ≡ true → IsOpen limit o)
      → write_if limit b o fds ≡ some (with_write b o fds)
  unfolding write_if with_write
  write_if-IsOpen true o fds h = set_write-IsOpen o fds (h refl)
  write_if-IsOpen false o fds h = refl

  pub watch_listeners-IsOpen :
      (socks : List (Option ℕ)) (fds : Fds)
      → All (IsOpen limit) socks
      → watch_listeners limit socks fds ≡ some (listener_sets socks fds)
  unfolding watch_listeners listener_sets
  watch_listeners-IsOpen [] fds h = refl
  watch_listeners-IsOpen (o ∷ socks) fds (ho, h) =
      rw (set_read-IsOpen o fds ho) (watch_listeners-IsOpen socks (with_read true o fds) h)

  watch_channel-IsWatchable :
      (c : Channel) (fds : Fds)
      → IsWatchable limit c
      → watch_channel limit c fds ≡ some (channel_sets c fds)
  unfolding watch_channel channel_sets
  watch_channel-IsWatchable c fds h =
      let room1 = ltb c.source_input.pos c.source_input.size in
      let room2 = ltb c.target_input.pos c.target_input.size in
      let f1 = with_read room1 c.source fds in
      let f2 = with_read room2 c.target f1 in
      let f3 = with_write (ltb 0 c.source_input.pos) c.target f2 in
      rw
        (
          read_if-IsOpen room1 c.source fds (λ r. h.source_read ((ltb_iff _ _).0 r)),
          read_if-IsOpen room2 c.target f1 (λ r. h.target_read ((ltb_iff _ _).0 r)),
          write_if-IsOpen (ltb 0 c.source_input.pos) c.target f2
              (λ r. h.target_write ((ltb_iff _ _).0 r)),
        )
        (write_if-IsOpen (ltb 0 c.target_input.pos) c.source f3
          (λ r. h.source_write ((ltb_iff _ _).0 r)))

  pub watch_channels-IsWatchable :
      (chns : List Channel) (fds : Fds)
      → All (IsWatchable limit) chns
      → watch_channels limit chns fds ≡ some (all_sets chns fds)
  unfolding watch_channels all_sets
  watch_channels-IsWatchable [] fds h = refl
  watch_channels-IsWatchable (c ∷ chns) fds (hc, h) =
      rw (watch_channel-IsWatchable c fds hc)
        (watch_channels-IsWatchable chns (channel_sets c fds) h)
