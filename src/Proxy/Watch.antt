-- ===== src/Proxy/Watch.antt =====
-- `fill_fds` of src/nrdpx_server.cpp, asked for both sets: the sockets that a pass waits for. A set of
-- descriptors is a list, and `top` is the largest one in it. A descriptor that the set has no room
-- for, of `limit` (`FD_SETSIZE`) and above, or `NRD_NOSOCK`, which is -1, is written outside the set:
-- a fault, `none`.
pub mod Open
pub mod Sets
use nuords_proxy.Prelude.{
  ℕ, Bool, true, false, ltb, if◌then◌else◌, Option, none, some, List, [], ◌∷◌,
}
use nuords_proxy.Proxy.{Channel}

pub record Fds : Type 0 where
  pub read_set : List ℕ
  pub write_set : List ℕ
  pub top : Option ℕ

infixl 5 ◌>>=◌
abbrev pub ◌>>=◌ : Option Fds → (Fds → Option Fds) → Option Fds
none >>= next = none
some fds >>= next = next fds

-- `xtl::max` with `NRD_NOSOCK`, which is below every socket.
unfoldable pub raise : ℕ → Option ℕ → Option ℕ
raise s none = some s
raise s (some m) = if ltb m s then some s else some m

-- `FD_SET`, and the greatest socket so far.
unfoldable pub set_read : ℕ → Option ℕ → Fds → Option Fds
set_read limit none fds = none
set_read limit (some s) fds =
    if ltb s limit
    then some (record fds { read_set = s ∷ fds.read_set; top = raise s fds.top })
    else none

unfoldable pub set_write : ℕ → Option ℕ → Fds → Option Fds
set_write limit none fds = none
set_write limit (some s) fds =
    if ltb s limit
    then some (record fds { write_set = s ∷ fds.write_set; top = raise s fds.top })
    else none

module _ (limit : ℕ) where
  unfoldable pub read_if : Bool → Option ℕ → Fds → Option Fds
  read_if b sock fds = if b then set_read limit sock fds else some fds

  unfoldable pub write_if : Bool → Option ℕ → Fds → Option Fds
  write_if b sock fds = if b then set_write limit sock fds else some fds

  unfoldable pub watch_listeners : List (Option ℕ) → Fds → Option Fds
  watch_listeners [] fds = some fds
  watch_listeners (s ∷ socks) fds = set_read limit s fds >>= watch_listeners socks

  unfoldable pub watch_channel : Channel → Fds → Option Fds
  watch_channel c fds = do
    source ← read_if (ltb c.source_input.pos c.source_input.size) c.source fds
    target ← read_if (ltb c.target_input.pos c.target_input.size) c.target source
    forth ← write_if (ltb 0 c.source_input.pos) c.target target
    write_if (ltb 0 c.target_input.pos) c.source forth

  unfoldable pub watch_channels : List Channel → Fds → Option Fds
  watch_channels [] fds = some fds
  watch_channels (c ∷ chns) fds = watch_channel c fds >>= watch_channels chns

  unfoldable pub fill_fds : List (Option ℕ) → List Channel → Option Fds
  fill_fds listeners chns =
      watch_listeners listeners (record { read_set = []; write_set = []; top = none })
      >>= watch_channels chns
