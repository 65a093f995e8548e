-- ===== src/Setup/Bounds.antt =====
-- The bounds of the options, in `nrdpx_load_config`.
use nuords_proxy.Prelude.{
  ℕ, ◌≤◌, ◌≡◌, refl, ◌∙◌, is_some, ◌⊎◌, inl, inr, ℤ, pos, negsuc, is_null, at_least-le,
  fit_within-le, true, false, Bool-cases, List, [], ◌∷◌, All, Bytes, codes, is_empty, arith,
  if◌then◌else◌, Option, none, some,
}
use nuords_proxy.Buffer.{buffer_size_min, buffer_size_max}
use nuords_proxy.Config.{Section, Item}
use nuords_proxy.Config.Items.{find_key}
use nuords_proxy.Config.Sections.{
  get_integer, get_strings, get_boolean, key_exists, keep_words, keep_vls, at_least_one,
}
use nuords_proxy.Proxy.{none_mode, temp_mode}
use nuords_proxy.Setup.{Listener, Setup}
use nuords_proxy.Setup.Options.{
  new_listener, parse_listener, parse_listeners, load_listeners, fit_timeout, mode_of, load_info,
  load_periods, load_buffers, load_options,
}
use nuords_proxy.Setup.Clients.{has_items}

abbrev pub IsListener : Listener → Type 0
IsListener l = (is_empty l.host ≡ false) × (is_null l.port ≡ false)

pub record InBounds (s : Setup) : Type 0 where
  pub listening : (has_items s.listeners ≡ true) × All IsListener s.listeners
  pub info_period : 10 ≤ s.info_period
  pub status_period : 60 ≤ s.status_period
  pub caching :
      ((s.cache_timeout ≡ 0) × (s.cache_mode ≡ none_mode))
      ⊎ ((5 ≤ s.cache_timeout) × (s.cache_mode ≡ temp_mode))
  pub conn_timeout : (10 ≤ s.conn_timeout) × (s.conn_timeout ≤ 900)
  pub max_faults : 1 ≤ s.max_faults
  pub modes : (s.socket_mode ≤ 2) × (s.buffer_mode ≤ 2)
  pub max_buffer : (buffer_size_min ≤ s.max_buffer) × (s.max_buffer ≤ buffer_size_max)

new_listener-IsListener : (host : Bytes) (port : ℤ) → IsListener (new_listener host port)
unfolding new_listener
new_listener-IsListener host port = (filled host, usable port)
  where
    filled : (s : Bytes) → is_empty (if is_empty s then codes "0.0.0.0" else s) ≡ false
    filled [] = refl
    filled (c ∷ s) = refl

    usable : (n : ℤ) → is_null (if is_null n then pos 3389 else n) ≡ false
    usable n = elim (Bool-cases (is_null n)) [ inl e ↦ rw e refl | inr e ↦ rw (e, e) refl ]

parse_listeners-IsListener :
    (atoi : Bytes → ℤ) (words : List Bytes) → All IsListener (parse_listeners atoi words)
unfolding parse_listener
parse_listeners-IsListener atoi [] = tt
parse_listeners-IsListener atoi (a ∷ rest) =
    (new_listener-IsListener _ _, parse_listeners-IsListener atoi rest)

-- A key that is there has at least one word.
keep_words-filled :
    (sc : Section) (key : Bytes) (i : Item) → has_items (keep_words sc key (some i)).0 ≡ true
keep_words-filled sc key i = kept i.vls
  where
    one : (words : List Bytes) → has_items (at_least_one words) ≡ true
    one [] = refl
    one (w ∷ words) = refl

    kept : (vls : List Bytes) → has_items (keep_vls sc key i vls).0 ≡ true
    kept [] = one _
    kept (w ∷ words) = refl

parse_listeners-filled :
    (atoi : Bytes → ℤ) (words : List Bytes)
    → has_items (parse_listeners atoi words) ≡ has_items words
parse_listeners-filled atoi [] = refl
parse_listeners-filled atoi (a ∷ rest) = refl

load_listeners-lem :
    (atoi : Bytes → ℤ) (sc : Section)
    → (has_items (load_listeners atoi sc) ≡ true) × All IsListener (load_listeners atoi sc)
unfolding load_listeners key_exists get_strings
load_listeners-lem atoi sc = listen (find_key (codes "listeners") sc.items)
  where
    listen :
        (o : Option Item)
        → let found =
            if is_some o
            then parse_listeners atoi (keep_words sc (codes "listeners") o).0
            else new_listener (codes "0.0.0.0") (pos 3389)
              ∷ new_listener (codes "[::]") (pos 3389)
              ∷ [] in
          (has_items found ≡ true) × All IsListener found
    listen none = (refl, (new_listener-IsListener _ _, (new_listener-IsListener _ _, tt)))
    listen (some i) =
        let words = (keep_words sc (codes "listeners") (some i)).0 in
        (
          parse_listeners-filled atoi words ∙ keep_words-filled sc (codes "listeners") i,
          parse_listeners-IsListener atoi words,
        )

caching_lem :
    (n : ℤ)
    → let timeout = fit_timeout n in
      ((timeout ≡ 0) × (mode_of timeout ≡ none_mode))
      ⊎ ((5 ≤ timeout) × (mode_of timeout ≡ temp_mode))
caching_lem (pos n) = ground arith
caching_lem (negsuc n) = ground arith

load_info-period :
    (atoi : Bytes → ℤ) (sc : Section) (s : Setup)
    → 10 ≤ s.info_period
    → 10 ≤ (load_info atoi sc s).info_period
unfolding load_info
load_info-period atoi sc s h = elim (Bool-cases s.info_enabled) [
  | inl on ↦ rw on (at_least-le 10 (get_integer atoi sc (codes "info_period") (pos s.info_period)))
  | inr off ↦ rw off h
]

load_info-listeners :
    (atoi : Bytes → ℤ) (sc : Section) (s : Setup) → (load_info atoi sc s).listeners ≡ s.listeners
unfolding load_info
load_info-listeners atoi sc s = elim (Bool-cases s.info_enabled) [
  | inl on ↦ rw on refl
  | inr off ↦ rw off refl
]

pub load_options-InBounds :
    (atoi : Bytes → ℤ) (sc : Section) (s : Setup)
    → 10 ≤ s.info_period
    → InBounds (load_options atoi sc s)
unfolding load_periods load_buffers
load_options-InBounds atoi sc s h =
    let enabled = get_boolean sc (codes "info_enabled") s.info_enabled in
    let listening : Setup = record s {
      listeners = load_listeners atoi sc;
      info_enabled = enabled;
    } in
    let t = load_info atoi sc listening in
    let num : Bytes → ℕ → ℤ = λ key default. get_integer atoi sc key (pos default) in
    record {
      listening = rw (load_info-listeners atoi sc listening) (load_listeners-lem atoi sc);
      info_period = load_info-period atoi sc listening h;
      status_period = at_least-le 60 (num (codes "status_period") t.status_period);
      caching = caching_lem (num (codes "cache_timeout") 60);
      conn_timeout = fit_within-le (num (codes "conn_timeout") t.conn_timeout) 10 900 (omega arith);
      max_faults = at_least-le 1 (num (codes "max_faults") t.max_faults);
      modes = (
        (fit_within-le (num (codes "socket_mode") t.socket_mode) 0 2 (omega arith)).1,
        (fit_within-le (num (codes "buffer_mode") t.buffer_mode) 0 2 (omega arith)).1,
      );
      max_buffer =
          fit_within-le (num (codes "max_buffer") t.max_buffer) buffer_size_min buffer_size_max
            (omega arith);
    }
