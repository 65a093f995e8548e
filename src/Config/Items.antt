-- ===== src/Config/Items.antt =====
-- `xtl::hash_map` as the configuration uses it: `find` and the assignment `m_items[k] = v`.
use nuords_proxy.Prelude.{Option, none, some, List, [], ◌∷◌, Bytes, equal, if◌then◌else◌}

module _ {ℓ} {V : Type ℓ} where
  abbrev pub find_key : Bytes → List (Bytes × V) → Option V
  find_key k [] = none
  find_key k ((j, v) ∷ m) = if equal j k then some v else find_key k m

  abbrev pub set_key : Bytes → V → List (Bytes × V) → List (Bytes × V)
  set_key k v [] = (k, v) ∷ []
  set_key k v ((j, w) ∷ m) = if equal j k then (j, v) ∷ m else (j, w) ∷ set_key k v m

  -- Every pair of the first list is assigned in the second.
  abbrev pub set_all : List (Bytes × V) → List (Bytes × V) → List (Bytes × V)
  set_all [] m = m
  set_all ((k, v) ∷ news) m = set_all news (set_key k v m)
