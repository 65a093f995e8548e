-- ===== src/Vector.antt =====
-- src/com/xtllib/xtl_vector.h: `xtl::vector`, the array that the proxy keeps its objects in.
--
-- The memory at `m_data` is a list of cells, as many as there is room for; a cell without an object
-- is `none`. Memory that is not allocated yet (NULL) has no cells. Allocations succeed, and so do
-- the copies of items.
pub mod Memory
pub mod Changes
pub mod Cells
pub mod Holds
pub mod Places
pub mod Kept
pub mod Sizes
pub mod Listed
pub mod Refined
pub mod Bounds
pub mod Compare
pub mod Copies
pub mod Own
use nuords_proxy.Prelude.{ℕ, Option, List}

pub record Vector {ℓ} (A : Type ℓ) : Type ℓ where
  pub data_cells : List (Option A)
  pub capacity : ℕ
  pub size : ℕ

-- What a call ends with: a result, an exception, or a fault where it would touch memory that is not
-- its own or an object that is not there.
pub data Outcome {ℓ} (A : Type ℓ) : Type ℓ where
  ok : A → Outcome A
  throws : Outcome A
  fault : Outcome A

abbrev pub and_then {ℓ κ} : {A : Type ℓ} → {B : Type κ} → Outcome A → (A → Outcome B) → Outcome B
and_then (ok a) next = next a
and_then throws next = throws
and_then fault next = fault
