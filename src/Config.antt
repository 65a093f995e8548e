-- ===== src/Config.antt =====
-- src/nrdpx_config.h: the configuration file, as sections of items.
--
-- `m_items` is a list of keys, each of which it holds once; the order of a hash table is never
-- read. `get_strings` keeps the words of a value in `vls`, which is empty until it is asked for
-- them. The pointer `m_data` is the number of a server or a client. What `fread` gave is a sequence
-- of bytes.
pub mod Items
pub mod Texts
pub mod Sections
pub mod Load
pub mod Print
pub mod Scanned
pub mod Pairs
pub mod RoundTrip
pub mod Loaded
pub mod Sound
pub mod Find
pub mod Words
use nuords_proxy.Prelude.{ℕ, Option, List, Bytes}

pub record Item : Type 0 where
  pub val : Bytes
  pub vls : List Bytes

pub record Section : Type 0 where
  pub name : Bytes
  pub items : List (Bytes × Item)
  pub link : Option ℕ

pub record Config : Type 0 where
  pub sects : List Section
  pub prefix : Bytes
