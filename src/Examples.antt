-- ===== src/Examples.antt =====
-- A small proxy of one balancer, one client and one server, a configuration file, and the theorems
-- at work on them.
pub mod World
pub mod Runs
pub mod Files
pub mod Network
pub mod Sockets
pub mod Locks
pub mod Library
