-- ===== src/Lib.antt =====
-- A model of the nuords-proxy server, a TCP proxy that balances remote desktop connections, and the
-- theorems on it.
--
-- The proxy accepts a client's connection, finds a route for the client's address (a balancer that
-- knows the client, and one of its servers), connects to the server and makes a channel, which passes
-- bytes both ways until a side fails. Routes are cached by the client's host. A connection that fails
-- counts as a fault of its server, and another server is tried.
--
-- The files, with the sources that they model (paths from the repository's root):
--   Inet       addresses, CIDR blocks, host names: src/com/xtllib/xtl_inet.h and `fit` of xtl_algo.h
--   Buffer     `nrdpx_channel_t::buffer_t` and what the main loop does with it
--   Socket     the buffer sizes of src/nrdpx_socket.cpp, on Linux; below it Listen, `nrdpx_socket_listen`
--   Proxy      the objects of src/nrdpx_server.h as records. Below it, from src/nrdpx_server.cpp:
--     Defaults   the constructors
--     Servers    `nrdpx_server_is_active` and the other functions on one server
--     Select     `nrdpx_select_server`
--     Run        commands on the proxy's state that may fault; the heap of routes
--     Caching    `nrdpx_cache_t`: `find`, `add`, `remove`
--     Channels   the constructor and the destructor of `nrdpx_channel_t`, `add_channel`, `del_channel`
--     Detect     the search for a client and a server in `nrdpx_channel_create`
--     Connect    the rest of `nrdpx_channel_create`, with `nrdpx_socket_create` of src/nrdpx_socket.cpp
--     Relay      the transfers of `nrdpx_main_proc` on one channel, `set_connected`, `adjust_buffers`
--     Loop       the passes of `nrdpx_main_proc`
--     Pace       the test after `select` and the sleep at the end of a pass
--     Watch      `fill_fds`; a write outside a set is a fault
--     Ownership  who holds a route, and that each operation keeps this in order
--   Config     the configuration file: src/nrdpx_config.cpp and nrdpx_config.h. Below it: Items (the
--     hash map), Texts (the tests on texts), Sections (the queries), Load (the parser), Print (a
--     file as it may be written), and the proofs
--   Setup      `nrdpx_load_config` of src/nrdpx_server.cpp: Options, Clients, Servers, Balancers,
--     Load (the whole of it), Start, the proxy that starts with the result, and Listeners, the loop
--     of `main` that creates the listeners
--   Tracker    the tracker of servers, src/nrdnb_client.cpp and nrdnb_client.h: Items (its list),
--     Calls (its callbacks), Settings (its socket, requests and times), View, Moves (the list as a map)
--   Health     `nrdpx_info_callback` and `nrdpx_check_server` of src/nrdpx_server.cpp: Reports (an
--     event with information), Timer (checks and requests), Callback (all events)
--   Vector     `xtl::vector` of src/com/xtllib/xtl_vector.h: Memory (its private part), Changes (its
--     operations), Compare, Copies, Listed (what each does to a list), and the proofs
--   Threads    src/com/xtllib/xtl_thread.h: Locks (`rwmutex_impl`), Exclusion (threads that use one),
--     Lives (`thread_impl`), Semaphores
--   Process    the process around the proxy, in src/nrdpx_server.cpp: Arguments (the command line),
--     Logs, Daemon (with the pid file), Main (all of `main`), Exit (signals, and the destructor up to the channels)
--   Examples   a vector, a lock, a command line, a small proxy, a configuration file, a tracker and two
--     listeners, with runs of the operations on them
--   Prelude    tests on numbers, lists and texts
--
-- The model. Functions that change the proxy's state are commands `Proxy → Run A`: a result with the
-- state after it, or a fault, where the program would read, write or delete a route that is not there
-- or follow a NULL pointer. Routes live in a heap `route_at`; servers, clients and balancers live as
-- long as the program, so a pointer to one is a number. What the system answers (`recv`, `connect`,
-- the clock, the resolver) is a parameter: records `Os`, `Net` and `Resolver`. The arithmetic on
-- `double` is the record `Double`, with the laws of comparison that a proof needs.
--
-- Bounds. An `int` that the configuration keeps at 0 or above is a natural number; a channel's
-- identifier wraps at 64 bits. The loop over the channels runs for a list of turns, one for each
-- channel that it looks at, and says whether these were enough; every theorem on it holds for any list.
-- The loop that creates the listeners runs for a list of answers, one for each turn; as many as there
-- are listeners are enough. The tracker's loop of pauses runs on fuel, and one more than its
-- milliseconds is enough.
--
-- The capacity of a vector wraps at 64 bits; allocations and copies of items succeed, and a vector whose
-- capacity changes counts as moved. The mutex of the system is any that keeps the laws of `IsMutex`; the loop of
-- `wait_for` runs on fuel, and one more than there are 25 milliseconds in its time is enough.
--
-- What `fread` reads of the configuration file, `atoi`, and what the network answers to the tracker
-- are parameters too. The tracker's two threads lock its lists, so that an operation on one is one
-- step, and any sequence of steps is a run.
--
-- Not modelled: the loops and locks of the tracker's threads; the texts of the log and of the help, and
-- the rotation of the log; the control timer; signals that arrive before `main` serves or waits; the
-- strings and the hash map of src/com/xtllib beyond what the proxy calls; and the code for Windows.
pub mod Prelude
pub mod Inet
pub mod Buffer
pub mod Config
pub mod Socket
pub mod Vector
pub mod Threads
pub mod Proxy
pub mod Setup
pub mod Tracker
pub mod Health
pub mod Process
pub mod Examples
