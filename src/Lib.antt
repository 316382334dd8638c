-- ===== src/Lib.antt =====
-- A proxy that forwards TCP connections and UDP datagrams from local ports to fixed destinations,
-- with a delay, a bandwidth limit for each rule and one for each client address.
--
-- Prelude: the library names that all files share, integers over the native ℕ (`Int`), lists,
-- Boolean tests, the two-element arrays indexed by `pair_id` (`Sides`), maps as association lists
-- (`Maps`), and runs that may end in a fault (`Faults`).
-- Config (src/common.h): sizes, limits and the forwarding rules.
-- Buffer (src/buffer.h): `global::Buffer`.
-- IpProxy (src/ip_proxy.h, src/ip_proxy.cpp, and `~TcpConnection` of src/tcp_proxy.cpp):
-- `IPProxies`, the allowance that the connections of one client address share. `get_ip_proxy` is
-- `getIPProxy`, `release` the destructor's decrement, `routine_round` one round of
-- `routineThreadHandler`.
-- Tcp.Connection (`TcpConnection` of src/tcp_proxy.h, src/tcp_proxy.cpp): the handlers
-- `handle_connect`, `handle_read`, `handle_write` and `flush_msgs`, each a function of the
-- connection, its two sockets and the `IPProxy` behind `client_ip`. `Steps` has the events that the
-- network and the timer choose among, in any order, and `Clients` the allowance of an address that
-- connections and an endpoint share, over all the objects that are made for it (`Charges`, `Lives`).
-- Tcp.Proxy (`TcpProxy` of the same files): the listening port with its connections, `start`,
-- `handle_accept`, `handle_wait`, `close`. `Sound` says what holds of its connections and of
-- `ip_proxies` together, `Flush` is about a round of the timer, `Handlers` about
-- soundness under each handler.
-- IoServicePool (src/io_service_pool.h, src/io_service_pool.cpp): `io_service_pool`, the pool of
-- io_services with a thread for each; `Life` has its reachable states.
-- Udp.Endpoint (`UdpEndpointProxy` of src/udp_proxy.h, src/udp_proxy.cpp): one UDP socket with its
-- queues; `handle_recv` is `handleRecv`, `pop`, `push_send` and `restart` are what the routine
-- thread does to an endpoint. `Life` has the reachable states of a client's endpoint, `Drops` the
-- share of datagrams that a rule drops.
-- Udp.Server (`UdpProxyServer`): the endpoints of all rules and clients and the thread that moves
-- messages between them; `Receive` and `Send` are the two passes of a round, `Routine` the round
-- and the thread. `Turns` has the reachable states, `Sound` and its neighbours what a round keeps,
-- `Queues` and `Wire` what the loops take off the queues, `Routes` and its neighbours where a
-- message goes, `Allowance` and `Handing` what the passes take from the allowance of an address.
-- Strings (src/xtokens.h, src/xpath.h): strings taken apart at separators, and names of files.
-- SharedData (src/shared_data.h, src/shared_data.cpp): `init`, as far as it reads the configuration
-- file (what it makes of the rules is in Program), with `std::getline` and the `>>` of streams
-- (`Streams`). `Numbers`, `Lines` and `Files` write a file from directives and read it back; `Errors`
-- is about lines of any kind.
-- Thread (src/xthread.h, src/xthread.cpp): `xrecursive_mutex` with its levels and
-- `condition_variable_recursive_mutex`, as one thread uses them.
-- Random (src/xrandom.h, src/xrandom.cpp): the ranges of `global::random`, and `arrange`; `Unique` has
-- `unique_assign`.
-- Time (src/xttime.h): `is_launchtime`, `interval_checker` and `interval_manager`.
-- Watch (src/watch.h, src/watch.cpp): the log, its levels and the lines that it writes.
-- Daemon (src/xdaemon.h, src/xdaemon.cpp): `guardian`, `daemonize` and `terminate`, for any answers of
-- the system calls; `Rounds` is about the loop of `guardian`.
-- Args (src/ServerArgsBase.h, src/ServerArgsBase.cpp, src/args.h, src/args.cpp): the arguments with
-- their defaults, the options as Boost.Program_options gives them (`Options`), and `init` (`Start`).
-- Program (src/faraway_proxy.cpp, and `start` and `stop` of src/shared_data.cpp): the program from
-- `main` to its end. What `SharedData::init` makes of the rules, how many take an io_service and which
-- proxies were started, is an argument.
--
-- How the parts meet: the timer of a `TcpProxy` calls `flushMsgs` of each connection and destroys
-- those that answer false; a connection charges the `IPProxy` of its client when it writes, and the
-- thread of `IPProxies` refills it. A proxy's handlers run on one thread, so each handler is one
-- step; what other threads do to an `IPProxy` between two steps is the event `shares`. The endpoints of
-- `UdpProxyServer` hold the same `IPProxy` objects; `IpProxy.Pointers` has the pointer that both keep.
-- A round of its thread is one step, and so is each completed receive. `main` gives the arguments to
-- `ServerArgs::init`, which may log, fork and end the process, and makes the server of `sdata`, whose
-- destructor ends the threads and deletes the pool.
--
-- Integers: `int` wraps at 32 bits where a value can reach it (`to_int`, `add_int`, `sub_int`);
-- `msec_t` is a 64-bit count of milliseconds and is taken as unbounded, and so are the products of
-- two such values. `int` products that overflow, undefined in C++, wrap here.
-- Two loops use fuel: that of `guardian`, for which child_cnt + 19 rounds are enough, and that of
-- `unique_assign`, which draws until a number is new, and for which some number of rounds is enough
-- if the generator gives each number again and again. Each other loop runs over a list or counts
-- down a number.
--
-- Taken as parameters: the types of endpoints and addresses of Boost.Asio, with equality of
-- addresses; the results of the calls of Boost.Asio and of the clock. `Steps.Enabled` states what
-- is relied on: an operation that was started completes once, a read fills at most its buffer, and
-- `operation_aborted` comes only from a socket that was closed. `run` of an io_service returns once it
-- is stopped. What `int32_range` draws is an argument.
-- `boost::tokenizer` is a record of its documented behaviour, and `rand` a sequence of numbers below
-- 2^31. `boost::trim` and `address::from_string` are functions given to `init`.
--
-- The parsers of the command line and of the configuration file, `variables_map`, the file system and
-- the answers of `fork`, `wait`, `mmap` and `setsid` are arguments of `init` of the arguments.
--
-- Not modelled: the draws of floating-point numbers, several threads that wait for one mutex, the
-- formatting of dates, and the helpers for stack traces and conversions. The mutexes of
-- `IPProxies` and of the endpoints are not modelled: their operations are single steps.
-- An exception that leaves a thread of the pool, and ends the process, is not modelled.
-- What a connection prints is left out; the `remote_endpoint()` that it prints is not.
pub mod Prelude
pub mod Config
pub mod Buffer
pub mod IpProxy
pub mod Tcp
pub mod IoServicePool
pub mod Udp
pub mod Time
pub mod Strings
pub mod Random
pub mod SharedData
pub mod Thread
pub mod Watch
pub mod Daemon
pub mod Args
pub mod Program
