-- ===== src/Lib.antt =====
-- CacheX: an in-memory key-value cache with LRU eviction, times to live, sharding, snapshots and a
-- line protocol over TCP.
--
-- The program. A `Cache` (src/cache.cpp) holds its entries in a recency list
-- (src/recency_list.cpp) and finds them through an index of iterators. A `SyncCache`
-- (include/cachex/sync_cache.hpp) is a cache behind a mutex, a `ShardedCache`
-- (src/sharded_cache.cpp) a row of these, where the hash of a key chooses the shard. The server
-- (src/net/server.cpp) gives each client a connection with a thread of its own. A connection
-- (src/net/connection.cpp) cuts what it receives into lines (src/net/line_buffer.cpp), parses each
-- into a command (src/net/protocol.cpp) and executes it (src/net/command_handler.cpp). A
-- `PersistenceManager` (src/persistence.cpp) writes the entries of the cache to a file and sets
-- them again from it.
--
-- The files. Each part is a module with its state and operations, and its children hold the proofs.
--   Base         names, lists, options, bytes and integers that the parts share
--   Index        the `unordered_map` from keys to iterators, as an association list
--   Recency      `RecencyList`: nodes with addresses, so that an iterator can be stale
--   Cache        `Cache`; `store`, `find_live` and the public methods are functions of the same
--                names, `set` with a time to live is `set_ttl`. Cache/Model is the list of entries
--                that the cache is compared with, Cache/Op the calls of a client
--   Decimal      numbers as `std::to_string`, `std::from_chars` and streams write and read them
--   Sharded      `ShardedCache` and the locked calls of `SyncCache`
--   SyncCache    threads that call one `SyncCache`, as a relation of steps
--   Protocol     `parse_command`, with its helpers, and the replies
--   LineBuffer   `LineBuffer`, and the loop of `Connection::serve` that takes the lines out
--   Persistence  `load`; Persistence/File the format and the parser, Persistence/Disk `save`,
--                Persistence/Calls the calls of the cache that the records of a file stand for,
--                Persistence/Concurrent several saves at the same time
--   CommandHandler  `execute`
--   Connection   `handle_line`, `fill_buffer` and `serve`, over the results of `recv`
--   Server       the accept loop and the workers' threads, as a relation of steps; Server/Start
--                `Server::start`
--   Socket       `send_all` over partial writes, and `parse_port`; Socket/Handle the class `Socket`,
--                Socket/Connect `connect_to`
--   Saver        `PeriodicSaver`, as a relation of steps
--   ServerMain   the server program: its arguments, its reports and the waits of its saver;
--                ServerMain/Run its `main`
--   ClientMain   the client program; ClientMain/Conversation the client together with a connection
--   Demo         the demonstration of the cache
-- The modules named Tests run the code at small inputs and apply the theorems there.
--
-- Conventions. A byte is a number and a text a list of bytes. Time is the count of nanoseconds of
-- the steady clock, and every call that reads a clock takes the instant it reads. `none` of an
-- operation stands for undefined behaviour (a stale iterator, a signed overflow), so a theorem that
-- an operation gives `some` says that there is none. Counters of type `size_t` wrap at 2 ^ 64.
-- The hash of the standard library, the clocks and the answers of the operating system are
-- parameters.
--
-- Loops and fuel. The eviction loop of `store` runs on the size of the cache plus one: each round
-- removes an entry. `tokenize` runs on the length of the line, the loop over the lines on the bytes
-- buffered: each round takes at least one byte. Digits are printed on the number plus one. All
-- other loops are structural.
--
-- Not modelled: the socket options, the version (src/version.cpp), and memory that runs out. A call
-- of `SyncCache` is one step, since it holds its mutex throughout. The moves of C++ values are copies
-- here, but for the moves of `Socket`, which are modelled. In the run of the server program each
-- command and each save takes effect at once, in some order; the interleavings inside the accept
-- loop and the saver are those of Server and Saver.
pub mod Base
pub mod Index
pub mod Recency
pub mod Cache
pub mod Connection
pub mod CommandHandler
pub mod Sharded
pub mod SyncCache
pub mod Decimal
pub mod Protocol
pub mod LineBuffer
pub mod Persistence
pub mod Saver
pub mod Socket
pub mod Server
pub mod ServerMain
pub mod ClientMain
pub mod Demo
