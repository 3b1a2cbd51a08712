-- ===== src/Lib.antt =====
-- Verification library of two C++20 programs: 02_LOB_Engine, a limit order book with a matching
-- engine, and 01_AsyncNet_Server, a framed TCP server.
--
-- The order book. Orders and price levels live in two object pools. A level links its orders in a
-- list through pointers inside the orders, the two sides map a price to a level, and one more map
-- leads from an identifier to an order. addOrder takes a slot, matches against the other side and
-- rests what is left of a limit order; cancelOrder goes from the identifier to the order, unlinks
-- it, drops an empty level and gives the slot back.
--
--   Lob/Types: 02_LOB_Engine/include/Types.hpp and Order.hpp. A pointer is a number: 0 is nullptr.
--   Lob/Pool: include/ObjectPool.hpp. The storage says which slots hold a live object; access to
--   any other is the result `fault`, a full pool is `threw` with the state at the throw.
--   Lob/PriceLevel: include/PriceLevel.hpp; Chain, Links, Represents and Remove relate the links
--   in the pool to a list of orders, with what no command on a level writes.
--   Lob/OrderBook: include/OrderBook.hpp and src/OrderBook.cpp. Matching holds the two matching
--   functions (`match_buy_order`, `match_sell_order`, which share `match_levels`, `match_level`
--   and `trade`), Orders holds `add_order`, `cancel_order` and the handling of levels, Queries the
--   members that only read, and the destructor. A std::map is a list of entries in the order of
--   its iterator; an iterator is the rest of that list.
--   Lob/OrderBook/View and Represents: the lists of levels that a book stands for. Represents says
--   that the maps, links, counts and pools of a book are those of two such lists.
--   Lob/OrderBook/Matching/Fill and Sweep, Orders/Join, Cancel/Lists: what trades, rests and
--   cancellations do to lists, described without pools or pointers. The files beside them prove
--   that the program does the same: Steps, Trade and LevelLoop for the inner loop, Between and
--   SideLoop for the outer one, Holding, Match, Open, Append and Rest for the parts of addOrder,
--   Leave, Close and Gone for those of cancelOrder.
--   Lob/OrderBook/Market, Uncrossed, Withdrawn, Quotes, Start: what follows for traders, for an
--   order that is placed and cancelled, for a full pool, for queries and for a new book. Lob/Demo
--   runs src/main.cpp and Lob/UnitTests tests/TestOrderBook.cpp; Lob/Tests and WithdrawnTests
--   apply the theorems to concrete books.
--   Lob/Exchange: what the engine is to do, with one queue of orders for each side and no pools,
--   maps or pointers. Meet, Known and Budget measure the queues; Flat, Gone and Levels read the
--   levels of a book as queues; Shows relates a book to an exchange, Placed and Replay carry one
--   call and a list of calls over, and Life adds the destructor. Lob/Preserves and OrderBook/Sizes
--   hold what no command changes, OrderBook/Room when a pool has a slot, Release and Destroy what
--   the destructor gives back. Lob/ReplayTests runs a short day.
--   Lob/Benchmark: benchmarks/BenchmarkLOB.cpp, a loop of draws and calls; Workload relates it to
--   the exchange, Placed and Cancels say what its cancellations find. Lob/BenchmarkTests runs 20
--   operations.
--   Lob/LockFreeQueue: include/LockFreeQueue.hpp, which the engine does not use. emplace and pop
--   are step functions over the locals that they have, one step for each access to a shared
--   member, and a schedule says which thread moves next; loads and stores are taken in one order.
--   Slots and Fifo hold what is true under every schedule, Alone what a call does that runs alone;
--   Lob/QueueTests applies them to a ring of four slots.
--
-- The server. A frame is a header of 8 bytes in network byte order and a payload. A session reads
-- frames, answers pings and echo requests, and writes its answers from a queue, one at a time; all
-- its handlers run on one strand. The server accepts clients, makes a session for each and enters
-- it in the manager, which a session leaves when it is stopped. A pool of workers runs the
-- handlers until stop, which a signal or the destructor calls. The client sends echo requests and
-- counts.
--
--   AsyncNet/Protocol: 01_AsyncNet_Server/include/Common.hpp and src/Protocol.cpp, over lists of
--   bytes; Bytes and RoundTrip relate writing and reading.
--   AsyncNet/SessionManager: include/SessionManager.hpp and src/SessionManager.cpp, a set of names
--   and a counter; Members holds the laws of the set. stopAll is `stop_all` of the server, which
--   has the sessions.
--   AsyncNet/Session: include/Session.hpp and src/Session.cpp, a state with one function for each
--   handler; `in_flight` lists the writes under way, of which there could be several. Asio is a
--   list of events: a posted handler runs, in the order of the posts on the
--   strand, or a read or write that was started ends, well or with an error. Order follows what is
--   sent from the handlers to the socket, Membership what a step does to the manager's set, Echo
--   what a session answers, Refusal what it refuses, and ReadEnds is the induction over the code
--   of a read.
--   AsyncNet/Server: include/Server.hpp and src/Server.cpp. The workers are a list of numbers with
--   the flag that says whether each is joinable, and the context is a list of events of accepts
--   and of sessions. stop goes in steps, and `Meanwhile` lists the events that the workers handle
--   between them, up to those that had begun when the context was stopped. Registry relates the
--   manager and the sessions, Stages follows the server from its constructor on, Closing says what
--   handlers can change while it stops, Shutdown holds stop from a worker and from another thread.
--   AsyncNet/Main: src/main.cpp, as the outcome of a command line; Arguments says what words mean.
--   AsyncNet/Logger: include/Logger.hpp; Streams describes the two streams by
--   tables of the levels.
--   AsyncNet/BenchmarkClient: client/BenchmarkClient.cpp. A worker is a command over its socket,
--   its latencies and the totals; Answers runs it against a server that answers, Moves and
--   Accounts against any, Clients does the same for the threads of main, Conversation against the
--   bytes that a session writes, and Report holds the statistics. The threads only add to the
--   totals, so the model runs them one after the other. AsyncNet/Tests, ServerTests and
--   ClientTests apply the theorems, and UnitTests runs tests/TestProtocol.cpp.
--
-- Bounds and fuel. Quantities wrap at 2 ^ 32 and counters at 2 ^ 64, as uint32_t and uint64_t do.
-- The inner matching loop is given one round more than the level counts orders, which is enough
-- since each round goes on to the next order of the level; every other loop is structural.
--
-- Parameters. `clock k` stands for std::chrono::high_resolution_clock at the trade that follows
-- `k` trades of the same call; nothing is assumed of it. `free` says on which ports the acceptor
-- can listen, `starts` for which threads the constructor of std::thread does not throw, `max_size`
-- how many elements a vector can reserve, `atoi` the 32 bits that std::atoi makes of a text,
-- `concurrency` what std::thread::hardware_concurrency answers, `date` the text
-- that std::put_time makes of a time, and `elapsed` the latency of a request by the clock. The
-- arithmetic on doubles and the sort in the client's report are parameters of Report, with what is
-- assumed of them at its theorem, and parameters of Lob/Benchmark, as are the generator of random
-- numbers and its distributions: std::uniform_int_distribution keeps to its bounds. The peer of a
-- client is the bytes that it sends and the number of writes that it takes.
--
-- Not modelled. The text that printBook and the main functions format around the values, and
-- the log lines of the server; the closing of sockets and the weaker memory orders of the queue;
-- what the test programs print; and the build files, among them the compiler tests that CMake
-- has left in the build directories.
pub mod Prelude
pub mod Lob
pub mod AsyncNet
