-- ===== src/Lib.antt =====
-- MyArbitrager: prices from four exchanges, the arbitrage between them, and the latency of the program.
--
-- One thread per exchange parses what its WebSocket sends into tickers and pushes them into a queue. The
-- engine's thread drains the queue into the market data, and a pass over it looks for pairs of tickers of
-- one symbol where one exchange's bid is above the other's ask. A monitor takes time stamps along the way,
-- and its own thread turns them into latency histograms.
--
-- The files, the code they model, and how the two correspond:
-- Prelude: the library's names passed on; Boolean tests, lists, faulting steps, 64-bit words, texts as lists
--   of bytes, and differences of times. `none` of a chain of steps is an access out of bounds.
-- Queue: the abstract bounded queues that the ring buffers are held against.
-- Ring: src/ring_buffer.hpp. Ring.Spsc is SPSCRingBuffer, one function per method (try_push, try_pop,
--   empty, full, size as count). Ring.Spsc.Threads splits the calls of the two threads into their accesses
--   to what they share, as a step relation. Ring.Blocking is BlockingSPSCRingBuffer.
--   Ring.Mpsc is MPSCRingBuffer of src/mpsc_ring_buffer.hpp in the same two ways: whole calls, and in
--   Ring.Mpsc.Threads the accesses of any number of producers and the consumer.
-- Symbols: normalize_symbol of src/arbitrage_engine.cpp and the conversions of src/binance_client.cpp,
--   src/coinbase_client.cpp, src/kraken_client.cpp and src/bybit_client.cpp.
-- Market: src/types.hpp. A double is a parameter D with the operations of the record Double, of which
--   nothing is assumed. Market.Map is the map from keys to tickers.
-- Tracker: src/queue_latency_tracker.hpp. The record() of ExchangeStats is `put` here. Tracker.Report has the
--   values that the reports print. Tracker.Threads splits record() into its accesses to what threads share.
-- Intake: MutexSharedQueue of src/exchange_queue.hpp, as the list of the tickers in it. Intake.Mpsc is
--   MPSCSharedQueue, which a build with USE_MPSC_QUEUE has in its place.
-- Engine: calculate_arbitrage of src/arbitrage_engine.cpp, one function for each of its loops and for the
--   body of a pair. The clock is a parameter, read where the code reads it. Engine.Lifecycle is the rest of
--   ArbitrageEngine: start, stop, update_market_data and calculation_loop, over a list of iterations, each
--   with what arrives before it, its clock, and whether a report is due.
-- Histogram: src/hdr_histogram.hpp. Its record() is `put` here.
-- Latency: src/timing.hpp (Latency.Timing), src/latency_measurement.hpp (Latency.Measurement) and
--   src/latency_monitor.hpp (Latency.Monitor, whose calls are complete_measurement, record_timestamp and so
--   on; `drain` is the loop of the monitoring thread over the samples, and Latency.Monitor.Loop the thread).
-- Clients: parse_ticker_message of the four clients, one module each, as the list of the tickers that reach
--   the callback. The JSON library and std::stod are the record Json, a parameter; `none` is an exception.
--   Clients.Session is what they repeat of connect, disconnect, run_client, do_read and on_read, and its
--   children are what differs. The results of the network calls are arguments (Attempt, Read); a turn of the
--   reading thread says whether another thread's disconnect sets the flags during it.
-- ThreadAffinity: src/thread_affinity.hpp on Linux, with the call of the operating system as a parameter.
-- Dashboard: update_market_data of src/dashboard.cpp; Dashboard.Display is its thread's start and stop, and
--   Dashboard.Drawing what its drawing computes. Dashboard.Frame is what a turn of the display loop prints.
-- Output: what is printed by std::cout, as a list of insertions with their manipulators, the bytes and colours
--   that come out, and the columns that they take. The text of a double is a parameter.
-- Program: src/main.cpp, which joins the clients, the dashboard and the engine.
-- Tests: runs at concrete inputs.
--
-- Words: uint64_t and size_t are natural numbers below 2 ^ 64, and add64, sub64 and mul64 wrap. The size of a
-- ring is a power of two below 2 ^ 64 (IsPow2), which the static_asserts of the code ask for.
-- Fuel: `drain` and the drain of MPSCSharedQueue stop on fuel, one more than the entries in the buffer. The
--   loop of MPSCRingBuffer's try_push runs on fuel when no other thread moves the tail: one turn is enough.
-- Loads and stores of atomics are single steps that take effect in order; the copy and the move version of a
-- push are one function, since the value moved is not used again.
--
-- Calls that hold a mutex run whole. The engine's thread sees `running_` change only by its own reports: a
-- stop() by another thread is the end of the list of iterations.
--
-- Not modelled: the sockets and TLS of the four clients (Boost.Beast, a library that the code only calls),
--   threads and sleeps (the operating system), the messages of single calls on the console (nothing reads
--   them back), the macOS variant of the affinity (it only passes the tag on), and the examples and tests of
--   the repository, which the program does not call.
pub mod Prelude
pub mod Queue
pub mod Ring
pub mod Symbols
pub mod Market
pub mod Histogram
pub mod Latency
pub mod Tracker
pub mod Intake
pub mod ThreadAffinity
pub mod Engine
pub mod Clients
pub mod Output
pub mod Dashboard
pub mod Program
pub mod Tests
