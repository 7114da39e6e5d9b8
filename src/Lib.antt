-- ===== src/Lib.antt =====
-- lob-engine: a limit order book and matching engine, with the feed that drives it and the execution
-- layer that reads its reports.
--
-- A datagram goes through the ingestion (src/core/market_data.cpp) into a single-producer
-- single-consumer ring (include/core/spsc_queue.hpp), from which the engine's thread
-- (src/core/matching_engine.cpp) takes messages and applies them to the book of their symbol
-- (src/core/order_book.cpp). The book fires execution reports, which the engine puts into a second ring,
-- and the execution layer (src/core/execution_layer.cpp) turns them into positions.
--
-- Types: include/core/types.hpp.
-- OrderBook: include/core/order_book.hpp and src/core/order_book.cpp. Levels is `Side`, Slots is
--   `SlotPool`, Index is `OrderIndex`, State the book and the unlinking of an order, Match is `try_match`,
--   Liquidity is `available_liquidity`, Orders is `add_order`, `cancel_order` and `modify_order`, Quotes
--   is `best_quote` and the depth calls. Each operation is a function from the book to the book, what
--   it returns and the reports it fires. Links is the doubly linked queue of a level. View is one side
--   as the reference book's levels: the slots of each level are those that its linked list leads
--   through, and the index holds some finite map.
-- Spsc: include/core/spsc_queue.hpp, as sequential calls; Threads has each access to shared memory as a
--   step. Mpmc: include/core/mpmc_queue.hpp, in such steps; its Threads runs the steps of any number of
--   producers and consumers in the order that a schedule gives.
-- MarketData: include/core/market_data.hpp and src/core/market_data.cpp.
-- Engine, MultiSymbol, Execution: src/core/matching_engine.cpp, include/core/multi_symbol_engine.hpp,
--   src/core/execution_layer.cpp.
-- Histogram, Allocator: include/util/histogram.hpp, include/util/allocator.hpp.
-- Replay: include/core/replay.hpp. ReplayTrace: tools/replay_trace.cpp, with the random
--   generator `std::mt19937_64` as a parameter.
-- Reference: the reference book of tests/test_conservation.cpp, price levels with queues, written there as
--   the specification of the book; its sides are lists of levels.
--
-- State is passed explicitly. A `std::array` is a function of the index (Prelude/Arrays), so a write is
-- `update`. A 32-bit or 64-bit unsigned sum that the code lets wrap is written with its wrap-around
-- (Prelude/Words). The positions of the MPMC queue wrap so too, and are compared by their signed difference;
-- a schedule is bounded where its theorems need it. A price is an unbounded integer in the book, which only
-- compares prices. The execution layer calculates with prices and quantities: there each `int64_t` operation
-- is checked, and `none` stands for an overflow, which is undefined behaviour. Elsewhere `none` is the result
-- of a loop that has run out of fuel. The fuel of `try_match` is one more than the levels for its outer loop and
-- one more than the slots for each level: a round of the outer loop that goes on removes a level, and one
-- of the inner loop a slot, as long as the queues hold each slot once. The probing of the id index gets as
-- many rounds as the table has entries: with all of them taken the code's own loop does not end.
--
-- Memory orders are not modelled: an interleaving stands for them. A callback is modelled by whether it is
-- set and by the list of what it is called with. Not modelled: threads as such, CPU pinning, `mmap`, files
-- and clocks, the logger, the performance counters, the benchmarks, and floating-point conversions.
pub mod Prelude
pub mod Types
pub mod OrderBook
pub mod Spsc
pub mod Mpmc
pub mod MarketData
pub mod Engine
pub mod MultiSymbol
pub mod Execution
pub mod Histogram
pub mod Allocator
pub mod Replay
pub mod ReplayTrace
pub mod Reference
