-- ===== src/Lib.antt =====
-- Verification of the core of the HFT FIX engine: the components between the feed and the trades.
--
-- The path of a packet. Two redundant lines carry the same numbered packets: FeedArbitrator takes the
-- first arrival of a number and drops the second. SequenceGapDetector watches the numbers and asks for
-- what is missing; SequenceReorderBuffer holds packets that come early and gives them out in order.
-- ProtocolParser decodes a packet, FIX text or one of two binary formats, to a ParsedOrder, which
-- passes the gate of PreTradeRiskManager and goes over an SPSCQueue from one thread to the next, to
-- MatchingEngine, which matches it in the book of its symbol. MatchingWorker joins these steps for each
-- packet. ZeroAllocHftOrderBook is the book of one symbol in fixed arrays. After a loss
-- OrderBookRecoveryManager rebuilds a book from a snapshot and the updates since.
--
-- Which file models which part (sources below include/hft, but for src/matching):
--   Networking/FeedArbitrator   networking/FeedArbitrator.hpp: process_packet, reset
--   Protocol/ParsedOrder        protocol/ParsedOrder.hpp
--   Protocol/FixParser          protocol/FixParser.hpp: parse_fixed_point_price, parse_in_place
--   Protocol/ProtocolParser     protocol/ProtocolParser.hpp: the OUCH and SBE packets, parse_in_place
--   Protocol/GapDetector        protocol/SequenceGapDetector.hpp: process_sequence, reset
--   Protocol/Reorder            protocol/SequenceReorderBuffer.hpp: push, drain_buffered, reset
--   Protocol/Risk               protocol/PreTradeRiskManager.hpp: evaluate_order and the setters
--   Protocol/FlatBook           protocol/OrderBookRecoveryManager.hpp, FlatOrderBook
--   Protocol/Recovery           protocol/OrderBookRecoveryManager.hpp: process_incremental, apply_snapshot
--   Common/SpscQueue            common/SPSCQueue.hpp: push, pop, pop_batch, push_batch, the queries
--   Matching/Book               matching/MatchingEngine.hpp, MatchingBook: submit_order
--   Matching/Engine             matching/MatchingEngine.hpp, MatchingEngine: process_order, the totals
--   Matching/ZeroAlloc          matching/ZeroAllocHftOrderBook.hpp: submit_order, add_to_book, queries
--   Matching/Worker             src/matching/MatchingWorker.cpp: run, from the packet to the trades
--   Common/ClockSynchronizer    common/ClockSynchronizer.hpp: evaluate_latency
-- Below each of them stand its invariants, its specification and its tests. Base holds what they share.
--
-- A component's state is a record with the source's fields; an operation takes the state and returns
-- the new one with its result. A reference parameter of the source is passed in and handed back. A map
-- is an association list, a vector and an array are lists. Unsigned words are numbers kept below
-- 2 ^ w with the wrap-around written out; signed ones are integers. A std::string is its bytes.
-- Signed overflow is undefined in the language: the model of FixParser wraps there, and the results on
-- prices ask that it does not happen. The identifier of an SBE order views the buffer of a local of the
-- call that has ended: what that memory holds when the order is read is an argument of the parser.
--
-- Loops run on fuel. The matching loop gets the depth of the passive side and two more rounds: each
-- round erases an entry or fills the order. The drain of the reorder buffer gets one round more than
-- the ring has slots: each round empties a slot. The FIX loop gets one round more than the message has
-- bytes: each round takes a byte. The loops of the zero-allocation book get two rounds more than there
-- are orders or levels: each round takes one away or fills the order.
--
-- Not modelled: packet rings, sockets, threads, memory arenas, logging and telemetry, which are calls
-- of the operating system; the text that snprintf makes of a risk rejection; the operations of
-- SPSCQueue interleaved between two threads; the multi-producer queue and the other worker loops;
-- floating point, which turns clock cycles into times.
pub mod Base
pub mod Common
pub mod Networking
pub mod Protocol
pub mod Matching
