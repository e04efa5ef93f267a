-- ===== src/Lib.antt =====
-- Yellowstone: an event bus whose subscribers have bounded queues, and a scheduler that publishes
-- events on it at deadlines; and, under source/, the earlier engine, in which an exchange leases
-- partitions of events to workers, whose observers drain them.
--
-- The parts and the files that model them:
--   PairingHeap  include/yellowstone/collections/pairing_heap.hpp and .inl. `Heap` is the root and
--     the size; `Chain` is the first-child, next-sibling tree that the pointers build, each node
--     with its address. The operations keep the names of the methods. Contents, Order and
--     Operations hold what they do to the items; Drain is the loop of tests/unit/pairing_heap.cc;
--     Handles is `increase_priority`; Destroy is `destroy_tree`, `clear` and move assignment.
--   Event        include/yellowstone/event.hpp and event.inl.
--   Partition    include/yellowstone/partition.hpp and partition.inl: the queue of a subscriber, by
--     levels, index and size. Queue is what a partition promises; Cells and Nodes relate the two.
--   EventBus     include/yellowstone/event_bus.hpp and event_bus.inl. EventBus.antt holds the
--     subscribers, Publish the two ways to publish, Lifecycle `start`, `stop` and `m_consume_one`;
--     Delivery and Fanout say what becomes of the queues. A bus holds a partition for each subscriber.
--   Scheduler    include/yellowstone/scheduler.hpp and scheduler.inl. It holds a pairing heap of
--     items and calls the bus. Run is the timing thread, one function for each phase of `m_run`;
--     Time holds the signed ticks of the clock, Forwarding joins the thread to its bus, and
--     Sequence runs it while every deadline has passed.
--   Exchange     include/yellowstone/exchange.hpp and source/exchange.cc. Exchange.antt holds the
--     dispatcher, `acquire`, `close_lease` and `release`; Barrier is the graph superstep barrier.
--     Acquiring, Releasing and Returning are about single calls, Reachable about all sequences of
--     calls, Starving about a build with NDEBUG, Supersteps about the barrier.
--   Observer     include/yellowstone/observer.hpp and source/observer.cc. Observer.antt holds the
--     members and the states that only touch them, Run the thread of `m_run` one step at a time,
--     System `notify` and `stop` as atomic steps of other threads; each load and store of a member that
--     the threads share is a step of its own where another thread can tell. Steps and Turns keep the
--     invariant; Waiting and Ending use it, Draining and Serving follow a notice. It calls the exchange.
--   Sequencer    include/yellowstone/sequence.hpp, sequencer.hpp, sequencer.inl and
--     source/sequence.cc: the claims of a single producer on a ring.
--   Worker       source/worker.cc: the routes of a worker and the events that it persists.
--   Context      include/yellowstone/context.hpp and source/context.cc, with `subscribe` of
--     source/event_bus.cc. It uses the barrier of the exchange.
--   Exceptions   the exceptions of the parts under include/yellowstone.
--   Collections  what the earlier engine uses of containers that are not in the repository.
--   Prelude      the names, tests and list lemmas that the parts share.
--   Tests        the theorems at concrete inputs.
--
-- How state and concurrency are modelled. A method takes the state and returns the new one with its
-- result, or with the exception that it throws. What a mutex guards is one step. `publish` does not
-- exclude the workers, so the number of events that each worker takes out meanwhile is an argument.
-- A wait is a function that looks once, with what it sees of the clock and of the flags as
-- arguments, and either goes on or stays; notifications, which only say when to look, are left out.
--
-- An assertion of the earlier engine is a test whose failure aborts; `debug` says whether assertions
-- are compiled, for with NDEBUG their side effects vanish too. What one observer shares with other
-- threads may change between any two of its steps.
--
-- Parameters. `k_max_subscribers` and the launch of the workers are those of the library Phelps,
-- which is not part of the repository; the address of a new node, the outcome of launching a
-- thread, `duration_cast`, and whether a handler throws are arguments. The queues, the map and the
-- partitions of the earlier engine (collections/) and its persistence are records of operations with
-- the laws that the code relies on, and Tests has an instance of each on lists and numbers. Its
-- evaluation of expressions and its bookkeeper are records of operations of which nothing is assumed.
-- The merger of payloads is an argument with two parts: what it leaves in the queued payload, and the
-- exception that it throws, if it throws one.
--
-- Bounds and fuel. Counters of 64 bits wrap around in the model; the insertion orders of the
-- scheduler are assumed to stay below 2^64. Generations wrap around in 32 bits; the sequences of the
-- sequencer are signed integers whose overflow, undefined in the source, is left out. The sizes are not bounded. `destroy_tree` runs on fuel,
-- two rounds for each node; the loop of Drain on the number of nodes; the thread's end is counted
-- in steps.
--
-- Not modelled: the exceptions of allocation, of copying payloads and of comparators; the links
-- `parent` and `previous_sibling`, which the shape of the tree determines; of the earlier engine the
-- controllers that source/context.cc installs and its waits on tickets, which call headers that the
-- repository does not hold, the directories of source/worker.cc, and the plain declarations of
-- commands, requests, state and cache; the Python bindings.
mod Prelude
pub mod Collections
pub mod Exchange
pub mod Observer
pub mod Sequencer
pub mod Worker
pub mod Context
pub mod PairingHeap
pub mod Event
pub mod Exceptions
pub mod Partition
pub mod EventBus
pub mod Scheduler
mod Tests
