-- ===== src/Lib.antt =====
-- Verification of the trading core of zkbot: the state of the order manager, the exchange
-- simulator, the subscriptions to market data, the replay queue of the backtester, and the timers.
--
-- The program is a set of Rust crates under rust/crates. An order manager (zk-oms-rs) keeps, for
-- each order, its live state and a log, holds cash and inventory for it while it is open, and
-- keeps the positions that fills change. Gateways (zk-gw-svc) send its orders to a venue, or to
-- the simulator (zk-sim-core), and bring back reports; market data gateways (zk-rtmd-rs) keep one
-- venue subscription for all readers of a stream. The backtester (zk-backtest-rs) replays recorded
-- events together with those that the run generates.
--
-- The files, and what they model:
--   Prelude (Tests, Int, Keys, Maps, Lists)
--     shared notation: Boolean tests, exact quantities, equality as an interface, hash maps and
--     hash sets with their laws, lists over the native numbers.
--   Reservation (Totals, Values, Laws, Runs, Effects)
--     rust/crates/zk-oms-rs/src/reservation_v2.rs: reserve, release, release_partial,
--     total_reserved, check_available, under these names.
--   Position (Freeze, Delta, Reconcile)
--     rust/crates/zk-oms-rs/src/position_v2.rs: check_and_freeze, unfreeze, apply_delta,
--     update_reconcile_status and the accessors.
--   Intern (Laws)
--     rust/crates/zk-oms-rs/src/intern_v2.rs and the table of models_v2.rs: intern, try_resolve,
--     lookup (here lookup_id).
--   Orders
--     rust/crates/zk-oms-rs/src/order_store_v2.rs with the records of models_v2.rs. Types has the
--     data; Report the functions that apply one report to one order; Status and Fills what any
--     sequence of reports keeps; Store and Closing the operations of the store; Invariant,
--     Eviction and Keeps their invariant; Lifecycle what closing and linking promise; Entries the
--     state that is inferred from trades.
--   Sim
--     rust/crates/zk-sim-core/src: Orders has the records, Policy the match policies, Reports the
--     report builders, Core the simulator; Walk, Conserves, Times and Reachable have the proofs.
--   Subs
--     rust/crates/zk-rtmd-rs/src/sub_manager.rs: Keys has the keys of types.rs; Counts, Specs,
--     Upstream and Startup the reference counts, the kept specs, the venue's side and the start.
--   Replay (Heads, Order, Times, Loading)
--     rust/crates/zk-backtest-rs/src/event_queue.rs: the queue of a backtest. add_stream, push,
--     pop, is_empty and len, under these names; drain calls pop as often as there are events.
--   Metadata, Balance
--     rust/crates/zk-oms-rs/src/metadata_v2.rs and balance_v2.rs: the tables of ids and their
--     lookups, and the balances that the exchange reports. Metadata.Build and Instruments have the
--     two builds from the configuration, Strings and Reload what a reload keeps.
--   Core
--     rust/crates/zk-oms-rs/src/oms_core_v2.rs with validation.rs. Types has the state, the messages
--     and the actions; Requests validation, resolution and the gateway's request; Placing
--     process_order; Failures the failures of a gateway and process_cancel; Reports and Settle
--     process_report_for_order; Incoming process_order_report and process_balance_update; Messages
--     process_message; Start init_state. Edits, Sound, PlacingKeeps, ReportKeeps, FailureKeeps and
--     Reachable have its invariant; Ended, EndedPlacing, EndedEntries, EndedKeeps and Leaks that an
--     ended order holds nothing; Recovery what a start gives back; PanicKeeps and Panic that a
--     panic lasts; Accepts, Refusals, Undo and Cancels what single messages do.
--   Timers
--     rust/crates/zk-core-rs/src (types.rs, scheduler.rs, sim_clock.rs, test_clock.rs): the root has
--     the records and the arithmetic of intervals, Policies what a due timer does, Scheduler
--     register, cancel, drain_due and peek_next_fire_ms, Clock the two clocks. Intervals and Points
--     have the grid of an interval timer; Heap, Next and Drain the end of a drain, Fires and Due
--     its fires, Entries, Valid and Reachable the invariants.
--   Ids
--     rust/crates/zk-trading-sdk-rs/src/id_gen.rs: the root has the generator, next_id by one thread
--     and compose, Fields the bits of an id, Sequential the calls of one thread, Threads the atomic
--     operations of a call as steps, Interleaved the calls of several threads.
--
-- How the parts interact: each handler of the order manager's core takes the whole state and a
-- message, calls the stores one after the other, and gives back the new state and the actions for
-- the service around it; each store is a value that an operation takes and gives back. The
-- order store interns exchange references in the table of Intern. The simulator calls its match
-- policy, which is a parameter of its operations. The subscription manager calls the adapter of
-- the venue, whose answers are arguments.
--
-- Choices of the model:
--   * An f64 quantity or price is an exact integer number of 10^-9 units, and a product of two of
--     them counts 10^-18; rounding, infinities and NaN are not modelled. Where the code divides,
--     division is a parameter about which nothing is assumed.
--   * In Timers and Ids an i64 wraps at 64 bits. Elsewhere it is an integer without bounds: ids,
--     timestamps and codes of enums, which are copied and compared; besides, the simulator adds the
--     delay of a match and 1 to times (apply_match). A u32 is a natural number, and a counter wraps
--     at 2^32.
--   * The core keeps its holds in units of 10^-18, cash and inventory alike, since they share totals.
--   * HashMap is an association list and HashSet a list, used through lookup and membership only;
--     where the code iterates over a map, the order of the visit is an argument.
--   * The clock, the ids that the order manager draws and the answers of remote calls are arguments.
--     The atomic operations of `next_id` are taken one after the other, in any order of the threads.
--   * Log lines are left out. The errors of the stores are constructors; a text that the core writes
--     into an order is a parameter, applied to the data in it.
--   * The loops of the code recurse on a list. `Replay.drain` and `Timers.Scheduler.drain`, which pop
--     a queue again and again, count their calls; the length of the queue is enough, for the timers
--     where no time overflows. The loops over the missed times of a timer count the milliseconds from
--     the first to the last.
--
-- Not modelled: the builders of protobuf messages of oms_core_v2.rs, snapshots, the earlier
-- generation of the same code, services and network code, strategies, the Java and Python parts.
pub mod Prelude
pub mod Reservation
pub mod Position
pub mod Intern
pub mod Orders
pub mod Sim
pub mod Subs
pub mod Replay
pub mod Metadata
pub mod Balance
pub mod Core
pub mod Timers
pub mod Ids
