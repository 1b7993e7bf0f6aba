-- ===== src/Ordered.antt =====
-- `OrderedStream` of bridge/src/ordered_stream.rs, at the orders that the bridge uses: block
-- numbers. The future is any type with a polling function, which may act on a state `W` around it.
mod Defs
pub mod Scan
pub mod Origin
pub mod Polls
pub mod Least
pub mod Ties
pub mod Total
pub mod Drain
pub mod Ends
pub mod Progress
pub use Defs.{Entry, OrderedStream}
unfoldable pub use Defs.{new, insert, ready_count, not_ready_count, advance, visit, scan, poll}
