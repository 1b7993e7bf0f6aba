-- ===== src/Async.antt =====
-- The futures 0.1 model of asynchronous code: what one `poll` answers, and the
-- `loop { match self.state … }` in which the bridge's futures and streams are written, with its
-- rules in the files below. bridge/src/macros.rs.
mod Defs
pub mod Loop
pub mod Round
pub mod Ending
pub mod Spend
unfoldable pub use Defs.*
