-- ===== src/Pool/System.antt =====
-- A pool and the threads that call it, as interleaved sections.
mod Defs
pub mod Invariant
pub mod Shutdown
pub mod Progress
pub mod Serving
pub use Defs.*
