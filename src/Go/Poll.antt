-- ===== src/Go/Poll.antt =====
-- Retry loops that poll: how they end, and that they end at their first decisive round.
mod Loop
mod First
unfoldable pub use Loop.*
pub use First.*
