-- ===== src/Go.antt =====
-- The part of Go's semantics that the development uses: error values, functions that return an
-- error or panic, methods that change their receiver and talk to a service, and retry loops.
pub mod Error
pub mod Result
pub mod Action
pub mod Retry
pub mod Poll
pub mod Sends
pub mod Keeps
pub mod Stays
pub mod Reach
pub mod Strings
pub mod Yields
