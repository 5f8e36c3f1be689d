-- ===== src/System.antt =====
-- The calls of the endpoints and of the interceptor on one shared state.
pub mod Sound
pub mod Writes
pub mod Calls
pub mod Approvals
pub mod Interceptions
pub mod Reach
mod Tests
