-- ===== src/Replay.antt =====
-- include/core/replay.hpp: recorded order flow.
pub mod Trace
pub mod Run
mod Tests
