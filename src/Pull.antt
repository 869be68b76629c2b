-- ===== src/Pull.antt =====
-- The pull of a large message, driver/linux/omx_pull.c: which frames are requested, which are
-- missing, when blocks are asked for again and when the pull is done.
pub mod Defs
pub mod Requests
pub mod Replies
pub mod Timeout
pub mod Invariant
pub mod Blocks
pub mod Drop
pub mod Start
pub mod Marks
pub mod Progress
pub mod Receive
pub mod Finish
pub mod Retry
mod Tests
