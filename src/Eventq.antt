-- ===== src/Eventq.antt =====
-- The event queues of driver/linux/omx_event.c and the library loop that drains them
-- (libopen-mx/omx_lib.c, omx__progress).
pub mod Defs
pub mod Notify
pub mod Progress
pub mod Ring
pub mod Refine
pub mod View
pub mod Drain
pub mod Wait
pub mod Expected
pub mod Runs
mod Tests
