-- ===== src/Send.antt =====
-- The send side of a partner, libopen-mx/omx_send.c and omx_ack.c: requests get a sequence number
-- each, wait for their ack, and wait for a number while too many wait for an ack.
pub mod Defs
pub mod Ops
pub mod Ack
pub mod Window
pub mod Throttle
pub mod Release
pub mod Acked
pub mod Nacked
pub mod Medium
pub mod Posting
mod Tests
