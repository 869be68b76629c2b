-- ===== src/Channel.antt =====
-- The two partners of a session: requests go in on the side of libopen-mx/omx_send.c, and messages
-- come out on that of libopen-mx/omx_recv.c, over a network that loses, repeats and reorders packets.
pub mod Net
pub mod Places
pub mod Invariant
pub mod Steps
pub mod Fifo
pub mod Partner
mod Tests
