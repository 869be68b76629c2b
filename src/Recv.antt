-- ===== src/Recv.antt =====
-- The receive path of the library, libopen-mx/omx_recv.c.
pub mod Defs
pub mod Order
pub mod Window
pub mod Turn
pub mod Early
pub mod Delivery
pub mod Session
pub mod Kept
pub mod Match
pub mod Take
pub mod Partial
pub mod Reassembly
pub mod Fragments
pub mod Progress
pub mod Irecv
pub mod Apart
pub mod Meet
pub mod Received
mod Tests
