-- ===== src/Segments.antt =====
-- Scattered buffers in the library, libopen-mx/omx_segments.h: the segments of a request, the copies
-- between them and a contiguous buffer, and their checksum.
pub mod Defs
pub mod Copy
pub mod Partial
pub mod Checksum
pub mod Cache
pub mod Gather
pub mod Address
pub mod Scan
pub mod Scatter
pub mod Digest
mod Tests
