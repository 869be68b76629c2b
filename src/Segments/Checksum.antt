-- ===== src/Segments/Checksum.antt =====
-- omx_checksum_segments of libopen-mx/omx_segments.h: the CRC of 16 bits with polynomial 0x1021.
use open_mx.Common.{ℕ, zero, suc, ◌+◌, ◌-◌, ◌*◌, ◌%◌, ◌^◌, List, [], ◌∷◌, leb, ◌==◌, if◌then◌else◌}
use Prim.Native.Nat.{bit_xor}
use open_mx.Segments.Defs.{Seg, ReqSegs, segments}
use open_mx.Segments.Copy.{Memory, chunk_of}

-- One round of the loop on bits.
unfoldable pub crc_bit : ℕ → ℕ
crc_bit crc = if leb 0x8000 crc then bit_xor (crc * 2 % 2 ^ 16) 0x1021 else crc * 2 % 2 ^ 16

-- One byte, with its 8 rounds.
unfoldable pub crc_byte : ℕ → ℕ → ℕ
unfolding crc_bit
crc_byte crc b = crc_bit (
    crc_bit (
      crc_bit (crc_bit (crc_bit (crc_bit (crc_bit (crc_bit (bit_xor crc (b * 2 ^ 8 % 2 ^ 16)))))))))

-- The loop on the `n` bytes of a chunk.
unfoldable pub crc_bytes : Memory → ℕ → ℕ → ℕ → ℕ
unfolding crc_byte
crc_bytes m at zero crc = crc
crc_bytes m at (suc n) crc = crc_bytes m (at + 1) n (crc_byte crc (m at))

-- The loop on the segments: cache_array makes them a list of `nseg`, so that the list ends where
-- `seg < nseg` does.
unfoldable pub checksum_array : Memory → List Seg → ℕ → ℕ → ℕ
unfolding crc_bytes
checksum_array m [] length crc = crc
checksum_array m (s ∷ ss) length crc =
    let chunk = chunk_of s length in
    let rest = checksum_array m ss (length - chunk) (crc_bytes m s.vaddr chunk crc) in
    if length == 0 then crc else rest

unfoldable pub checksum_segments : Memory → ReqSegs → ℕ → ℕ
unfolding checksum_array
checksum_segments m r length = checksum_array m (segments r) length 0
