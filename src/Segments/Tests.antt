-- ===== src/Segments/Tests.antt =====
-- Scattered buffers on concrete inputs: 8 bytes in two segments.
use open_mx.Common.{ℕ, ◌+◌, ◌%◌, ◌≤◌, ◌≡◌, refl, inl, inr, Option, none, some, List, [], ◌∷◌, arith}
use open_mx.Segments.Defs.{Seg, ReqSegs, array, segments}
use open_mx.Segments.Copy.{
  Memory, memcpy, copy_from_segments, copy_from_array, copy_across, copy_from_to_segments,
  copy_to_segments,
}
use open_mx.Segments.Partial.{State}
use open_mx.Segments.Checksum.{checksum_segments, crc_bytes}
use open_mx.Segments.Address.{sum, IsApart}
use open_mx.Segments.Gather.{gathered, copy_from_segments-gathered}
use open_mx.Segments.Digest.{checksum_segments-copied}
use open_mx.Segments.Scatter.{IsSeparate, copy_from_segments-copy_to_segments}
use open_mx.Segments.Scan.{IsAt}

abbrev two : List Seg
two = record { vaddr = 100; len = 3 } ∷ record { vaddr = 200; len = 5 } ∷ []

abbrev request : ReqSegs
request = record {
  single = record { vaddr = 0; len = 0 };
  nseg = 2;
  segs = array two;
  total_length = 8;
}

abbrev bytes : Memory
bytes a = a % 256

apart : IsApart 1000 6 (segments request)
apart = (inl (omega arith), (inl (omega arith), tt))

enough : 6 ≤ sum (segments request)
unfolding sum
enough = omega arith

copy_from_segments-gathered_example :
    (m' : Memory) × (copy_from_segments 1000 request 6 bytes ≡ some m')
    × (m' 1004 ≡ gathered 1000 (segments request) 6 bytes 1004)
copy_from_segments-gathered_example =
    copy_from_segments-gathered 1000 request 6 bytes 1004 enough apart

abbrev copied : Memory
copied = memcpy 1003 200 3 (memcpy 1000 100 3 bytes)

copies : copy_from_segments 1000 request 6 bytes ≡ some copied
unfolding copy_from_segments copy_from_array
copies = refl

checksum_segments-copied_example : checksum_segments bytes request 6 ≡ crc_bytes copied 1000 6 0
checksum_segments-copied_example =
    checksum_segments-copied 1000 request 6 bytes copied enough apart copies

abbrev at_start : State
at_start = record { seg = two; offset = 0 }

starts : IsAt two 0 at_start
unfolding sum
starts = record { place = omega arith; head = omega arith; small = omega arith }

-- The target of 4 and 4 bytes, the source of 3 and 5: the second round writes 3 bytes behind the first
-- segment of the target, at 1004 to 1006.
abbrev target : ReqSegs
target = record request {
  segs = array (record { vaddr = 1000; len = 4 } ∷ record { vaddr = 2000; len = 4 } ∷ []);
}

abbrev byte_at : ℕ → Option Memory → Option ℕ
byte_at a none = none
byte_at a (some m) = some (m a)

overrun : byte_at 1006 (copy_from_to_segments 9 target request 8 bytes) ≡ some 203
unfolding copy_from_to_segments copy_across memcpy
overrun = refl

source_free : IsApart 1000 6 (segments request)
source_free = (inl (omega arith), (inl (omega arith), tt))

target_free : IsApart 2000 6 (segments request)
target_free = (inl (omega arith), (inl (omega arith), tt))

separate : IsSeparate (segments request)
separate = ((inr (omega arith), tt), (tt, tt))

copy_from_segments-copy_to_segments_example :
    (m' m'' : Memory) × (copy_to_segments request 1000 6 bytes ≡ some m')
    × (copy_from_segments 2000 request 6 m' ≡ some m'')
    × (m'' (2000 + 4) ≡ bytes (1000 + 4))
copy_from_segments-copy_to_segments_example =
    copy_from_segments-copy_to_segments request 1000 2000 6 bytes 4 enough source_free target_free
      separate (omega arith)
