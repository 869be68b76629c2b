-- ===== src/Segments/Defs.antt =====
-- struct omx__req_segs, and how a request stores its segments.
use open_mx.Common.{ℕ, Bool, List, [], ◌∷◌, ltb, ◌==◌, not, if◌then◌else◌, length, add32}

-- struct omx_cmd_user_segment, and the user's omx_seg_t, whose length has 32 bits.
pub record Seg : Type 0 where
  pub vaddr : ℕ
  pub len : ℕ

-- What the pointer `segs` of a request points to: the field `single` of the request at an address, or
-- an array of its own on the heap.
pub data Pointer : Type 0 where
  single_of : ℕ → Pointer
  array : List Seg → Pointer

-- struct omx__req_segs
pub record ReqSegs : Type 0 where
  pub single : Seg
  pub nseg : ℕ
  pub segs : Pointer
  pub total_length : ℕ

abbrev pub max_segments : ℕ
max_segments = 256

pub data Result : Type 0 where
  success segments_bad_count no_resources : Result

-- omx_cache_single_segment, of the request at address `self`.
unfoldable pub cache_single_segment : ℕ → ℕ → ℕ → ReqSegs
cache_single_segment self buffer length = record {
  single = record { vaddr = buffer; len = length };
  nseg = 1;
  segs = single_of self;
  total_length = length;
}

-- The sum that the loop of omx_cache_segments forms, in 32 bits.
unfoldable pub sum_lengths : ℕ → List Seg → ℕ
sum_lengths total [] = total
sum_lengths total (s ∷ ss) = sum_lengths (add32 total s.len) ss

-- omx_cache_segments, of the request `r` at address `self`; `memory` says whether the array could be
-- allocated. The empty array stands for the NULL that a failed allocation leaves.
abbrev pub cache_array : Bool → ReqSegs → List Seg → Result × ReqSegs
cache_array memory r segs =
    if ltb max_segments (length segs)
    then (segments_bad_count, r)
    else (if not memory then (no_resources, record r { segs = array [] }) else (
      success,
      record r { nseg = length segs; segs = array segs; total_length = sum_lengths 0 segs },
    ))

unfoldable pub cache_segments : ℕ → Bool → ReqSegs → List Seg → Result × ReqSegs
unfolding cache_single_segment sum_lengths
cache_segments self memory r [] = (success, cache_single_segment self 0 0)
cache_segments self memory r (s ∷ []) = (success, cache_single_segment self s.vaddr s.len)
cache_segments self memory r (s ∷ t ∷ ss) = cache_array memory r (s ∷ t ∷ ss)

-- omx_free_segments: whether it frees the array.
unfoldable pub free_segments : ReqSegs → Bool
free_segments r = ltb 1 r.nseg

-- omx_clone_segments, into the request at address `dst`.
unfoldable pub clone_segments : ℕ → ReqSegs → ReqSegs
clone_segments dst src = if src.nseg == 1 then record src { segs = single_of dst } else src

-- The array behind the pointer `segs`. The code reads it only of requests without a single segment.
abbrev pub pointed : Pointer → List Seg
pointed (single_of owner) = []
pointed (array segs) = segs

-- The segments that a request stands for.
abbrev pub segments : ReqSegs → List Seg
segments r = if r.nseg == 1 then r.single ∷ [] else pointed r.segs
