-- ===== src/Segments/Copy.antt =====
-- The copies of libopen-mx/omx_segments.h that start at the first segment. Memory is a function from
-- addresses to bytes. A loop is a recursion on the segments; `none` is a read behind their array.
use open_mx.Common.{
  ℕ, zero, suc, ◌+◌, ◌-◌, List, [], ◌∷◌, Option, none, some, ltb, leb, ◌==◌, ◌&&◌, if◌then◌else◌,
}
use open_mx.Segments.Defs.{Seg, ReqSegs, pointed}

abbrev pub Memory : Type 0
Memory = ℕ → ℕ

-- memcpy of `n` bytes, for ranges that do not overlap.
unfoldable pub memcpy : ℕ → ℕ → ℕ → Memory → Memory
memcpy dst src n m = λ a. if leb dst a && ltb a (dst + n) then m (src + (a - dst)) else m a

-- The part of a segment that is taken when `length` bytes are left.
abbrev pub chunk_of : Seg → ℕ → ℕ
chunk_of s length = if ltb length s.len then length else s.len

-- omx_copy_from_segments
unfoldable pub copy_from_array : ℕ → List Seg → ℕ → Memory → Option Memory
unfolding memcpy
copy_from_array dst [] length m = if length == 0 then some m else none
copy_from_array dst (s ∷ ss) length m =
    let chunk = chunk_of s length in
    let rest = copy_from_array (dst + chunk) ss (length - chunk) (memcpy dst s.vaddr chunk m) in
    if length == 0 then some m else rest

unfoldable pub copy_from_segments : ℕ → ReqSegs → ℕ → Memory → Option Memory
unfolding memcpy copy_from_array
copy_from_segments dst r length m =
    if r.nseg == 1
    then some (memcpy dst r.single.vaddr length m)
    else copy_from_array dst (pointed r.segs) length m

-- omx_copy_to_segments
unfoldable pub copy_to_array : List Seg → ℕ → ℕ → Memory → Option Memory
unfolding memcpy
copy_to_array [] src length m = if length == 0 then some m else none
copy_to_array (s ∷ ss) src length m =
    let chunk = chunk_of s length in
    let rest = copy_to_array ss (src + chunk) (length - chunk) (memcpy s.vaddr src chunk m) in
    if length == 0 then some m else rest

unfoldable pub copy_to_segments : ReqSegs → ℕ → ℕ → Memory → Option Memory
unfolding memcpy copy_to_array
copy_to_segments r src length m =
    if r.nseg == 1
    then some (memcpy r.single.vaddr src length m)
    else copy_to_array (pointed r.segs) src length m

-- The loop of omx_copy_from_to_segments, with the rounds that are left as fuel: the segment that is
-- read or written is the first of its list, from an offset on.
abbrev pub step_on : List Seg → ℕ → List Seg × ℕ
step_on [] off = ([], off)
step_on (s ∷ ss) off = if leb s.len off then (ss, 0) else (s ∷ ss, off)

unfoldable pub copy_across : ℕ → List Seg → ℕ → List Seg → ℕ → ℕ → Memory → Option Memory
unfolding memcpy
copy_across zero ds doff ss soff length m = if length == 0 then some m else none
copy_across (suc fuel) [] doff ss soff length m = if length == 0 then some m else none
copy_across (suc fuel) (d ∷ ds) doff [] soff length m = if length == 0 then some m else none
copy_across (suc fuel) (d ∷ ds) doff (s ∷ ss) soff length m =
    let c = if ltb s.len length then s.len else length in
    let chunk = if ltb d.len c then d.len else c in
    let (ss', soff') = step_on (s ∷ ss) (soff + chunk) in
    let (ds', doff') = step_on (d ∷ ds) (doff + chunk) in
    let rest =
      copy_across fuel ds' doff' ss' soff' (length - chunk)
        (memcpy (d.vaddr + doff) (s.vaddr + soff) chunk m) in
    if length == 0 then some m else rest

-- omx_copy_from_to_segments
unfoldable pub copy_from_to_segments : ℕ → ReqSegs → ReqSegs → ℕ → Memory → Option Memory
unfolding copy_to_segments copy_from_segments copy_across
copy_from_to_segments fuel dst src length m =
    if src.nseg == 1
    then copy_to_segments dst src.single.vaddr length m
    else (if dst.nseg == 1
        then copy_from_segments dst.single.vaddr src length m
        else copy_across fuel (pointed dst.segs) 0 (pointed src.segs) 0 length m)
