-- ===== src/Segments/Partial.antt =====
-- The copies that go on where the last one stopped: struct omx_segscan_state of
-- libopen-mx/omx_types.h, and the partial copies of libopen-mx/omx_segments.h.
use open_mx.Common.{
  ℕ, ◌+◌, ◌-◌, List, [], ◌∷◌, Option, none, some, ltb, ◌==◌, not, if◌then◌else◌, sub32, add32,
}
use open_mx.Segments.Defs.{Seg, ReqSegs, pointed}
use open_mx.Segments.Copy.{Memory, memcpy}

-- The segment that is next, with those behind it, and the offset in it.
pub record State : Type 0 where
  pub seg : List Seg
  pub offset : ℕ

-- The loop of both copies, from the segments that are left; `put` copies a chunk between an address
-- of a segment and one of the buffer. `none` is a read behind the array of segments.
unfoldable pub continue_copy :
    (ℕ → ℕ → ℕ → Memory → Memory) → List Seg → ℕ → ℕ → ℕ → Memory → Option (Memory × State)
continue_copy put [] off buf length m = none
continue_copy put (s ∷ ss) off buf length m =
    let curchunk = sub32 s.len off in
    let chunk = if ltb length curchunk then length else curchunk in
    let m' = put (s.vaddr + off) buf chunk m in
    let rest = continue_copy put ss 0 (buf + chunk) (length - chunk) m' in
    if not (curchunk == chunk)
    then some (m', record { seg = s ∷ ss; offset = off + chunk })
    else (if length - chunk == 0 then some (m', record { seg = ss; offset = 0 }) else rest)

-- omx_continue_partial_copy_from_segments
unfoldable pub continue_copy_from : ℕ → ℕ → State → Memory → Option (Memory × State)
unfolding continue_copy memcpy
continue_copy_from dst length st m =
    continue_copy (λ at buf n. memcpy buf at n) st.seg st.offset dst length m

-- omx_continue_partial_copy_to_segments
unfoldable pub continue_copy_to : ℕ → ℕ → State → Memory → Option (Memory × State)
unfolding continue_copy memcpy
continue_copy_to src length st m =
    continue_copy (λ at buf n. memcpy at buf n) st.seg st.offset src length m

-- The search of omx_partial_copy_to_segments for the segment of an offset.
unfoldable pub find_offset : List Seg → ℕ → ℕ → Option State
find_offset [] offset curoffset = none
find_offset (s ∷ ss) offset curoffset =
    let rest = find_offset ss offset (add32 curoffset s.len) in
    if ltb (curoffset + s.len) offset
    then rest
    else some (record { seg = s ∷ ss; offset = offset - curoffset })

-- omx_partial_copy_to_segments, from a saved state and the offset that it stands for.
unfoldable pub partial_copy_to :
    ReqSegs → ℕ → ℕ → ℕ → State → ℕ → Memory → Option (Memory × State × ℕ)
unfolding continue_copy_to find_offset
partial_copy_to r src length offset st scan_offset m =
    let found =
      if not (offset == scan_offset) then find_offset (pointed r.segs) offset 0 else some st in
    elim found [
      | none ↦ none
      | some st' ↦ elim (continue_copy_to src length st' m) [
        | none ↦ none
        | some (m', st'') ↦ some (m', st'', add32 offset length)
      ]
    ]
