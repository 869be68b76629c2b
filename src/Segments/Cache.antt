-- ===== src/Segments/Cache.antt =====
-- What omx_cache_segments and omx_clone_segments store.
use open_mx.Common.{
  ℕ, ◌+◌, ◌^◌, ◌<◌, ◌≤◌, ◌≡◌, ◌≢◌, refl, ◌∙◌, inl, inr, Bool, false, List, [], ◌∷◌, ltb, ◌==◌,
  arith, Bool-cases, add32, length, ==→eq, ==→ne, ltb→lt, ltb→ge,
}
use open_mx.Segments.Defs.{
  Seg, ReqSegs, Pointer, single_of, array, Result, success, segments_bad_count, no_resources,
  max_segments, cache_segments, cache_single_segment, sum_lengths, free_segments, clone_segments,
  segments,
}
use open_mx.Segments.Address.{sum}

-- A request at an address that owns its segments: a single one inside it, or an array of several.
abbrev pub Owns : ℕ → ReqSegs → Pointer → Type 0
Owns self r (single_of owner) = (owner ≡ self) × (r.nseg ≡ 1)
Owns self r (array ss) = (1 < length ss) × (r.nseg ≡ length ss)

-- The user's segments as they are stored: none becomes an empty one.
abbrev pub stored : List Seg → List Seg
stored [] = record { vaddr = 0; len = 0 } ∷ []
stored (s ∷ ss) = s ∷ ss

abbrev pub Caches : ℕ → Bool → List Seg → Result × ReqSegs → Type 0
Caches self memory segs (success, r) =
    (segments r ≡ stored segs)
    × (r.total_length ≡ sum segs)
    × Owns self r r.segs
    × (free_segments r ≡ ltb 1 (length segs))
Caches self memory segs (segments_bad_count, r) = max_segments < length segs
Caches self memory segs (no_resources, r) =
    (1 < length segs) × (length segs ≤ max_segments) × (memory ≡ false)

sum_lengths-sum :
    (total : ℕ) (ss : List Seg) → total + sum ss < 2 ^ 32 → sum_lengths total ss ≡ total + sum ss
unfolding sum_lengths sum
sum_lengths-sum total [] h = omega arith
sum_lengths-sum total (s ∷ ss) h =
    let e : add32 total s.len ≡ total + s.len = omega arith in
    sum_lengths-sum (add32 total s.len) ss (omega arith) ∙ omega arith

-- Of segments with less than 2^32 bytes: when omx_cache_segments succeeds, the request stands for
-- them, or for one empty segment if there are none, has their total length, owns its storage, and
-- omx_free_segments frees an array exactly if there is one. It fails with
-- OMX_SEGMENTS_BAD_COUNT only on more than 256 segments, and with OMX_NO_RESOURCES only if an
-- array was needed and not allocated.
pub cache_segments-Caches :
    (self : ℕ) (memory : Bool) (r : ReqSegs) (segs : List Seg)
    → sum segs < 2 ^ 32
    → Caches self memory segs (cache_segments self memory r segs)
unfolding cache_segments cache_single_segment free_segments sum
cache_segments-Caches self memory r [] small = (refl, refl, (refl, refl), refl)
cache_segments-Caches self memory r (s ∷ []) small = (refl, omega arith, (refl, refl), refl)
cache_segments-Caches self memory r (s ∷ t ∷ ss) small =
    elim (Bool-cases (ltb max_segments (length (s ∷ t ∷ ss)))) [
      | inl many ↦ rw many (ltb→lt max_segments (length (s ∷ t ∷ ss)) many)
      | inr fits ↦ elim (Bool-cases memory) [
        | inr none_left ↦
            rw (fits, none_left) (omega arith, ltb→ge max_segments (length (s ∷ t ∷ ss)) fits, refl)
        | inl allocated ↦
            let several : (length (s ∷ t ∷ ss) == 1) ≡ false = ground arith in
            rw (fits, allocated)
              (
                rw several refl,
                sum_lengths-sum 0 (s ∷ t ∷ ss) (omega arith) ∙ omega arith,
                (omega arith, refl),
                refl,
              )
      ]
    ]

-- A clone of a request that owns its segments stands for the same ones, owns a single segment itself,
-- and shares an array.
pub clone_segments-Owns :
    (self dst : ℕ) (r : ReqSegs)
    → Owns self r r.segs
    → (segments (clone_segments dst r) ≡ segments r)
      × Owns dst (clone_segments dst r) (clone_segments dst r).segs
unfolding clone_segments
clone_segments-Owns self dst r v = elim (Bool-cases (r.nseg == 1)) [
  | inl one ↦ rw one (rw one refl, (refl, ==→eq r.nseg 1 one))
  | inr many ↦ rw many (rw many refl, shared r.segs (==→ne r.nseg 1 many) v)
]
  where
    shared : (p : Pointer) → r.nseg ≢ 1 → Owns self r p → Owns dst r p
    shared (single_of owner) several (_, one) = absurd (several one)
    shared (array ss) several v = v
