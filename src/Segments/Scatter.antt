-- ===== src/Segments/Scatter.antt =====
-- What omx_copy_to_segments does, and the way back.
use open_mx.Common.{
  ℕ, ◌+◌, ◌-◌, ◌<◌, ◌≤◌, ◌≡◌, ◌≢◌, refl, ap, ◌∙◌, ◌⊎◌, inl, inr, List, [], ◌∷◌, some, ◌==◌, arith,
  Bool-cases, ==→eq, ==→ne, eq→==, ne→==, dec_lt,
}
use open_mx.Segments.Defs.{Seg, ReqSegs, pointed, segments}
use open_mx.Segments.Copy.{
  Memory, memcpy, chunk_of, copy_to_array, copy_to_segments, copy_from_segments,
}
use open_mx.Segments.Address.{addr, sum, IsApart, IsApart-part, memcpy-in, memcpy-out}
use open_mx.Segments.Gather.{
  addr-here, addr-there, chunk-cases, gathered-in, copy_from_segments-gathered,
}

-- Segments of which no two overlap.
abbrev pub IsSeparate : List Seg → Type 0
IsSeparate [] = Unit {0}
IsSeparate (s ∷ ss) = IsApart s.vaddr s.len ss × IsSeparate ss

copy_to_array-zero :
    (ss : List Seg) (src length : ℕ) (m : Memory)
    → length ≡ 0
    → copy_to_array ss src length m ≡ some m
unfolding copy_to_array
copy_to_array-zero [] src length m e = rw (eq→== length 0 e) refl
copy_to_array-zero (s ∷ ss) src length m e = rw (eq→== length 0 e) refl

copy_to_array-step :
    (s : Seg) (ss : List Seg) (src length : ℕ) (m : Memory)
    → length ≢ 0
    → copy_to_array (s ∷ ss) src length m
      ≡ copy_to_array ss
          (src + chunk_of s length)
          (length - chunk_of s length)
          (memcpy s.vaddr src (chunk_of s length) m)
unfolding copy_to_array
copy_to_array-step s ss src length m ne = rw (ne→== length 0 ne) refl

-- An address outside the segments keeps its byte.
copy_to_array-outside :
    (ss : List Seg) (src length : ℕ) (m : Memory) (a : ℕ)
    → length ≤ sum ss
    → IsApart a 1 ss
    → (m' : Memory) × (copy_to_array ss src length m ≡ some m') × (m' a ≡ m a)
unfolding sum
copy_to_array-outside [] src length m a fits v =
    (m, copy_to_array-zero [] src length m (omega arith), refl)
copy_to_array-outside (s ∷ ss) src length m a fits v = elim (Bool-cases (length == 0)) [
  | inl z ↦ (m, copy_to_array-zero (s ∷ ss) src length m (==→eq length 0 z), refl)
  | inr more ↦
      let chunk = chunk_of s length in
      let (le, whole) = chunk-cases s length in
      let (m', e, at) =
        copy_to_array-outside ss (src + chunk) (length - chunk) (memcpy s.vaddr src chunk m) a
          (ground arith) v.1 in
      let out : (a < s.vaddr) ⊎ (s.vaddr + chunk ≤ a) = elim v.0 [
        | inl below ↦ inr (elim whole [ inl w ↦ omega arith | inr (_, w) ↦ omega arith ])
        | inr above ↦ inl (omega arith)
      ] in
      (
        m',
        copy_to_array-step s ss src length m (==→ne length 0 more) ∙ e,
        at ∙ memcpy-out s.vaddr src chunk m a out,
      )
]

copy_to_array-scattered :
    (ss : List Seg) (src length : ℕ) (m : Memory) (k : ℕ)
    → length ≤ sum ss
    → IsApart src length ss
    → IsSeparate ss
    → k < length
    → (m' : Memory) × (copy_to_array ss src length m ≡ some m') × (m' (addr ss k) ≡ m (src + k))
unfolding sum
copy_to_array-scattered [] src length m k fits v w lt = absurd (omega arith)
copy_to_array-scattered (s ∷ ss) src length m k fits v w lt =
    let chunk = chunk_of s length in
    let (le, whole) = chunk-cases s length in
    let m1 = memcpy s.vaddr src chunk m in
    let step = copy_to_array-step s ss src length m (omega arith) in
    elim (dec_lt k chunk) [
      | yes first ↦
          let in_seg : chunk ≤ s.len = elim whole [ inl e ↦ omega arith | inr (_, e) ↦ e ] in
          let (m', e, at) =
            copy_to_array-outside ss (src + chunk) (length - chunk) m1 (s.vaddr + k) (ground arith)
              (IsApart-part s.len 1 ss (omega arith) (omega arith) w.0) in
          (
            m',
            step ∙ e,
            ap m' (addr-here s ss k (omega arith))
                ∙ at
                ∙ memcpy-in s.vaddr src chunk m (s.vaddr + k) (omega arith) (omega arith)
                ∙ ap (λ (n : ℕ). m (src + n)) (omega arith),
          )
      | no later ↦
          let full : chunk ≡ s.len = elim whole [ inl e ↦ e | inr (e, _) ↦ absurd (omega arith) ] in
          let j = k - chunk in
          let (m', e, at) =
            copy_to_array-scattered ss (src + chunk) (length - chunk) m1 j (omega arith)
              (IsApart-part length (length - chunk) ss (omega arith) (omega arith) v.1) w.1
              (omega arith) in
          let out : (src + chunk + j < s.vaddr) ⊎ (s.vaddr + chunk ≤ src + chunk + j) = elim v.0 [
            | inl below ↦ inr (omega arith)
            | inr above ↦ inl (omega arith)
          ] in
          (
            m',
            step ∙ e,
            ap m' (addr-there s ss k j (omega arith))
                ∙ at
                ∙ memcpy-out s.vaddr src chunk m (src + chunk + j) out
                ∙ ap m (omega arith),
          )
    ]

-- Of a request with at least `length` bytes, whose segments overlap neither each other nor the
-- source: omx_copy_to_segments writes behind no segment, and byte `k` of the request is then byte `k`
-- of the source.
pub copy_to_segments-scattered :
    (r : ReqSegs) (src length : ℕ) (m : Memory) (k : ℕ)
    → length ≤ sum (segments r)
    → IsApart src length (segments r)
    → IsSeparate (segments r)
    → k < length
    → (m' : Memory) × (copy_to_segments r src length m ≡ some m')
      × (m' (addr (segments r) k) ≡ m (src + k))
unfolding copy_to_segments sum
copy_to_segments-scattered r src length m k = elim (Bool-cases (r.nseg == 1)) [
  | inr many ↦
      rw many (λ fits v w lt. copy_to_array-scattered (pointed r.segs) src length m k fits v w lt)
  | inl one ↦ rw one (λ fits v w lt. (
    memcpy r.single.vaddr src length m,
    refl,
    ap (memcpy r.single.vaddr src length m) (addr-here r.single [] k (omega arith))
        ∙ memcpy-in r.single.vaddr src length m (r.single.vaddr + k) (omega arith) (omega arith)
        ∙ ap (λ (n : ℕ). m (src + n)) (omega arith),
  ))
]

-- Of such a request, when the target overlaps no segment either: what omx_copy_to_segments put into
-- the segments, omx_copy_from_segments gets back; byte `k` of the target is byte `k` of the source.
pub copy_from_segments-copy_to_segments :
    (r : ReqSegs) (src dst length : ℕ) (m : Memory) (k : ℕ)
    → length ≤ sum (segments r)
    → IsApart src length (segments r)
    → IsApart dst length (segments r)
    → IsSeparate (segments r)
    → k < length
    → (m' m'' : Memory) × (copy_to_segments r src length m ≡ some m')
      × (copy_from_segments dst r length m' ≡ some m'')
      × (m'' (dst + k) ≡ m (src + k))
copy_from_segments-copy_to_segments r src dst length m k fits v u w lt =
    let (m', e', at') = copy_to_segments-scattered r src length m k fits v w lt in
    let (m'', e'', at'') = copy_from_segments-gathered dst r length m' (dst + k) fits u in
    (
      m',
      m'',
      e',
      e'',
      at''
          ∙ gathered-in dst (segments r) length m' (dst + k) (omega arith) (omega arith)
          ∙ ap m' (ap (addr (segments r)) (omega arith))
          ∙ at',
    )
