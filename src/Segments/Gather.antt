-- ===== src/Segments/Gather.antt =====
-- Where the bytes of a scattered buffer are, and what omx_copy_from_segments makes of them.
use open_mx.Common.{
  ℕ, ◌+◌, ◌-◌, ◌<◌, ◌≤◌, ◌≡◌, ◌≢◌, refl, sym, ap, ◌∙◌, ◌⊎◌, inl, inr, List, [], ◌∷◌, some, ltb, leb,
  ◌==◌, ◌&&◌, if◌then◌else◌, arith, Bool-cases, ==→eq, ==→ne, eq→==, ne→==, lt→leb, le→leb, lt→ltb,
  le→ltb, dec_lt,
}
use open_mx.Segments.Defs.{Seg, ReqSegs, pointed, segments}
use open_mx.Segments.Copy.{Memory, memcpy, chunk_of, copy_from_array, copy_from_segments}
use open_mx.Segments.Address.{addr, sum, IsApart, IsApart-part, addr-IsApart, memcpy-in, memcpy-out}

-- The bytes `length` long at `dst` are those of the segments, all others as before.
abbrev pub gathered : ℕ → List Seg → ℕ → Memory → ℕ → ℕ
gathered dst ss length m a =
    if leb dst a && ltb a (dst + length) then m (addr ss (a - dst)) else m a

copy_from_array-zero :
    (dst : ℕ) (ss : List Seg) (length : ℕ) (m : Memory)
    → length ≡ 0
    → copy_from_array dst ss length m ≡ some m
unfolding copy_from_array
copy_from_array-zero dst [] length m e = rw (eq→== length 0 e) refl
copy_from_array-zero dst (s ∷ ss) length m e = rw (eq→== length 0 e) refl

copy_from_array-step :
    (dst : ℕ) (s : Seg) (ss : List Seg) (length : ℕ) (m : Memory)
    → length ≢ 0
    → copy_from_array dst (s ∷ ss) length m
      ≡ copy_from_array
          (dst + chunk_of s length)
          ss
          (length - chunk_of s length)
          (memcpy dst s.vaddr (chunk_of s length) m)
unfolding copy_from_array
copy_from_array-step dst s ss length m ne = rw (ne→== length 0 ne) refl

-- Inside and outside the range.
pub gathered-in :
    (dst : ℕ) (ss : List Seg) (length : ℕ) (m : Memory) (a : ℕ)
    → dst ≤ a
    → a < dst + length
    → gathered dst ss length m a ≡ m (addr ss (a - dst))
gathered-in dst ss length m a lo hi = rw (le→leb dst a lo, lt→ltb a (dst + length) hi) refl

gathered-out :
    (dst : ℕ) (ss : List Seg) (length : ℕ) (m : Memory) (a : ℕ)
    → (a < dst) ⊎ (dst + length ≤ a)
    → gathered dst ss length m a ≡ m a
gathered-out dst ss length m a (inl below) = rw (lt→leb dst a below) refl
gathered-out dst ss length m a (inr above) = elim (Bool-cases (leb dst a)) [
  | inl b ↦ rw (b, le→ltb a (dst + length) above) refl
  | inr b ↦ rw b refl
]

pub addr-here : (s : Seg) (ss : List Seg) (k : ℕ) → k < s.len → addr (s ∷ ss) k ≡ s.vaddr + k
unfolding addr
addr-here s ss k h = rw (lt→ltb k s.len h) refl

pub addr-there : (s : Seg) (ss : List Seg) (k j : ℕ) → k ≡ s.len + j → addr (s ∷ ss) k ≡ addr ss j
unfolding addr
addr-there s ss k j h =
    let e : k - s.len ≡ j = omega arith in rw (le→ltb k s.len (omega arith), e) refl

-- Copying from the rest of the segments after the first one was copied whole.
gathered-step :
    (dst : ℕ) (s : Seg) (ss : List Seg) (length chunk : ℕ) (m : Memory) (a : ℕ)
    → chunk ≤ length
    → (chunk ≡ s.len) ⊎ ((chunk ≡ length) × (chunk ≤ s.len))
    → length ≤ sum (s ∷ ss)
    → IsApart dst length (s ∷ ss)
    → gathered (dst + chunk) ss (length - chunk) (memcpy dst s.vaddr chunk m) a
      ≡ gathered dst (s ∷ ss) length m a
unfolding sum
gathered-step dst s ss length chunk m a le whole fits (_, v) =
    let m1 = memcpy dst s.vaddr chunk m in
    let d = dst + chunk in
    let l = length - chunk in
    elim (dec_lt a dst) [
      | yes below ↦
          gathered-out d ss l m1 a (inl (omega arith))
          ∙ memcpy-out dst s.vaddr chunk m a (inl below)
          ∙ sym (gathered-out dst (s ∷ ss) length m a (inl below))
      | no lo ↦ elim (dec_lt a (dst + chunk)) [
        | yes first ↦
            gathered-out d ss l m1 a (inl first)
            ∙ memcpy-in dst s.vaddr chunk m a (omega arith) first
            ∙ ap m (sym (addr-here s ss (a - dst) (ground arith)))
            ∙ sym (gathered-in dst (s ∷ ss) length m a (omega arith) (omega arith))
        | no later ↦ elim (dec_lt a (dst + length)) [
          | no beyond ↦
              gathered-out d ss l m1 a (inr (omega arith))
              ∙ memcpy-out dst s.vaddr chunk m a (inr (omega arith))
              ∙ sym (gathered-out dst (s ∷ ss) length m a (inr (omega arith)))
          | yes within ↦
              let e : chunk ≡ s.len = elim whole [
                | inl e ↦ e
                | inr (e, _) ↦ absurd (omega arith)
              ] in
              let k = a - (dst + chunk) in
              gathered-in d ss l m1 a (omega arith) (omega arith)
              ∙ memcpy-out dst s.vaddr chunk m (addr ss k) (
                  addr-IsApart chunk ss k
                    (IsApart-part length chunk ss (omega arith) (omega arith) v) (omega arith))
              ∙ ap m (sym (addr-there s ss (a - dst) k (omega arith)))
              ∙ sym (gathered-in dst (s ∷ ss) length m a (omega arith) within)
        ]
      ]
    ]

pub chunk-cases :
    (s : Seg) (length : ℕ)
    → (chunk_of s length ≤ length)
      × ((chunk_of s length ≡ s.len) ⊎ ((chunk_of s length ≡ length) × (chunk_of s length ≤ s.len)))
chunk-cases s length = ground arith

copy_from_array-gathered :
    (dst : ℕ) (ss : List Seg) (length : ℕ) (m : Memory) (a : ℕ)
    → length ≤ sum ss
    → IsApart dst length ss
    → (m' : Memory) × (copy_from_array dst ss length m ≡ some m')
      × (m' a ≡ gathered dst ss length m a)
unfolding sum
copy_from_array-gathered dst [] length m a fits v = (
  m,
  copy_from_array-zero dst [] length m (omega arith),
  sym (gathered-out dst [] length m a (ground arith)),
)
copy_from_array-gathered dst (s ∷ ss) length m a fits v = elim (Bool-cases (length == 0)) [
  | inl z ↦
      let e = ==→eq length 0 z in
      (
        m,
        copy_from_array-zero dst (s ∷ ss) length m e,
        sym (gathered-out dst (s ∷ ss) length m a (ground arith)),
      )
  | inr more ↦
      let chunk = chunk_of s length in
      let (le, whole) = chunk-cases s length in
      let (m', e, at) =
        copy_from_array-gathered (dst + chunk) ss (length - chunk) (memcpy dst s.vaddr chunk m) a
          (ground arith)
          (IsApart-part length (length - chunk) ss (omega arith) (omega arith) v.1) in
      (
        m',
        copy_from_array-step dst s ss length m (==→ne length 0 more) ∙ e,
        at ∙ gathered-step dst s ss length chunk m a le whole fits v,
      )
]

-- Of a request with at least `length` bytes, none of them in the target: omx_copy_from_segments reads
-- no segment behind the last one, and puts the bytes of the request, in order, into the `length`
-- bytes at `dst`; every other address `a` keeps its byte.
pub copy_from_segments-gathered :
    (dst : ℕ) (r : ReqSegs) (length : ℕ) (m : Memory) (a : ℕ)
    → length ≤ sum (segments r)
    → IsApart dst length (segments r)
    → (m' : Memory) × (copy_from_segments dst r length m ≡ some m')
      × (m' a ≡ gathered dst (segments r) length m a)
unfolding copy_from_segments sum
copy_from_segments-gathered dst r length m a = elim (Bool-cases (r.nseg == 1)) [
  | inr many ↦ rw many (λ fits v. copy_from_array-gathered dst (pointed r.segs) length m a fits v)
  | inl one ↦ rw one (λ fits v. (memcpy dst r.single.vaddr length m, refl, whole fits))
]
  where
    whole :
        length ≤ r.single.len + 0
        → memcpy dst r.single.vaddr length m a ≡ gathered dst (r.single ∷ []) length m a
    whole fits = elim (dec_lt a dst) [
      | yes below ↦
          memcpy-out dst r.single.vaddr length m a (inl below)
          ∙ sym (gathered-out dst (r.single ∷ []) length m a (inl below))
      | no lo ↦ elim (dec_lt a (dst + length)) [
        | yes within ↦
            memcpy-in dst r.single.vaddr length m a (omega arith) within
            ∙ ap m (sym (addr-here r.single [] (a - dst) (omega arith)))
            ∙ sym (gathered-in dst (r.single ∷ []) length m a (omega arith) within)
        | no beyond ↦
            memcpy-out dst r.single.vaddr length m a (inr (omega arith))
            ∙ sym (gathered-out dst (r.single ∷ []) length m a (inr (omega arith)))
      ]
    ]
