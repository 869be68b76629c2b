-- ===== src/Segments/Scan.antt =====
-- The saved state of a partial copy stands for the offset at which it stopped.
use open_mx.Common.{
  ℕ, ◌+◌, ◌-◌, ◌^◌, ◌<◌, ◌≤◌, ◌≡◌, refl, sym, ap, subst, ◌∙◌, inl, inr, Bool, true, false, List, [],
  ◌∷◌, some, ltb, ◌==◌, not, if◌then◌else◌, arith, Bool-cases, ==→eq, sub32, add32,
}
use open_mx.Segments.Defs.{Seg, ReqSegs, pointed}
use open_mx.Segments.Copy.{Memory, memcpy}
use open_mx.Segments.Partial.{State, continue_copy, continue_copy_to, find_offset, partial_copy_to}
use open_mx.Segments.Address.{sum}

-- An offset within the first segment, if there is one.
abbrev pub InHead : List Seg → ℕ → Type 0
InHead [] off = off ≡ 0
InHead (s ∷ ss) off = off ≤ s.len

-- A state stands for an offset `at` of the segments `all`.
pub record IsAt (all : List Seg) (at : ℕ) (st : State) : Type 0 where
  pub place : sum st.seg + at ≡ sum all + st.offset
  pub head : InHead st.seg st.offset
  pub small : sum st.seg < 2 ^ 32

third :
    {A : Type 0} (x y : A) {z : A} (b c : Bool)
    → b ≡ true
    → c ≡ false
    → (if not b then x else (if c then y else z)) ≡ z
third x y true false p q = refl
third x y true true p q = cc
third x y false c p q = cc

continue_copy-IsAt :
    (put : ℕ → ℕ → ℕ → Memory → Memory) (all : List Seg) (at : ℕ) (ss : List Seg)
    (off buf length : ℕ) (m : Memory)
    → IsAt all at (record { seg = ss; offset = off })
    → 0 < length
    → off + length ≤ sum ss
    → (m' : Memory) × (st : State) × (continue_copy put ss off buf length m ≡ some (m', st))
      × IsAt all (at + length) st
unfolding continue_copy sum
continue_copy-IsAt put all at [] off buf length m v pos fits = absurd (omega arith)
continue_copy-IsAt put all at (s ∷ ss) off buf length m v pos fits =
    let small : s.len + sum ss < 2 ^ 32 = v.small in
    let head : off ≤ s.len = v.head in
    let place : s.len + sum ss + at ≡ sum all + off = v.place in
    let curchunk = sub32 s.len off in
    let left : curchunk ≡ s.len - off = omega arith in
    let chunk = if ltb length curchunk then length else curchunk in
    let m' = put (s.vaddr + off) buf chunk m in
    elim (Bool-cases (curchunk == chunk)) [
      | inr part ↦ (
        m',
        record { seg = s ∷ ss; offset = off + chunk },
        rw part refl,
        record { place = ground arith; head = ground arith; small = v.small },
      )
      | inl whole ↦ elim (Bool-cases (length - chunk == 0)) [
        | inl last ↦ (
          m',
          record { seg = ss; offset = 0 },
          rw (whole, last) refl,
          record { place = ground arith; head = start ss; small = omega arith },
        )
        | inr more ↦
            let v' : IsAt all (at + chunk) (record { seg = ss; offset = 0 }) = record {
              place = ground arith;
              head = start ss;
              small = omega arith;
            } in
            let (m2, st, e, w) =
              continue_copy-IsAt put all (at + chunk) ss 0 (buf + chunk) (length - chunk) m' v'
                (ground arith) (ground arith) in
            let same : at + chunk + (length - chunk) ≡ at + length = ground arith in
            (m2, st, third _ _ _ _ whole more ∙ e, subst (λ (n : ℕ). IsAt all n st) same w)
      ]
    ]
  where
    start : (ss : List Seg) → InHead ss 0
    start [] = refl
    start (s ∷ ss) = omega arith

found_here :
    (all : List Seg) (s : Seg) (ss : List Seg) (offset cur : ℕ)
    → sum (s ∷ ss) + cur ≡ sum all
    → sum all < 2 ^ 32
    → cur ≤ offset
    → ltb (cur + s.len) offset ≡ false
    → (st : State) × (find_offset (s ∷ ss) offset cur ≡ some st) × IsAt all offset st
unfolding find_offset sum
found_here all s ss offset cur e small lo here = (
  record { seg = s ∷ ss; offset = offset - cur },
  rw here refl,
  record { place = omega arith; head = ground arith; small = omega arith },
)

find_offset-IsAt :
    (all : List Seg) (s : Seg) (ss : List Seg) (offset cur : ℕ)
    → sum (s ∷ ss) + cur ≡ sum all
    → sum all < 2 ^ 32
    → cur ≤ offset
    → offset ≤ sum all
    → (st : State) × (find_offset (s ∷ ss) offset cur ≡ some st) × IsAt all offset st
unfolding find_offset sum
find_offset-IsAt all s [] offset cur e small lo hi =
    found_here all s [] offset cur e small lo (ground arith)
find_offset-IsAt all s (t ∷ ts) offset cur e small lo hi =
    elim (Bool-cases (ltb (cur + s.len) offset)) [
      | inr here ↦ found_here all s (t ∷ ts) offset cur e small lo here
      | inl later ↦
          let (st, e1, v) =
            find_offset-IsAt all t ts offset (add32 cur s.len) (omega arith) small (ground arith)
              hi in
          (st, rw later e1, v)
    ]

-- A saved state that stands for the saved offset, and a fragment inside the request, whose segments
-- have less than 2^32 bytes: omx_partial_copy_to_segments reads no segment behind the last one,
-- and afterwards the saved state stands for the saved offset, the end of the fragment.
pub partial_copy_to-IsAt :
    (r : ReqSegs) (src length offset : ℕ) (st : State) (scan_offset : ℕ) (m : Memory)
    → IsAt (pointed r.segs) scan_offset st
    → sum (pointed r.segs) < 2 ^ 32
    → 0 < length
    → offset + length ≤ sum (pointed r.segs)
    → (m' : Memory) × (st' : State) × (partial_copy_to r src length offset st scan_offset m
        ≡ some (m', st', offset + length))
      × IsAt (pointed r.segs) (offset + length) st'
unfolding partial_copy_to continue_copy_to sum
partial_copy_to-IsAt r src length offset st scan_offset m v small pos fits =
    elim (Bool-cases (offset == scan_offset)) [
      | inl same ↦
          let e : scan_offset ≡ offset = sym (==→eq offset scan_offset same) in
          let (m', st', e1, w) = from st (subst (λ (n : ℕ). IsAt (pointed r.segs) n st) e v) in
          (m', st', rw (partial_copy_to, same, e1) (ap (λ (n : ℕ). some (m', st', n)) no_wrap), w)
      | inr other ↦
          let (st0, e0, v0) = find (pointed r.segs) refl in
          let (m', st', e1, w) = from st0 v0 in
          (
            m',
            st',
            rw (partial_copy_to, other, e0, e1) (ap (λ (n : ℕ). some (m', st', n)) no_wrap),
            w,
          )
    ]
  where
    no_wrap : add32 offset length ≡ offset + length
    no_wrap = omega arith

    from :
        (st0 : State)
        → IsAt (pointed r.segs) offset st0
        → (m' : Memory) × (st' : State) × (continue_copy_to src length st0 m ≡ some (m', st'))
          × IsAt (pointed r.segs) (offset + length) st'
    from st0 v0 =
        continue_copy-IsAt (λ at buf n. memcpy at buf n) (pointed r.segs) offset st0.seg st0.offset
          src length m v0 pos (omega (arith, v0.place))

    find :
        (ss : List Seg)
        → pointed r.segs ≡ ss
        → (st0 : State) × (find_offset (pointed r.segs) offset 0 ≡ some st0)
          × IsAt (pointed r.segs) offset st0
    find [] e = absurd (omega (arith, ap sum e))
    find (s ∷ ss) e = rw e (
        find_offset-IsAt (s ∷ ss) s ss offset 0 (omega arith)
          (subst (λ (x : List Seg). sum x < 2 ^ 32) e small) (omega arith)
          (omega (arith, ap sum e)))
