-- ===== src/Pull/Start.antt =====
-- The loop that prepares new blocks, and the start of a pull (omx_ioctl_pull).
use open_mx.Common.{
  ℕ, zero, suc, ◌+◌, ◌*◌, ◌/◌, ◌%◌, ◌^◌, ◌<◌, ◌≤◌, ◌≡◌, ◌≢◌, refl, ap, ◌∙◌, ◌⊎◌, inl, inr, Bool,
  List, [], ◌∷◌, ◌++◌, sub32, length, arith, if◌then◌else◌, append_assoc, append-nil, ltb, ◌==◌,
  Bool-cases, ==→eq, ==→ne, List-cases, subst,
}
use open_mx.Pull.Defs.{
  frame_length_max, frames_per_block, block_length_max, block_descs_nr, Desc, Handle,
  append_needed_frames, new_desc, create, clear_first,
}
use open_mx.Pull.Requests.{append_blocks, start}
use open_mx.Pull.Invariant.{HeadMissing, outstanding, total, IsQueue, IsPull, span}
use open_mx.Pull.Blocks.{append-IsPull, append-outstanding, new_desc-HeadMissing}

-- A pull that asks for as much as it can: all descriptors are in use, or no byte is left.
pub record IsFull (h : Handle) (bs junk : List Desc) : Type 0 where
  pub pull : IsPull h bs junk
  pub pipeline : (h.nr_valid_block_descs ≡ block_descs_nr) ⊎ (h.remaining_length ≡ 0)

stop :
    (fuel : ℕ) (h : Handle)
    → (h.nr_valid_block_descs ≡ block_descs_nr) ⊎ (h.remaining_length ≡ 0)
    → append_blocks fuel h ≡ h
unfolding append_blocks
stop zero h e = refl
stop (suc fuel) h (inl e) = ground arith
stop (suc fuel) h (inr e) = ground arith

abbrev next_length : Handle → ℕ
next_length h =
    if ltb h.remaining_length block_length_max then h.remaining_length else block_length_max

go_on :
    (fuel : ℕ) (h : Handle)
    → h.nr_valid_block_descs < block_descs_nr
    → h.remaining_length ≢ 0
    → append_blocks (suc fuel) h ≡ append_blocks fuel (append_needed_frames h (next_length h) 0)
unfolding append_blocks
go_on fuel h a b = ground arith

next_length-cases :
    (h : Handle)
    → h.remaining_length ≢ 0
    → (0 < next_length h)
      × (next_length h ≤ h.remaining_length)
      × (0 + next_length h ≤ block_length_max)
      × ((next_length h ≡ h.remaining_length) ⊎ (0 + next_length h ≡ block_length_max))
next_length-cases h e = ground arith

-- The loop `prepare as many new blocks as needed` ends with a full pipeline.
pub append_blocks-IsFull :
    (fuel : ℕ) {h : Handle} {bs : List Desc} (junk : List Desc)
    → IsPull h bs junk
    → length junk ≤ fuel
    → (new junk' : List Desc) × IsFull (append_blocks fuel h) (bs ++ new) junk'
      × HeadMissing new
      × (outstanding (append_blocks fuel h) ≡ outstanding h)
append_blocks-IsFull fuel {h} {bs} [] v f =
    let four : length bs + 0 ≡ block_descs_nr = v.four in
    let e = stop fuel h (inl (omega (arith, v.valid))) in
    (
      [],
      [],
      rw (e, append-nil) (record { pull = v; pipeline = inl (omega (arith, v.valid)) }),
      tt,
      ap outstanding e,
    )
append_blocks-IsFull zero (j ∷ js) v f = elim f [ ]
append_blocks-IsFull (suc fuel) {h} {bs} (j ∷ js) v f =
    elim (Bool-cases (h.remaining_length == 0)) [
      | inl none_left ↦
          let z = ==→eq h.remaining_length 0 none_left in
          let e = stop (suc fuel) h (inr z) in
          (
            [],
            j ∷ js,
            rw (e, append-nil) (record { pull = v; pipeline = inr z }),
            tt,
            ap outstanding e,
          )
      | inr some_left ↦
          let nz = ==→ne h.remaining_length 0 some_left in
          let four : length bs + suc (length js) ≡ block_descs_nr = v.four in
          let (pos, le, fits, last) = next_length-cases h nz in
          let sp : h.next_frame_index * frame_length_max + h.remaining_length + 0 ≡ span h =
            elim v.exact [ inl z ↦ absurd (nz z) | inr e ↦ omega (arith, e) ] in
          let tot : total bs ≡ length bs * frames_per_block = elim v.full [
            | inl z ↦ absurd (nz z)
            | inr e ↦ e
          ] in
          let v1 =
            append-IsPull j js (next_length h) 0 v.queue pos le (omega arith) fits tot last sp in
          let (new, junk', r, _, o) = append_blocks-IsFull fuel js v1 (omega arith) in
          let e = go_on fuel h (omega (arith, v.valid)) nz in
          (
            new_desc h (next_length h) 0 ∷ new,
            junk',
            rw (e, ← append_assoc bs (new_desc h (next_length h) 0 ∷ []) new) r,
            new_desc-HeadMissing h (next_length h) 0 new pos fits,
            ap outstanding e ∙ o ∙ append-outstanding j (next_length h) 0 v.queue fits v1,
          )
    ]

length-clear_first : (n : ℕ) (ds : List Desc) → length (clear_first n ds) ≡ length ds
unfolding clear_first
length-clear_first zero ds = refl
length-clear_first (suc n) [] = refl
length-clear_first (suc n) (d ∷ ds) = ap suc (length-clear_first n ds)

create-IsQueue :
    (memory : List Desc) (len offset deadline : ℕ)
    → length memory ≡ block_descs_nr
    → len + 8192 < 2 ^ 32
    → IsQueue (create memory len offset deadline) [] (clear_first 3 memory)
unfolding create
create-IsQueue memory len offset deadline four small = record {
  descs = refl;
  four = omega (arith, length-clear_first 3 memory);
  valid = refl;
  requested = refl;
  missing = refl;
  next = refl;
  chain = tt;
  small = small;
}

-- A pull of `len` bytes, more than none and at most 2^32 - 8193, whatever the four descriptors of
-- its memory held and whichever packets could be built: behind omx_ioctl_pull the invariant of a
-- pull holds, all descriptors are in use or no byte is left to request, the first block misses a
-- frame, and the frames still to come are all those of the message.
pub start-IsFull :
    (alloc : ℕ → Bool) (memory : List Desc) (len offset deadline : ℕ)
    → length memory ≡ block_descs_nr
    → 0 < len
    → len + 8192 < 2 ^ 32
    → (bs junk : List Desc) × IsFull (start alloc (create memory len offset deadline)).0 bs junk
      × HeadMissing bs
      × (outstanding (start alloc (create memory len offset deadline)).0
          ≡ (offset % frame_length_max + len + 4095) / frame_length_max)
unfolding start create
start-IsFull alloc memory len offset deadline four pos small =
    elim (List-cases (clear_first 3 memory)) [
      | inl empty ↦ absurd (omega (arith, ap length empty, length-clear_first 3 memory))
      | inr (j, js, e) ↦
          let h = create memory len offset deadline in
          let q : IsQueue h [] (j ∷ js) =
            subst (λ (ds : List Desc). IsQueue h [] ds) e
              (create-IsQueue memory len offset deadline four small) in
          let in_frame = offset % frame_length_max in
          let room = sub32 block_length_max in_frame in
          let first = if ltb len room then len else room in
          let r : room + in_frame ≡ block_length_max = omega arith in
          let v1 =
            append-IsPull j js first in_frame q (ground arith) (ground arith) (omega arith)
              (ground arith) refl (ground arith) (omega arith) in
          let (new, junk, full, _, o) = append_blocks-IsFull 4 js v1 (omega (arith, q.four)) in
          (
            new_desc h first in_frame ∷ new,
            junk,
            full,
            new_desc-HeadMissing h first in_frame new (ground arith) (ground arith),
            o ∙ append-outstanding j first in_frame q (ground arith) v1 ∙ (omega arith),
          )
    ]
