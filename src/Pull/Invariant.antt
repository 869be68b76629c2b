-- ===== src/Pull/Invariant.antt =====
-- The invariant of a pull that runs: its valid descriptors are consecutive blocks of the message,
-- and the counters agree with their bitmaps.
use open_mx.Common.{
  ℕ, zero, suc, ◌+◌, ◌-◌, ◌*◌, ◌/◌, ◌%◌, ◌^◌, ◌<◌, ◌≤◌, ◌≡◌, refl, ap, ◌⊎◌, Bool, true, false, List,
  [], ◌∷◌, ◌++◌, length, set, get_or, replicate, arith, if◌then◌else◌,
}
use open_mx.Pull.Defs.{
  frame_length_max, frames_per_block, block_length_max, block_descs_nr, Desc, Handle, any_missing,
}

-- The frames that a block spans, and those that it misses.
abbrev pub frames : Desc → ℕ
frames d = (d.first_frame_offset + d.block_length + 4095) / 4096

abbrev pub popcount : List Bool → ℕ
popcount [] = 0
popcount (b ∷ bs) = (if b then 1 else 0) + popcount bs

abbrev pub total : List Desc → ℕ
total [] = 0
total (d ∷ ds) = frames d + total ds

abbrev pub missing_in : List Desc → ℕ
missing_in [] = 0
missing_in (d ∷ ds) = popcount d.frames_missing + missing_in ds

-- A block of the message that starts at a frame: at most 8 frames, and no bit set beyond them.
pub record IsBlock (start : ℕ) (d : Desc) : Type 0 where
  pub at : d.frame_index ≡ start
  pub bits : length d.frames_missing ≡ frames_per_block
  pub offset : d.first_frame_offset < frame_length_max
  pub not_empty : 0 < d.block_length
  pub fits : d.first_frame_offset + d.block_length ≤ block_length_max
  pub beyond :
      (k : ℕ) → frames d ≤ k → k < frames_per_block → get_or d.frames_missing k false ≡ false

-- Consecutive blocks, of which only the last may be short.
abbrev pub IsChain : ℕ → List Desc → Type 0
IsChain start [] = Unit {0}
IsChain start (d ∷ []) = IsBlock start d
IsChain start (d ∷ e ∷ ds) =
    IsBlock start d × (frames d ≡ frames_per_block) × IsChain (start + frames_per_block) (e ∷ ds)

abbrev pub span : Handle → ℕ
span h = h.pulled_rdma_offset % frame_length_max + h.total_length

-- The descriptors and the counters.
pub record IsQueue (h : Handle) (bs junk : List Desc) : Type 0 where
  pub descs : h.block_desc ≡ bs ++ junk
  pub four : length bs + length junk ≡ block_descs_nr
  pub valid : h.nr_valid_block_descs ≡ length bs
  pub requested : h.nr_requested_frames ≡ total bs
  pub missing : h.nr_missing_frames ≡ missing_in bs
  pub next : h.next_frame_index ≡ h.frame_index + total bs
  pub chain : IsChain h.frame_index bs
  pub small : h.total_length + 8192 < 2 ^ 32

pub record IsPull (h : Handle) (bs junk : List Desc) : Type 0 where
  pub queue : IsQueue h bs junk
  pub open queue use *
  -- The requested frames and the bytes that are left make up the message.
  pub lower : span h ≤ h.next_frame_index * frame_length_max + h.remaining_length
  pub upper : h.next_frame_index * frame_length_max + h.remaining_length < span h + frame_length_max
  pub exact :
      (h.remaining_length ≡ 0)
      ⊎ (h.next_frame_index * frame_length_max + h.remaining_length ≡ span h)
  -- While bytes are left, the blocks on the way are full.
  pub full : (h.remaining_length ≡ 0) ⊎ (total bs ≡ length bs * frames_per_block)

pub total-le : (i : ℕ) (bs : List Desc) → IsChain i bs → total bs ≤ length bs * frames_per_block
total-le i [] c = omega arith
total-le i (d ∷ []) c = omega (arith, c.fits)
total-le i (d ∷ e ∷ ds) c = omega (arith, c.1, total-le (i + frames_per_block) (e ∷ ds) c.2)

popcount-le : (bits : List Bool) → popcount bits ≤ length bits
popcount-le [] = omega arith
popcount-le (true ∷ bs) = omega (arith, popcount-le bs)
popcount-le (false ∷ bs) = omega (arith, popcount-le bs)

pub missing_in-le :
    (i : ℕ) (bs : List Desc) → IsChain i bs → missing_in bs ≤ length bs * frames_per_block
missing_in-le i [] c = omega arith
missing_in-le i (d ∷ []) c = omega (arith, c.bits, popcount-le d.frames_missing)
missing_in-le i (d ∷ e ∷ ds) c = omega (
  arith,
  c.0.bits,
  popcount-le d.frames_missing,
  missing_in-le (i + frames_per_block) (e ∷ ds) c.2,
)

pub total-append : (xs ys : List Desc) → total (xs ++ ys) ≡ total xs + total ys
total-append [] ys = omega arith
total-append (x ∷ xs) ys = omega (arith, total-append xs ys)

pub missing_in-append : (xs ys : List Desc) → missing_in (xs ++ ys) ≡ missing_in xs + missing_in ys
missing_in-append [] ys = omega arith
missing_in-append (x ∷ xs) ys = omega (arith, missing_in-append xs ys)

-- A block goes behind full blocks.
pub IsChain-snoc :
    (i j : ℕ) (bs : List Desc) (d : Desc)
    → IsChain i bs
    → total bs ≡ length bs * frames_per_block
    → j ≡ i + total bs
    → IsBlock j d
    → IsChain i (bs ++ d ∷ [])
IsChain-snoc i j [] d c t e b = let p : j ≡ i = omega arith in rw (← p) b
IsChain-snoc i j (x ∷ []) d c t e b =
    let f : frames x ≡ frames_per_block = omega (arith, c.fits) in
    let p : j ≡ i + frames_per_block = omega arith in (c, f, rw (← p) b)
IsChain-snoc i j (x ∷ y ∷ ys) d c t e b = (
  c.0,
  c.1,
  IsChain-snoc (i + frames_per_block) j (y ∷ ys) d c.2 (omega (arith, c.1)) (omega (arith, c.1)) b,
)

pub popcount-replicate : (n m : ℕ) → popcount (replicate n true ++ replicate m false) ≡ n
popcount-replicate zero zero = refl
popcount-replicate zero (suc m) = omega (arith, popcount-replicate zero m)
popcount-replicate (suc n) m = omega (arith, popcount-replicate n m)

pub beyond-replicate :
    (n m k : ℕ) → n ≤ k → get_or (replicate n true ++ replicate m false) k false ≡ false
beyond-replicate zero zero k h = refl
beyond-replicate zero (suc m) zero h = refl
beyond-replicate zero (suc m) (suc k) h = beyond-replicate zero m k (omega arith)
beyond-replicate (suc n) m zero h = elim h [ ]
beyond-replicate (suc n) m (suc k) h = beyond-replicate n m k (omega arith)

pub set-length :
    (bs : List Desc) (j : Desc) (js : List Desc) (d : Desc) (n : ℕ)
    → n ≡ length bs
    → set (bs ++ j ∷ js) n d ≡ (bs ++ d ∷ []) ++ js
set-length [] j js d n e = rw e
set-length (b ∷ bs) j js d n e = rw e (ap (◌∷◌ b) (set-length bs j js d (length bs) refl))

-- The frames of the message, and those that did not come in yet.
abbrev pub total_frames : Handle → ℕ
total_frames h = (span h + 4095) / 4096

abbrev pub outstanding : Handle → ℕ
outstanding h = h.nr_missing_frames + (total_frames h - h.next_frame_index)

-- The first block on the way still misses a frame.
abbrev pub HeadMissing : List Desc → Type 0
HeadMissing [] = Unit {0}
HeadMissing (d ∷ ds) = any_missing d.frames_missing ≡ true

pub any_missing-popcount : (bits : List Bool) → any_missing bits ≡ false → popcount bits ≡ 0
unfolding any_missing
any_missing-popcount [] e = refl
any_missing-popcount (true ∷ bs) e = cc
any_missing-popcount (false ∷ bs) e = omega (arith, any_missing-popcount bs e)

pub any_missing-low_frames :
    (n m : ℕ) → 0 < n → any_missing (replicate n true ++ replicate m false) ≡ true
unfolding any_missing
any_missing-low_frames zero m h = elim h [ ]
any_missing-low_frames (suc n) m h = refl
