-- ===== src/Pull/Blocks.antt =====
-- Appending a block and dropping the first one keep the invariant of a pull.
use open_mx.Common.{
  ℕ, suc, ◌+◌, ◌-◌, ◌*◌, ◌/◌, ◌^◌, ◌<◌, ◌≤◌, ◌≡◌, refl, ap, ◌∙◌, ◌⊎◌, inl, inr, true, false, List,
  [], ◌∷◌, ◌++◌, length, length-append, set, replicate, arith, length-replicate,
}
use open_mx.Pull.Defs.{
  frame_length_max, frames_per_block, block_length_max, block_descs_nr, Desc, Handle, frames_of,
  new_desc, append_needed_frames,
}
use open_mx.Pull.Invariant.{
  frames, total, IsBlock, IsChain-snoc, IsQueue, IsPull, outstanding, HeadMissing,
  any_missing-low_frames, span, total-le, missing_in-le, total-append, missing_in-append,
  popcount-replicate, beyond-replicate, set-length,
}

-- In a block nothing wraps.
frames_of-eq :
    (length offset : ℕ)
    → offset + length ≤ block_length_max
    → frames_of length offset ≡ (offset + length + 4095) / 4096
frames_of-eq length offset h = omega arith

new_desc-IsBlock :
    (h : Handle) (length offset : ℕ)
    → 0 < length
    → offset < frame_length_max
    → offset + length ≤ block_length_max
    → IsBlock h.next_frame_index (new_desc h length offset)
new_desc-IsBlock h len offset pos small fits =
    let n = frames_of len offset in
    let e : n ≡ (offset + len + 4095) / 4096 = frames_of-eq len offset fits in
    record {
      at = refl;
      bits =
          length-append (replicate n true) (replicate (frames_per_block - n) false)
          ∙ omega (arith, length-replicate n true, length-replicate (frames_per_block - n) false);
      offset = small;
      not_empty = pos;
      fits = fits;
      beyond = λ k lo hi. beyond-replicate n (frames_per_block - n) k (omega arith);
    }

-- omx_pull_handle_append_needed_frames: a new block goes behind full blocks. Only the first block of
-- a message has an offset.
pub append-IsPull :
    {h : Handle} {bs : List Desc} (j : Desc) (js : List Desc) (len offset : ℕ)
    → IsQueue h bs (j ∷ js)
    → 0 < len
    → len ≤ h.remaining_length
    → offset < frame_length_max
    → offset + len ≤ block_length_max
    → total bs ≡ length bs * frames_per_block
    → (len ≡ h.remaining_length) ⊎ (offset + len ≡ block_length_max)
    → h.next_frame_index * frame_length_max + h.remaining_length + offset ≡ span h
    → IsPull (append_needed_frames h len offset) (bs ++ new_desc h len offset ∷ []) js
unfolding append_needed_frames
append-IsPull {h} {bs} j js len offset v pos le small fits tot last sp =
    let d = new_desc h len offset in
    let e : frames_of len offset ≡ (offset + len + 4095) / 4096 = frames_of-eq len offset fits in
    let l : length (bs ++ d ∷ []) ≡ length bs + 1 = length-append bs (d ∷ []) in
    let t : total (bs ++ d ∷ []) ≡ total bs + (frames d + 0) = total-append bs (d ∷ []) in
    let four : length bs + suc (length js) ≡ block_descs_nr = v.four in
    let sm : h.total_length + 8192 < 2 ^ 32 = v.small in
    let c = popcount-replicate (frames_of len offset) (frames_per_block - frames_of len offset) in
    record {
      queue = record {
        descs =
            ap (λ (ds : List Desc). set ds h.nr_valid_block_descs d) v.descs
            ∙ set-length bs j js d h.nr_valid_block_descs v.valid;
        four = omega arith;
        valid = omega (arith, v.valid);
        requested = omega (arith, v.requested);
        missing = omega (
          arith,
          v.missing,
          c,
          missing_in-le h.frame_index bs v.chain,
          missing_in-append bs (d ∷ []),
        );
        next = omega (arith, v.next);
        chain =
            IsChain-snoc h.frame_index h.next_frame_index bs d v.chain tot v.next
              (new_desc-IsBlock h len offset pos small fits);
        small = v.small;
      };
      lower = omega (arith, sp);
      upper = omega (arith, sp);
      exact = elim last [ inl all ↦ inl (omega arith) | inr whole ↦ inr (omega arith) ];
      full = elim last [ inl all ↦ inl (omega arith) | inr whole ↦ inr (omega arith) ];
    }

-- The new frames move from those that are not requested to those that are missing.
pub append-outstanding :
    {h : Handle} {bs bs' js : List Desc} (j : Desc) (len offset : ℕ)
    → IsQueue h bs (j ∷ js)
    → offset + len ≤ block_length_max
    → IsPull (append_needed_frames h len offset) bs' js
    → outstanding (append_needed_frames h len offset) ≡ outstanding h
unfolding append_needed_frames
append-outstanding {h} {bs} j len offset q fits v =
    let up = v.upper in
    let sm : h.total_length + 8192 < 2 ^ 32 = q.small in
    let e = frames_of-eq len offset fits in
    let four : length bs + suc _ ≡ block_descs_nr = q.four in
    omega (
      arith,
      q.missing,
      missing_in-le h.frame_index bs q.chain,
      q.next,
      total-le h.frame_index bs q.chain,
      up,
    )

-- Every bit of a new descriptor is set.
pub new_desc-HeadMissing :
    (h : Handle) (len offset : ℕ) (ds : List Desc)
    → 0 < len
    → offset + len ≤ block_length_max
    → HeadMissing (new_desc h len offset ∷ ds)
new_desc-HeadMissing h len offset ds pos fits =
    any_missing-low_frames (frames_of len offset) (frames_per_block - frames_of len offset)
      (omega (arith, frames_of-eq len offset fits))
