-- ===== src/Pull/Drop.antt =====
-- Dropping the first block keeps the invariant of a pull.
use open_mx.Common.{
  ℕ, zero, suc, ◌+◌, ◌-◌, ◌*◌, ◌^◌, ◌<◌, ◌≤◌, ◌≡◌, refl, ap, ◌∙◌, inl, inr, List, [], ◌∷◌, ◌++◌,
  sub32, length, length-append, arith, take, drop, min,
}
use open_mx.Pull.Defs.{
  frame_length_max, frames_per_block, block_descs_nr, Desc, Handle, clear_at, move_down,
  first_block_done,
}
use open_mx.Pull.Invariant.{frames, popcount, total, IsChain, IsPull, span, total-le}

take-length : (xs ys : List Desc) → take (length xs) (xs ++ ys) ≡ xs
take-length [] ys = refl
take-length (x ∷ xs) ys = ap (◌∷◌ x) (take-length xs ys)

clear_at-append :
    (xs ys : List Desc) (i j : ℕ) → i ≡ length xs + j → clear_at i (xs ++ ys) ≡ xs ++ clear_at j ys
unfolding clear_at
clear_at-append [] ys i j e = let p : i ≡ j = omega arith in ap (λ (k : ℕ). clear_at k ys) p
clear_at-append (x ∷ xs) ys zero j e = absurd (omega arith)
clear_at-append (x ∷ xs) ys (suc i) j e = ap (◌∷◌ x) (clear_at-append xs ys i j (omega arith))

length-clear_at : (i : ℕ) (ds : List Desc) → length (clear_at i ds) ≡ length ds
unfolding clear_at
length-clear_at i [] = refl
length-clear_at zero (d ∷ ds) = refl
length-clear_at (suc i) (d ∷ ds) = ap suc (length-clear_at i ds)

length-drop : (n : ℕ) (ds : List Desc) → length (drop n ds) ≡ length ds - n
length-drop zero ds = omega arith
length-drop (suc n) [] = omega arith
length-drop (suc n) (d ∷ ds) = omega (arith, length-drop n ds)

-- The descriptors behind the valid ones after the first block is dropped.
abbrev pub junk_after : Desc → List Desc → List Desc → List Desc
junk_after d bs junk = clear_at (3 - length bs) (drop (length bs) (d ∷ (bs ++ junk)))

IsChain-tail :
    (i k : ℕ) (d : Desc) (bs : List Desc)
    → IsChain i (d ∷ bs)
    → k ≡ i + min (total (d ∷ bs)) frames_per_block
    → IsChain k bs
IsChain-tail i k d [] c e = tt
IsChain-tail i k d (b ∷ bs) c e = let p : k ≡ i + frames_per_block = omega (arith, c.1) in rw p c.2

-- The frames that omx_pull_handle_first_block_done takes off are those of the first block.
first_frames :
    (i : ℕ) (d : Desc) (bs : List Desc)
    → IsChain i (d ∷ bs)
    → min (total (d ∷ bs)) frames_per_block ≡ frames d
first_frames i d [] c = omega (arith, c.fits)
first_frames i d (b ∷ bs) c = omega (arith, c.1)

frames-le : (i : ℕ) (d : Desc) (bs : List Desc) → IsChain i (d ∷ bs) → frames d ≤ frames_per_block
frames-le i d [] c = omega (arith, c.fits)
frames-le i d (b ∷ bs) c = omega (arith, c.1)

-- omx_pull_handle_first_block_done, on a first block that misses no frame.
pub first_block_done-IsPull :
    {h : Handle} {d : Desc} {bs junk : List Desc}
    → IsPull h (d ∷ bs) junk
    → popcount d.frames_missing ≡ 0
    → IsPull (first_block_done h) bs (junk_after d bs junk)
unfolding first_block_done move_down
first_block_done-IsPull {h} {d} {bs} {junk} v none_missing =
    let four : suc (length bs) + length junk ≡ block_descs_nr = v.four in
    let le = total-le h.frame_index (d ∷ bs) v.chain in
    let n : sub32 h.nr_valid_block_descs 1 ≡ length bs = omega (arith, v.valid) in
    let ff = first_frames h.frame_index d bs v.chain in
    let sm : h.total_length + 8192 < 2 ^ 32 = v.small in
    let up : h.next_frame_index * frame_length_max + h.remaining_length
        < span h + frame_length_max =
      v.upper in
    record {
      queue = record {
        descs =
            rw (n, v.descs)
              (ap (λ (ds : List Desc). clear_at 3 (ds ++ drop (length bs) (d ∷ (bs ++ junk))))
                  (take-length bs junk)
                ∙ clear_at-append bs (drop (length bs) (d ∷ (bs ++ junk))) 3 (3 - length bs)
                    (omega arith));
        four = omega (
          arith,
          length-clear_at (3 - length bs) (drop (length bs) (d ∷ (bs ++ junk))),
          length-drop (length bs) (d ∷ (bs ++ junk)),
          length-append bs junk,
        );
        valid = n;
        requested = omega (arith, v.requested, ff);
        missing = omega (arith, v.missing);
        next = omega (arith, v.next, v.requested, ff);
        chain =
            IsChain-tail h.frame_index (first_block_done h).frame_index d bs v.chain
              (omega (arith, v.requested, v.next));
        small = v.small;
      };
      lower = v.lower;
      upper = v.upper;
      exact = v.exact;
      full = elim v.full [
        | inl all ↦ inl all
        | inr whole ↦ inr (
            omega (
              arith,
              total-le (h.frame_index + min (total (d ∷ bs)) frames_per_block) bs
                  (IsChain-tail h.frame_index _ d bs v.chain refl),
              ff,
              frames-le h.frame_index d bs v.chain,
            ))
      ];
    }
