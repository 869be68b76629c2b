-- ===== src/Pull/Progress.antt =====
-- What a reply does to the pull: omx_recv_pull_reply and the requests that follow it.
use open_mx.Common.{
  ℕ, zero, suc, ◌+◌, ◌-◌, ◌≤◌, ◌≡◌, refl, ap, ◌∙◌, inl, inr, Bool, false, List, [], ◌∷◌, ◌++◌,
  length, get_or, arith, ltb, ◌==◌, ◌&&◌, not, Bool-cases, ne→==,
}
use open_mx.Pull.Defs.{block_descs_nr, Desc, Handle, any_missing, first_block_done}
use open_mx.Pull.Requests.{desc, no_desc, drop_done, request_again, progress_on_reply, fill_request}
use open_mx.Pull.Invariant.{IsPull, HeadMissing, outstanding, any_missing-popcount}
use open_mx.Pull.Drop.{first_block_done-IsPull}
use open_mx.Pull.Start.{IsFull, append_blocks-IsFull}

-- A pull between two packets: it asks for as much as it can, and its first block is not done.
pub record IsActive (h : Handle) (bs junk : List Desc) : Type 0 where
  pub full : IsFull h bs junk
  pub head : HeadMissing bs

first_block_done-outstanding : (h : Handle) → outstanding (first_block_done h) ≡ outstanding h
unfolding first_block_done
first_block_done-outstanding h = refl

-- Dropping the blocks that are done, `n` at most, leaves a first block that misses a frame.
drop_done-IsPull :
    (n : ℕ) (bs : List Desc) {h : Handle} {junk : List Desc}
    → IsPull h bs junk
    → length bs ≤ n
    → (bs' junk' : List Desc) × IsPull (drop_done n h) bs' junk'
      × HeadMissing bs'
      × (outstanding (drop_done n h) ≡ outstanding h)
unfolding drop_done
drop_done-IsPull zero [] {h} {junk} v l = ([], junk, v, tt, refl)
drop_done-IsPull zero (b ∷ bs) v l = elim l [ ]
drop_done-IsPull (suc n) [] {h} {junk} v l =
    let e : drop_done (suc n) h ≡ h = rw (v.valid, drop_done) in
    ([], junk, rw e v, tt, ap outstanding e)
drop_done-IsPull (suc n) (b ∷ bs) {h} {junk} v l =
    let d : desc h 0 ≡ b = ap (λ (ds : List Desc). get_or ds 0 no_desc) v.descs in
    let a : any_missing (desc h 0).frames_missing ≡ any_missing b.frames_missing =
      ap (λ (x : Desc). any_missing x.frames_missing) d in
    let nz : (h.nr_valid_block_descs == 0) ≡ false = ne→== _ 0 (omega (arith, v.valid)) in
    elim (Bool-cases (any_missing b.frames_missing)) [
      | inl some_left ↦
          let e : drop_done (suc n) h ≡ h = rw (drop_done, nz, a, some_left) refl in
          (b ∷ bs, junk, rw e v, some_left, ap outstanding e)
      | inr all_in ↦
          let e : drop_done (suc n) h ≡ drop_done n (first_block_done h) =
            rw (drop_done, nz, a, all_in) refl in
          let (bs', junk', v', head, o) =
            drop_done-IsPull n bs
              (first_block_done-IsPull v (any_missing-popcount b.frames_missing all_in))
              (omega arith) in
          (bs', junk', rw e v', head, ap outstanding e ∙ o ∙ first_block_done-outstanding h)
    ]

abbrev rerequested : Handle → ℕ → Handle
rerequested h m = record h { already_rerequested_blocks = m }

-- The marks of blocks asked for again do not matter to the invariant.
pub rerequested-IsFull :
    {h : Handle} {bs junk : List Desc} (m : ℕ) → IsFull h bs junk → IsFull (rerequested h m) bs junk
rerequested-IsFull m v =
    let p = v.pull in
    record {
      pull = record {
        queue = record {
          descs = p.descs;
          four = p.four;
          valid = p.valid;
          requested = p.requested;
          missing = p.missing;
          next = p.next;
          chain = p.chain;
          small = p.small;
        };
        lower = p.lower;
        upper = p.upper;
        exact = p.exact;
        full = p.full;
      };
      pipeline = v.pipeline;
    }

-- Asking for blocks again changes those marks only.
request_again-rerequested :
    (alloc : ℕ → Bool) (n i : ℕ) (h : Handle)
    → (m : ℕ) × ((request_again alloc h n i).0 ≡ rerequested h m)
unfolding request_again fill_request
request_again-rerequested alloc zero i h = (h.already_rerequested_blocks, refl)
request_again-rerequested alloc (suc n) i h =
    elim (Bool-cases (any_missing (desc h i).frames_missing)) [
      | inr all_in ↦ let (m, e) = request_again-rerequested alloc n (i + 1) h in (m, rw all_in e)
      | inl some_left ↦ elim (Bool-cases (alloc i)) [
        | inr no_memory ↦ (h.already_rerequested_blocks, rw (some_left, no_memory) refl)
        | inl memory ↦
            let (m, e) = request_again-rerequested alloc n (i + 1) (rerequested h (i + 1)) in
            (m, rw (some_left, memory) e)
      ]
    ]

HeadMissing-append : (xs ys : List Desc) → HeadMissing xs → HeadMissing ys → HeadMissing (xs ++ ys)
HeadMissing-append [] ys a b = b
HeadMissing-append (x ∷ xs) ys a b = a

-- The requests behind a reply: whatever the first block misses, the pull is active again.
pub progress-IsActive :
    (alloc : ℕ → Bool) (i : ℕ) {h : Handle} (b : Desc) (bs junk : List Desc)
    → IsFull h (b ∷ bs) junk
    → (bs' junk' : List Desc) × IsActive (progress_on_reply alloc h i).0 bs' junk'
      × (outstanding (progress_on_reply alloc h i).0 ≡ outstanding h)
unfolding progress_on_reply
progress-IsActive alloc i {h} b bs junk v =
    let d : desc h 0 ≡ b = ap (λ (ds : List Desc). get_or ds 0 no_desc) v.pull.descs in
    let a : any_missing (desc h 0).frames_missing ≡ any_missing b.frames_missing =
      ap (λ (x : Desc). any_missing x.frames_missing) d in
    elim (Bool-cases (any_missing b.frames_missing)) [
      | inl some_left ↦
          elim (Bool-cases (
            not (any_missing (desc h i).frames_missing)
            && ltb 0 i
            && ltb h.already_rerequested_blocks i)) [
              | inl again ↦
                  let (m, e) =
                    request_again-rerequested alloc (i - h.already_rerequested_blocks)
                      h.already_rerequested_blocks h in
                  let active : IsActive (rerequested h m) (b ∷ bs) junk = record {
                    full = rerequested-IsFull m v;
                    head = some_left;
                  } in
                  (
                    b ∷ bs,
                    junk,
                    rw (a, some_left, again, e) active,
                    rw (a, some_left, again, e) refl,
                  )
              | inr same ↦
                  let active : IsActive h (b ∷ bs) junk = record { full = v; head = some_left } in
                  (b ∷ bs, junk, rw (a, some_left, same) active, rw (a, some_left, same) refl)
            ]
      | inr all_in ↦
          let four : suc (length bs) + length junk ≡ block_descs_nr = v.pull.four in
          let v1 = first_block_done-IsPull v.pull (any_missing-popcount b.frames_missing all_in) in
          let (bs1, junk1, v2, head1, o1) = drop_done-IsPull 3 bs v1 (omega arith) in
          let (new, junk2, v3, head2, o2) =
            append_blocks-IsFull 4 junk1 v2 (omega (arith, v2.four)) in
          (
            bs1 ++ new,
            junk2,
            rw (a, all_in) (record { full = v3; head = HeadMissing-append bs1 new head1 head2 }),
            rw (a, all_in) (o2 ∙ o1 ∙ first_block_done-outstanding h),
          )
    ]
