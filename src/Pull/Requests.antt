-- ===== src/Pull/Requests.antt =====
-- Which blocks are requested, driver/linux/omx_pull.c: the first requests of a pull, and those that
-- follow a reply. A request is the block that its packet names; building a packet can fail, as
-- `alloc` says for each descriptor, and then no more are built.
use open_mx.Common.{
  ℕ, zero, suc, ◌+◌, ◌-◌, ◌%◌, Bool, List, [], ◌∷◌, Option, none, some, sub32, ltb, ◌==◌, not, ◌&&◌,
  ◌||◌, if◌then◌else◌, get_or,
}
use open_mx.Pull.Defs.{
  frame_length_max, block_length_max, block_descs_nr, Desc, Handle, any_missing, no_frames,
  append_needed_frames, first_block_done,
}

-- What a pull request asks for.
pub record Request : Type 0 where
  pub frame_index : ℕ
  pub block_length : ℕ
  pub first_frame_offset : ℕ

-- What a read behind the descriptors gives; none is made.
abbrev pub no_desc : Desc
no_desc = record {
  frame_index = 0;
  block_length = 0;
  first_frame_offset = 0;
  frames_missing = no_frames;
}

abbrev pub desc : Handle → ℕ → Desc
desc h i = get_or h.block_desc i no_desc

-- omx_fill_pull_block_request: `none` is -ENOMEM.
unfoldable pub fill_request : (ℕ → Bool) → Handle → ℕ → Option Request
fill_request alloc h i =
    let d = desc h i in
    if alloc i
    then some (record {
      frame_index = d.frame_index;
      block_length = d.block_length;
      first_frame_offset = d.first_frame_offset;
    })
    else none

-- Prepare as many new blocks as needed: the loop, with the rounds that are left as fuel.
unfoldable pub append_blocks : ℕ → Handle → Handle
unfolding append_needed_frames
append_blocks zero h = h
append_blocks (suc fuel) h =
    let length =
      if ltb h.remaining_length block_length_max then h.remaining_length else block_length_max in
    let rest = append_blocks fuel (append_needed_frames h length 0) in
    if ltb h.nr_valid_block_descs block_descs_nr && not (h.remaining_length == 0) then rest else h

-- Request the `n` blocks from descriptor `i` on.
unfoldable pub request_blocks : (ℕ → Bool) → Handle → ℕ → ℕ → List Request
unfolding fill_request
request_blocks alloc h zero i = []
request_blocks alloc h (suc n) i = elim (fill_request alloc h i) [
  | none ↦ []
  | some r ↦ r ∷ request_blocks alloc h n (i + 1)
]

-- omx_ioctl_pull, from the creation of the handle on.
unfoldable pub start : (ℕ → Bool) → Handle → Handle × List Request
unfolding append_blocks request_blocks
start alloc h =
    let offset = h.pulled_rdma_offset % frame_length_max in
    let room = sub32 block_length_max offset in
    let length = if ltb h.remaining_length room then h.remaining_length else room in
    let h' = append_blocks block_descs_nr (append_needed_frames h length offset) in
    (h', request_blocks alloc h' h'.nr_valid_block_descs 0)

-- Ask again for the blocks from `i` on that miss frames, `n` descriptors at most; the marks are how
-- many of the first blocks were asked for again.
unfoldable pub request_again : (ℕ → Bool) → Handle → ℕ → ℕ → Handle × List Request
unfolding fill_request any_missing
request_again alloc h zero i = (h, [])
request_again alloc h (suc n) i =
    if any_missing (desc h i).frames_missing
    then (elim (fill_request alloc h i) [
      | none ↦ (h, [])
      | some r ↦
          let (h', rs) =
            request_again alloc (record h { already_rerequested_blocks = i + 1 }) n (i + 1) in
          (h', r ∷ rs)
    ])
    else request_again alloc h n (i + 1)

-- Drop the next blocks if they are done, `n` of them at most.
unfoldable pub drop_done : ℕ → Handle → Handle
unfolding first_block_done any_missing
drop_done zero h = h
drop_done (suc n) h =
    let rest = drop_done n (first_block_done h) in
    if (h.nr_valid_block_descs == 0) || any_missing (desc h 0).frames_missing then h else rest

-- omx_progress_pull_on_recv_pull_reply_locked, after a frame of block `idesc` came in.
unfoldable pub progress_on_reply : (ℕ → Bool) → Handle → ℕ → Handle × List Request
unfolding request_again drop_done append_blocks request_blocks any_missing first_block_done
progress_on_reply alloc h idesc =
    let completed = not (any_missing (desc h idesc).frames_missing) in
    if any_missing (desc h 0).frames_missing
    then (if completed && ltb 0 idesc && ltb h.already_rerequested_blocks idesc
        then request_again alloc h (idesc - h.already_rerequested_blocks)
            h.already_rerequested_blocks
        else (h, []))
    else (let h1 = drop_done (block_descs_nr - 1) (first_block_done h) in
        let h2 = append_blocks block_descs_nr h1 in
        (
          h2,
          request_blocks alloc h2 (h2.nr_valid_block_descs - h1.nr_valid_block_descs)
              h1.nr_valid_block_descs,
        ))
