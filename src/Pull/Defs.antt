-- ===== src/Pull/Defs.antt =====
-- struct omx_pull_handle and its bitmaps, driver/linux/omx_pull.c, in the build that is compatible
-- with MX on the wire (common/omx_wire.h): frames of 4096 bytes, 8 of them in a block, and 4 blocks
-- on the way. A bitmap is the list of its 8 bits, the lowest first.
use open_mx.Common.{
  ℕ, zero, suc, ◌-◌, ◌*◌, ◌/◌, min, Bool, true, false, List, [], ◌∷◌, ◌++◌, add32, sub32, ◌==◌,
  if◌then◌else◌, ◌||◌, take, drop, set, replicate,
}

abbrev pub frame_length_max : ℕ
frame_length_max = 4096

abbrev pub frames_per_block : ℕ
frames_per_block = 8

abbrev pub block_length_max : ℕ
block_length_max = frame_length_max * frames_per_block

abbrev pub block_descs_nr : ℕ
block_descs_nr = 4

-- struct omx_pull_block_desc
pub record Desc : Type 0 where
  pub frame_index : ℕ
  pub block_length : ℕ
  pub first_frame_offset : ℕ
  pub frames_missing : List Bool

-- enum omx_pull_handle_status
pub data Status : Type 0 where
  running timer_must_exit timer_exited : Status

-- The status that the completion event reports.
pub data Done : Type 0 where
  done_success done_aborted done_timeout : Done

-- The fields of struct omx_pull_handle that the protocol reads and writes.
pub record Handle : Type 0 where
  pub status : Status
  pub total_length : ℕ
  pub pulled_rdma_offset : ℕ
  pub last_retransmit_jiffies : ℕ
  pub remaining_length : ℕ
  pub frame_index : ℕ
  pub next_frame_index : ℕ
  pub nr_requested_frames : ℕ
  pub nr_missing_frames : ℕ
  pub nr_valid_block_descs : ℕ
  pub already_rerequested_blocks : ℕ
  pub block_desc : List Desc
  pub host_copy_nr_frames : ℕ

-- The bitmap test `frames_missing_bitmap != 0`.
unfoldable pub any_missing : List Bool → Bool
any_missing [] = false
any_missing (b ∷ bs) = b || any_missing bs

abbrev pub no_frames : List Bool
no_frames = replicate frames_per_block false

abbrev pub clear : Desc → Desc
clear d = record d { frames_missing = no_frames }

-- The loop of omx_pull_handle_create that clears the bitmaps of the first `n` descriptors.
unfoldable pub clear_first : ℕ → List Desc → List Desc
clear_first zero ds = ds
clear_first (suc n) [] = []
clear_first (suc n) (d ∷ ds) = clear d ∷ clear_first n ds

-- omx_pull_handle_create, once a slot is found: `memory` is what the allocated descriptors hold,
-- `deadline` the time of the last retransmission.
unfoldable pub create : List Desc → ℕ → ℕ → ℕ → Handle
unfolding clear_first
create memory length rdma_offset deadline = record {
  status = running;
  total_length = length;
  pulled_rdma_offset = rdma_offset;
  last_retransmit_jiffies = deadline;
  remaining_length = length;
  frame_index = 0;
  next_frame_index = 0;
  nr_requested_frames = 0;
  nr_missing_frames = 0;
  nr_valid_block_descs = 0;
  already_rerequested_blocks = 0;
  block_desc = clear_first (block_descs_nr - 1) memory;
  host_copy_nr_frames = 0;
}

-- How many frames a block spans.
abbrev pub frames_of : ℕ → ℕ → ℕ
frames_of length offset = add32 (add32 offset length) (frame_length_max - 1) / frame_length_max

-- All bits set, shifted down until `n` are left.
abbrev pub low_frames : ℕ → List Bool
low_frames n = replicate n true ++ replicate (frames_per_block - n) false

abbrev pub new_desc : Handle → ℕ → ℕ → Desc
new_desc h length offset = record {
  frame_index = h.next_frame_index;
  block_length = length;
  first_frame_offset = offset;
  frames_missing = low_frames (frames_of length offset);
}

-- omx_pull_handle_append_needed_frames
unfoldable pub append_needed_frames : Handle → ℕ → ℕ → Handle
append_needed_frames h length offset =
    let n = frames_of length offset in
    record h {
      block_desc = set h.block_desc h.nr_valid_block_descs (new_desc h length offset);
      nr_requested_frames = add32 h.nr_requested_frames n;
      nr_missing_frames = add32 h.nr_missing_frames n;
      next_frame_index = add32 h.next_frame_index n;
      remaining_length = sub32 h.remaining_length length;
      nr_valid_block_descs = add32 h.nr_valid_block_descs 1;
    }

-- memmove of `n` descriptors from the second place to the first.
unfoldable pub move_down : ℕ → List Desc → List Desc
move_down n ds = take n (drop 1 ds) ++ drop n ds

unfoldable pub clear_at : ℕ → List Desc → List Desc
clear_at i [] = []
clear_at zero (d ∷ ds) = clear d ∷ ds
clear_at (suc i) (d ∷ ds) = d ∷ clear_at i ds

-- omx_pull_handle_first_block_done
unfoldable pub first_block_done : Handle → Handle
unfolding move_down clear_at
first_block_done h =
    let n = min h.nr_requested_frames frames_per_block in
    let valid = sub32 h.nr_valid_block_descs 1 in
    record h {
      frame_index = add32 h.frame_index n;
      nr_requested_frames = sub32 h.nr_requested_frames n;
      nr_valid_block_descs = valid;
      already_rerequested_blocks =
          if h.already_rerequested_blocks == 0 then 0 else sub32 h.already_rerequested_blocks 1;
      block_desc = clear_at (block_descs_nr - 1) (move_down valid h.block_desc);
    }
