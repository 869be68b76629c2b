-- ===== src/Pull/Replies.antt =====
-- omx_recv_pull_reply of driver/linux/omx_pull.c. The handle's lock is free while the frame is
-- copied, so the function is two steps: `reply_begin` up to the copy, `reply_end` behind it, and
-- other packets and the timer may come in between. The lookups of the endpoint and of the handle
-- (see PullSlots) come before, and copies by a DMA engine are left out.
use open_mx.Common.{
  ℕ, ◌+◌, ◌-◌, ◌/◌, ◌%◌, Bool, true, false, List, [], Option, none, some, add32, sub32, leb, ◌==◌,
  not, ◌&&◌, if◌then◌else◌, get_or, set,
}
use open_mx.Pull.Defs.{
  frame_length_max, frames_per_block, Status, running, timer_must_exit, timer_exited, Done,
  done_success, done_aborted, Handle,
}
use open_mx.Pull.Requests.{Request, desc, progress_on_reply}

-- The fields of the packet that matter.
pub record Reply : Type 0 where
  pub frame_seqnum : ℕ
  pub msg_offset : ℕ

-- What becomes of a packet: dropped for a reason that a counter names, or copied.
pub data Verdict : Type 0 where
  closing bad_seqnum_wraparound bad_seqnum duplicate : Verdict
  accepted : Verdict

abbrev pub is_running : Status → Bool
is_running running = true
is_running timer_must_exit = false
is_running timer_exited = false

-- frame_seqnum_offset, in C's unsigned arithmetic.
abbrev pub seqnum_offset : Handle → Reply → ℕ
seqnum_offset h r = add32 (sub32 r.frame_seqnum (h.frame_index % 256)) 256 % 256

-- The frame that a message offset belongs to.
abbrev pub frame_at : ℕ → ℕ
frame_at msg_offset = add32 msg_offset (frame_length_max - 1) / frame_length_max

abbrev pub mark_received : Handle → ℕ → ℕ → Handle
mark_received h i bit =
    let d = desc h i in
    record h {
      block_desc =
          set h.block_desc i (record d { frames_missing = set d.frames_missing bit false });
      nr_missing_frames = sub32 h.nr_missing_frames 1;
      host_copy_nr_frames = h.host_copy_nr_frames + 1;
    }

-- The first step: the checks, the mark, and the requests that follow.
unfoldable pub reply_begin : (ℕ → Bool) → Handle → Reply → Handle × List Request × Verdict
unfolding progress_on_reply
reply_begin alloc h r =
    let offset = seqnum_offset h r in
    let i = offset / frames_per_block in
    let bit = offset % frames_per_block in
    if not (is_running h.status)
    then (h, [], closing)
    else (if not (frame_at r.msg_offset == add32 h.frame_index offset)
        then (h, [], bad_seqnum_wraparound)
        else (if leb h.nr_requested_frames offset
            then (h, [], bad_seqnum)
            else (if not (get_or (desc h i).frames_missing bit false)
                then (h, [], duplicate)
                else (let (h', requests) = progress_on_reply alloc (mark_received h i bit) i in
                    (h', requests, accepted)))))

-- omx_pull_handle_mark_completed: `none` is its BUG_ON. The slot is freed (see PullSlots), and the
-- completion event reports the status.
unfoldable pub mark_completed : Handle → Done → Option (Handle × Done)
mark_completed h done =
    if is_running h.status then some (record h { status = timer_must_exit }, done) else none

abbrev pub is_done : Handle → Bool
is_done h = h.remaining_length == 0 && h.nr_missing_frames == 0 && h.host_copy_nr_frames == 0

abbrev with_event : Option (Handle × Done) → Option (Handle × Option Done)
with_event none = none
with_event (some (h, d)) = some (h, some d)

-- The second step: `filled` says whether the frame could be copied. `none` is the BUG_ON; the event
-- is there when the pull is complete.
unfoldable pub reply_end : Handle → Bool → Option (Handle × Option Done)
unfolding mark_completed
reply_end h filled =
    if not filled
    then with_event (mark_completed h done_aborted)
    else (let h' = record h { host_copy_nr_frames = h.host_copy_nr_frames - 1 } in
        if not (is_running h'.status)
        then some (h', none)
        else (if is_done h' then with_event (mark_completed h' done_success) else some (h', none)))
