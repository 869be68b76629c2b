-- ===== src/Pull/Timeout.antt =====
-- The retransmission timer of a pull, omx_pull_handle_timeout_handler of driver/linux/omx_pull.c.
use open_mx.Common.{
  ℕ, zero, suc, ◌+◌, ◌-◌, ◌%◌, ◌^◌, Bool, List, [], ◌∷◌, Option, none, some, leb, not,
  if◌then◌else◌,
}
use open_mx.Pull.Defs.{
  block_descs_nr, Status, running, timer_must_exit, timer_exited, Done, done_timeout, Handle,
  any_missing,
}
use open_mx.Pull.Requests.{Request, desc, fill_request}
use open_mx.Pull.Replies.{mark_completed}

-- Request the blocks from descriptor `i` on that miss frames, `n` descriptors at most.
unfoldable pub request_missing : (ℕ → Bool) → Handle → ℕ → ℕ → List Request
unfolding fill_request any_missing
request_missing alloc h zero i = []
request_missing alloc h (suc n) i =
    let rest = request_missing alloc h n (i + 1) in
    if any_missing (desc h i).frames_missing
    then (elim (fill_request alloc h i) [ none ↦ [] | some r ↦ r ∷ rest ])
    else rest

-- omx_progress_pull_on_handle_timeout_handle_locked
unfoldable pub progress_on_timeout : (ℕ → Bool) → Handle → Handle × List Request
unfolding request_missing fill_request
progress_on_timeout alloc h = elim (fill_request alloc h 0) [
  | none ↦ (h, [])
  | some r ↦
      let h' = record h { already_rerequested_blocks = 0 } in
      (h', r ∷ request_missing alloc h' (block_descs_nr - 1) 1)
]

-- What the timer does: it exits, with a completion event if it gave the pull up, or asks for blocks
-- again, or hits its BUG_ON.
pub data Ticked : Type 0 where
  exited : Handle → Option Done → Ticked
  rerequested : Handle → List Request → Ticked
  bug : Ticked

-- time_after64(a, b)
abbrev pub time_after64 : ℕ → ℕ → Bool
time_after64 a b = leb (2 ^ 63) ((b + (2 ^ 64 - a % 2 ^ 64)) % 2 ^ 64)

abbrev give_up : Option (Handle × Done) → Ticked
give_up none = bug
give_up (some (h, d)) = exited (record h { status = timer_exited }) (some d)

abbrev ask_again : Handle × List Request → Ticked
ask_again (h, rs) = rerequested h rs

abbrev on_running : (ℕ → Bool) → ℕ → Handle → Ticked
on_running alloc now h =
    if time_after64 now h.last_retransmit_jiffies
    then give_up (mark_completed h done_timeout)
    else (if not (any_missing (desc h 0).frames_missing)
        then bug
        else ask_again (progress_on_timeout alloc h))

abbrev pub dispatch : (ℕ → Bool) → ℕ → Handle → Status → Ticked
dispatch alloc now h running = on_running alloc now h
dispatch alloc now h timer_must_exit = exited (record h { status = timer_exited }) none
dispatch alloc now h timer_exited = bug

unfoldable pub timeout_handler : (ℕ → Bool) → ℕ → Handle → Ticked
unfolding progress_on_timeout mark_completed any_missing
timeout_handler alloc now h = dispatch alloc now h h.status
