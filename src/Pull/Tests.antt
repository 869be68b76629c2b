-- ===== src/Pull/Tests.antt =====
-- A pull on concrete inputs: 100000 bytes from offset 5000.
use open_mx.Common.{
  ℕ, ◌+◌, ◌/◌, ◌%◌, ◌≡◌, refl, Bool, true, ◌&&◌, ◌==◌, List, [], ◌∷◌, arith, replicate,
}
use open_mx.Pull.Defs.{frame_length_max, Desc, Handle, running, create, append_needed_frames}
use open_mx.Pull.Requests.{no_desc, start, append_blocks}
use open_mx.Pull.Replies.{Reply, reply_begin}
use open_mx.Pull.Timeout.{timeout_handler}
use open_mx.Pull.Invariant.{outstanding, HeadMissing}
use open_mx.Pull.Start.{IsFull, start-IsFull}
use open_mx.Pull.Progress.{IsActive}
use open_mx.Pull.Receive.{Receives, reply_begin-Receives}
use open_mx.Pull.Finish.{receive_all, receive_all-counts}
use open_mx.Pull.Retry.{Ticks, timeout_handler-Ticks}

abbrev memory : List Desc
memory = replicate 4 no_desc

abbrev alloc : ℕ → Bool
alloc i = true

abbrev pull : Handle
pull = (start alloc (create memory 100000 5000 0)).0

abbrev begun :
    (bs junk : List Desc) × IsFull pull bs junk
    × HeadMissing bs
    × (outstanding pull ≡ (5000 % frame_length_max + 100000 + 4095) / frame_length_max)
begun = start-IsFull alloc memory 100000 5000 0 refl (omega arith) (omega arith)

abbrev active : IsActive pull begun.0 begun.1
active = record { full = begun.2; head = begun.3 }

abbrev reply : Reply
reply = record { frame_seqnum = 3; msg_offset = 12000 }

start-IsFull_example :
    (bs junk : List Desc) × IsFull pull bs junk
    × HeadMissing bs
    × (outstanding pull ≡ (5000 % frame_length_max + 100000 + 4095) / frame_length_max)
start-IsFull_example = start-IsFull alloc memory 100000 5000 0 refl (omega arith) (omega arith)

reply_begin-Receives_example : Receives pull reply (reply_begin alloc pull reply)
reply_begin-Receives_example = reply_begin-Receives alloc pull begun.0 begun.1 reply active

receive_all-counts_example :
    (n : ℕ) × (h : Handle) × (receive_all alloc pull (reply ∷ reply ∷ []) ≡ (h, n))
    × (n + outstanding h ≡ (5000 % frame_length_max + 100000 + 4095) / frame_length_max)
    × ((h.remaining_length == 0 && h.nr_missing_frames == 0)
        ≡ (n == (5000 % frame_length_max + 100000 + 4095) / frame_length_max))
receive_all-counts_example =
    receive_all-counts alloc memory 100000 5000 0 (reply ∷ reply ∷ []) refl (omega arith)
      (omega arith)

pull_runs : pull.status ≡ running
unfolding start create append_needed_frames append_blocks
pull_runs = refl

timeout_handler-Ticks_example : Ticks alloc 5 pull (timeout_handler alloc 5 pull)
timeout_handler-Ticks_example = timeout_handler-Ticks alloc 5 pull begun.0 begun.1 active pull_runs

-- The first of two equal replies is accepted, the second is a duplicate.
one_counted : (receive_all alloc pull (reply ∷ reply ∷ [])).1 ≡ 1
unfolding receive_all start create
one_counted = refl
