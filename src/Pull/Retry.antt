-- ===== src/Pull/Retry.antt =====
-- What the retransmission timer does to an active pull, and what ends a pull.
use open_mx.Common.{
  ℕ, ◌-◌, ◌≡◌, refl, sym, ap, ◌∙◌, inl, inr, Bool, true, false, List, [], ◌∷◌, length, arith,
  if◌then◌else◌, ◌==◌, ◌&&◌, not, subst, Bool-cases, none, some, get_or,
}
use open_mx.Pull.Defs.{
  Desc, Handle, Status, running, timer_must_exit, timer_exited, done_success, done_aborted,
  done_timeout, any_missing,
}
use open_mx.Pull.Requests.{desc, no_desc, fill_request}
use open_mx.Pull.Replies.{reply_end, mark_completed, is_running}
use open_mx.Pull.Timeout.{
  Ticked, exited, rerequested, bug, time_after64, timeout_handler, progress_on_timeout,
}
use open_mx.Pull.Invariant.{IsPull, outstanding}
use open_mx.Pull.Progress.{IsActive, rerequested-IsFull}
use open_mx.Pull.Timeout.{dispatch}
use open_mx.Pull.Finish.{all_in-outstanding}

-- What the timer may do to a running pull at some time.
abbrev pub Ticks : (ℕ → Bool) → ℕ → Handle → Ticked → Type 0
Ticks alloc now h (exited h' done) =
    (time_after64 now h.last_retransmit_jiffies ≡ true)
    × (done ≡ some done_timeout)
    × (h' ≡ record h { status = timer_exited })
Ticks alloc now h (rerequested h' rs) =
    (time_after64 now h.last_retransmit_jiffies ≡ false)
    × ((bs junk : List Desc) × IsActive h' bs junk × (outstanding h' ≡ outstanding h))
    × ((length rs == 0) ≡ not (alloc 0))
Ticks alloc now h bug = (time_after64 now h.last_retransmit_jiffies ≡ false) × (outstanding h ≡ 0)

-- Asking again for the first block, and for the others that miss frames.
asks_again :
    (alloc : ℕ → Bool) {h : Handle} {bs junk : List Desc}
    → IsActive h bs junk
    → ((bs' junk' : List Desc) × IsActive (progress_on_timeout alloc h).0 bs' junk'
        × (outstanding (progress_on_timeout alloc h).0 ≡ outstanding h))
      × ((length (progress_on_timeout alloc h).1 == 0) ≡ not (alloc 0))
unfolding progress_on_timeout fill_request
asks_again alloc {h} {bs} {junk} v = elim (Bool-cases (alloc 0)) [
  | inr no_memory ↦ (
    (bs, junk, rw (progress_on_timeout, no_memory) v, rw (progress_on_timeout, no_memory) refl),
    rw (progress_on_timeout, no_memory) refl,
  )
  | inl memory ↦
      let v' : IsActive (record h { already_rerequested_blocks = 0 }) bs junk = record {
        full = rerequested-IsFull 0 v.full;
        head = v.head;
      } in
      (
        (bs, junk, rw (progress_on_timeout, memory) v', rw (progress_on_timeout, memory) refl),
        rw (progress_on_timeout, memory) (ground arith),
      )
]

-- An active pull without blocks is one to which nothing is to come.
no_blocks : {h : Handle} {junk : List Desc} → IsActive h [] junk → outstanding h ≡ 0
no_blocks {h} v = elim v.full.pipeline [
  | inl four ↦ absurd (omega (arith, four, v.full.pull.valid))
  | inr z ↦ omega (arith, z, v.full.pull.missing, v.full.pull.lower)
]

-- The timer of a running, active pull. Past the last retransmission it gives the pull up, reports a
-- timeout and exits. Before, it leaves the pull active with the same frames to come, and requests
-- something whenever the first request can be built. It reaches its BUG_ON only when no frame is to
-- come.
pub timeout_handler-Ticks :
    (alloc : ℕ → Bool) (now : ℕ) (h : Handle) (bs junk : List Desc)
    → IsActive h bs junk
    → h.status ≡ running
    → Ticks alloc now h (timeout_handler alloc now h)
unfolding timeout_handler mark_completed
timeout_handler-Ticks alloc now h bs junk v e =
    subst (λ (s : Status). Ticks alloc now h (dispatch alloc now h s)) (sym e)
      (elim (Bool-cases (time_after64 now h.last_retransmit_jiffies)) [
        | inl late ↦
            let r : is_running h.status ≡ true = ap is_running e in rw (late, r) (late, refl, refl)
        | inr early ↦ elim (Bool-cases (any_missing (desc h 0).frames_missing)) [
          | inl some_left ↦
              rw (early, some_left) (let (a1, a2) = asks_again alloc v in (early, a1, a2))
          | inr all_in ↦ rw (early, all_in) (early, nothing bs v all_in)
        ]
      ])
  where
    nothing :
        (bs : List Desc)
        → IsActive h bs junk
        → any_missing (desc h 0).frames_missing ≡ false
        → outstanding h ≡ 0
    nothing [] v all_in = no_blocks v
    nothing (b ∷ bs) v all_in =
        let d : desc h 0 ≡ b = ap (λ (ds : List Desc). get_or ds 0 no_desc) v.full.pull.descs in
        let a : any_missing (desc h 0).frames_missing ≡ any_missing b.frames_missing =
          ap (λ (x : Desc). any_missing x.frames_missing) d in
        let p : true ≡ false = sym v.head ∙ sym a ∙ all_in in cc

all_in-done :
    {h : Handle} {bs junk : List Desc}
    → IsPull h bs junk
    → (n : ℕ)
    → (h.remaining_length == 0 && h.nr_missing_frames == 0 && n == 0)
      ≡ (outstanding h == 0 && n == 0)
all_in-done {h} v n = elim (Bool-cases (n == 0)) [
  | inl last ↦ ground (arith, all_in-outstanding v)
  | inr more ↦ ground (arith, all_in-outstanding v)
]

-- The end of a copy, of a running pull: a frame that could not be copied aborts the pull; else the
-- pull completes with success exactly when no frame is to come and no other copy is pending.
pub reply_end-running :
    (h : Handle) (bs junk : List Desc) (filled : Bool)
    → IsPull h bs junk
    → h.status ≡ running
    → reply_end h filled ≡ (
        if not filled
        then some (record h { status = timer_must_exit }, some done_aborted)
        else (let copies = h.host_copy_nr_frames - 1 in
            if (outstanding h == 0) && copies == 0
            then some (
              record h { host_copy_nr_frames = copies; status = timer_must_exit },
              some done_success,
            )
            else some (record h { host_copy_nr_frames = copies }, none)))
unfolding reply_end mark_completed
reply_end-running h bs junk filled v e =
    let r : is_running h.status ≡ true = ap is_running e in
    let d = all_in-done v (h.host_copy_nr_frames - 1) in
    elim (Bool-cases filled) [
      | inr failed ↦ rw (failed, r) refl
      | inl copied ↦ elim (Bool-cases ((outstanding h == 0) && (h.host_copy_nr_frames - 1) == 0)) [
        | inl last ↦ rw (copied, r, d, last) refl
        | inr more ↦ rw (copied, r, d, more) refl
      ]
    ]

-- The end of a copy behind the completion of the pull, when its status is no longer running: nothing
-- is reported, except that a frame that could not be copied reaches the BUG_ON of
-- omx_pull_handle_mark_completed.
pub reply_end-stopped :
    (h : Handle) (filled : Bool)
    → is_running h.status ≡ false
    → reply_end h filled ≡ (
        if filled
        then some (record h { host_copy_nr_frames = h.host_copy_nr_frames - 1 }, none)
        else none)
unfolding reply_end mark_completed
reply_end-stopped h filled e = elim (Bool-cases filled) [
  | inl copied ↦ rw (copied, e) refl
  | inr failed ↦ rw (failed, e) refl
]
