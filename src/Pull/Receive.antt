-- ===== src/Pull/Receive.antt =====
-- The first step of omx_recv_pull_reply, on every branch.
use open_mx.Common.{
  ℕ, ◌+◌, ◌/◌, ◌%◌, ◌<◌, ◌≡◌, refl, ap, ◌∙◌, inl, inr, Bool, true, false, List, [], add32, length,
  length-set, get_or, arith, leb, ◌==◌, subst, Bool-cases, List-cases,
}
use open_mx.Pull.Defs.{frames_per_block, Desc, Handle}
use open_mx.Pull.Requests.{Request, desc, no_desc, progress_on_reply}
use open_mx.Pull.Replies.{
  Reply, Verdict, accepted, closing, bad_seqnum, bad_seqnum_wraparound, duplicate, mark_received,
  reply_begin, seqnum_offset, frame_at, is_running,
}
use open_mx.Pull.Invariant.{IsPull, outstanding, missing_in-le}
use open_mx.Pull.Start.{IsFull}
use open_mx.Pull.Marks.{marked, without, mark-IsPull, block-lt}
use open_mx.Pull.Progress.{IsActive, progress-IsActive}

-- The bit of the frame that a reply brings.
abbrev pub awaited : Handle → Reply → Bool
awaited h r =
    get_or (desc h (seqnum_offset h r / frames_per_block)).frames_missing
      (seqnum_offset h r % frames_per_block) false

-- What a packet may do: be accepted, for a frame that was missing, or change nothing.
abbrev pub Receives : Handle → Reply → Handle × List Request × Verdict → Type 0
Receives h r (h', rs, accepted) =
    (bs junk : List Desc) × IsActive h' bs junk
    × (awaited h r ≡ true)
    × (outstanding h' + 1 ≡ outstanding h)
Receives h r (h', rs, closing) = (h' ≡ h) × (rs ≡ [])
Receives h r (h', rs, bad_seqnum_wraparound) = (h' ≡ h) × (rs ≡ [])
Receives h r (h', rs, bad_seqnum) = (h' ≡ h) × (rs ≡ [])
Receives h r (h', rs, duplicate) = (h' ≡ h) × (rs ≡ [])

mark-outstanding :
    {h : Handle} {bs junk bs' junk' : List Desc} (i bit : ℕ)
    → IsPull h bs junk
    → IsPull (mark_received h i bit) bs' junk'
    → outstanding (mark_received h i bit) + 1 ≡ outstanding h
mark-outstanding {h} {bs} {junk} {bs'} i bit v w = omega (
  arith,
  v.missing,
  v.four,
  missing_in-le h.frame_index bs v.chain,
  w.missing,
  w.four,
  missing_in-le h.frame_index bs' w.chain,
)

-- A frame that was missing, of a valid block.
accepted-Receives :
    (alloc : ℕ → Bool) {h : Handle} {bs junk : List Desc} (r : Reply) (i bit : ℕ)
    → IsActive h bs junk
    → i < length bs
    → get_or (desc h i).frames_missing bit false ≡ true
    → awaited h r ≡ true
    → Receives h r (
      (progress_on_reply alloc (mark_received h i bit) i).0,
      (progress_on_reply alloc (mark_received h i bit) i).1,
      accepted,
    )
accepted-Receives alloc {h} {bs} {junk} r i bit v lt missing set_bit =
    let p = mark-IsPull i bit v.full.pull lt missing in
    let full : IsFull (mark_received h i bit) (marked bs i bit) junk = record {
      pull = p;
      pipeline = v.full.pipeline;
    } in
    let o = mark-outstanding i bit v.full.pull p in
    elim (List-cases (marked bs i bit)) [
      | inl empty ↦
          absurd
            (omega (arith, ap length empty, length-set bs i (without (get_or bs i no_desc) bit)))
      | inr (b, rest, q) ↦
          let full' = subst (λ (ds : List Desc). IsFull (mark_received h i bit) ds junk) q full in
          let (bs', junk', active, o') = progress-IsActive alloc i b rest junk full' in
          (bs', junk', active, set_bit, ap (λ (n : ℕ). n + 1) o' ∙ o)
    ]

-- Of an active pull, whatever packet comes in, the first step of omx_recv_pull_reply either accepts a
-- frame that was missing, which leaves an active pull with one frame less to come, or it drops the
-- packet, requests nothing and does not change the handle.
pub reply_begin-Receives :
    (alloc : ℕ → Bool) (h : Handle) (bs junk : List Desc) (r : Reply)
    → IsActive h bs junk
    → Receives h r (reply_begin alloc h r)
unfolding reply_begin
reply_begin-Receives alloc h bs junk r v =
    let offset = seqnum_offset h r in
    elim (Bool-cases (is_running h.status)) [
      | inr stopped ↦ rw stopped (refl, refl)
      | inl running ↦ elim (Bool-cases (frame_at r.msg_offset == add32 h.frame_index offset)) [
        | inr wrapped ↦ rw (running, wrapped) (refl, refl)
        | inl fits ↦ elim (Bool-cases (leb h.nr_requested_frames offset)) [
          | inl beyond ↦ rw (running, fits, beyond) (refl, refl)
          | inr within ↦ elim (Bool-cases (awaited h r)) [
            | inr again ↦ rw (running, fits, within, again) (refl, refl)
            | inl new ↦
                rw (running, fits, within, new)
                  (accepted-Receives alloc r (offset / frames_per_block) (offset % frames_per_block)
                    v
                    (block-lt h.frame_index bs offset v.full.pull.chain
                      (ground (arith, v.full.pull.requested)))
                    new new)
          ]
        ]
      ]
    ]
