-- ===== src/Pull/Finish.antt =====
-- When a pull is done: sequences of packets, the second step of omx_recv_pull_reply, and the timer.
use open_mx.Common.{
  ℕ, ◌+◌, ◌/◌, ◌%◌, ◌^◌, ◌<◌, ◌≡◌, refl, ap, ◌∙◌, inl, inr, Bool, List, [], ◌∷◌, length, arith,
  ◌==◌, ◌&&◌,
}
use open_mx.Pull.Defs.{frame_length_max, block_descs_nr, Desc, Handle, create}
use open_mx.Pull.Requests.{Request, start}
use open_mx.Pull.Replies.{
  Reply, Verdict, accepted, closing, bad_seqnum, bad_seqnum_wraparound, duplicate, reply_begin,
}
use open_mx.Pull.Invariant.{IsPull, outstanding}
use open_mx.Pull.Start.{start-IsFull}
use open_mx.Pull.Progress.{IsActive}
use open_mx.Pull.Receive.{Receives, reply_begin-Receives}

-- The first steps of a sequence of packets, and how many were accepted.
abbrev counted : Verdict → ℕ
counted accepted = 1
counted closing = 0
counted bad_seqnum_wraparound = 0
counted bad_seqnum = 0
counted duplicate = 0

unfoldable pub receive_all : (ℕ → Bool) → Handle → List Reply → Handle × ℕ
unfolding reply_begin
receive_all alloc h [] = (h, 0)
receive_all alloc h (r ∷ rs) =
    let (h1, _, verdict) = reply_begin alloc h r in
    let (h2, n) = receive_all alloc h1 rs in (h2, counted verdict + n)

Receives-counted :
    {h : Handle} {bs junk : List Desc} (r : Reply) (x : Handle × List Request × Verdict)
    → IsActive h bs junk
    → Receives h r x
    → (bs' junk' : List Desc) × IsActive x.0 bs' junk'
      × (counted x.2 + outstanding x.0 ≡ outstanding h)
Receives-counted r (h', rs, accepted) v (bs, junk, active, _, e) =
    (bs, junk, active, omega (arith, e))
Receives-counted {bs = bs} {junk = junk} r (h', rs, closing) v (e, _) =
    (bs, junk, rw e v, omega (arith, ap outstanding e))
Receives-counted {bs = bs} {junk = junk} r (h', rs, bad_seqnum) v (e, _) =
    (bs, junk, rw e v, omega (arith, ap outstanding e))
Receives-counted {bs = bs} {junk = junk} r (h', rs, bad_seqnum_wraparound) v (e, _) =
    (bs, junk, rw e v, omega (arith, ap outstanding e))
Receives-counted {bs = bs} {junk = junk} r (h', rs, duplicate) v (e, _) =
    (bs, junk, rw e v, omega (arith, ap outstanding e))

receive_all-IsActive :
    (alloc : ℕ → Bool) (rs : List Reply) (h : Handle) (bs junk : List Desc)
    → IsActive h bs junk
    → (bs' junk' : List Desc) × IsActive (receive_all alloc h rs).0 bs' junk'
      × ((receive_all alloc h rs).1 + outstanding (receive_all alloc h rs).0 ≡ outstanding h)
unfolding receive_all
receive_all-IsActive alloc [] h bs junk v = (bs, junk, v, omega arith)
receive_all-IsActive alloc (r ∷ rs) h bs junk v =
    let (bs1, junk1, v1, e1) =
      Receives-counted r (reply_begin alloc h r) v (reply_begin-Receives alloc h bs junk r v) in
    let (bs2, junk2, v2, e2) =
      receive_all-IsActive alloc rs (reply_begin alloc h r).0 bs1 junk1 v1 in
    (bs2, junk2, v2, omega (arith, e1, e2))

-- Nothing is left to request or missing exactly when no frame is to come.
pub all_in-outstanding :
    {h : Handle} {bs junk : List Desc}
    → IsPull h bs junk
    → (h.remaining_length == 0 && h.nr_missing_frames == 0) ≡ (outstanding h == 0)
all_in-outstanding {h} v = elim v.exact [
  | inl z ↦ ground (arith, v.lower)
  | inr e ↦ ground (arith, v.lower)
]

-- A pull of `len` bytes, more than none and at most 2^32 - 8193, at any offset, whatever the four
-- descriptors of its memory held and whichever packets could be built. After any replies, those
-- accepted and the frames still to come are together the frames of the message, and nothing is
-- left to request or missing exactly when that many replies were accepted.
pub receive_all-counts :
    (alloc : ℕ → Bool) (memory : List Desc) (len offset deadline : ℕ) (rs : List Reply)
    → length memory ≡ block_descs_nr
    → 0 < len
    → len + 8192 < 2 ^ 32
    → (n : ℕ) × (h : Handle) × (receive_all alloc
          (start alloc (create memory len offset deadline)).0
          rs
        ≡ (h, n))
      × (n + outstanding h ≡ (offset % frame_length_max + len + 4095) / frame_length_max)
      × ((h.remaining_length == 0 && h.nr_missing_frames == 0)
          ≡ (n == (offset % frame_length_max + len + 4095) / frame_length_max))
receive_all-counts alloc memory len offset deadline rs four pos small =
    let (bs, junk, full, head, o) = start-IsFull alloc memory len offset deadline four pos small in
    let h = (start alloc (create memory len offset deadline)).0 in
    let active : IsActive h bs junk = record { full = full; head = head } in
    let (bs', junk', v, e) = receive_all-IsActive alloc rs h bs junk active in
    let (h', n) = receive_all alloc h rs in
    (n, h', refl, e ∙ o, all_in-outstanding v.full.pull ∙ ground (arith, e, o))
