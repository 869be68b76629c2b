-- ===== src/Recv/Irecv.antt =====
-- omx__irecv_segs and omx__complete_unexp_req_as_irecv (libopen-mx/omx_recv.c): a receive meets a
-- message that waits, or is posted.
use Prim.Native.Nat.{bit_and}
use open_mx.Common.{ℕ, false, List, [], ◌∷◌, ◌++◌, Option, none, some, ◌==◌, min, if◌then◌else◌}
use open_mx.Recv.Match.{RecvRequest, Requests, copy_to, sync}

-- The search of the unexpected queue: the first message that matches, and the others. The operands of
-- `&` and of the comparison are in the order that omx__match_recv has them in.
unfoldable pub find_unexp : ℕ → ℕ → List RecvRequest → Option (RecvRequest × List RecvRequest)
find_unexp match_info match_mask [] = none
find_unexp match_info match_mask (u ∷ us) =
    let rest = find_unexp match_info match_mask us in
    if match_info == bit_and match_mask u.status_match_info
    then some (u, us)
    else (elim rest [ none ↦ none | some x ↦ some (x.0, u ∷ x.1) ])

-- The message with the segments of the receive, whose bytes were `before`.
abbrev pub as_irecv : RecvRequest → ℕ → (ℕ → ℕ) → RecvRequest
as_irecv u total_length before =
    let xfer = min total_length u.msg_length in
    record u {
      total_length = total_length;
      xfer_length = xfer;
      unexpected = false;
      buffer = copy_to u.buffer 0 xfer before;
    }

-- omx__complete_unexp_req_as_irecv, of a message that is not from oneself: a rendezvous is pulled, a
-- partial message goes on with the new segments, and another one is complete.
unfoldable pub complete_unexp_req_as_irecv : RecvRequest → ℕ → (ℕ → ℕ) → Requests → Requests
complete_unexp_req_as_irecv u total_length before s =
    let r = as_irecv u total_length before in
    let xfer = min total_length u.msg_length in
    if u.recv_large
    then record s {
      pulls =
          s.pulls
          ++ record u { total_length = total_length; xfer_length = xfer; unexpected = false } ∷ [];
    }
    else (if u.partial
        then record s { partial_medium_recv_req_q = sync r s.partial_medium_recv_req_q }
        else record s { done = s.done ++ r ∷ [] })

-- A receive that is posted.
abbrev pub posted_request : ℕ → ℕ → ℕ → ℕ → (ℕ → ℕ) → RecvRequest
posted_request id match_info match_mask total_length before = record {
  id = id;
  match_info = match_info;
  match_mask = match_mask;
  total_length = total_length;
  seqnum = 0;
  status_match_info = 0;
  msg_length = 0;
  xfer_length = 0;
  recv_large = false;
  unexpected = false;
  partial = false;
  frags_received_mask = 0;
  accumulated_length = 0;
  buffer = before;
}

-- The end of omx__irecv_segs, before it lets the library progress; `alloc` is the allocation of a
-- request.
abbrev pub if_found :
    Option (RecvRequest × List RecvRequest)
    → Option ℕ
    → ℕ
    → ℕ
    → ℕ
    → (ℕ → ℕ)
    → Requests
    → Option Requests
if_found (some x) alloc match_info match_mask total_length before s =
    some (complete_unexp_req_as_irecv x.0 total_length before (record s { unexp_req_q = x.1 }))
if_found none none match_info match_mask total_length before s = none
if_found none (some id) match_info match_mask total_length before s = some (record s {
  recv_req_q = s.recv_req_q ++ posted_request id match_info match_mask total_length before ∷ [];
})

-- omx__irecv_segs
unfoldable pub irecv_segs : Option ℕ → ℕ → ℕ → ℕ → (ℕ → ℕ) → Requests → Option Requests
irecv_segs alloc match_info match_mask total_length before s =
    if_found (find_unexp match_info match_mask s.unexp_req_q) alloc match_info match_mask
      total_length before s
