-- ===== src/Recv/Match.antt =====
-- Matching, libopen-mx/omx_recv.c: messages meet the receives that were posted, and others wait as
-- unexpected. A partial request that is also unexpected stands in both queues, with the same fields.
use open_mx.Common.{
  ℕ, zero, suc, ◌+◌, ◌-◌, ◌*◌, ◌/◌, ◌%◌, ◌^◌, Bool, true, false, List, [], ◌∷◌, ◌++◌, ltb, leb,
  ◌==◌, ◌&&◌, if◌then◌else◌, add32,
}
use open_mx.Recv.Defs.{Msg}

-- union omx_request, of a receive: the flags are those of the state. `buffer k` is byte `k` of its
-- segments, and a truncated one has less of them than the message.
pub record RecvRequest : Type 0 where
  pub id : ℕ
  pub match_info : ℕ
  pub match_mask : ℕ
  pub total_length : ℕ
  pub seqnum : ℕ
  pub status_match_info : ℕ
  pub msg_length : ℕ
  pub xfer_length : ℕ
  pub recv_large : Bool
  pub unexpected : Bool
  pub partial : Bool
  pub frags_received_mask : ℕ
  pub accumulated_length : ℕ
  pub buffer : ℕ → ℕ

-- The queues of an endpoint and of the partner, the requests that went to omx__submit_pull, and
-- those that were completed.
pub record Requests : Type 0 where
  pub recv_req_q : List RecvRequest
  pub unexp_req_q : List RecvRequest
  pub partial_medium_recv_req_q : List RecvRequest
  pub pulls : List RecvRequest
  pub done : List RecvRequest

-- Bit `k` of a mask of 32 bits: the test of `mask & (1 << k)`, which C defines for k below 32 only.
abbrev pub bit : ℕ → ℕ → Bool
bit mask zero = mask % 2 == 1
bit mask (suc k) = bit (mask / 2) k

-- memcpy of a chunk to an offset
abbrev pub copy_to : (ℕ → ℕ) → ℕ → ℕ → (ℕ → ℕ) → ℕ → ℕ
copy_to bytes offset chunk buffer k =
    if leb offset k && ltb k (offset + chunk) then bytes (k - offset) else buffer k

-- The offset of a fragment, with the MX wire's pipeline.
abbrev pub frag_offset : Msg → ℕ
frag_offset m = m.frag_seqnum * 2 ^ m.frag_pipeline

-- The chunk that is copied.
abbrev pub xfer_chunk : Msg → ℕ → ℕ
xfer_chunk m xfer_length =
    if leb (frag_offset m + m.frag_length) xfer_length
    then m.frag_length
    else (if leb (frag_offset m) xfer_length then xfer_length - frag_offset m else 0)

-- A fragment that was not received yet, in omx__process_recv_medium_frag, for a receive into one
-- segment. Its bit is not set, so `mask |= 1 << frag_seqnum` is a sum of 32 bits.
unfoldable pub add_frag : RecvRequest → Msg → ℕ → RecvRequest
add_frag r m xfer_length = record r {
  buffer = copy_to m.bytes (frag_offset m) (xfer_chunk m xfer_length) r.buffer;
  frags_received_mask = add32 r.frags_received_mask (2 ^ m.frag_seqnum);
  accumulated_length = r.accumulated_length + m.frag_length;
}

-- The request in a queue where it stands.
abbrev pub sync : RecvRequest → List RecvRequest → List RecvRequest
sync r [] = []
sync r (x ∷ xs) = (if x.id == r.id then r else x) ∷ sync r xs

-- Where a request goes that is complete, or that waits for a receive.
abbrev pub finish : RecvRequest → Requests → Requests
finish r s =
    if r.unexpected
    then record s { unexp_req_q = s.unexp_req_q ++ r ∷ [] }
    else record s { done = s.done ++ r ∷ [] }

-- omx__process_recv_tiny and omx__process_recv_small
abbrev pub process_recv_small : RecvRequest → Msg → ℕ → Requests → Requests
process_recv_small r m xfer_length s =
    finish (record r { buffer = copy_to m.bytes 0 xfer_length r.buffer }) s

-- omx__process_recv_rndv
abbrev pub process_recv_rndv : RecvRequest → Requests → Requests
process_recv_rndv r s =
    let r' = record r { recv_large = true; partial = true } in
    if r.unexpected
    then record s { unexp_req_q = s.unexp_req_q ++ r' ∷ [] }
    else record s { pulls = s.pulls ++ r' ∷ [] }

-- omx__process_recv_medium_frag for the first fragment of a message, after
-- omx__init_process_recv_medium: the mask is 0.
unfoldable pub process_first_frag : RecvRequest → Msg → ℕ → Requests → Requests
unfolding add_frag
process_first_frag r m xfer_length s =
    let r1 = add_frag r m xfer_length in
    let more = record r1 { partial = true } in
    if r1.accumulated_length == m.msg_length
    then finish (record r1 { partial = false }) s
    else (if r.unexpected
        then record s {
          unexp_req_q = s.unexp_req_q ++ more ∷ [];
          partial_medium_recv_req_q = s.partial_medium_recv_req_q ++ more ∷ [];
        }
        else record s { partial_medium_recv_req_q = s.partial_medium_recv_req_q ++ more ∷ [] })

-- omx__process_recv_medium_frag for another fragment: `before` and `after` are the others of the
-- partner's queue, where the request stands.
unfoldable pub process_more_frag :
    List RecvRequest → RecvRequest → List RecvRequest → Msg → Requests → Requests
unfolding add_frag
process_more_frag before r after m s =
    let r1 = add_frag r m r.xfer_length in
    let last = record r1 { partial = false } in
    if bit r.frags_received_mask m.frag_seqnum
    then s
    else (if r1.accumulated_length == m.msg_length
        then (if r.unexpected
            then record s {
              unexp_req_q = sync last s.unexp_req_q;
              partial_medium_recv_req_q = before ++ after;
            }
            else record s {
              done = s.done ++ last ∷ [];
              partial_medium_recv_req_q = before ++ after;
            })
        else record s {
          unexp_req_q = sync r1 s.unexp_req_q;
          partial_medium_recv_req_q = before ++ r1 ∷ after;
        })
