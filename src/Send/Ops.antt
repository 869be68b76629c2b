-- ===== src/Send/Ops.antt =====
-- Sending requests (libopen-mx/omx_send.c): a number for each, and none while the window is full.
use open_mx.Common.{
  ℕ, zero, suc, ◌+◌, ◌-◌, true, false, List, [], ◌∷◌, ◌++◌, ltb, leb, if◌then◌else◌,
}
use open_mx.Seqnum.{diff, increase_by, throttling_offset_max}
use open_mx.Send.Defs.{
  RequestType, send_tiny, send_small, send_mediumsq, send_mediumva, send_large, recv_large, Request,
  Queues, Sender,
}

-- What posting a request leaves of it: some fragments of a medium one may be with the driver, and a
-- large one waits for its reply.
abbrev pub if_posted : RequestType → ℕ → Request → Request
if_posted send_tiny frags r = r
if_posted send_small frags r = r
if_posted send_mediumsq frags r = record r {
  frags_pending_nr = frags;
  driver_mediumsq_sending = ltb 0 frags;
}
if_posted send_mediumva frags r = r
if_posted send_large frags r = record r { need_reply = true }
if_posted recv_large frags r = r

-- The queue of the endpoint that a request waits in.
abbrev pub enqueue_posted : Request → Queues → Queues
enqueue_posted r q =
    if r.driver_mediumsq_sending
    then record q { driver_mediumsq_sending_req_q = q.driver_mediumsq_sending_req_q ++ r ∷ [] }
    else record q { non_acked_req_q = q.non_acked_req_q ++ r.id ∷ [] }

-- omx__setup_isend_tiny, _small, _mediumva, _mediumsq, _rndv and omx__setup_notify; the driver takes
-- `frags` fragments of a medium send.
unfoldable pub setup : ℕ → Sender → Request → Sender
setup frags p r =
    let r' = record (if_posted r.type frags (record r { send_seqnum = p.next_send_seq })) {
      need_ack = true;
    } in
    record p {
      next_send_seq = increase_by p.next_send_seq 1;
      posted = p.posted ++ r' ∷ [];
      queues = enqueue_posted r' p.queues;
      partner_non_acked_req_q = p.partner_non_acked_req_q ++ r' ∷ [];
    }

-- The end of omx__alloc_setup_isend_tiny, of those of the other types, and of
-- omx__alloc_setup_notify, with omx__mark_partner_throttling.
unfoldable pub submit : ℕ → Sender → Request → Sender
unfolding setup
submit frags p r =
    if leb throttling_offset_max (diff p.next_send_seq p.next_acked_send_seq)
    then record p {
      need_seqnum_send_req_q = p.need_seqnum_send_req_q ++ record r { need_seqnum = true } ∷ [];
      throttling_sends_nr = p.throttling_sends_nr + 1;
    }
    else setup frags p r

-- The loop of omx__process_throttling_requests, and how many requests it sent.
unfoldable pub throttling_loop : (Request → ℕ) → ℕ → List Request → Sender → Sender × ℕ
unfolding setup
throttling_loop driver zero q p = (p, 0)
throttling_loop driver (suc nr) [] p = (p, 0)
throttling_loop driver (suc nr) (r ∷ rs) p =
    let r' = record r { need_seqnum = false } in
    let (p', sent) =
      throttling_loop driver nr rs
        (setup (driver r') (record p { need_seqnum_send_req_q = rs }) r') in
    (p', sent + 1)

-- omx__process_throttling_requests, with omx__update_partner_throttling
unfoldable pub process_throttling : (Request → ℕ) → ℕ → Sender → Sender
unfolding throttling_loop
process_throttling driver nr p =
    let (p', sent) = throttling_loop driver nr p.need_seqnum_send_req_q p in
    record p' { throttling_sends_nr = p'.throttling_sends_nr - sent }
