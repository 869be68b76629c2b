-- ===== src/Send/Ack.antt =====
-- Acks and nacks (libopen-mx/omx_ack.c), and what the driver says of medium sends
-- (libopen-mx/omx_lib.c).
use open_mx.Common.{
  ℕ, ◌+◌, ◌-◌, false, List, [], ◌∷◌, ◌++◌, Option, none, some, ltb, leb, ◌==◌, ◌||◌, if◌then◌else◌,
}
use open_mx.Seqnum.{diff, same_session}
use open_mx.Send.Defs.{
  RequestType, send_tiny, send_small, send_mediumsq, send_mediumva, send_large, recv_large, Status,
  success, truncated, failed, Request, Queues, Sender, dequeue, replace, complete,
}
use open_mx.Send.Ops.{process_throttling}

-- The dequeueing from the non-acked requests, and the completion.
abbrev pub acked_complete : Request → Status → Queues → Queues
acked_complete r s q = complete r s (record q { non_acked_req_q = dequeue r.id q.non_acked_req_q })

-- A medium send that the driver still sends keeps the status of its ack, unless it failed early.
abbrev pub if_early_error : Status → Status → Status
if_early_error success s = s
if_early_error truncated s = truncated
if_early_error (failed n) s = failed n

abbrev pub acked_mediumsq : Request → Status → Queues → Queues
acked_mediumsq r s q =
    if r.driver_mediumsq_sending
    then record q {
      driver_mediumsq_sending_req_q =
          replace (record r { code = if_early_error r.code s }) q.driver_mediumsq_sending_req_q;
    }
    else acked_complete r s q

-- A rendezvous that is acked waits for its reply; one that is nacked does not.
abbrev pub acked_large : Request → Status → Queues → Queues
acked_large r success q =
    if r.need_reply
    then record q {
      non_acked_req_q = dequeue r.id q.non_acked_req_q;
      large_send_need_reply_req_q = q.large_send_need_reply_req_q ++ r ∷ [];
    }
    else acked_complete r success q
acked_large r truncated q =
    acked_complete (record r { need_reply = false }) truncated
      (record q { large_sends_avail_nr = q.large_sends_avail_nr + 1 })
acked_large r (failed n) q =
    acked_complete (record r { need_reply = false }) (failed n)
      (record q { large_sends_avail_nr = q.large_sends_avail_nr + 1 })

abbrev pub acked_by_type : RequestType → Request → Status → Queues → Queues
acked_by_type send_tiny = acked_complete
acked_by_type send_small = acked_complete
acked_by_type send_mediumsq = acked_mediumsq
acked_by_type send_mediumva = acked_complete
acked_by_type send_large = acked_large
acked_by_type recv_large = acked_complete

-- omx__mark_request_acked. That a large send which failed also gives its region back is in `fail_send` of
-- Large, where the regions are.
unfoldable pub mark_request_acked : Request → Status → Queues → Queues
mark_request_acked r s q = acked_by_type r.type (record r { need_ack = false }) s q

-- The loop of omx__handle_ack: the requests that stay, and the queues.
unfoldable pub ack_loop : ℕ → ℕ → List Request → Queues → List Request × Queues
unfolding mark_request_acked
ack_loop acked new_acks [] q = ([], q)
ack_loop acked new_acks (r ∷ rs) q =
    let rest = ack_loop acked new_acks rs (mark_request_acked r success q) in
    if leb new_acks (diff r.send_seqnum acked) then (r ∷ rs, q) else rest

-- omx__handle_ack
unfoldable pub handle_ack : (Request → ℕ) → Sender → ℕ → Sender
unfolding ack_loop process_throttling
handle_ack driver p ack_before =
    let missing_acks = diff p.next_send_seq p.next_acked_send_seq in
    let new_acks = diff ack_before p.next_acked_send_seq in
    let (rest, q) = ack_loop p.next_acked_send_seq new_acks p.partner_non_acked_req_q p.queues in
    if new_acks == 0 || ltb missing_acks new_acks
    then p
    else process_throttling driver new_acks
        (record p { partner_non_acked_req_q = rest; queues = q; next_acked_send_seq = ack_before })

-- omx__handle_liback
unfoldable pub handle_liback : (Request → ℕ) → Sender → ℕ → ℕ → Sender
unfolding handle_ack
handle_liback driver p ack acknum =
    if same_session ack p.next_send_seq
    then (if leb acknum p.last_recv_acknum
        then p
        else handle_ack driver (record p { last_recv_acknum = acknum }) ack)
    else p

abbrev pub cons_nacked : Request → Option (List Request × Queues) → Option (List Request × Queues)
cons_nacked r none = none
cons_nacked r (some x) = some (r ∷ x.0, x.1)

-- The loop of omx__handle_nack: the requests that stay and the queues, or `none` if it finds none.
unfoldable pub nack_loop : ℕ → ℕ → Status → List Request → Queues → Option (List Request × Queues)
unfolding mark_request_acked
nack_loop acked nack_index status [] q = none
nack_loop acked nack_index status (r ∷ rs) q =
    let req_index = diff r.send_seqnum acked in
    let rest = cons_nacked r (nack_loop acked nack_index status rs q) in
    if ltb nack_index req_index
    then none
    else (if nack_index == req_index then some (rs, mark_request_acked r status q) else rest)

-- omx__handle_nack, up to the connect requests: `none` is for those.
unfoldable pub handle_nack : Sender → ℕ → Status → Option Sender
unfolding nack_loop
handle_nack p seqnum status =
    let nack_index = diff seqnum p.next_acked_send_seq in
    if same_session seqnum p.next_send_seq
    then (elim (nack_loop p.next_acked_send_seq nack_index status p.partner_non_acked_req_q
        p.queues) [
          | none ↦ none
          | some x ↦ some (record p { partner_non_acked_req_q = x.0; queues = x.1 })
        ])
    else none

-- A request that the driver has sent, among those that it sends.
abbrev pub without_id : ℕ → List Request → List Request
without_id id [] = []
without_id id (x ∷ xs) = if x.id == id then xs else x ∷ without_id id xs

-- The end of a medium send's fragment, OMX_EVT_SEND_MEDIUMSQ_FRAG_DONE in omx__process_event, for
-- the request that the driver names.
unfoldable pub process_frag_done : Sender → Request → Sender
process_frag_done p r =
    let q = record p.queues { avail_exp_events = p.queues.avail_exp_events + 1 } in
    let pending = r.frags_pending_nr - 1 in
    let counted = record r { frags_pending_nr = pending } in
    let sent = record counted { driver_mediumsq_sending = false } in
    let others = record q {
      driver_mediumsq_sending_req_q = without_id r.id q.driver_mediumsq_sending_req_q;
    } in
    if pending == 0
    then (if r.need_ack
        then record p {
          partner_non_acked_req_q = replace sent p.partner_non_acked_req_q;
          queues = record others { non_acked_req_q = others.non_acked_req_q ++ r.id ∷ [] };
        }
        else record p { queues = complete sent success others })
    else record p {
      partner_non_acked_req_q = replace counted p.partner_non_acked_req_q;
      queues = record q {
        driver_mediumsq_sending_req_q = replace counted q.driver_mediumsq_sending_req_q;
      };
    }
