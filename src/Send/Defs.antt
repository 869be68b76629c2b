-- ===== src/Send/Defs.antt =====
-- Requests, the queues of an endpoint that hold them, and the send side of struct omx__partner
-- (libopen-mx/omx_types.h). A request is found by its identity in the queues of the endpoint; those
-- of the partner, and the driver's, hold it with its fields.
use open_mx.Common.{ℕ, Bool, List, [], ◌∷◌, ◌++◌, ltb, ◌==◌, if◌then◌else◌}

-- The types of requests that carry a sequence number.
pub data RequestType : Type 0 where
  send_tiny send_small send_mediumsq send_mediumva send_large recv_large : RequestType

-- A return code: OMX_SUCCESS, OMX_MESSAGE_TRUNCATED, or that of a nack.
pub data Status : Type 0 where
  success truncated : Status
  failed : ℕ → Status

-- union omx_request: its identity, and the fields that acks and sending read. The flags are those
-- of the state.
pub record Request : Type 0 where
  pub id : ℕ
  pub type : RequestType
  pub send_seqnum : ℕ
  pub need_seqnum : Bool
  pub need_ack : Bool
  pub need_reply : Bool
  pub driver_mediumsq_sending : Bool
  pub frags_pending_nr : ℕ
  pub msg_length : ℕ
  pub xfer_length : ℕ
  pub code : Status

-- The queues of struct omx_endpoint, and `done`, the requests that were completed, in order.
pub record Queues : Type 0 where
  pub non_acked_req_q : List ℕ
  pub driver_mediumsq_sending_req_q : List Request
  pub large_send_need_reply_req_q : List Request
  pub large_sends_avail_nr : ℕ
  pub avail_exp_events : ℕ
  pub done : List Request

-- The send side of struct omx__partner, with the queues of the endpoint; `posted` are the requests
-- that were passed to the driver for the first time, in order.
pub record Sender : Type 0 where
  pub next_send_seq : ℕ
  pub next_acked_send_seq : ℕ
  pub partner_non_acked_req_q : List Request
  pub need_seqnum_send_req_q : List Request
  pub throttling_sends_nr : ℕ
  pub last_recv_acknum : ℕ
  pub posted : List Request
  pub queues : Queues

-- list_del of the queue element of a request.
abbrev pub dequeue : ℕ → List ℕ → List ℕ
dequeue id [] = []
dequeue id (x ∷ xs) = if x == id then xs else x ∷ dequeue id xs

-- A request that changed, in a queue that holds it.
abbrev pub replace : Request → List Request → List Request
replace r [] = []
replace r (x ∷ xs) = (if x.id == r.id then r else x) ∷ replace r xs

-- The status that omx__send_complete and omx__recv_complete leave: an error stays.
abbrev pub if_complete : Status → Status → Bool → Status
if_complete success success short = if short then truncated else success
if_complete success truncated short = truncated
if_complete success (failed n) short = failed n
if_complete truncated s short = truncated
if_complete (failed n) s short = failed n

-- omx__send_complete, and omx__recv_complete.
abbrev pub complete : Request → Status → Queues → Queues
complete r s q = record q {
  done = q.done ++ record r { code = if_complete r.code s (ltb r.xfer_length r.msg_length) } ∷ [];
}
