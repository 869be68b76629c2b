-- ===== src/Partners.antt =====
-- Partners that connect (libopen-mx/omx_partner.c): the sessions of two endpoints, and the sequence
-- numbers that they agree on. The lookup of a partner and its location are left out, and so are the
-- queues of the endpoint that hold requests of all partners.
pub mod Handshake
pub mod Half
pub mod Sessions
mod Tests
use open_mx.Common.{
  ℕ, ◌+◌, ◌-◌, ◌%◌, ◌^◌, Bool, true, false, List, [], ◌∷◌, ◌++◌, map, Option, none, some, ◌==◌,
  ◌&&◌, not, if◌then◌else◌,
}
use open_mx.Seqnum.{reset}
use open_mx.Recv.Defs.{NeedAck, no_ack}

-- A session id that is not set, and a sequence number that is not: -1 of 32 and of 16 bits.
abbrev pub unset : ℕ
unset = 2 ^ 32 - 1

abbrev pub unset_seq : ℕ
unset_seq = 2 ^ 16 - 1

-- A connect request that waits for its reply.
pub record Connecting : Type 0 where
  pub id : ℕ
  pub connect_seqnum : ℕ

-- struct omx__partner: its sessions and numbers, and its queues of requests and early packets.
pub record Link : Type 0 where
  pub true_session_id : ℕ
  pub back_session_id : ℕ
  pub next_send_seq : ℕ
  pub next_acked_send_seq : ℕ
  pub next_match_recv_seq : ℕ
  pub next_frag_recv_seq : ℕ
  pub last_acked_recv_seq : ℕ
  pub connect_seqnum : ℕ
  pub last_send_acknum : ℕ
  pub last_recv_acknum : ℕ
  pub throttling_sends_nr : ℕ
  pub need_ack : NeedAck
  pub non_acked_req_q : List ℕ
  pub need_seqnum_send_req_q : List ℕ
  pub connect_req_q : List Connecting
  pub partial_medium_recv_req_q : List ℕ
  pub early_recv_q : List ℕ

-- The status that a request completes with.
pub data Completion : Type 0 where
  connected : Completion
  bad_connection_key : Completion
  unreachable : Completion

-- An endpoint with one partner, and the requests that it gave the status they complete with, in order:
-- a medium message that the driver still sends completes later.
pub record Side : Type 0 where
  pub session_id : ℕ
  pub app_key : ℕ
  pub link : Link
  pub completed : List (ℕ × Completion)

-- omx__partner_reset
unfoldable pub partner_reset : Link → Link
partner_reset p =
    let next = reset p.next_match_recv_seq in
    record p {
      non_acked_req_q = [];
      connect_req_q = [];
      partial_medium_recv_req_q = [];
      early_recv_q = [];
      need_seqnum_send_req_q = [];
      true_session_id = unset;
      back_session_id = unset;
      next_send_seq = unset_seq;
      next_acked_send_seq = unset_seq;
      next_match_recv_seq = next;
      next_frag_recv_seq = next;
      last_acked_recv_seq = next;
      connect_seqnum = 0;
      last_send_acknum = 0;
      last_recv_acknum = 0;
      throttling_sends_nr = 0;
      need_ack = no_ack;
    }

-- omx__partner_cleanup, without a disconnection: the requests of the partner complete.
abbrev pub unreached : ℕ → ℕ × Completion
unreached id = (id, unreachable)

unfoldable pub partner_cleanup : Side → Side
unfolding partner_reset
partner_cleanup s = record s {
  completed =
      s.completed
      ++ (map unreached s.link.non_acked_req_q
          ++ (map unreached s.link.need_seqnum_send_req_q
              ++ (map (λ (c : Connecting). unreached c.id) s.link.connect_req_q
                  ++ map unreached s.link.partial_medium_recv_req_q)));
  link = partner_reset s.link;
}

-- struct omx_cmd_send_connect_request, and the event that it becomes.
pub record ConnectRequest : Type 0 where
  pub src_session_id : ℕ
  pub app_key : ℕ
  pub target_recv_seqnum_start : ℕ
  pub connect_seqnum : ℕ

-- The status of a reply; an unknown one is ignored.
pub data ReplyStatus : Type 0 where
  success bad_key unknown : ReplyStatus

-- struct omx_cmd_send_connect_reply, and the event that it becomes.
pub record ConnectReply : Type 0 where
  pub src_session_id : ℕ
  pub target_session_id : ℕ
  pub target_recv_seqnum_start : ℕ
  pub connect_seqnum : ℕ
  pub status : ReplyStatus

-- omx__post_connect_request, for a request with this key
abbrev pub connect_request : Side → ℕ → ℕ → ConnectRequest
connect_request s key connect_seqnum = record {
  src_session_id = s.session_id;
  app_key = key;
  target_recv_seqnum_start = s.link.next_match_recv_seq;
  connect_seqnum = connect_seqnum;
}

-- omx__connect_common, to another endpoint: a connect number has 8 bits.
unfoldable pub connect : ℕ → ℕ → Side → Side × ConnectRequest
connect id key s =
    let seqnum = s.link.connect_seqnum in
    (
      record s {
        link = record s.link {
          connect_seqnum = (seqnum + 1) % 256;
          connect_req_q = s.link.connect_req_q ++ record { id = id; connect_seqnum = seqnum } ∷ [];
        };
      },
      connect_request s key seqnum,
    )

-- list_del of a request that waits.
abbrev pub dequeue_connect : ℕ → List Connecting → List Connecting
dequeue_connect id [] = []
dequeue_connect id (c ∷ cs) = if c.id == id then cs else c ∷ dequeue_connect id cs

-- omx__connect_complete
unfoldable pub connect_complete : Completion → ℕ → Side → Side
connect_complete status id s = record s {
  completed = s.completed ++ (id, status) ∷ [];
  link = record s.link { connect_req_q = dequeue_connect id s.link.connect_req_q };
}

-- The numbers of the messages to a partner that has a new session.
abbrev pub start_sending : ℕ → ℕ → Link → Link
start_sending session start p =
    if p.true_session_id == session
    then p
    else record p { next_send_seq = start; next_acked_send_seq = start }

-- The partner changed since it last talked to us.
abbrev pub if_changed : ℕ → Side → Side
if_changed session s =
    if not (s.link.back_session_id == session) && not (s.link.back_session_id == unset)
    then partner_cleanup s
    else s

-- omx__handle_connect_reply, for the request `id`
abbrev pub set_true : ConnectReply → Side → Side
set_true e s =
    let p = start_sending e.target_session_id e.target_recv_seqnum_start s.link in
    record s { link = record p { true_session_id = e.target_session_id } }

unfoldable pub handle_connect_reply : ℕ → ConnectReply → Side → Side
unfolding partner_cleanup connect_complete
handle_connect_reply id e s = elim e.status [
  | success ↦ set_true e (if_changed e.target_session_id (connect_complete connected id s))
  | bad_key ↦ connect_complete bad_connection_key id s
  | unknown ↦ s
]

-- omx__process_recv_connect_reply: the first request that waits for this reply.
unfoldable pub find_connect : ℕ → List Connecting → Option ℕ
find_connect seqnum [] = none
find_connect seqnum (c ∷ cs) =
    if seqnum == c.connect_seqnum then some c.id else find_connect seqnum cs

unfoldable pub process_recv_connect_reply : ConnectReply → Side → Side
process_recv_connect_reply e s =
    if e.src_session_id == s.session_id
    then elim (find_connect e.connect_seqnum s.link.connect_req_q) [
      | none ↦ s
      | some id ↦ handle_connect_reply id e s
    ]
    else s

-- The numbers of the messages from a partner that connects with a new session.
abbrev pub restart_receiving : ℕ → Side → Side
restart_receiving session s =
    let s' = if_changed session s in
    if s.link.back_session_id == session then s else record s' {
      link = record s'.link {
        next_match_recv_seq = reset s'.link.next_match_recv_seq;
        next_frag_recv_seq = reset s'.link.next_frag_recv_seq;
      };
    }

-- omx__process_recv_connect_request: the endpoint after the request, and its reply.
unfoldable pub process_recv_connect_request : ConnectRequest → Side → Side × ConnectReply
unfolding partner_cleanup
process_recv_connect_request e s =
    let s1 = restart_receiving e.src_session_id s in
    let p = start_sending e.src_session_id e.target_recv_seqnum_start s1.link in
    let s2 = record s1 {
      link = record p { true_session_id = e.src_session_id; back_session_id = e.src_session_id };
    } in
    (
      s2,
      record {
        src_session_id = e.src_session_id;
        target_session_id = s.session_id;
        target_recv_seqnum_start = s2.link.next_match_recv_seq;
        connect_seqnum = e.connect_seqnum;
        status = if e.app_key == s.app_key then success else bad_key;
      },
    )
