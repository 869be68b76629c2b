-- ===== src/Recv/Defs.antt =====
-- Messages and the receive side of a partner: the fields of struct omx__partner
-- (libopen-mx/omx_types.h) that decide what a packet is good for, and the acks it asks for
-- (libopen-mx/omx_lib.h).
use open_mx.Common.{ℕ, Bool, true, false, List, Option}

-- The types of message events.
pub data MsgType : Type 0 where
  tiny small medium_frag rndv notify : MsgType

-- struct omx_evt_recv_msg, with its data, which the callers pass with it: byte `k` is `bytes k`.
pub record Msg : Type 0 where
  pub seqnum : ℕ
  pub piggyack : ℕ
  pub type : MsgType
  pub match_info : ℕ
  pub msg_length : ℕ
  pub frag_seqnum : ℕ
  pub frag_length : ℕ
  pub frag_pipeline : ℕ
  pub bytes : ℕ → ℕ

abbrev pub is_medium_frag : MsgType → Bool
is_medium_frag tiny = false
is_medium_frag small = false
is_medium_frag medium_frag = true
is_medium_frag rndv = false
is_medium_frag notify = false

-- enum omx__partner_need_ack
pub data NeedAck : Type 0 where
  no_ack ack_delayed ack_immediate : NeedAck

-- What happens to a message whose turn it is, and to a fragment of one that began: the interface
-- between the order of messages and their matching. `take` is a success, or `none` for want of
-- memory; `go_on` finds the request of the fragment, given next_frag_recv_seq, or not; `partials` are the sequence numbers of
-- partial_medium_recv_req_q.
pub record Matching (S : Type 0) : Type 0 where
  pub take : S → Msg → Option S
  pub go_on : ℕ → S → Msg → Option S
  pub partials : S → List ℕ

-- The receive side of struct omx__partner, with the requests of the endpoint.
pub record Receiver (S : Type 0) : Type 0 where
  pub next_match_recv_seq : ℕ
  pub next_frag_recv_seq : ℕ
  pub last_acked_recv_seq : ℕ
  pub need_ack : NeedAck
  pub oldest_recv_time_not_acked : ℕ
  pub early_recv_q : List Msg
  pub requests : S

module _ {S : Type 0} where
  -- omx__mark_partner_need_ack_delayed at a time, and omx__mark_partner_need_ack_immediate. The
  -- endpoint's lists of partners hold those with such a need.
  abbrev pub if_no_ack : ℕ → Receiver S → NeedAck → Receiver S
  if_no_ack now r no_ack = record r { need_ack = ack_delayed; oldest_recv_time_not_acked = now }
  if_no_ack now r ack_delayed = r
  if_no_ack now r ack_immediate = r

  abbrev pub mark_need_ack_delayed : ℕ → Receiver S → Receiver S
  mark_need_ack_delayed now r = if_no_ack now r r.need_ack

  abbrev pub mark_need_ack_immediate : Receiver S → Receiver S
  mark_need_ack_immediate r = record r { need_ack = ack_immediate }

  -- omx__mark_partner_ack_sent
  abbrev pub mark_ack_sent : Receiver S → Receiver S
  mark_ack_sent r = record r { need_ack = no_ack; last_acked_recv_seq = r.next_frag_recv_seq }
