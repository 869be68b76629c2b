-- ===== src/Send/Tests.antt =====
-- Concrete send sides.
use open_mx.Common.{ℕ, refl, inl, Bool, true, false, List, [], ◌∷◌, ltb, arith}
use open_mx.Seqnum.{wire}
use open_mx.Send.Defs.{RequestType, send_tiny, send_large, success, failed, Request, Queues, Sender}
use open_mx.Send.Ack.{handle_ack, handle_nack}
use open_mx.Send.Ops.{submit}
use open_mx.Send.Medium.{post_isend_mediumsq}
use open_mx.Send.Window.{IsWaiting, IsSender, IsThrottled}
use open_mx.Send.Throttle.{Submitted, submit-Submitted}
use open_mx.Send.Acked.{Acknowledged, handle_ack-Acknowledged}
use open_mx.Send.Nacked.{HandledIf, handle_nack-HandledIf}
use open_mx.Send.Posting.{PostedIf, stuck, post_isend_mediumsq-PostedIf}

abbrev request : ℕ → RequestType → ℕ → Request
request id type n = record {
  id = id;
  type = type;
  send_seqnum = wire 1 n;
  need_seqnum = false;
  need_ack = true;
  need_reply = false;
  driver_mediumsq_sending = false;
  frags_pending_nr = 0;
  msg_length = 10;
  xfer_length = 10;
  code = success;
}

-- Messages 16383 and 16384 wait for their ack: the second has the number 0 on the wire.
abbrev two : List Request
two = request 4 send_tiny 16383 ∷ request 5 send_large 16384 ∷ []

abbrev queues : Queues
queues = record {
  non_acked_req_q = 4 ∷ 5 ∷ [];
  driver_mediumsq_sending_req_q = [];
  large_send_need_reply_req_q = [];
  large_sends_avail_nr = 3;
  avail_exp_events = 8;
  done = [];
}

abbrev sender : Sender
sender = record {
  next_send_seq = wire 1 16385;
  next_acked_send_seq = wire 1 16383;
  partner_non_acked_req_q = two;
  need_seqnum_send_req_q = [];
  throttling_sends_nr = 0;
  last_recv_acknum = 0;
  posted = two;
  queues = queues;
}

two-IsWaiting : IsWaiting 1 16383 16385 two
two-IsWaiting = (16383, refl, omega arith, omega arith, (16384, refl, omega arith, omega arith, tt))

sender-IsSender : IsSender 1 16383 16383 16385 sender
sender-IsSender = record {
  session = omega arith;
  next = refl;
  acked = refl;
  low = omega arith;
  high = omega arith;
  waiting = two-IsWaiting;
  count = refl;
  series = (refl, (refl, tt));
}

sender-IsThrottled : IsThrottled 16383 16385 sender
sender-IsThrottled = record { counted = refl; full = inl refl }

abbrev no_frags : Request → ℕ
no_frags r = 0

submit-Submitted_example :
    Submitted 1 16383 16383 16385 sender
      (request 6 send_tiny 0)
      (submit 0 sender (request 6 send_tiny 0))
submit-Submitted_example =
    submit-Submitted 0 1 16383 16383 16385 sender (request 6 send_tiny 0) sender-IsSender
      sender-IsThrottled

handle_ack-Acknowledged_example :
    Acknowledged 1 16383 16383 16385 16384 sender (handle_ack no_frags sender (wire 1 16384))
handle_ack-Acknowledged_example =
    handle_ack-Acknowledged no_frags 1 16383 16383 16385 16384 sender sender-IsSender
      sender-IsThrottled (omega arith) (omega arith)

handle_nack-HandledIf_example :
    HandledIf (wire 1 16384) (failed 5) sender (handle_nack sender (wire 1 16384) (failed 5))
handle_nack-HandledIf_example =
    handle_nack-HandledIf 1 16383 16383 16385 (wire 1 16384) (failed 5) sender sender-IsSender refl

-- A driver that takes one fragment only.
abbrev takes_one : ℕ → Bool
takes_one i = ltb i 1

post_isend_mediumsq-PostedIf_example :
    PostedIf takes_one 3 10000 (stuck takes_one 0 3) (post_isend_mediumsq 20 takes_one 0 3 10000)
post_isend_mediumsq-PostedIf_example = post_isend_mediumsq-PostedIf 20 takes_one 0 3 10000
