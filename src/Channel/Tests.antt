-- ===== src/Channel/Tests.antt =====
-- A channel that passes one message on.
use open_mx.Common.{
  inl, ℕ, ◌≡◌, refl, true, false, List, [], ◌∷◌, ◌++◌, Option, some, map, length, arith,
}
use open_mx.Recv.Defs.{Msg, tiny, no_ack}
use open_mx.Recv.Match.{Requests}
use open_mx.Recv.Order.{session_recv}
use open_mx.Recv.Take.{HandlerAction, posts, requests_matching}
use open_mx.Recv.Partial.{requests_matching-IsMatching}
use open_mx.Send.Defs.{send_tiny, success, Request}
use open_mx.Send.Ops.{setup, submit}
use open_mx.Send.Window.{submitted}
use open_mx.Channel.Net.{Net, IsPacketOf, submits, transmits, receives, Steps, here, then}
use open_mx.Channel.Partner.{
  Partner, process_recv, IsPartner, IsCurrent, Processed, process_recv-Processed,
}
use open_mx.Channel.Fifo.{IsConnected, taken-submitted}

abbrev handler : Msg → HandlerAction
handler m = posts []

abbrev alloc : Requests → Msg → Option ℕ
alloc s m = some (length s.unexp_req_q)

abbrev number : Msg → ℕ
number m = m.seqnum

abbrev identity : Msg → ℕ
identity m = m.match_info

abbrev request : Request
request = record {
  id = 70;
  type = send_tiny;
  send_seqnum = 0;
  need_seqnum = false;
  need_ack = false;
  need_reply = false;
  driver_mediumsq_sending = false;
  frags_pending_nr = 0;
  msg_length = 3;
  xfer_length = 3;
  code = success;
}

abbrev packet : Msg
packet = record {
  seqnum = 1;
  piggyack = 1;
  type = tiny;
  match_info = 70;
  msg_length = 3;
  frag_seqnum = 0;
  frag_length = 0;
  frag_pipeline = 0;
  bytes = λ (k : ℕ). k;
}

abbrev connected : Net Requests
connected = record {
  sender = record {
    next_send_seq = 1;
    next_acked_send_seq = 1;
    partner_non_acked_req_q = [];
    need_seqnum_send_req_q = [];
    throttling_sends_nr = 0;
    last_recv_acknum = 0;
    posted = [];
    queues = record {
      non_acked_req_q = [];
      driver_mediumsq_sending_req_q = [];
      large_send_need_reply_req_q = [];
      large_sends_avail_nr = 3;
      avail_exp_events = 8;
      done = [];
    };
  };
  receiver = record {
    next_match_recv_seq = 1;
    next_frag_recv_seq = 1;
    last_acked_recv_seq = 1;
    need_ack = no_ack;
    oldest_recv_time_not_acked = 0;
    early_recv_q = [];
    requests = record {
      recv_req_q = [];
      unexp_req_q = [];
      partial_medium_recv_req_q = [];
      pulls = [];
      done = [];
    };
  };
  packets = [];
  acks = [];
  taken = [];
}

abbrev submitted_net : Net Requests
submitted_net = record connected { sender = submit 0 connected.sender request }

abbrev transmitted_net : Net Requests
transmitted_net = record submitted_net { packets = packet ∷ [] }

abbrev received_net : Net Requests
received_net = record transmitted_net {
  receiver =
      (session_recv (requests_matching handler alloc) 16 7 true transmitted_net.receiver packet).0;
  taken =
      []
      ++ (session_recv (requests_matching handler alloc) 16 7 true transmitted_net.receiver
          packet).1;
}

is_packet : IsPacketOf (requests_matching handler alloc) number identity 1 submitted_net packet
unfolding submit setup
is_packet = record {
  index = 0;
  request = record request { send_seqnum = 1; need_ack = true };
  posted = refl;
  seqnum = refl;
  number = refl;
  whose = refl;
}

steps : Steps (requests_matching handler alloc) number identity 1 connected received_net
steps =
    then {n' = transmitted_net}
      (then {n' = submitted_net} (then {n' = connected} here (submits 0 request))
        (transmits packet is_packet))
      (receives 16 7 true 0 packet refl (omega arith))

connected-IsConnected : IsConnected (requests_matching handler alloc) 0 1 connected
connected-IsConnected = record {
  session = omega arith;
  next_send_seq = refl;
  next_acked_send_seq = refl;
  non_acked = refl;
  need_seqnum = refl;
  throttling = refl;
  posted = refl;
  next_match = refl;
  next_frag = refl;
  partials = refl;
  early = refl;
  packets = refl;
  acks = refl;
  taken = refl;
}

taken-submitted_example :
    (rest : List ℕ) × (submitted received_net.sender ≡ map identity received_net.taken ++ rest)
taken-submitted_example =
    taken-submitted number identity 0 1 (requests_matching-IsMatching handler alloc) connected
      received_net connected-IsConnected steps

abbrev partner : Partner Requests
partner = record { sender = connected.sender; receiver = connected.receiver }

partner-IsPartner : IsPartner number 0 0 1 (requests_matching handler alloc) 1 1 1 [] partner
partner-IsPartner = record {
  sender = record {
    session = omega arith;
    next = refl;
    acked = refl;
    low = omega arith;
    high = omega arith;
    waiting = tt;
    count = refl;
    series = tt;
  };
  throttled = record { counted = refl; full = inl refl };
  receiver = record {
    order = record {
      session = omega arith;
      match = refl;
      frag = refl;
      partials = refl;
      asc = tt;
      window = omega arith;
    };
    early = tt;
  };
}

packet-IsCurrent : IsCurrent number 0 0 1 1 1 1 packet
packet-IsCurrent = record {
  numbered = refl;
  not_old = omega arith;
  not_new = omega arith;
  ack = 1;
  piggyack = refl;
  sent = omega arith;
  recent = omega arith;
}

abbrev no_frags : Request → ℕ
no_frags r = 0

process_recv-Processed_example :
    Processed number 0 0 1
      (requests_matching handler alloc)
      1
      1
      1
      (process_recv (requests_matching handler alloc) 16 7 true no_frags false partner packet)
process_recv-Processed_example =
    process_recv-Processed number 0 0 1 (requests_matching-IsMatching handler alloc) 16 7 true
      no_frags false 1 1 1 [] partner packet partner-IsPartner (inl packet-IsCurrent)
