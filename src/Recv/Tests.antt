-- ===== src/Recv/Tests.antt =====
-- Concrete receive sides.
use open_mx.Common.{
  ℕ, zero, suc, ◌+◌, ◌*◌, ◌^◌, ◌≡◌, refl, true, false, List, [], ◌∷◌, ◌++◌, Option, some, length,
  map, arith,
}
use open_mx.Seqnum.{wire}
use open_mx.Recv.Defs.{MsgType, tiny, medium_frag, Msg, no_ack, Receiver}
use open_mx.Recv.Order.{session_recv}
use open_mx.Recv.Window.{IsMatching}
use open_mx.Recv.Session.{IsReceiver, Delivered, session_recv-Delivered}
use open_mx.Recv.Progress.{session_recv-take}
use open_mx.Recv.Match.{RecvRequest, Requests}
use open_mx.Recv.Take.{
  HandlerAction, posts, posted_by, match_recv, requests_matching, try_match_next_recv,
}
use open_mx.Recv.Partial.{requests_matching-IsMatching}
use open_mx.Recv.Irecv.{irecv_segs, find_unexp, complete_unexp_req_as_irecv}
use open_mx.Recv.Received.{Received}
use open_mx.Recv.Apart.{IsApart}
use open_mx.Recv.Meet.{ApartIf, irecv_segs-ApartIf, try_match_next_recv-ApartIf}
use open_mx.Recv.Reassembly.{IsCut, IsFrag}
use open_mx.Recv.Fragments.{reassembled, IsWhole, reassembled-IsWhole}

abbrev content : ℕ → ℕ
content k = k + 65

abbrev packet : ℕ → MsgType → ℕ → Msg
packet n type frag = record {
  seqnum = wire 2 n;
  piggyack = wire 2 1;
  type = type;
  match_info = n;
  msg_length = 6000;
  frag_seqnum = frag;
  frag_length = if_last frag;
  frag_pipeline = 12;
  bytes = λ (k : ℕ). content (frag * 2 ^ 12 + k);
}
  where
    if_last : ℕ → ℕ
    if_last zero = 4096
    if_last (suc n) = 1904

abbrev handler : Msg → HandlerAction
handler m = posts []

abbrev alloc : Requests → Msg → Option ℕ
alloc s m = some (length s.unexp_req_q)

abbrev no_requests : Requests
no_requests = record {
  recv_req_q = [];
  unexp_req_q = [];
  partial_medium_recv_req_q = [];
  pulls = [];
  done = [];
}

-- Message 1 is next, and message 2 came early.
abbrev receiver : Receiver Requests
receiver = record {
  next_match_recv_seq = wire 2 1;
  next_frag_recv_seq = wire 2 1;
  last_acked_recv_seq = wire 2 1;
  need_ack = no_ack;
  oldest_recv_time_not_acked = 0;
  early_recv_q = packet 2 tiny 0 ∷ [];
  requests = no_requests;
}

abbrev number : Msg → ℕ
number m = m.match_info

receiver-IsReceiver : IsReceiver number 2 (requests_matching handler alloc) 1 [] receiver
receiver-IsReceiver = record {
  order = record {
    session = omega arith;
    match = refl;
    frag = refl;
    partials = refl;
    asc = tt;
    window = omega arith;
  };
  early =
      (record { numbered = refl; later = omega arith; near = omega arith; sent = omega arith }, tt);
}

requests_matching-IsMatching_example : IsMatching (requests_matching handler alloc)
requests_matching-IsMatching_example = requests_matching-IsMatching handler alloc

session_recv-Delivered_example :
    Delivered number 2
      (requests_matching handler alloc)
      1
      1
      (session_recv (requests_matching handler alloc) 16 7 true receiver (packet 1 tiny 0))
session_recv-Delivered_example =
    session_recv-Delivered number 2 (requests_matching-IsMatching handler alloc) 16 7 true 1 []
      receiver (packet 1 tiny 0) receiver-IsReceiver refl (omega arith) (omega arith)

taken_requests :
    (s : Requests) × (try_match_next_recv handler alloc no_requests (packet 1 tiny 0) ≡ some s)
unfolding try_match_next_recv match_recv
taken_requests = (_, refl)

session_recv-take_example :
    (rest : List Msg) × ((session_recv
        (requests_matching handler alloc)
        16
        7
        true
        receiver
        (packet 1 tiny 0)).1
      ≡ packet 1 tiny 0 ∷ rest)
session_recv-take_example =
    session_recv-take (requests_matching handler alloc) 16 7 true 2 1 [] receiver (packet 1 tiny 0)
      taken_requests.0 receiver-IsReceiver.order refl taken_requests.1

-- The second fragment of a message, twice, and then the first.
abbrev fragments : List Msg
fragments = packet 3 medium_frag 1 ∷ packet 3 medium_frag 1 ∷ packet 3 medium_frag 0 ∷ []

abbrev partial_request : RecvRequest
partial_request = record {
  id = 9;
  match_info = 3;
  match_mask = 3;
  total_length = 5000;
  seqnum = wire 2 3;
  status_match_info = 3;
  msg_length = 6000;
  xfer_length = 5000;
  recv_large = false;
  unexpected = false;
  partial = false;
  frags_received_mask = 0;
  accumulated_length = 0;
  buffer = λ (k : ℕ). 0;
}

cut : IsCut content 6000 12 2
cut = record { enough = omega arith; none_empty = λ (i : ℕ) lt. omega arith }

first-IsFrag : IsFrag content 6000 12 2 (packet 3 medium_frag 0)
first-IsFrag = record {
  index = omega arith;
  pipeline = refl;
  length = refl;
  payload = λ (k : ℕ) lt. refl;
}

second-IsFrag : IsFrag content 6000 12 2 (packet 3 medium_frag 1)
second-IsFrag = record {
  index = omega arith;
  pipeline = refl;
  length = refl;
  payload = λ (k : ℕ) lt. refl;
}

reassembled-IsWhole_example :
    IsWhole content 6000 12 2 5000 fragments (reassembled partial_request fragments)
reassembled-IsWhole_example =
    reassembled-IsWhole content 6000 12 2 partial_request fragments (omega arith) cut refl refl
      (second-IsFrag, (second-IsFrag, (first-IsFrag, tt)))

-- Message 3 waits, whole; message 5 waits as a rendezvous; a receive for message 4 is posted.
abbrev waiting : RecvRequest
waiting = record partial_request { id = 11; unexpected = true; buffer = content }

abbrev waiting_rndv : RecvRequest
waiting_rndv = record waiting { id = 12; status_match_info = 5; recv_large = true; partial = true }

abbrev receive : RecvRequest
receive = record partial_request { id = 13; match_info = 4; match_mask = 255 }

abbrev some_requests : Requests
some_requests = record no_requests {
  recv_req_q = receive ∷ [];
  unexp_req_q = waiting ∷ waiting_rndv ∷ [];
}

some_requests-IsApart : IsApart some_requests
some_requests-IsApart = record { posted = (refl, tt); apart = ((refl, tt), ((refl, tt), tt)) }

-- A receive for message 5 takes the second one that waits.
irecv_segs-ApartIf_example :
    let x = irecv_segs (some 4) 5 255 100 (λ (k : ℕ). 0) some_requests in
    Received (some 4) 5 255 100 (λ (k : ℕ). 0) some_requests x × ApartIf x
irecv_segs-ApartIf_example =
    irecv_segs-ApartIf (some 4) 5 255 100 (λ (k : ℕ). 0) some_requests some_requests-IsApart

second_is_taken :
    (s : Requests) × (irecv_segs (some 4) 5 255 100 (λ (k : ℕ). 0) some_requests ≡ some s)
    × (map (λ (r : RecvRequest). r.id) s.pulls ≡ 12 ∷ [])
    × (map (λ (r : RecvRequest). r.id) s.unexp_req_q ≡ 11 ∷ [])
unfolding irecv_segs find_unexp complete_unexp_req_as_irecv
second_is_taken = (_, refl, refl, refl)

-- The handler posts a receive for message 7 when it comes.
abbrev posts_receive : Msg → HandlerAction
posts_receive m = posts (record receive { id = 14; match_info = 7 } ∷ [])

posts_receive-IsApart : IsApart (record some_requests {
  recv_req_q = some_requests.recv_req_q ++ posted_by (posts_receive (packet 7 tiny 0));
})
posts_receive-IsApart = record {
  posted = (refl, (refl, tt));
  apart = ((refl, (refl, tt)), ((refl, (refl, tt)), tt));
}

try_match_next_recv-ApartIf_example :
    ApartIf (try_match_next_recv posts_receive alloc some_requests (packet 7 tiny 0))
try_match_next_recv-ApartIf_example =
    try_match_next_recv-ApartIf posts_receive alloc some_requests (packet 7 tiny 0)
      some_requests-IsApart posts_receive-IsApart

-- It is done with that receive, and message 8 would wait behind the others.
meets_or_waits :
    (s s' : Requests) × (try_match_next_recv posts_receive alloc some_requests (packet 7 tiny 0)
      ≡ some s)
    × (map (λ (r : RecvRequest). r.id) s.done ≡ 14 ∷ [])
    × (try_match_next_recv posts_receive alloc some_requests (packet 8 tiny 0) ≡ some s')
    × (length s'.unexp_req_q ≡ 3)
unfolding try_match_next_recv match_recv
meets_or_waits = (_, _, refl, refl, refl, refl)
