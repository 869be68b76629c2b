-- ===== src/Recv/Take.antt =====
-- omx__try_match_next_recv and the search of omx__continue_partial_request (libopen-mx/omx_recv.c),
-- which make up the interface that the order of messages uses. The endpoint has one context.
use Prim.Native.Nat.{bit_and}
use open_mx.Common.{
  ℕ, true, false, List, [], ◌∷◌, ◌++◌, Option, none, some, map, ltb, ◌==◌, min, if◌then◌else◌,
}
use open_mx.Seqnum.{diff}
use open_mx.Recv.Defs.{MsgType, tiny, small, medium_frag, rndv, notify, Msg, Matching}
use open_mx.Recv.Match.{
  RecvRequest, Requests, process_recv_small, process_recv_rndv, process_first_frag,
  process_more_frag,
}

-- omx__match_recv, on the posted receives: the first that matches, and the others.
unfoldable pub match_recv : ℕ → List RecvRequest → Option (RecvRequest × List RecvRequest)
match_recv match_info [] = none
match_recv match_info (r ∷ rs) =
    let rest = match_recv match_info rs in
    if r.match_info == bit_and r.match_mask match_info
    then some (r, rs)
    else (elim rest [ none ↦ none | some x ↦ some (x.0, r ∷ x.1) ])

-- recv_func, which omx__process_recv gets for the type of a message. A notify ends a large send, and
-- changes none of these queues.
abbrev pub recv_func : MsgType → RecvRequest → Msg → ℕ → Requests → Requests
recv_func tiny r m xfer_length s = process_recv_small r m xfer_length s
recv_func small r m xfer_length s = process_recv_small r m xfer_length s
recv_func medium_frag r m xfer_length s =
    process_first_frag (record r { frags_received_mask = 0; accumulated_length = 0 }) m xfer_length
      s
recv_func rndv r m xfer_length s = process_recv_rndv r s
recv_func notify r m xfer_length s = s

-- A posted receive that a message matched.
abbrev pub matched : RecvRequest → Msg → RecvRequest
matched r m = record r {
  seqnum = m.seqnum;
  status_match_info = m.match_info;
  msg_length = m.msg_length;
  xfer_length = min r.total_length m.msg_length;
}

-- A request for an unexpected message, with a buffer of its length.
abbrev pub unexpected_request : ℕ → Msg → RecvRequest
unexpected_request id m = record {
  id = id;
  match_info = 0;
  match_mask = 0;
  total_length = m.msg_length;
  seqnum = m.seqnum;
  status_match_info = m.match_info;
  msg_length = m.msg_length;
  xfer_length = m.msg_length;
  recv_large = false;
  unexpected = true;
  partial = false;
  frags_received_mask = 0;
  accumulated_length = 0;
  buffer = λ (k : ℕ). 0;
}

-- What the unexpected handler of the program does with a message: it posts receives, if any, and then
-- says whether it took care of the message. No handler is one that does nothing.
pub data HandlerAction : Type 0 where
  finished posts : List RecvRequest → HandlerAction

-- The receives that a handler posted.
abbrev pub posted_by : HandlerAction → List RecvRequest
posted_by (finished rs) = rs
posted_by (posts rs) = rs

-- The search of omx__continue_partial_request, with the requests before.
unfoldable pub continue_loop :
    ℕ → Msg → List RecvRequest → List RecvRequest → Requests → Option Requests
continue_loop next m before [] s = none
continue_loop next m before (r ∷ rs) s =
    let new_index = diff m.seqnum next in
    let req_index = diff r.seqnum next in
    let further = continue_loop next m (before ++ r ∷ []) rs s in
    if req_index == new_index
    then some (process_more_frag before r rs m s)
    else (if ltb new_index req_index then none else further)

-- `handler` is the program's, and `alloc` the allocation of a request and its buffer.
module _ (handler : Msg → HandlerAction) (alloc : Requests → Msg → Option ℕ) where
  -- A message that no receive matched.
  abbrev pub if_unexpected : Option ℕ → Msg → Requests → Option Requests
  if_unexpected none m s = none
  if_unexpected (some id) m s = some (recv_func m.type (unexpected_request id m) m m.msg_length s)

  abbrev pub if_matched :
      Option (RecvRequest × List RecvRequest) → Msg → Requests → Option Requests → Option Requests
  if_matched none m s otherwise = otherwise
  if_matched (some x) m s otherwise = some (
      recv_func m.type (matched x.0 m) m (min x.0.total_length m.msg_length)
        (record s { recv_req_q = x.1 }))

  -- After the handler. The notify that tells the sender that a rendezvous was taken care of is left out.
  abbrev pub if_handled : HandlerAction → Msg → Requests → Option Requests
  if_handled (finished rs) m s = some (record s { recv_req_q = s.recv_req_q ++ rs })
  if_handled (posts rs) m s =
      let s' = record s { recv_req_q = s.recv_req_q ++ rs } in
      if_matched (match_recv m.match_info s'.recv_req_q) m s' (if_unexpected (alloc s' m) m s')

  -- omx__try_match_next_recv
  unfoldable pub try_match_next_recv : Requests → Msg → Option Requests
  try_match_next_recv s m =
      if_matched (match_recv m.match_info s.recv_req_q) m s (if_handled (handler m) m s)

  -- The first branch of omx__process_partner_ordered_recv: a notify needs no matching.
  abbrev pub if_notify : MsgType → Requests → Msg → Option Requests
  if_notify tiny s m = try_match_next_recv s m
  if_notify small s m = try_match_next_recv s m
  if_notify medium_frag s m = try_match_next_recv s m
  if_notify rndv s m = try_match_next_recv s m
  if_notify notify s m = some s

  abbrev pub requests_matching : Matching Requests
  requests_matching = record {
    take = λ (s : Requests) (m : Msg). if_notify m.type s m;
    go_on = λ (next : ℕ) (s : Requests) (m : Msg).
        continue_loop next m [] s.partial_medium_recv_req_q s;
    partials = λ (s : Requests). map (λ (r : RecvRequest). r.seqnum) s.partial_medium_recv_req_q;
  }
