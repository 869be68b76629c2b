-- ===== src/Partners/Tests.antt =====
-- Connections run on small inputs.
use open_mx.Common.{◌+◌, ◌%◌, ◌≡◌, ◌≢◌, refl, inl, [], ◌∷◌, arith}
use open_mx.Seqnum.{reset}
use open_mx.Recv.Defs.{no_ack}
use open_mx.Partners.{
  Link, Side, bad_connection_key, unset, unset_seq, partner_cleanup, connect,
  process_recv_connect_request, process_recv_connect_reply, handle_connect_reply, find_connect,
  connect_complete,
}
use open_mx.Partners.Handshake.{
  exchange, Connects, exchange-Connects, exchange-refuses, exchange-diverges,
}
use open_mx.Partners.Sessions.{
  Net, Run, start, then_a, then_b, connects, asked, answered, fresh, Agree, Run-Agree,
}

-- A partner that was just created.
abbrev new_link : Link
new_link = record {
  true_session_id = unset;
  back_session_id = unset;
  next_send_seq = unset_seq;
  next_acked_send_seq = unset_seq;
  next_match_recv_seq = 1;
  next_frag_recv_seq = 1;
  last_acked_recv_seq = 1;
  connect_seqnum = 0;
  last_send_acknum = 0;
  last_recv_acknum = 0;
  throttling_sends_nr = 0;
  need_ack = no_ack;
  non_acked_req_q = [];
  need_seqnum_send_req_q = [];
  connect_req_q = [];
  partial_medium_recv_req_q = [];
  early_recv_q = [];
}

abbrev near : Side
near = record { session_id = 77; app_key = 5; link = new_link; completed = [] }

abbrev far : Side
far = record { session_id = 99; app_key = 5; link = new_link; completed = [] }

-- Both have connected by a request of `far`, and `far` has received two messages since.
abbrev near_after : Side
near_after = record near {
  link = record new_link {
    true_session_id = 99;
    back_session_id = 99;
    next_send_seq = 3;
    next_acked_send_seq = 3;
  };
}

abbrev far_after : Side
far_after = record far {
  link = record new_link {
    true_session_id = 77;
    next_send_seq = 1;
    next_acked_send_seq = 1;
    next_match_recv_seq = 3;
    next_frag_recv_seq = 3;
  };
}

-- `far` starts to expect the number 1 again, while `near` goes on with 3.
diverged :
    ((exchange 4 5 near_after far_after).0.link.next_send_seq ≡ 3)
    × ((exchange 4 5 near_after far_after).1.link.next_match_recv_seq ≡ 1)
unfolding connect process_recv_connect_request process_recv_connect_reply handle_connect_reply
    find_connect connect_complete
diverged = (refl, refl)

-- A new instance of a partner makes the endpoint give up what it had for the old one.
abbrev busy : Side
busy = record far_after {
  link = record far_after.link {
    back_session_id = 66;
    true_session_id = 66;
    non_acked_req_q = 8 ∷ [];
  };
}

restarted :
    ((exchange 4 5 near busy).1.link.non_acked_req_q ≡ [])
    × ((exchange 4 5 near busy).1.link.next_match_recv_seq ≡ 1)
    × ((exchange 4 5 near busy).0.link.next_send_seq ≡ 1)
unfolding connect process_recv_connect_request process_recv_connect_reply handle_connect_reply
    find_connect connect_complete partner_cleanup
restarted = (refl, refl, refl)

exchange-Connects_example :
    Connects 4 5 near far tt (exchange 4 5 near far).0 (exchange 4 5 near far).1
exchange-Connects_example =
    exchange-Connects 4 5 near far tt (omega arith) refl (omega arith) (inl refl)

exchange-refuses_example : (exchange 4 6 near far).0 ≡ record near {
  link = record near.link { connect_seqnum = (0 + 1) % 256 };
  completed = (4, bad_connection_key) ∷ [];
}
exchange-refuses_example = exchange-refuses 4 6 near far tt (omega arith)

exchange-diverges_example :
    ((exchange 4 5 near_after far_after).0.link.next_send_seq ≡ near_after.link.next_send_seq)
    × ((exchange 4 5 near_after far_after).1.link.next_match_recv_seq
        ≡ reset far_after.link.next_match_recv_seq)
    × ((exchange 4 5 near_after far_after).0.link.next_send_seq
        ≢ (exchange 4 5 near_after far_after).1.link.next_match_recv_seq)
exchange-diverges_example =
    exchange-diverges 4 5 near_after far_after tt refl refl refl refl (omega arith) refl refl
      (omega arith)

-- `near` connects to `far`.
abbrev net1 : Net
net1 = fresh near far

abbrev net2 : Net
net2 = record net1 { a = (connect 1 5 net1.a).0; requests_a = (connect 1 5 net1.a).1 ∷ [] }

abbrev net3 : Net
net3 = record net2 {
  b = (process_recv_connect_request (connect 1 5 net1.a).1 net2.b).0;
  replies_b = (process_recv_connect_request (connect 1 5 net1.a).1 net2.b).1 ∷ [];
}

abbrev net4 : Net
net4 = record net3 {
  a =
      process_recv_connect_reply (process_recv_connect_request (connect 1 5 net1.a).1 net2.b).1
        net3.a;
}

net4_run : Run net1 net4
net4_run =
    then_a (then_b (then_a start (connects 1 5)) (asked [] (connect 1 5 net1.a).1 [] refl))
      (answered [] (process_recv_connect_request (connect 1 5 net1.a).1 net2.b).1 [] refl)

Run-Agree_example : Agree net4.a net4.b × Agree net4.b net4.a
Run-Agree_example = Run-Agree near far net4 (omega arith) (omega arith) net4_run
