-- ===== src/Acks/Tests.antt =====
-- Concrete partners to ack.
use open_mx.Common.{ℕ, refl, Bool, true, List, [], ◌∷◌, arith, ltb}
use open_mx.Acks.{
  AckPartner, AckQueues, is_due, send_acks, process_partners_to_ack, prepare_progress_wakeup,
}
use open_mx.Acks.Laws.{Split, send_acks-Split, Answered, process_partners_to_ack-Answered}
use open_mx.Acks.Wakeup.{IsEarliest, prepare_progress_wakeup-IsEarliest}

abbrev partner : ℕ → ℕ → AckPartner
partner id time = record {
  id = id;
  next_frag_recv_seq = 40;
  last_acked_recv_seq = 30;
  last_send_acknum = 7;
  oldest_recv_time_not_acked = time;
}

abbrev delayed : List AckPartner
delayed = partner 2 100 ∷ partner 3 104 ∷ partner 4 120 ∷ []

abbrev queues : AckQueues
queues = record {
  partners_to_ack_immediate_list = partner 1 0 ∷ [];
  partners_to_ack_delayed_list = delayed;
  last_partners_acking_jiffies = 110;
  acked = [];
  sent = [];
}

abbrev takes_all : AckPartner → Bool
takes_all p = true

abbrev takes_few : AckPartner → Bool
takes_few p = ltb p.id 3

send_acks-Split_example :
    Split
      (is_due 10 125)
      takes_few
      delayed
      (send_acks (is_due 10 125) takes_few delayed).0
      (send_acks (is_due 10 125) takes_few delayed).1
      (send_acks (is_due 10 125) takes_few delayed).2
send_acks-Split_example = send_acks-Split (is_due 10 125) takes_few delayed

process_partners_to_ack-Answered_example :
    Answered 10 125 queues (process_partners_to_ack 10 125 takes_all queues)
process_partners_to_ack-Answered_example =
    process_partners_to_ack-Answered 10 125 0 takes_all queues (omega arith) (λ p. refl)
      (omega arith, omega arith, (omega arith, omega arith, (omega arith, omega arith, tt)))
      (λ e. absurd (omega (arith, e)))

prepare_progress_wakeup-IsEarliest_example :
    IsEarliest 10 50
      (100 ∷ 104 ∷ [])
      (70 ∷ [])
      []
      (prepare_progress_wakeup 10 50 (100 ∷ 104 ∷ []) (70 ∷ []) [])
prepare_progress_wakeup-IsEarliest_example =
    prepare_progress_wakeup-IsEarliest 10 50 (100 ∷ 104 ∷ []) (70 ∷ []) []
      (omega arith, omega arith, omega arith, (omega arith, omega arith, omega arith, tt))
      (omega arith, omega arith, omega arith, tt) tt
