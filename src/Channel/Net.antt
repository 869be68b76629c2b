-- ===== src/Channel/Net.antt =====
-- The steps of a channel. A network keeps all packets and acks that were ever sent: what it never
-- delivers is lost, and what it delivers twice is repeated.
use open_mx.Common.{ℕ, ◌+◌, ◌-◌, ◌≤◌, ◌≡◌, Bool, List, ◌∷◌, ◌++◌, some, length, get_elem?}
use open_mx.Seqnum.{diff}
use open_mx.Recv.Defs.{Msg, Matching, Receiver, mark_ack_sent}
use open_mx.Recv.Order.{session_recv}
use open_mx.Send.Defs.{Request, Sender}
use open_mx.Send.Ops.{submit}
use open_mx.Send.Ack.{handle_ack}

-- Both sides, the packets and acks of the network, and the messages that were taken, in order. An
-- ack comes with the count of messages that it is for, which the wire does not carry.
pub record Net (S : Type 0) : Type 0 where
  pub sender : Sender
  pub receiver : Receiver S
  pub packets : List Msg
  pub acks : List (ℕ × ℕ)
  pub taken : List Msg

module _ {S : Type 0} (matching : Matching S) (num identity : Msg → ℕ) (start : ℕ) where
  -- The oldest message that is not complete on the receive side, and on the send side.
  abbrev pub oldest_of : Net S → ℕ
  oldest_of n =
      start + length n.taken - diff n.receiver.next_match_recv_seq n.receiver.next_frag_recv_seq

  abbrev pub acked_of : Net S → ℕ
  acked_of n =
      start + length n.sender.posted - diff n.sender.next_send_seq n.sender.next_acked_send_seq

  -- The packets of a request carry its number; `num` is the number that the wire does not wrap, and
  -- `identity` the request that a packet is of.
  pub record IsPacketOf (n : Net S) (m : Msg) : Type 0 where
    pub index : ℕ
    pub request : Request
    pub posted : get_elem? n.sender.posted index ≡ some request
    pub seqnum : m.seqnum ≡ request.send_seqnum
    pub number : num m ≡ start + index
    pub whose : identity m ≡ request.id

  -- One step. Nothing is delivered that is more than 7900 messages, or an ack 8191 messages, behind.
  pub data Step : Net S → Net S → Type 0 where
    submits :
        {n : Net S} (frags : ℕ) (r : Request)
        → Step n (record n { sender = submit frags n.sender r })
    transmits :
        {n : Net S} (m : Msg) → IsPacketOf n m → Step n (record n { packets = m ∷ n.packets })
    receives :
        {n : Net S} (not_acked_max now : ℕ) (memory : Bool) (i : ℕ) (m : Msg)
        → get_elem? n.packets i ≡ some m
        → oldest_of n ≤ num m + 7900
        → Step n (record n {
          receiver = (session_recv matching not_acked_max now memory n.receiver m).0;
          taken = n.taken ++ (session_recv matching not_acked_max now memory n.receiver m).1;
        })
    acknowledges :
        {n : Net S}
        → Step n (record n {
          acks = (oldest_of n, n.receiver.next_frag_recv_seq) ∷ n.acks;
          receiver = mark_ack_sent n.receiver;
        })
    is_acked :
        {n : Net S} (driver : Request → ℕ) (i k w : ℕ)
        → get_elem? n.acks i ≡ some (k, w)
        → acked_of n ≤ k + 8191
        → Step n (record n { sender = handle_ack driver n.sender w })

  -- Any number of steps.
  pub data Steps : Net S → Net S → Type 0 where
    here : {n : Net S} → Steps n n
    then : {n n' n'' : Net S} → Steps n n' → Step n' n'' → Steps n n''
