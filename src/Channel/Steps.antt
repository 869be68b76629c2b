-- ===== src/Channel/Steps.antt =====
-- Each step of a channel keeps it in order.
use open_mx.Common.{
  ℕ, ◌+◌, ◌-◌, ◌<◌, ◌≤◌, ◌≡◌, refl, sym, ap, ◌∙◌, Bool, List, ◌∷◌, ◌++◌, some, map, get_elem?,
  arith,
}
use open_mx.Seqnum.{wire}
use open_mx.Recv.Defs.{Msg, Matching, mark_ack_sent}
use open_mx.Recv.Order.{session_recv}
use open_mx.Recv.Window.{IsMatching, oldest}
use open_mx.Recv.Early.{All-map}
use open_mx.Recv.Session.{session_recv-Delivered, IsOrder-alike}
use open_mx.Recv.Kept.{session_recv-All}
use open_mx.Send.Defs.{Request}
use open_mx.Send.Window.{submitted}
use open_mx.Channel.Net.{
  Net, oldest_of, IsPacketOf, Step, submits, transmits, receives, acknowledges, is_acked, Steps,
  here, then,
}
use open_mx.Channel.Places.{All-get, All-append, get_elem?-append, get_elem?-map, series-number}
use open_mx.Channel.Invariant.{
  IsGenuine, IsAck, IsNet, Run-append, oldest_of-oldest, submits-IsNet, is_acked-IsNet,
}

module _ (num identity : Msg → ℕ) (ses start : ℕ) where
  module _ {S : Type 0} {matching : Matching S} where
    transmits-IsNet :
        (n : Net S) (m : Msg)
        → IsNet num identity ses start matching n
        → IsPacketOf matching num identity start n m
        → IsNet num identity ses start matching (record n { packets = m ∷ n.packets })
    transmits-IsNet n m v w =
        let ids = λ (rs : List Request). map (λ (x : Request). x.id) rs in
        let x =
          series-number ses start w.index n.sender.posted w.request v.sender.series w.posted in
        let i : num m - start ≡ w.index = omega (arith, w.number) in
        let genuine : IsGenuine num identity ses start (submitted n.sender) v.s m = record {
          numbered = w.seqnum ∙ x.0 ∙ ap (wire ses) (sym w.number);
          from = omega (arith, w.number);
          sent = omega (arith, w.number, x.1, v.sender.count);
          place =
              ap (get_elem? (submitted n.sender)) i
              ∙ get_elem?-append (ids n.sender.posted) (ids n.sender.need_seqnum_send_req_q) w.index
                  w.request.id (get_elem?-map n.sender.posted w.index w.request w.posted)
              ∙ ap some (sym w.whose);
        } in
        record {
          a = v.a;
          s = v.s;
          c = v.c;
          ns = v.ns;
          sender = v.sender;
          throttled = v.throttled;
          receiver = v.receiver;
          behind = v.behind;
          run = v.run;
          packets = (genuine, v.packets);
          early = v.early;
          taken = v.taken;
          acks = v.acks;
        }

    receives-IsNet :
        (laws : IsMatching matching) (n : Net S) (not_acked_max now : ℕ) (memory : Bool) (i : ℕ)
        (m : Msg)
        → IsNet num identity ses start matching n
        → get_elem? n.packets i ≡ some m
        → oldest_of matching num identity start n ≤ num m + 7900
        → IsNet num identity ses start matching (record n {
          receiver = (session_recv matching not_acked_max now memory n.receiver m).0;
          taken = n.taken ++ (session_recv matching not_acked_max now memory n.receiver m).1;
        })
    receives-IsNet laws n not_acked_max now memory i m v e recent =
        let P = IsGenuine num identity ses start (submitted n.sender) v.s in
        let genuine : P m = All-get P n.packets i m v.packets e in
        let lo : oldest v.c v.ns ≤ num m + 7900 =
          omega (arith, oldest_of-oldest num identity ses start n v, recent) in
        let hi : num m < oldest v.c v.ns + 8191 =
          omega (arith, genuine.sent, v.sender.high, v.behind) in
        let x =
          session_recv-Delivered num ses laws not_acked_max now memory v.c v.ns n.receiver m
            v.receiver genuine.numbered lo hi in
        let y =
          session_recv-All matching P laws not_acked_max now ses v.c (num m) v.ns memory n.receiver
            m v.receiver.order genuine.numbered lo hi genuine v.early in
        record {
          a = v.a;
          s = v.s;
          c = x.count;
          ns = x.partial;
          sender = v.sender;
          throttled = v.throttled;
          receiver = x.receiver;
          behind = omega (arith, v.behind, x.forward);
          run = Run-append num identity ses start start v.c x.count n.taken _ v.run x.run;
          packets = v.packets;
          early = y.0;
          taken = All-append P n.taken _ v.taken y.1;
          acks =
              All-map (IsAck num identity ses start (oldest v.c v.ns)) _ n.acks
                (λ (k : ℕ × ℕ) w. (omega (arith, w.0, x.forward), w.1)) v.acks;
        }

    acknowledges-IsNet :
        (n : Net S)
        → IsNet num identity ses start matching n
        → IsNet num identity ses start matching (record n {
          acks = (oldest_of matching num identity start n, n.receiver.next_frag_recv_seq) ∷ n.acks;
          receiver = mark_ack_sent n.receiver;
        })
    acknowledges-IsNet n v =
        let o = oldest_of-oldest num identity ses start n v in
        record {
          a = v.a;
          s = v.s;
          c = v.c;
          ns = v.ns;
          sender = v.sender;
          throttled = v.throttled;
          receiver = record {
            order = IsOrder-alike n.receiver _ v.receiver.order refl refl refl;
            early = v.receiver.early;
          };
          behind = v.behind;
          run = v.run;
          packets = v.packets;
          early = v.early;
          taken = v.taken;
          acks = ((omega (arith, o), v.receiver.order.frag ∙ ap (wire ses) (sym o)), v.acks);
        }

    Step-IsNet :
        (laws : IsMatching matching) (n n' : Net S)
        → Step matching num identity start n n'
        → IsNet num identity ses start matching n
        → IsNet num identity ses start matching n'
    Step-IsNet laws n _ (submits frags r) v = submits-IsNet num identity ses start n frags r v
    Step-IsNet laws n _ (transmits m w) v = transmits-IsNet n m v w
    Step-IsNet laws n _ (receives not_acked_max now memory i m e recent) v =
        receives-IsNet laws n not_acked_max now memory i m v e recent
    Step-IsNet laws n _ (acknowledges) v = acknowledges-IsNet n v
    Step-IsNet laws n _ (is_acked driver i k w e recent) v =
        is_acked-IsNet num identity ses start n driver i k w v e recent

    -- All that steps reach from a channel in order is in order.
    pub Steps-IsNet :
        (laws : IsMatching matching) (n n' : Net S)
        → Steps matching num identity start n n'
        → IsNet num identity ses start matching n
        → IsNet num identity ses start matching n'
    Steps-IsNet laws n _ here v = v
    Steps-IsNet laws n n'' (then {n' = n'} steps step) v =
        Step-IsNet laws n' n'' step (Steps-IsNet laws n n' steps v)
