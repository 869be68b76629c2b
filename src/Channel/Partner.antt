-- ===== src/Channel/Partner.antt =====
-- Both directions of a partner: omx__process_recv (libopen-mx/omx_recv.c) for any packet, with the
-- sessions and the ack that it carries.
use open_mx.Common.{
  ℕ, ◌+◌, ◌<◌, ◌≤◌, ◌≡◌, ◌≢◌, refl, sym, ap, subst, ◌∙◌, ◌⊎◌, inl, inr, Bool, true, false, List, [],
  if◌then◌else◌, arith, Bool-cases, eq→==, ne→==,
}
use open_mx.Seqnum.{same_session, sesnum, wire}
use open_mx.Recv.Defs.{Msg, Matching, Receiver, mark_ack_sent}
use open_mx.Recv.Order.{session_recv}
use open_mx.Recv.Window.{IsMatching, oldest}
use open_mx.Recv.Delivery.{IsNumbered, Run}
use open_mx.Recv.Session.{IsReceiver, session_recv-Delivered, IsOrder-alike}
use open_mx.Send.Defs.{Request, Sender}
use open_mx.Send.Ack.{handle_ack}
use open_mx.Send.Window.{IsSender, IsThrottled}
use open_mx.Send.Acked.{Acknowledged, handle_ack-Acknowledged}

-- struct omx__partner
pub record Partner (S : Type 0) : Type 0 where
  pub sender : Sender
  pub receiver : Receiver S

abbrev pub if_posted : {S : Type 0} → Bool → Receiver S → Receiver S
if_posted true r = mark_ack_sent r
if_posted false r = r

-- omx__process_recv, and the messages that are taken. `posted` says whether the driver took a send that
-- the ack released: it carries an ack of its own.
unfoldable pub process_recv :
    {S : Type 0}
    → Matching S
    → ℕ
    → ℕ
    → Bool
    → (Request → ℕ)
    → Bool
    → Partner S
    → Msg
    → Partner S × List Msg
process_recv matching not_acked_max now memory driver posted p m =
    let x = session_recv matching not_acked_max now memory (if_posted posted p.receiver) m in
    if same_session m.seqnum p.receiver.next_frag_recv_seq
    then (if same_session m.piggyack p.sender.next_send_seq
        then (record { sender = handle_ack driver p.sender m.piggyack; receiver = x.0 }, x.1)
        else (p, []))
    else (p, [])

module _ (num : Msg → ℕ) (send_ses recv_ses start : ℕ) where
  -- A partner after `c` messages, with the windows of both sides.
  pub record IsPartner {S : Type 0} (matching : Matching S) (a s c : ℕ) (ns : List ℕ)
      (p : Partner S) : Type 0 where
    pub sender : IsSender send_ses start a s p.sender
    pub throttled : IsThrottled a s p.sender
    pub receiver : IsReceiver num recv_ses matching c ns p.receiver

  -- A packet of this session: within the window, with an ack that is not too old.
  pub record IsCurrent (a s f : ℕ) (m : Msg) : Type 0 where
    pub numbered : IsNumbered num recv_ses m
    pub not_old : f ≤ num m + 7900
    pub not_new : num m < f + 8191
    pub ack : ℕ
    pub piggyack : m.piggyack ≡ wire send_ses ack
    pub sent : ack ≤ s
    pub recent : a ≤ ack + 8191

  -- A packet of another session, or with an ack of another one.
  abbrev pub IsObsolete : Msg → Type 0
  IsObsolete m = (sesnum m.seqnum ≢ recv_ses) ⊎ (sesnum m.piggyack ≢ send_ses)

  -- A partner after a packet.
  pub record Processed {S : Type 0} (matching : Matching S) (a s c : ℕ) (x : Partner S × List Msg)
      : Type 0 where
    pub acked : ℕ
    pub upto : ℕ
    pub count : ℕ
    pub partial : List ℕ
    pub partner : IsPartner matching acked upto count partial x.0
    pub onward : (a ≤ acked) × (s ≤ upto)
    pub run : Run num recv_ses c x.1 count

  module _ {S : Type 0} {matching : Matching S} (laws : IsMatching matching) (not_acked_max now : ℕ)
      (memory : Bool) (driver : Request → ℕ) (posted : Bool) where
    same :
        {a s c : ℕ} {ns : List ℕ} {p : Partner S}
        → IsPartner matching a s c ns p
        → Processed matching a s c (p, [])
    same {a} {s} {c} {ns} v = record {
      acked = a;
      upto = s;
      count = c;
      partial = ns;
      partner = v;
      onward = (omega arith, omega arith);
      run = refl;
    }

    if_posted-IsReceiver :
        (b : Bool) (c : ℕ) (ns : List ℕ) (r : Receiver S)
        → IsReceiver num recv_ses matching c ns r
        → IsReceiver num recv_ses matching c ns (if_posted b r)
    if_posted-IsReceiver true c ns r v = record {
      order = IsOrder-alike r _ v.order refl refl refl;
      early = v.early;
    }
    if_posted-IsReceiver false c ns r v = v

    sesnum-wire : (ses n : ℕ) → ses < 4 → sesnum (wire ses n) ≡ ses
    sesnum-wire ses n lt = omega arith

    current-Processed :
        (a s c : ℕ) (ns : List ℕ) (p : Partner S) (m : Msg)
        → IsPartner matching a s c ns p
        → IsCurrent a s (oldest c ns) m
        → Processed matching a s c
            (process_recv matching not_acked_max now memory driver posted p m)
    unfolding process_recv
    current-Processed a s c ns p m v w =
        let ours : same_session m.seqnum p.receiver.next_frag_recv_seq ≡ true =
          eq→== (sesnum m.seqnum) (sesnum p.receiver.next_frag_recv_seq) (
            ap sesnum w.numbered
            ∙ sesnum-wire recv_ses (num m) v.receiver.order.session
            ∙ sym (
                ap sesnum v.receiver.order.frag
                ∙ sesnum-wire recv_ses (oldest c ns) v.receiver.order.session)) in
        let theirs : same_session m.piggyack p.sender.next_send_seq ≡ true =
          eq→== (sesnum m.piggyack) (sesnum p.sender.next_send_seq) (
            ap sesnum w.piggyack
            ∙ sesnum-wire send_ses w.ack v.sender.session
            ∙ sym (ap sesnum v.sender.next ∙ sesnum-wire send_ses s v.sender.session)) in
        let x =
          subst
            (λ (k : ℕ).
              Acknowledged send_ses start a s w.ack p.sender (handle_ack driver p.sender k))
            (sym w.piggyack)
            (handle_ack-Acknowledged driver send_ses start a s w.ack p.sender v.sender v.throttled
              w.sent w.recent) in
        let y =
          session_recv-Delivered num recv_ses laws not_acked_max now memory c ns
            (if_posted posted p.receiver) m (if_posted-IsReceiver posted c ns p.receiver v.receiver)
            w.numbered w.not_old w.not_new in
        rw (ours, theirs)
          (record {
            acked = x.acked;
            upto = x.upto;
            count = y.count;
            partial = y.partial;
            partner = record { sender = x.sender; throttled = x.throttled; receiver = y.receiver };
            onward = (x.latest.0, x.onward);
            run = y.run;
          })

    obsolete-Processed :
        (a s c : ℕ) (ns : List ℕ) (p : Partner S) (m : Msg)
        → IsPartner matching a s c ns p
        → IsObsolete m
        → Processed matching a s c
            (process_recv matching not_acked_max now memory driver posted p m)
    unfolding process_recv
    obsolete-Processed a s c ns p m v (inl other) =
        let foreign : same_session m.seqnum p.receiver.next_frag_recv_seq ≡ false =
          ne→== (sesnum m.seqnum) (sesnum p.receiver.next_frag_recv_seq) (λ e. other (
            e
            ∙ ap sesnum v.receiver.order.frag
            ∙ sesnum-wire recv_ses (oldest c ns) v.receiver.order.session)) in
        rw foreign (same v)
    obsolete-Processed a s c ns p m v (inr other) =
        let foreign : same_session m.piggyack p.sender.next_send_seq ≡ false =
          ne→== (sesnum m.piggyack) (sesnum p.sender.next_send_seq)
            (λ e. other (e ∙ ap sesnum v.sender.next ∙ sesnum-wire send_ses s v.sender.session)) in
        elim (Bool-cases (same_session m.seqnum p.receiver.next_frag_recv_seq)) [
          | inl ours ↦ rw (ours, foreign) (same v)
          | inr theirs ↦ rw theirs (same v)
        ]

    -- A partner whose windows are in order keeps them so for any packet of its session, within the
    -- window and with an ack at most 8191 messages behind, and for any packet with another session in its
    -- number or in its ack: what is acked and sent does not go back, and the messages taken are those
    -- from the next one on, in order.
    pub process_recv-Processed :
        (a s c : ℕ) (ns : List ℕ) (p : Partner S) (m : Msg)
        → IsPartner matching a s c ns p
        → IsCurrent a s (oldest c ns) m ⊎ IsObsolete m
        → Processed matching a s c
            (process_recv matching not_acked_max now memory driver posted p m)
    process_recv-Processed a s c ns p m v (inl w) = current-Processed a s c ns p m v w
    process_recv-Processed a s c ns p m v (inr w) = obsolete-Processed a s c ns p m v w
