-- ===== src/Acks.antt =====
-- Acks that go out, and when the library wants to be woken up (libopen-mx/omx_ack.c): the partners to
-- ack wait in two queues of their endpoint.
mod Laws
mod Wakeup
mod Tests
use open_mx.Common.{
  ℕ, ◌+◌, ◌-◌, ◌%◌, ◌^◌, Bool, true, false, List, [], ◌∷◌, ◌++◌, map, ltb, ◌==◌, ◌||◌, not,
  if◌then◌else◌, add32,
}

-- What acks read of struct omx__partner.
pub record AckPartner : Type 0 where
  pub id : ℕ
  pub next_frag_recv_seq : ℕ
  pub last_acked_recv_seq : ℕ
  pub last_send_acknum : ℕ
  pub oldest_recv_time_not_acked : ℕ

-- struct omx_cmd_send_liback
pub record Liback : Type 0 where
  pub dest : ℕ
  pub acknum : ℕ
  pub lib_seqnum : ℕ

-- The queues of struct omx_endpoint; `acked` are the partners that need no ack any more, and `sent`
-- the acks that the driver took.
pub record AckQueues : Type 0 where
  pub partners_to_ack_immediate_list : List AckPartner
  pub partners_to_ack_delayed_list : List AckPartner
  pub last_partners_acking_jiffies : ℕ
  pub acked : List AckPartner
  pub sent : List Liback

-- `a - b` of two times of 64 bits.
abbrev pub since : ℕ → ℕ → ℕ
since a b = (a + (2 ^ 64 - b)) % 2 ^ 64

-- omx__submit_send_liback: the partner counts the attempt, and the ack that goes to the driver.
abbrev pub attempted : AckPartner → AckPartner
attempted p = record p { last_send_acknum = add32 p.last_send_acknum 1 }

abbrev pub liback : AckPartner → Liback
liback p = record {
  dest = p.id;
  acknum = add32 p.last_send_acknum 1;
  lib_seqnum = p.next_frag_recv_seq;
}

-- omx__mark_partner_ack_sent, after an attempt
abbrev pub ack_sent : AckPartner → AckPartner
ack_sent p = record (attempted p) { last_acked_recv_seq = p.next_frag_recv_seq }

-- The loops of omx__process_partners_to_ack: the partners that are acked, those that stay, and the
-- acks. `due` is for a partner whose turn has come, and `driver` says whether the driver takes an ack.
unfoldable pub send_acks :
    (AckPartner → Bool)
    → (AckPartner → Bool)
    → List AckPartner
    → List AckPartner × List AckPartner × List Liback
send_acks due driver [] = ([], [], [])
send_acks due driver (p ∷ ps) =
    let rest = send_acks due driver ps in
    if due p
    then (if driver p
        then (ack_sent p ∷ rest.0, rest.1, liback p ∷ rest.2)
        else ([], attempted p ∷ ps, []))
    else ([], p ∷ ps, [])

-- An ack that was delayed is due when its delay is over.
abbrev pub is_due : ℕ → ℕ → AckPartner → Bool
is_due ack_delay_jiffies now p =
    not (ltb (since now p.oldest_recv_time_not_acked) ack_delay_jiffies)

abbrev pub always : AckPartner → Bool
always p = true

-- omx__process_partners_to_ack
unfoldable pub process_partners_to_ack : ℕ → ℕ → (AckPartner → Bool) → AckQueues → AckQueues
unfolding send_acks
process_partners_to_ack ack_delay_jiffies now driver q =
    let x = send_acks always driver q.partners_to_ack_immediate_list in
    let q1 = record q {
      partners_to_ack_immediate_list = x.1;
      acked = q.acked ++ x.0;
      sent = q.sent ++ x.2;
    } in
    let y = send_acks (is_due ack_delay_jiffies now) driver q1.partners_to_ack_delayed_list in
    if now == q.last_partners_acking_jiffies then q1 else record q1 {
      last_partners_acking_jiffies = now;
      partners_to_ack_delayed_list = y.1;
      acked = q1.acked ++ y.0;
      sent = q1.sent ++ y.2;
    }

-- OMX_NO_WAKEUP_JIFFIES
abbrev pub no_wakeup_jiffies : ℕ
no_wakeup_jiffies = 0

-- A time that may be earlier than the wake-up so far.
abbrev pub sooner : ℕ → ℕ → ℕ
sooner tmp wakeup = if ltb tmp wakeup || wakeup == no_wakeup_jiffies then tmp else wakeup

-- The first of a queue, by the time it waits since and its delay.
abbrev pub first_due : ℕ → List ℕ → ℕ → ℕ
first_due delay [] wakeup = wakeup
first_due delay (t ∷ ts) wakeup = sooner ((t + delay) % 2 ^ 64) wakeup

-- omx__prepare_progress_wakeup: the times are those of the partners to ack delayed, and of the last
-- sending of the non-acked requests and the connect requests.
unfoldable pub prepare_progress_wakeup : ℕ → ℕ → List ℕ → List ℕ → List ℕ → ℕ
prepare_progress_wakeup ack_delay_jiffies resend_delay_jiffies delayed non_acked connects =
    first_due resend_delay_jiffies connects (
      first_due resend_delay_jiffies non_acked
        (first_due ack_delay_jiffies delayed no_wakeup_jiffies))
