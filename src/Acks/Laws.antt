-- ===== src/Acks/Laws.antt =====
-- Which partners are acked.
use open_mx.Common.{
  ℕ, ◌+◌, ◌-◌, ◌%◌, ◌^◌, ◌<◌, ◌≤◌, ◌≡◌, refl, sym, ap, ◌⊎◌, inl, inr, Bool, true, false, List, [],
  ◌∷◌, ◌++◌, ltb, ◌==◌, arith, Bool-cases, ==→eq,
}
use open_mx.Acks.{
  AckPartner, Liback, AckQueues, since, send_acks, is_due, always, process_partners_to_ack,
}

-- All of a list are due, and the driver took their acks.
abbrev pub AllSent : (AckPartner → Bool) → (AckPartner → Bool) → List AckPartner → Type 0
AllSent due driver [] = Unit {0}
AllSent due driver (p ∷ ps) = (due p ≡ true) × (driver p ≡ true) × AllSent due driver ps

-- The acked partner remembers what the ack said and counts it, on 32 bits, and is else the same.
pub record IsAcked (p q : AckPartner) : Type 0 where
  pub id : q.id ≡ p.id
  pub received : q.next_frag_recv_seq ≡ p.next_frag_recv_seq
  pub told : q.last_acked_recv_seq ≡ p.next_frag_recv_seq
  pub counted : q.last_send_acknum ≡ (p.last_send_acknum + 1) % 2 ^ 32
  pub since : q.oldest_recv_time_not_acked ≡ p.oldest_recv_time_not_acked

-- An ack for a partner: up to the next sequence number that it wants of it, and with the next ack
-- number.
pub record IsAckFor (p : AckPartner) (ack : Liback) : Type 0 where
  pub dest : ack.dest ≡ p.id
  pub upto : ack.lib_seqnum ≡ p.next_frag_recv_seq
  pub number : ack.acknum ≡ (p.last_send_acknum + 1) % 2 ^ 32

-- Two lists of the same length, related one by one.
abbrev pub Each : {B : Type 0} → (AckPartner → B → Type 0) → List AckPartner → List B → Type 0
Each R [] [] = Unit {0}
Each R [] (y ∷ ys) = ⊥
Each R (x ∷ xs) [] = ⊥
Each R (x ∷ xs) (y ∷ ys) = R x y × Each R xs ys

-- Why the loop stopped at what it left: a refused ack has used its number.
abbrev pub StopsAt :
    (AckPartner → Bool) → (AckPartner → Bool) → List AckPartner → List AckPartner → Type 0
StopsAt due driver [] left = left ≡ []
StopsAt due driver (p ∷ ps) left =
    ((due p ≡ false) × (left ≡ p ∷ ps))
    ⊎ ((driver p ≡ false)
        × (left ≡ record p { last_send_acknum = (p.last_send_acknum + 1) % 2 ^ 32 } ∷ ps))

-- A queue of partners in two parts: those that are acked, with the acks of what was received from
-- them, and those that stay.
pub record Split (due driver : AckPartner → Bool) (ps acked left : List AckPartner)
    (acks : List Liback) : Type 0 where
  pub first : List AckPartner
  pub rest : List AckPartner
  pub parts : ps ≡ first ++ rest
  pub sent : AllSent due driver first
  pub marked : Each IsAcked first acked
  pub acks_of : Each IsAckFor first acks
  pub stops : StopsAt due driver rest left

-- For any notion of a partner whose turn has come and any driver, the loop over a queue of partners
-- acks the first ones, in their order: each ack goes to that partner, up to the next sequence number
-- wanted of it, with the ack number after its last one on 32 bits, and the partner remembers both. It
-- stops at the first whose turn has not come, or whose ack the driver refused; a refused one has only
-- used its ack number, and the others stay as they are.
pub send_acks-Split :
    (due driver : AckPartner → Bool) (ps : List AckPartner)
    → Split due driver ps
        (send_acks due driver ps).0
        (send_acks due driver ps).1
        (send_acks due driver ps).2
unfolding send_acks
send_acks-Split due driver [] = record {
  first = [];
  rest = [];
  parts = refl;
  sent = tt;
  marked = tt;
  acks_of = tt;
  stops = refl;
}
send_acks-Split due driver (p ∷ ps) =
    let x = send_acks-Split due driver ps in
    elim (Bool-cases (due p)) [
      | inl d ↦ elim (Bool-cases (driver p)) [
        | inl ok ↦
            rw (d, ok)
              (record {
                first = p ∷ x.first;
                rest = x.rest;
                parts = ap (◌∷◌ p) x.parts;
                sent = (d, ok, x.sent);
                marked = (
                  record { id = refl; received = refl; told = refl; counted = refl; since = refl },
                  x.marked,
                );
                acks_of = (record { dest = refl; upto = refl; number = refl }, x.acks_of);
                stops = x.stops;
              })
        | inr fails ↦
            rw (d, fails)
              (record {
                first = [];
                rest = p ∷ ps;
                parts = refl;
                sent = tt;
                marked = tt;
                acks_of = tt;
                stops = inr (fails, refl);
              })
      ]
      | inr early ↦ rw early (record {
        first = [];
        rest = p ∷ ps;
        parts = refl;
        sent = tt;
        marked = tt;
        acks_of = tt;
        stops = inl (early, refl);
      })
    ]

-- Partners in the order of the times they wait since, which have passed.
abbrev pub IsByTime : ℕ → ℕ → List AckPartner → Type 0
IsByTime t now [] = Unit {0}
IsByTime t now (p ∷ ps) =
    (t ≤ p.oldest_recv_time_not_acked)
    × (p.oldest_recv_time_not_acked ≤ now)
    × IsByTime p.oldest_recv_time_not_acked now ps

-- The delay of each partner is not over.
abbrev pub AllEarly : ℕ → ℕ → List AckPartner → Type 0
AllEarly delay now [] = Unit {0}
AllEarly delay now (p ∷ ps) = (now < p.oldest_recv_time_not_acked + delay) × AllEarly delay now ps

AllEarly-later :
    (delay t now : ℕ) (ps : List AckPartner)
    → now < t + delay
    → IsByTime t now ps
    → AllEarly delay now ps
AllEarly-later delay t now [] lt v = tt
AllEarly-later delay t now (p ∷ ps) lt v = (
  omega (arith, lt, v.0),
  AllEarly-later delay p.oldest_recv_time_not_acked now ps (omega (arith, lt, v.0)) v.2,
)

-- With a driver that takes all acks, none waits that is due.
send_acks-AllEarly :
    (delay t now : ℕ) (driver : AckPartner → Bool) (ps : List AckPartner)
    → now < 2 ^ 64
    → ((p : AckPartner) → driver p ≡ true)
    → IsByTime t now ps
    → AllEarly delay now (send_acks (is_due delay now) driver ps).1
unfolding send_acks
send_acks-AllEarly delay t now driver [] lt all v = tt
send_acks-AllEarly delay t now driver (p ∷ ps) lt all v =
    let time = p.oldest_recv_time_not_acked in
    let d : since now time ≡ now - time = elapsed now time v.1 lt in
    elim (Bool-cases (ltb (since now time) delay)) [
      | inl early ↦
          let lt' : now < time + delay = ground (arith, early, d) in
          rw early (lt', AllEarly-later delay time now ps lt' v.2)
      | inr due ↦ rw (due, all p) (send_acks-AllEarly delay time now driver ps lt all v.2)
    ]
  where
    elapsed : (now time : ℕ) → time ≤ now → now < 2 ^ 64 → since now time ≡ now - time
    elapsed now time le lt = omega arith

send_acks-none :
    (driver : AckPartner → Bool) (ps : List AckPartner)
    → ((p : AckPartner) → driver p ≡ true)
    → (send_acks always driver ps).1 ≡ []
unfolding send_acks
send_acks-none driver [] all = refl
send_acks-none driver (p ∷ ps) all = rw (all p) (send_acks-none driver ps all)

-- The queues after a round, with a driver that takes all acks.
pub record Answered (delay now : ℕ) (q q' : AckQueues) : Type 0 where
  pub immediate : q'.partners_to_ack_immediate_list ≡ []
  pub none_due : AllEarly delay now q'.partners_to_ack_delayed_list
  pub looked : q'.last_partners_acking_jiffies ≡ now

-- With a driver that takes all acks, delayed acks in the order of their times, which have passed, and
-- none of them due if the queues were last looked at in the same jiffy: after a round no partner waits
-- for an immediate ack, and none for a delayed ack whose delay is over.
pub process_partners_to_ack-Answered :
    (delay now t : ℕ) (driver : AckPartner → Bool) (q : AckQueues)
    → now < 2 ^ 64
    → ((p : AckPartner) → driver p ≡ true)
    → IsByTime t now q.partners_to_ack_delayed_list
    → (q.last_partners_acking_jiffies ≡ now → AllEarly delay now q.partners_to_ack_delayed_list)
    → Answered delay now q (process_partners_to_ack delay now driver q)
unfolding process_partners_to_ack
process_partners_to_ack-Answered delay now t driver q lt all v looked =
    let none = send_acks-none driver q.partners_to_ack_immediate_list all in
    elim (Bool-cases (now == q.last_partners_acking_jiffies)) [
      | inl same ↦
          let e = sym (==→eq now q.last_partners_acking_jiffies same) in
          rw same (record { immediate = none; none_due = looked e; looked = e })
      | inr moved ↦ rw moved (record {
        immediate = none;
        none_due = send_acks-AllEarly delay t now driver q.partners_to_ack_delayed_list lt all v;
        looked = refl;
      })
    ]
