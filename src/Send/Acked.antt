-- ===== src/Send/Acked.antt =====
-- What an ack does: the requests before its number are acked, in order, and no other.
use open_mx.Common.{
  ℕ, ◌+◌, ◌-◌, ◌<◌, ◌≤◌, ◌≡◌, refl, sym, ap, subst, ◌∙◌, ◌⊎◌, inl, inr, true, false, List, [], ◌∷◌,
  ◌++◌, ltb, leb, ◌==◌, ◌||◌, arith, Bool-cases, ==→eq, ==→ne,
}
use open_mx.Seqnum.{diff, wire}
use open_mx.Seqnum.Laws.{diff-ge, diff-lt}
use open_mx.Send.Defs.{success, Request, Queues, Sender}
use open_mx.Send.Ops.{process_throttling}
use open_mx.Send.Ack.{mark_request_acked, ack_loop, handle_ack}
use open_mx.Send.Window.{IsWaiting, IsSender, IsThrottled, submitted}
use open_mx.Send.Throttle.{missing}
use open_mx.Send.Release.{process_throttling-Reopened}

-- The queues after some requests are acked, one after the other.
unfoldable pub mark_all : List Request → Queues → Queues
mark_all [] q = q
mark_all (r ∷ rs) q = mark_all rs (mark_request_acked r success q)

-- A queue in two parts, when an ack for all before `k` came: those that are acked, and those that
-- stay.
pub record AckedBefore (ses a k s : ℕ) (rs : List Request) (q : Queues) (x : List Request × Queues)
    : Type 0 where
  pub acked : List Request
  pub parts : rs ≡ acked ++ x.0
  pub before : IsWaiting ses a k acked
  pub rest : IsWaiting ses k s x.0
  pub queues : x.1 ≡ mark_all acked q

-- For a queue of requests with ascending numbers from lo on within a window of 8191 that begins at
-- a, an ack for all before k splits the queue: the requests before k are marked as acked in their
-- order, and the others stay.
pub ack_loop-AckedBefore :
    (ses a lo k s : ℕ) (rs : List Request) (q : Queues)
    → ses < 4
    → a ≤ lo
    → lo ≤ s
    → a ≤ k
    → k ≤ s
    → s ≤ a + 8191
    → IsWaiting ses lo s rs
    → AckedBefore ses lo k s rs q (ack_loop (wire ses a) (k - a) rs q)
unfolding ack_loop mark_all
ack_loop-AckedBefore ses a lo k s [] q ss al ls ak ks win v = record {
  acked = [];
  parts = refl;
  before = tt;
  rest = tt;
  queues = refl;
}
ack_loop-AckedBefore ses a lo k s (r ∷ rs) q ss al ls ak ks win (n, e, ge, lt, v) =
    let d : diff r.send_seqnum (wire ses a) ≡ n - a =
      ap (λ (x : ℕ). diff x (wire ses a)) e ∙ diff-ge ses n a ss (omega arith) (omega arith) in
    elim (Bool-cases (leb (k - a) (diff r.send_seqnum (wire ses a)))) [
      | inl stop ↦
          let from : k ≤ n = ground (arith, stop, d) in
          rw stop (record {
            acked = [];
            parts = refl;
            before = tt;
            rest = (n, e, from, lt, v);
            queues = refl;
          })
      | inr go ↦
          let below : n < k = ground (arith, go, d) in
          let x =
            ack_loop-AckedBefore ses a (n + 1) k s rs (mark_request_acked r success q) ss
              (omega arith) (omega arith) ak ks win v in
          rw go (record {
            acked = r ∷ x.acked;
            parts = ap (◌∷◌ r) x.parts;
            before = (n, e, ge, below, x.before);
            rest = x.rest;
            queues = x.queues;
          })
    ]

-- The send side after an ack for all before `k`.
pub record Acknowledged (ses start a s k : ℕ) (p p' : Sender) : Type 0 where
  pub acked : ℕ
  pub latest : (a ≤ acked) × (k ≤ acked) × ((acked ≡ a) ⊎ (acked ≡ k))
  pub upto : ℕ
  pub sender : IsSender ses start acked upto p'
  pub throttled : IsThrottled acked upto p'
  pub onward : s ≤ upto
  pub order : submitted p' ≡ submitted p

stale-Acknowledged :
    (ses start a s k : ℕ) (p : Sender)
    → IsSender ses start a s p
    → IsThrottled a s p
    → k ≤ a
    → Acknowledged ses start a s k p p
stale-Acknowledged ses start a s k p v w le = record {
  acked = a;
  latest = (omega arith, le, inl refl);
  upto = s;
  sender = v;
  throttled = w;
  onward = omega arith;
  order = refl;
}

-- The number of new acks, for an ack that is not older than the numbers last.
new_acks-cases :
    (ses a s k : ℕ)
    → ses < 4
    → a ≤ s
    → s ≤ a + 8191
    → k ≤ s
    → a ≤ k + 8191
    → ((k ≤ a)
        × ((diff (wire ses k) (wire ses a) == 0 || ltb (s - a) (diff (wire ses k) (wire ses a)))
            ≡ true))
      ⊎ ((a < k)
          × ((diff (wire ses k) (wire ses a) == 0 || ltb (s - a) (diff (wire ses k) (wire ses a)))
              ≡ false)
          × (diff (wire ses k) (wire ses a) ≡ k - a))
new_acks-cases ses a s k ss low high ks recent = elim (Bool-cases (ltb a k)) [
  | inl b ↦
      let newer : a < k = ground arith in
      let d = diff-ge ses k a ss (omega arith) (omega arith) in inr (newer, rw d (ground arith), d)
  | inr b ↦
      let older : k ≤ a = ground arith in
      elim (Bool-cases (k == a)) [
        | inl c ↦
            let e = ==→eq k a c in
            let d : diff (wire ses k) (wire ses a) ≡ 0 =
              rw e (diff-ge ses a a ss (omega arith) (omega arith) ∙ omega arith) in
            inl (older, rw d refl)
        | inr c ↦
            let ne = ==→ne k a c in
            let d = diff-lt ses k a ss (ground (arith, ne)) (omega arith) in
            inl (older, rw d (ground arith))
      ]
]

-- An ack that is new.
fresh-Acknowledged :
    (driver : Request → ℕ) (ses start a s k : ℕ) (p : Sender)
    → IsSender ses start a s p
    → IsThrottled a s p
    → a < k
    → k ≤ s
    → (x : List Request × Queues) → IsWaiting ses k s x.0
    → Acknowledged ses start a s k p (
        process_throttling driver (k - a) (record p {
          partner_non_acked_req_q = x.0;
          queues = x.1;
          next_acked_send_seq = wire ses k;
        }))
fresh-Acknowledged driver ses start a s k p v w newer ks x rest =
    let y =
      process_throttling-Reopened driver ses start a k s (k - a)
        (record p { partner_non_acked_req_q = x.0; queues = x.1; next_acked_send_seq = wire ses k })
        (record {
          session = v.session;
          next = v.next;
          acked = refl;
          low = ks;
          high = omega (arith, v.high);
          waiting = rest;
          count = v.count;
          series = v.series;
        })
        (omega arith) v.high (record { counted = w.counted; full = w.full }) in
    record {
      acked = k;
      latest = (omega arith, omega arith, inr refl);
      upto = y.upto;
      sender = y.sender;
      throttled = y.throttled;
      onward = y.onward;
      order = y.order;
    }

-- From an IsSender whose requests wait for a number only while the window is full, an ack on the
-- wire for all before k, where k is at most the number of the next send and at most 8191 behind the
-- last ack, keeps both: the acked number becomes k if k is newer and stays otherwise, and the order
-- of submission is kept.
pub handle_ack-Acknowledged :
    (driver : Request → ℕ) (ses start a s k : ℕ) (p : Sender)
    → IsSender ses start a s p
    → IsThrottled a s p
    → k ≤ s
    → a ≤ k + 8191
    → Acknowledged ses start a s k p (handle_ack driver p (wire ses k))
unfolding handle_ack
handle_ack-Acknowledged driver ses start a s k p v w ks recent =
    let m = missing v in
    let to_wire : diff (wire ses k) p.next_acked_send_seq ≡ diff (wire ses k) (wire ses a) =
      ap (diff (wire ses k)) v.acked in
    let new = diff (wire ses k) p.next_acked_send_seq in
    let known = diff p.next_send_seq p.next_acked_send_seq in
    let same : (new == 0 || ltb known new)
        ≡ (diff (wire ses k) (wire ses a) == 0 || ltb (s - a) (diff (wire ses k) (wire ses a))) =
      ap (λ (x : ℕ). x == 0 || ltb known x) to_wire
      ∙ ap
          (λ (x : ℕ). diff (wire ses k) (wire ses a) == 0 || ltb x (diff (wire ses k) (wire ses a)))
          m in
    elim (new_acks-cases ses a s k v.session v.low v.high ks recent) [
      | inl (older, obsolete) ↦
          rw (same ∙ obsolete) (stale-Acknowledged ses start a s k p v w older)
      | inr (newer, due, n) ↦
          let x =
            ack_loop-AckedBefore ses a a k s p.partner_non_acked_req_q p.queues v.session
              (omega arith) v.low (omega arith) ks v.high v.waiting in
          let f =
            fresh-Acknowledged driver ses start a s k p v w newer ks
              (ack_loop (wire ses a) (k - a) p.partner_non_acked_req_q p.queues) x.rest in
          rw (same ∙ due) (
            subst
              (λ (y : ℕ × ℕ). Acknowledged ses start a s k p (
                process_throttling driver y.1 (record p {
                  partner_non_acked_req_q = (ack_loop y.0 y.1 p.partner_non_acked_req_q p.queues).0;
                  queues = (ack_loop y.0 y.1 p.partner_non_acked_req_q p.queues).1;
                  next_acked_send_seq = wire ses k;
                })))
              (ap (λ (z : ℕ). (z, k - a)) (sym v.acked)
                ∙ ap (λ (z : ℕ). (p.next_acked_send_seq, z)) (sym (to_wire ∙ n)))
              f)
    ]
