-- ===== src/Send/Nacked.antt =====
-- What a nack does: the request of its number leaves the queue, or there is none.
use open_mx.Common.{
  ℕ, ◌+◌, ◌-◌, ◌/◌, ◌%◌, ◌^◌, ◌<◌, ◌≤◌, ◌≡◌, ◌≢◌, refl, sym, ap, subst, ◌∙◌, inl, inr, true, List,
  [], ◌∷◌, ◌++◌, Option, none, some, ltb, ◌==◌, arith, Bool-cases, ==→eq, ==→ne, eq→==,
}
use open_mx.Seqnum.{diff, same_session, wire}
use open_mx.Seqnum.Laws.{diff-ge}
use open_mx.Send.Defs.{Status, Request, Queues, Sender}
use open_mx.Send.Ack.{mark_request_acked, cons_nacked, nack_loop, handle_nack}
use open_mx.Send.Window.{IsWaiting, IsSender}

-- No request has a number.
abbrev pub HasNone : ℕ → List Request → Type 0
HasNone seqnum [] = Unit {0}
HasNone seqnum (r ∷ rs) = (r.send_seqnum ≢ seqnum) × HasNone seqnum rs

-- A request is taken out of a queue, and marked with a status.
pub record TakenOut (seqnum : ℕ) (status : Status) (rs : List Request) (q : Queues)
    (x : List Request × Queues) : Type 0 where
  pub before : List Request
  pub request : Request
  pub after : List Request
  pub parts : rs ≡ before ++ request ∷ after
  pub number : request.send_seqnum ≡ seqnum
  pub rest : x.0 ≡ before ++ after
  pub queues : x.1 ≡ mark_request_acked request status q

abbrev pub NackedIf : ℕ → Status → List Request → Queues → Option (List Request × Queues) → Type 0
NackedIf seqnum status rs q none = HasNone seqnum rs
NackedIf seqnum status rs q (some x) = TakenOut seqnum status rs q x

NackedIf-cons :
    (seqnum : ℕ) (status : Status) (r : Request) (rs : List Request) (q : Queues)
    → r.send_seqnum ≢ seqnum
    → (o : Option (List Request × Queues)) → NackedIf seqnum status rs q o
    → NackedIf seqnum status (r ∷ rs) q (cons_nacked r o)
NackedIf-cons seqnum status r rs q ne none v = (ne, v)
NackedIf-cons seqnum status r rs q ne (some x) v = record {
  before = r ∷ v.before;
  request = v.request;
  after = v.after;
  parts = ap (◌∷◌ r) v.parts;
  number = v.number;
  rest = ap (◌∷◌ r) v.rest;
  queues = v.queues;
}

-- A window holds each number once.
IsWaiting-HasNone :
    (ses a lo s seqnum : ℕ) (rs : List Request)
    → ses < 4
    → a ≤ lo
    → s ≤ a + 8191
    → diff seqnum (wire ses a) + a < lo
    → IsWaiting ses lo s rs
    → HasNone seqnum rs
IsWaiting-HasNone ses a lo s seqnum [] ss al win lt v = tt
IsWaiting-HasNone ses a lo s seqnum (r ∷ rs) ss al win lt (n, e, ge, nlt, v) = (
  λ (same : r.send_seqnum ≡ seqnum).
      let d : diff seqnum (wire ses a) ≡ n - a =
        ap (λ (x : ℕ). diff x (wire ses a)) (sym same ∙ e)
        ∙ diff-ge ses n a ss (omega arith) (omega arith) in
      absurd (omega (arith, d, lt, ge)),
  IsWaiting-HasNone ses a (n + 1) s seqnum rs ss (omega arith) win (omega (arith, lt, ge)) v,
)

nack_loop-NackedIf :
    (ses a lo s seqnum : ℕ) (status : Status) (rs : List Request) (q : Queues)
    → ses < 4
    → seqnum / 2 ^ 14 ≡ ses
    → a ≤ lo
    → s ≤ a + 8191
    → IsWaiting ses lo s rs
    → NackedIf seqnum status rs q (nack_loop (wire ses a) (diff seqnum (wire ses a)) status rs q)
unfolding nack_loop
nack_loop-NackedIf ses a lo s seqnum status [] q ss own al win v = tt
nack_loop-NackedIf ses a lo s seqnum status (r ∷ rs) q ss own al win (n, e, ge, lt, v) =
    let i = diff seqnum (wire ses a) in
    let d : diff r.send_seqnum (wire ses a) ≡ n - a =
      ap (λ (x : ℕ). diff x (wire ses a)) e ∙ diff-ge ses n a ss (omega arith) (omega arith) in
    elim (Bool-cases (ltb i (diff r.send_seqnum (wire ses a)))) [
      | inl past ↦
          let under : i < n - a = ground (arith, d, past) in
          rw past (
            IsWaiting-HasNone ses a n s seqnum (r ∷ rs) ss (omega arith) win (omega (arith, under))
              (n, e, omega arith, lt, v))
      | inr on ↦ elim (Bool-cases (i == diff r.send_seqnum (wire ses a))) [
        | inl here ↦
            let same : i ≡ n - a = ==→eq i _ here ∙ d in
            rw (on, here)
              (record {
                before = [];
                request = r;
                after = rs;
                parts = refl;
                number = e ∙ numbered same;
                rest = refl;
                queues = refl;
              })
        | inr other ↦
            let differs = ==→ne i _ other in
            rw (on, other)
              (NackedIf-cons seqnum status r rs q
                (λ (same : r.send_seqnum ≡ seqnum).
                  differs (ap (λ (x : ℕ). diff x (wire ses a)) (sym same)))
                (nack_loop (wire ses a) i status rs q)
                (nack_loop-NackedIf ses a (n + 1) s seqnum status rs q ss own (omega arith) win v))
      ]
    ]
  where
    numbered : diff seqnum (wire ses a) ≡ n - a → wire ses n ≡ seqnum
    numbered same = omega arith

-- What comes of a nack for a number of the session.
abbrev pub HandledIf : ℕ → Status → Sender → Option Sender → Type 0
HandledIf seqnum status p none = HasNone seqnum p.partner_non_acked_req_q
HandledIf seqnum status p (some p') =
    TakenOut seqnum status p.partner_non_acked_req_q p.queues
      (p'.partner_non_acked_req_q, p'.queues)

-- From an IsSender, a nack with a status, for a number of the session, takes the one request with
-- that number out of the queue and marks it with the status; when the code finds no request, none
-- in the queue has the number.
pub handle_nack-HandledIf :
    (ses start a s seqnum : ℕ) (status : Status) (p : Sender)
    → IsSender ses start a s p
    → seqnum / 2 ^ 14 ≡ ses
    → HandledIf seqnum status p (handle_nack p seqnum status)
unfolding handle_nack
handle_nack-HandledIf ses start a s seqnum status p v own =
    let ours : same_session seqnum p.next_send_seq ≡ true =
      rw v.next (eq→== _ _ (session v.session)) in
    let x =
      subst
        (λ (y : ℕ).
          NackedIf seqnum status p.partner_non_acked_req_q p.queues
            (nack_loop y (diff seqnum y) status p.partner_non_acked_req_q p.queues))
        (sym v.acked)
        (nack_loop-NackedIf ses a a s seqnum status p.partner_non_acked_req_q p.queues v.session own
          (omega arith) v.high v.waiting) in
    rw ours (
      found
        (nack_loop p.next_acked_send_seq (diff seqnum p.next_acked_send_seq) status
          p.partner_non_acked_req_q p.queues)
        x)
  where
    session : ses < 4 → seqnum / 2 ^ 14 % 4 ≡ wire ses s / 2 ^ 14 % 4
    session ss = omega arith

    found :
        (o : Option (List Request × Queues))
        → NackedIf seqnum status p.partner_non_acked_req_q p.queues o
        → HandledIf seqnum status p (elim o [
          | none ↦ none
          | some x ↦ some (record p { partner_non_acked_req_q = x.0; queues = x.1 })
        ])
    found none v = v
    found (some x) v = record {
      before = v.before;
      request = v.request;
      after = v.after;
      parts = v.parts;
      number = v.number;
      rest = v.rest;
      queues = v.queues;
    }
