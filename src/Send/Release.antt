-- ===== src/Send/Release.antt =====
-- Acks make room for the requests that wait for a number.
use open_mx.Common.{
  ℕ, zero, suc, ◌+◌, ◌≤◌, ◌≡◌, refl, sym, ap, subst, ◌∙◌, ◌⊎◌, inl, inr, false, List, [], ◌∷◌, ◌++◌,
  map, length, append_assoc, arith,
}
use open_mx.Send.Defs.{Request, Sender}
use open_mx.Send.Ops.{setup, throttling_loop, process_throttling}
use open_mx.Send.Window.{
  IsSender, IsThrottled, submitted, setup-IsSender, setup-posted, setup-need_seqnum_send_req_q,
  setup-throttling_sends_nr,
}

-- What the loop leaves: it sent `sent` requests, the first ones that waited.
record Released (ses start a s nr : ℕ) (p : Sender) (x : Sender × ℕ) : Type 0 where
  sender : IsSender ses start a (s + x.1) x.0
  within : x.1 ≤ nr
  waited : length p.need_seqnum_send_req_q ≡ length x.0.need_seqnum_send_req_q + x.1
  all : (x.0.need_seqnum_send_req_q ≡ []) ⊎ (x.1 ≡ nr)
  order : submitted x.0 ≡ submitted p
  counter : x.0.throttling_sends_nr ≡ p.throttling_sends_nr

throttling_loop-Released :
    (driver : Request → ℕ) (ses start a s nr : ℕ) (q : List Request) (p : Sender)
    → p.need_seqnum_send_req_q ≡ q
    → IsSender ses start a s p
    → s + nr ≤ a + 8191
    → Released ses start a s nr p (throttling_loop driver nr q p)
unfolding throttling_loop
throttling_loop-Released driver ses start a s zero q p e v room = record {
  sender = subst (λ (n : ℕ). IsSender ses start a n p) (omega arith) v;
  within = omega arith;
  waited = omega arith;
  all = inr refl;
  order = refl;
  counter = refl;
}
throttling_loop-Released driver ses start a s (suc nr) [] p e v room = record {
  sender = subst (λ (n : ℕ). IsSender ses start a n p) (omega arith) v;
  within = omega arith;
  waited = omega arith;
  all = inl e;
  order = refl;
  counter = refl;
}
throttling_loop-Released driver ses start a s (suc nr) (r ∷ rs) p e v room =
    let r' : Request = record r { need_seqnum = false } in
    let p1 : Sender = record p { need_seqnum_send_req_q = rs } in
    let v1 : IsSender ses start a s p1 = record {
      session = v.session;
      next = v.next;
      acked = v.acked;
      low = v.low;
      high = v.high;
      waiting = v.waiting;
      count = v.count;
      series = v.series;
    } in
    let p2 = setup (driver r') p1 r' in
    let ids = λ (rs : List Request). map (λ (x : Request). x.id) rs in
    let waits = setup-need_seqnum_send_req_q (driver r') p1 r' in
    let x =
      throttling_loop-Released driver ses start a (s + 1) nr rs p2 waits
        (setup-IsSender (driver r') ses start a s p1 r' v1 (omega arith)) (omega arith) in
    record {
      sender =
          subst (λ (n : ℕ). IsSender ses start a n (throttling_loop driver nr rs p2).0)
            (omega arith) x.sender;
      within = omega (arith, x.within);
      waited = ap length e ∙ ap (λ (n : ℕ). suc n) (ap length (sym waits) ∙ x.waited) ∙ omega arith;
      all = last x.all;
      order =
          x.order
          ∙ ap (λ (y : List ℕ). y ++ ids p2.need_seqnum_send_req_q) (setup-posted (driver r') p1 r')
          ∙ ap (λ (y : List Request). (ids p.posted ++ r.id ∷ []) ++ ids y) waits
          ∙ append_assoc (ids p.posted) (r.id ∷ []) (ids rs)
          ∙ ap (λ (y : List Request). ids p.posted ++ ids y) (sym e);
      counter = x.counter ∙ setup-throttling_sends_nr (driver r') p1 r';
    }
  where
    last : {q : List Request} {sent : ℕ} → (q ≡ []) ⊎ (sent ≡ nr) → (q ≡ []) ⊎ (sent + 1 ≡ suc nr)
    last (inl e) = inl e
    last (inr e) = inr (omega (arith, e))

-- The send side when the window has moved from `b` up to `a`.
pub record Reopened (ses start a s : ℕ) (p p' : Sender) : Type 0 where
  pub upto : ℕ
  pub sender : IsSender ses start a upto p'
  pub throttled : IsThrottled a upto p'
  pub onward : s ≤ upto
  pub order : submitted p' ≡ submitted p

-- As many requests as were acked get their numbers.
pub process_throttling-Reopened :
    (driver : Request → ℕ) (ses start b a s nr : ℕ) (p : Sender)
    → IsSender ses start a s p
    → a ≡ b + nr
    → s ≤ b + 8191
    → IsThrottled b s p
    → Reopened ses start a s p (process_throttling driver nr p)
unfolding process_throttling
process_throttling-Reopened driver ses start b a s nr p v moved room w =
    let x =
      throttling_loop-Released driver ses start a s nr p.need_seqnum_send_req_q p refl v
        (omega arith) in
    record {
      upto = s + (throttling_loop driver nr p.need_seqnum_send_req_q p).1;
      sender = record {
        session = x.sender.session;
        next = x.sender.next;
        acked = x.sender.acked;
        low = x.sender.low;
        high = x.sender.high;
        waiting = x.sender.waiting;
        count = x.sender.count;
        series = x.sender.series;
      };
      throttled = record {
        counted = omega (arith, x.counter, w.counted, x.waited);
        full = still_full _ x.all x.waited w.full;
      };
      onward = omega arith;
      order = x.order;
    }
  where
    still_full :
        {sent : ℕ} (q : List Request)
        → (q ≡ []) ⊎ (sent ≡ nr)
        → length p.need_seqnum_send_req_q ≡ length q + sent
        → (p.need_seqnum_send_req_q ≡ []) ⊎ (s ≡ b + 8191)
        → (q ≡ []) ⊎ (s + sent ≡ a + 8191)
    still_full q (inl e) waited f = inl e
    still_full q (inr e) waited (inr f) = inr (omega (arith, e, f, moved))
    still_full [] (inr e) waited (inl f) = inl refl
    still_full (x ∷ xs) (inr e) waited (inl f) =
        let none : length p.need_seqnum_send_req_q ≡ 0 = ap length f in
        absurd (omega (arith, waited, none))
