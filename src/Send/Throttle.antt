-- ===== src/Send/Throttle.antt =====
-- Requests that wait for a number, and get it in the order of their submission.
use open_mx.Common.{
  ℕ, ◌+◌, ◌-◌, ◌<◌, ◌≤◌, ◌≡◌, refl, sym, ap, ◌∙◌, ◌⊎◌, inl, inr, true, List, [], ◌∷◌, ◌++◌, map,
  leb, length, length-append, append-nil, append_assoc, arith, Bool-cases,
}
use open_mx.Seqnum.{diff, wire, throttling_offset_max}
use open_mx.Seqnum.Laws.{diff-ge}
use open_mx.Send.Defs.{Request, Sender}
use open_mx.Send.Ops.{setup, submit}
use open_mx.Send.Window.{
  IsSender, IsThrottled, submitted, setup-IsSender, setup-posted, setup-need_seqnum_send_req_q,
  setup-throttling_sends_nr,
}

ids_snoc :
    (rs : List Request) (r : Request)
    → map (λ (x : Request). x.id) (rs ++ r ∷ []) ≡ map (λ (x : Request). x.id) rs ++ r.id ∷ []
ids_snoc [] r = refl
ids_snoc (x ∷ rs) r = ap (◌∷◌ x.id) (ids_snoc rs r)

-- The room of the window.
pub missing :
    {ses start a s : ℕ} {p : Sender}
    → IsSender ses start a s p
    → diff p.next_send_seq p.next_acked_send_seq ≡ s - a
missing {ses} {start} {a} {s} {p} v =
    ap (λ (x : ℕ). diff x p.next_acked_send_seq) v.next
    ∙ ap (diff (wire ses s)) v.acked
    ∙ diff-ge ses s a v.session v.low (omega (arith, v.high))

-- A request that is submitted.
pub record Submitted (ses start a s : ℕ) (p : Sender) (r : Request) (p' : Sender) : Type 0 where
  pub upto : ℕ
  pub sender : IsSender ses start a upto p'
  pub throttled : IsThrottled a upto p'
  pub onward : s ≤ upto
  pub order : submitted p' ≡ submitted p ++ r.id ∷ []

-- From an IsSender whose requests wait for a number only while the window is full, submitting a
-- request keeps both, and the request comes last in the order of submission, whether it is posted
-- with the next number or waits for one.
pub submit-Submitted :
    (frags ses start a s : ℕ) (p : Sender) (r : Request)
    → IsSender ses start a s p
    → IsThrottled a s p
    → Submitted ses start a s p r (submit frags p r)
unfolding submit
submit-Submitted frags ses start a s p r v w =
    let ids = λ (rs : List Request). map (λ (x : Request). x.id) rs in
    elim (Bool-cases (leb throttling_offset_max (diff p.next_send_seq p.next_acked_send_seq))) [
      | inl throttled ↦
          let m = missing v in
          rw throttled (record {
            upto = s;
            sender = record {
              session = v.session;
              next = v.next;
              acked = v.acked;
              low = v.low;
              high = v.high;
              waiting = v.waiting;
              count = v.count;
              series = v.series;
            };
            throttled = record {
              counted = omega (
                arith,
                w.counted,
                length-append p.need_seqnum_send_req_q (record r { need_seqnum = true } ∷ []),
              );
              full = inr (ground (arith, throttled, m, v.high));
            };
            onward = omega arith;
            order =
                ap (λ (x : List ℕ). ids p.posted ++ x)
                  (ids_snoc p.need_seqnum_send_req_q (record r { need_seqnum = true }))
                ∙ sym (append_assoc (ids p.posted) (ids p.need_seqnum_send_req_q) (r.id ∷ []));
          })
      | inr room ↦
          let m = missing v in
          let free : s < a + 8191 = ground (arith, room, m) in
          rw room (record {
            upto = s + 1;
            sender = setup-IsSender frags ses start a s p r v free;
            throttled = record {
              counted =
                  setup-throttling_sends_nr frags p r
                  ∙ w.counted
                  ∙ ap length (sym (setup-need_seqnum_send_req_q frags p r));
              full = inl (setup-need_seqnum_send_req_q frags p r ∙ none_wait free w.full);
            };
            onward = omega arith;
            order = posted free w.full;
          })
    ]
  where
    none_wait :
        s < a + 8191
        → (p.need_seqnum_send_req_q ≡ []) ⊎ (s ≡ a + 8191)
        → p.need_seqnum_send_req_q ≡ []
    none_wait free (inl e) = e
    none_wait free (inr e) = absurd (omega (arith, free, e))

    posted :
        s < a + 8191
        → (p.need_seqnum_send_req_q ≡ []) ⊎ (s ≡ a + 8191)
        → submitted (setup frags p r) ≡ submitted p ++ r.id ∷ []
    posted free f =
        let e = none_wait free f in
        let ids = λ (rs : List Request). map (λ (x : Request). x.id) rs in
        ap (λ (x : List ℕ). x ++ ids (setup frags p r).need_seqnum_send_req_q)
          (setup-posted frags p r)
        ∙ ap (λ (x : List Request). (ids p.posted ++ r.id ∷ []) ++ ids x)
            (setup-need_seqnum_send_req_q frags p r ∙ e)
        ∙ append-nil _
        ∙ ap (λ (x : List ℕ). x ++ r.id ∷ [])
            (sym (append-nil (ids p.posted))
              ∙ ap (λ (x : List Request). ids p.posted ++ ids x) (sym e))
