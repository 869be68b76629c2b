-- ===== src/Recv/Partial.antt =====
-- Matching keeps what the order of messages relies on: the partial messages are those that began and
-- did not end, in the order of their numbers.
use open_mx.Common.{
  ℕ, suc, ◌+◌, ◌≡◌, refl, sym, ap, subst, ◌∙◌, ◌⊎◌, inl, inr, List, [], ◌∷◌, ◌++◌, Option, none,
  some, map, ltb, ◌==◌, min, append_assoc, Bool-cases,
}
use open_mx.Seqnum.{diff}
use open_mx.Recv.Defs.{MsgType, tiny, small, medium_frag, rndv, notify, Msg}
use open_mx.Recv.Match.{RecvRequest, Requests, bit, add_frag, process_first_frag, process_more_frag}
use open_mx.Recv.Take.{
  match_recv, recv_func, matched, unexpected_request, HandlerAction, finished, posts, continue_loop,
  if_unexpected, if_matched, if_handled, try_match_next_recv, if_notify, requests_matching,
}
use open_mx.Recv.Window.{without, IsMatching}

abbrev seqnums : List RecvRequest → List ℕ
seqnums rs = map (λ (r : RecvRequest). r.seqnum) rs

some_inj : {A : Type 0} {x y : A} → some x ≡ some y → x ≡ y
some_inj e = cc

-- The partial messages stay, or message `n` joins them.
abbrev Joins : ℕ → Requests → Requests → Type 0
Joins n s s' =
    (seqnums s'.partial_medium_recv_req_q ≡ seqnums s.partial_medium_recv_req_q)
    ⊎ (seqnums s'.partial_medium_recv_req_q ≡ seqnums s.partial_medium_recv_req_q ++ n ∷ [])

seqnums-append : (xs ys : List RecvRequest) → seqnums (xs ++ ys) ≡ seqnums xs ++ seqnums ys
seqnums-append [] ys = refl
seqnums-append (x ∷ xs) ys = ap (◌∷◌ x.seqnum) (seqnums-append xs ys)

recv_func-Joins :
    (t : MsgType) (r : RecvRequest) (m : Msg) (xfer_length : ℕ) (s : Requests)
    → Joins r.seqnum s (recv_func t r m xfer_length s)
unfolding process_first_frag add_frag
recv_func-Joins tiny r m xfer_length s = elim (Bool-cases r.unexpected) [
  | inl u ↦ rw u (inl refl)
  | inr u ↦ rw u (inl refl)
]
recv_func-Joins small r m xfer_length s = elim (Bool-cases r.unexpected) [
  | inl u ↦ rw u (inl refl)
  | inr u ↦ rw u (inl refl)
]
recv_func-Joins medium_frag r m xfer_length s =
    elim (Bool-cases (0 + m.frag_length == m.msg_length)) [
      | inl whole ↦ elim (Bool-cases r.unexpected) [
        | inl u ↦ rw (whole, u) (inl refl)
        | inr u ↦ rw (whole, u) (inl refl)
      ]
      | inr part ↦ elim (Bool-cases r.unexpected) [
        | inl u ↦ rw (part, u) (inr (seqnums-append s.partial_medium_recv_req_q (_ ∷ [])))
        | inr u ↦ rw (part, u) (inr (seqnums-append s.partial_medium_recv_req_q (_ ∷ [])))
      ]
    ]
recv_func-Joins rndv r m xfer_length s = elim (Bool-cases r.unexpected) [
  | inl u ↦ rw u (inl refl)
  | inr u ↦ rw u (inl refl)
]
recv_func-Joins notify r m xfer_length s = inl refl

module _ (handler : Msg → HandlerAction) (alloc : Requests → Msg → Option ℕ) where
  -- The result of an attempt, if there is one.
  JoinsIf : ℕ → Requests → Option Requests → Type 0
  JoinsIf n s o = (s' : Requests) → o ≡ some s' → Joins n s s'

  if_unexpected-JoinsIf :
      (o : Option ℕ) (m : Msg) (s : Requests)
      → JoinsIf m.seqnum s (if_unexpected handler alloc o m s)
  unfolding JoinsIf
  if_unexpected-JoinsIf none m s s' e = cc
  if_unexpected-JoinsIf (some id) m s s' e =
      subst (Joins m.seqnum s) (some_inj e)
        (recv_func-Joins m.type (unexpected_request id m) m m.msg_length s)

  if_matched-JoinsIf :
      (o : Option (RecvRequest × List RecvRequest)) (m : Msg) (s : Requests)
      (otherwise : Option Requests)
      → JoinsIf m.seqnum s otherwise
      → JoinsIf m.seqnum s (if_matched handler alloc o m s otherwise)
  unfolding JoinsIf
  if_matched-JoinsIf none m s otherwise v s' e = v s' e
  if_matched-JoinsIf (some x) m s otherwise v s' e = subst (Joins m.seqnum s) (some_inj e) (
      recv_func-Joins m.type (matched x.0 m) m (min x.0.total_length m.msg_length)
        (record s { recv_req_q = x.1 }))

  if_handled-JoinsIf :
      (h : HandlerAction) (m : Msg) (s : Requests)
      → JoinsIf m.seqnum s (if_handled handler alloc h m s)
  unfolding JoinsIf
  if_handled-JoinsIf (finished rs) m s s' e = subst (Joins m.seqnum s) (some_inj e) (inl refl)
  if_handled-JoinsIf (posts rs) m s s' e =
      let s1 : Requests = record s { recv_req_q = s.recv_req_q ++ rs } in
      if_matched-JoinsIf (match_recv m.match_info s1.recv_req_q) m s1
        (if_unexpected handler alloc (alloc s1 m) m s1) (if_unexpected-JoinsIf (alloc s1 m) m s1) s'
        e

  take-JoinsIf :
      (t : MsgType) (m : Msg) (s : Requests) → JoinsIf m.seqnum s (if_notify handler alloc t s m)
  unfolding JoinsIf try_match_next_recv
  take-JoinsIf tiny m s =
      if_matched-JoinsIf (match_recv m.match_info s.recv_req_q) m s _
        (if_handled-JoinsIf (handler m) m s)
  take-JoinsIf small m s =
      if_matched-JoinsIf (match_recv m.match_info s.recv_req_q) m s _
        (if_handled-JoinsIf (handler m) m s)
  take-JoinsIf medium_frag m s =
      if_matched-JoinsIf (match_recv m.match_info s.recv_req_q) m s _
        (if_handled-JoinsIf (handler m) m s)
  take-JoinsIf rndv m s =
      if_matched-JoinsIf (match_recv m.match_info s.recv_req_q) m s _
        (if_handled-JoinsIf (handler m) m s)
  take-JoinsIf notify m s = λ (s' : Requests) e. subst (Joins m.seqnum s) (some_inj e) (inl refl)

seqnums-without :
    (before : List RecvRequest) (r : RecvRequest) (after : List RecvRequest)
    → (i : ℕ) × (seqnums (before ++ after) ≡ without i (seqnums (before ++ r ∷ after)))
seqnums-without [] r after = (0, refl)
seqnums-without (x ∷ before) r after =
    let y = seqnums-without before r after in (suc y.0, ap (◌∷◌ x.seqnum) y.1)

seqnums-same :
    (before : List RecvRequest) (r r' : RecvRequest) (after : List RecvRequest)
    → r'.seqnum ≡ r.seqnum
    → seqnums (before ++ r' ∷ after) ≡ seqnums (before ++ r ∷ after)
seqnums-same [] r r' after e = ap (λ (x : ℕ). x ∷ seqnums after) e
seqnums-same (x ∷ before) r r' after e = ap (◌∷◌ x.seqnum) (seqnums-same before r r' after e)

without-past : (ns : List ℕ) → (i : ℕ) × (ns ≡ without i ns)
without-past [] = (0, refl)
without-past (n ∷ ns) = let y = without-past ns in (suc y.0, ap (◌∷◌ n) y.1)

-- At most one partial message ends.
abbrev Ends : Requests → Requests → Type 0
Ends s s' =
    (i : ℕ) × (seqnums s'.partial_medium_recv_req_q
      ≡ without i (seqnums s.partial_medium_recv_req_q))

process_more_frag-Ends :
    (before : List RecvRequest) (r : RecvRequest) (after : List RecvRequest) (m : Msg)
    (s : Requests)
    → s.partial_medium_recv_req_q ≡ before ++ r ∷ after
    → Ends s (process_more_frag before r after m s)
unfolding process_more_frag add_frag
process_more_frag-Ends before r after m s e =
    elim (Bool-cases (bit r.frags_received_mask m.frag_seqnum)) [
      | inl again ↦ rw again (without-past (seqnums s.partial_medium_recv_req_q))
      | inr new ↦ elim (Bool-cases (r.accumulated_length + m.frag_length == m.msg_length)) [
        | inl last ↦
            let y = seqnums-without before r after in
            elim (Bool-cases r.unexpected) [
              | inl u ↦ rw (new, last, u, e) y
              | inr u ↦ rw (new, last, u, e) y
            ]
        | inr more ↦
            let y = without-past (seqnums (before ++ r ∷ after)) in
            rw (new, more, e) (y.0, seqnums-same before r _ after refl ∙ y.1)
      ]
    ]

EndsIf : Requests → Option Requests → Type 0
EndsIf s o = (s' : Requests) → o ≡ some s' → Ends s s'

continue_loop-EndsIf :
    (next : ℕ) (m : Msg) (before after : List RecvRequest) (s : Requests)
    → s.partial_medium_recv_req_q ≡ before ++ after
    → EndsIf s (continue_loop next m before after s)
unfolding continue_loop EndsIf
continue_loop-EndsIf next m before [] s e = λ (s' : Requests) f. cc
continue_loop-EndsIf next m before (r ∷ rs) s e =
    elim (Bool-cases (diff r.seqnum next == diff m.seqnum next)) [
      | inl found ↦ rw found (λ (s' : Requests) f.
          subst (Ends s) (some_inj f) (process_more_frag-Ends before r rs m s e))
      | inr other ↦ elim (Bool-cases (ltb (diff m.seqnum next) (diff r.seqnum next))) [
        | inl past ↦ rw (other, past) (λ (s' : Requests) f. cc)
        | inr on ↦
            rw (other, on)
              (continue_loop-EndsIf next m (before ++ r ∷ []) rs s
                (e ∙ sym (append_assoc before (r ∷ []) rs)))
      ]
    ]

-- With any unexpected handler and any allocator, the matching of messages keeps what the order of
-- messages relies on: taking a message leaves the partial messages or adds its number behind them,
-- and a fragment leaves them or takes one away.
pub requests_matching-IsMatching :
    (handler : Msg → HandlerAction) (alloc : Requests → Msg → Option ℕ)
    → IsMatching (requests_matching handler alloc)
unfolding JoinsIf EndsIf
requests_matching-IsMatching handler alloc = record {
  take-partials = λ (s s' : Requests) (m : Msg) e. take-JoinsIf handler alloc m.type m s s' e;
  go_on-partials = λ (next : ℕ) (s s' : Requests) (m : Msg) e.
      continue_loop-EndsIf next m [] s.partial_medium_recv_req_q s refl s' e;
}
