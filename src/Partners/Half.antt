-- ===== src/Partners/Half.antt =====
-- What one of two endpoints that connect knows of the other one, and that the messages of the other
-- one do not spoil it.
use open_mx.Common.{
  ℕ, ◌≡◌, ◌≢◌, refl, sym, ◌∙◌, ◌⊎◌, inl, inr, List, ◌∷◌, ◌==◌, arith, Bool-cases, Option-cases,
  eq→==, ne→==,
}
use open_mx.Recv.Early.{All}
use open_mx.Seqnum.{reset}
use open_mx.Partners.{
  Link, Side, Completion, ConnectRequest, ConnectReply, ReplyStatus, success, bad_key, unknown,
  unset, connect_complete, find_connect, handle_connect_reply, process_recv_connect_reply,
  process_recv_connect_request, if_changed, restart_receiving, start_sending, set_true, connected,
}

-- What one endpoint knows, when the other has the session `other`, and they expect the numbers `own`
-- and `theirs`.
pub record IsHalf (own theirs other : ℕ) (s : Side) (requests : List ConnectRequest)
    (replies : List ConnectReply) : Type 0 where
  pub match : s.link.next_match_recv_seq ≡ own
  pub frag : s.link.next_frag_recv_seq ≡ own
  pub true_ :
      (s.link.true_session_id ≡ unset)
      ⊎ ((s.link.true_session_id ≡ other)
          × (s.link.next_send_seq ≡ theirs)
          × (s.link.next_acked_send_seq ≡ theirs))
  pub back : (s.link.back_session_id ≡ unset) ⊎ (s.link.back_session_id ≡ other)
  pub requests_ok :
      All
        (λ (e : ConnectRequest).
          (e.src_session_id ≡ s.session_id) × (e.target_recv_seqnum_start ≡ own))
        requests
  pub replies_ok :
      All
        (λ (e : ConnectReply).
          (e.target_session_id ≡ s.session_id) × (e.target_recv_seqnum_start ≡ own))
        replies

-- A partner that is known does not lose its requests.
if_changed-same :
    (session : ℕ) (s : Side)
    → (s.link.back_session_id ≡ unset) ⊎ (s.link.back_session_id ≡ session)
    → if_changed session s ≡ s
if_changed-same session s h = elim h [ inl e ↦ ground (arith, e) | inr e ↦ ground (arith, e) ]

restart-same :
    (session : ℕ) (s : Side)
    → (s.link.back_session_id ≡ unset) ⊎ (s.link.back_session_id ≡ session)
    → reset s.link.next_match_recv_seq ≡ s.link.next_match_recv_seq
    → reset s.link.next_frag_recv_seq ≡ s.link.next_frag_recv_seq
    → restart_receiving session s ≡ s
restart-same session s h first_match first_frag =
    let e = if_changed-same session s h in ground (arith, e, first_match, first_frag)

-- The messages to a partner start from the number that it named, or go on from there.
start_sending-starts :
    (session begins theirs : ℕ) (p : Link)
    → session ≢ unset
    → begins ≡ theirs
    → (p.true_session_id ≡ unset)
      ⊎ ((p.true_session_id ≡ session)
          × (p.next_send_seq ≡ theirs)
          × (p.next_acked_send_seq ≡ theirs))
    → ((start_sending session begins p).next_send_seq ≡ theirs)
      × ((start_sending session begins p).next_acked_send_seq ≡ theirs)
start_sending-starts session begins theirs p real begin h = elim h [
  | inl none_yet ↦
      let new = ne→== p.true_session_id session (λ e. real (sym e ∙ none_yet)) in
      (rw new begin, rw new begin)
  | inr known ↦
      let old = eq→== p.true_session_id session known.0 in (rw old known.1, rw old known.2)
]

ReplyStatus-cases : (x : ReplyStatus) → (x ≡ success) ⊎ (x ≡ bad_key) ⊎ (x ≡ unknown)
ReplyStatus-cases success = inl refl
ReplyStatus-cases bad_key = inr (inl refl)
ReplyStatus-cases unknown = inr (inr refl)

module _ (own theirs other : ℕ) (s : Side) (requests : List ConnectRequest)
    (replies : List ConnectReply) (first : reset own ≡ own) (real : other ≢ unset)
    (h : IsHalf own theirs other s requests replies) where
  -- The other endpoint asks to connect.
  pub asked-IsHalf :
      (e : ConnectRequest)
      → e.src_session_id ≡ other
      → e.target_recv_seqnum_start ≡ theirs
      → let x = process_recv_connect_request e s in
        IsHalf own theirs other x.0 requests (x.1 ∷ replies) × (x.0.session_id ≡ s.session_id)
  unfolding process_recv_connect_request
  asked-IsHalf e src begin =
      let back : (s.link.back_session_id ≡ unset) ⊎ (s.link.back_session_id ≡ e.src_session_id) =
        rw src h.back in
      let same = restart-same e.src_session_id s back (rw h.match first) (rw h.frag first) in
      let sends =
        start_sending-starts e.src_session_id e.target_recv_seqnum_start theirs s.link
          (λ u. real (sym src ∙ u)) begin (rw src h.true_) in
      rw same (
        record {
          match = ground (arith, h.match);
          frag = ground (arith, h.frag);
          true_ = inr (src, sends.0, sends.1);
          back = inr src;
          requests_ok = h.requests_ok;
          replies_ok = ((refl, ground (arith, h.match)), h.replies_ok);
        },
        refl,
      )

  -- A reply is handled.
  handled-IsHalf :
      (id : ℕ) (e : ConnectReply)
      → e.target_session_id ≡ other
      → e.target_recv_seqnum_start ≡ theirs
      → IsHalf own theirs other (handle_connect_reply id e s) requests replies
        × ((handle_connect_reply id e s).session_id ≡ s.session_id)
  unfolding handle_connect_reply connect_complete
  handled-IsHalf id e target begin =
      let c = λ (x : Completion). connect_complete x id s in
      let back : (s.link.back_session_id ≡ unset) ⊎ (s.link.back_session_id ≡ e.target_session_id) =
        rw target h.back in
      let same = if_changed-same e.target_session_id (c connected) back in
      let sends =
        start_sending-starts e.target_session_id e.target_recv_seqnum_start theirs
          (c connected).link (λ u. real (sym target ∙ u)) begin (rw target h.true_) in
      elim (ReplyStatus-cases e.status) [
        | inl ok ↦
            let r : handle_connect_reply id e s ≡ set_true e (c connected) = rw (ok, same) refl in
            rw r (
              record {
                match = ground (arith, h.match);
                frag = ground (arith, h.frag);
                true_ = inr (target, sends.0, sends.1);
                back = ground (arith, h.back);
                requests_ok = h.requests_ok;
                replies_ok = h.replies_ok;
              },
              refl,
            )
        | inr (inl refused) ↦ rw refused (
          record {
            match = h.match;
            frag = h.frag;
            true_ = h.true_;
            back = h.back;
            requests_ok = h.requests_ok;
            replies_ok = h.replies_ok;
          },
          refl,
        )
        | inr (inr ignored) ↦ rw ignored (h, refl)
      ]

  -- The other endpoint replies.
  pub answered-IsHalf :
      (e : ConnectReply)
      → e.target_session_id ≡ other
      → e.target_recv_seqnum_start ≡ theirs
      → IsHalf own theirs other (process_recv_connect_reply e s) requests replies
        × ((process_recv_connect_reply e s).session_id ≡ s.session_id)
  unfolding process_recv_connect_reply
  answered-IsHalf e target begin = elim (Bool-cases (e.src_session_id == s.session_id)) [
    | inr other_session ↦ rw other_session (h, refl)
    | inl mine ↦ elim (Option-cases (find_connect e.connect_seqnum s.link.connect_req_q)) [
      | inl missing ↦ rw (mine, missing) (h, refl)
      | inr (id, found) ↦ rw (mine, found) (handled-IsHalf id e target begin)
    ]
  ]
