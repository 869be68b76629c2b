-- ===== src/Partners/Handshake.antt =====
-- One connection: the request, its handling by the other endpoint, and the reply.
use open_mx.Common.{
  ℕ, ◌+◌, ◌%◌, ◌≡◌, ◌≢◌, refl, sym, ap, subst, ◌∙◌, ◌⊎◌, inl, inr, List, [], ◌∷◌, ◌++◌, some, arith,
  eq→==, ne→==,
}
use open_mx.Seqnum.{reset, seqnum}
use open_mx.Partners.{
  Side, Connecting, connected, bad_connection_key, ConnectRequest, ConnectReply, success, unset,
  connect, connect_complete, dequeue_connect, find_connect, handle_connect_reply,
  process_recv_connect_reply, process_recv_connect_request, partner_cleanup, partner_reset,
}

-- A connection of `a` to `b`, whose messages arrive.
abbrev pub exchange : ℕ → ℕ → Side → Side → Side × Side
exchange id key a b =
    let x = connect id key a in
    let y = process_recv_connect_request x.1 b in (process_recv_connect_reply y.1 x.0, y.0)

-- No request that waits has this id or this number.
abbrev pub IsNew : ℕ → ℕ → List Connecting → Type 0
IsNew id seqnum [] = Unit {0}
IsNew id seqnum (c ∷ cs) = (c.id ≢ id) × (seqnum ≢ c.connect_seqnum) × IsNew id seqnum cs

find_connect-new :
    (id seqnum : ℕ) (cs : List Connecting)
    → IsNew id seqnum cs
    → find_connect seqnum (cs ++ record { id = id; connect_seqnum = seqnum } ∷ []) ≡ some id
unfolding find_connect
find_connect-new id seqnum [] h = ground (arith, eq→== seqnum seqnum refl)
find_connect-new id seqnum (c ∷ cs) h =
    ground (arith, ne→== seqnum c.connect_seqnum h.1, find_connect-new id seqnum cs h.2)

dequeue_connect-new :
    (id seqnum : ℕ) (cs : List Connecting)
    → IsNew id seqnum cs
    → dequeue_connect id (cs ++ record { id = id; connect_seqnum = seqnum } ∷ []) ≡ cs
dequeue_connect-new id seqnum [] h = ground (arith, eq→== id id refl)
dequeue_connect-new id seqnum (c ∷ cs) h =
    ground (arith, ne→== c.id id h.0, dequeue_connect-new id seqnum cs h.2)

-- A reply for this endpoint, with the number of a request that waits.
reply_for :
    (e : ConnectReply) (s : Side) (id : ℕ)
    → e.src_session_id ≡ s.session_id
    → find_connect e.connect_seqnum s.link.connect_req_q ≡ some id
    → process_recv_connect_reply e s ≡ handle_connect_reply id e s
unfolding process_recv_connect_reply
reply_for e s id mine found = ground (arith, eq→== e.src_session_id s.session_id mine)

-- A successful reply of a new instance, whose predecessor is not known.
handle-success :
    (id : ℕ) (e : ConnectReply) (s : Side)
    → e.status ≡ success
    → s.link.true_session_id ≢ e.target_session_id
    → (s.link.back_session_id ≡ unset) ⊎ (s.link.back_session_id ≡ e.target_session_id)
    → handle_connect_reply id e s ≡ record s {
      link = record s.link {
        connect_req_q = dequeue_connect id s.link.connect_req_q;
        true_session_id = e.target_session_id;
        next_send_seq = e.target_recv_seqnum_start;
        next_acked_send_seq = e.target_recv_seqnum_start;
      };
      completed = s.completed ++ (id, connected) ∷ [];
    }
unfolding handle_connect_reply connect_complete
handle-success id e s ok first calm =
    let new = ne→== s.link.true_session_id e.target_session_id first in
    elim calm [
      | inl none_yet ↦ ground (arith, new, none_yet)
      | inr same ↦ ground (arith, new, same)
    ]

-- A successful reply of an instance that is connected already does not touch the numbers.
handle-again :
    (id : ℕ) (e : ConnectReply) (s : Side)
    → e.status ≡ success
    → s.link.true_session_id ≡ e.target_session_id
    → s.link.back_session_id ≡ e.target_session_id
    → (handle_connect_reply id e s).link.next_send_seq ≡ s.link.next_send_seq
unfolding handle_connect_reply connect_complete
handle-again id e s ok known back = ground (arith, known, back)

-- Starting again from the number 1 changes a number that has been used.
reset-ne : (x y : ℕ) → seqnum x ≢ 1 → y ≡ x → y ≢ reset x
reset-ne x y used same e = used (omega (arith, same, e))

module _ (id key : ℕ) (a b : Side) (new : IsNew id a.link.connect_seqnum a.link.connect_req_q) where
  abbrev asked : Side × ConnectRequest
  asked = connect id key a

  abbrev answered : Side × ConnectReply
  answered = process_recv_connect_request asked.1 b

  -- The reply is for the request, which waits.
  reply-handled :
      process_recv_connect_reply answered.1 asked.0 ≡ handle_connect_reply id answered.1 asked.0
  unfolding process_recv_connect_request connect
  reply-handled =
      reply_for answered.1 asked.0 id refl
        (find_connect-new id a.link.connect_seqnum a.link.connect_req_q new)

  -- A connection by a request with an id and a number that no waiting request has, and with a key that is
  -- not that of the other endpoint: the request completes with a bad key, and the partner stays as it was
  -- but for the number of the next connect request.
  pub exchange-refuses :
      key ≢ b.app_key
      → (exchange id key a b).0 ≡ record a {
        link = record a.link { connect_seqnum = (a.link.connect_seqnum + 1) % 256 };
        completed = a.completed ++ (id, bad_connection_key) ∷ [];
      }
  unfolding process_recv_connect_request connect handle_connect_reply connect_complete
  exchange-refuses wrong =
      reply-handled
      ∙ rw
          (
            ne→== key b.app_key wrong,
            dequeue_connect-new id a.link.connect_seqnum a.link.connect_req_q new,
          )
          refl

  -- What a successful connection leaves: both know the session of the other, the request completed and
  -- waits no more, and the messages of `a` start from the number that `b` expects.
  pub record Connects (a' b' : Side) : Type 0 where
    pub knows : a'.link.true_session_id ≡ b.session_id
    pub known : (b'.link.true_session_id ≡ a.session_id) × (b'.link.back_session_id ≡ a.session_id)
    pub completed : a'.completed ≡ a.completed ++ (id, connected) ∷ []
    pub queue : a'.link.connect_req_q ≡ a.link.connect_req_q
    pub sends : a'.link.next_send_seq ≡ b'.link.next_match_recv_seq
    pub acked : a'.link.next_acked_send_seq ≡ b'.link.next_match_recv_seq
    pub back :
        b.link.true_session_id ≢ a.session_id
        → (b'.link.next_send_seq ≡ a'.link.next_match_recv_seq)
          × (b'.link.next_acked_send_seq ≡ a'.link.next_match_recv_seq)
    pub restarts :
        b.link.back_session_id ≢ a.session_id
        → b'.link.next_match_recv_seq ≡ reset b.link.next_match_recv_seq

  -- The partner of `a` afterwards.
  abbrev joined : Side
  joined =
      let start = answered.0.link.next_match_recv_seq in
      record a {
        link = record a.link {
          connect_seqnum = (a.link.connect_seqnum + 1) % 256;
          true_session_id = b.session_id;
          next_send_seq = start;
          next_acked_send_seq = start;
        };
        completed = a.completed ++ (id, connected) ∷ [];
      }

  exchange-joined :
      key ≡ b.app_key
      → a.link.true_session_id ≢ b.session_id
      → (a.link.back_session_id ≡ unset) ⊎ (a.link.back_session_id ≡ b.session_id)
      → (exchange id key a b).0 ≡ joined
  unfolding process_recv_connect_request connect
  exchange-joined right first calm =
      let queue = dequeue_connect-new id a.link.connect_seqnum a.link.connect_req_q new in
      let ok : answered.1.status ≡ success = rw (eq→== key b.app_key right) refl in
      reply-handled ∙ handle-success id answered.1 asked.0 ok first calm ∙ rw queue refl

  -- A connection of `a`, which has a session id, to `b`, by a request with the right key and with an id
  -- and a number that no waiting request has; `a` does not know the session of `b` yet, and no other
  -- instance of `b` has asked it. Then both know each other's session, and the request has completed and
  -- waits no more. The messages of `a` start from the number that `b` expects; those of `b` start from
  -- the number that `a` expects, unless `b` knew the session of `a`. If `a` had not asked `b` before,
  -- `b` starts from the number 1 of its session again.
  pub exchange-Connects :
      a.session_id ≢ unset
      → key ≡ b.app_key
      → a.link.true_session_id ≢ b.session_id
      → (a.link.back_session_id ≡ unset) ⊎ (a.link.back_session_id ≡ b.session_id)
      → Connects (exchange id key a b).0 (exchange id key a b).1
  unfolding process_recv_connect_request connect partner_cleanup partner_reset
  exchange-Connects real right first calm =
      subst (λ x. Connects x answered.0) (sym (exchange-joined right first calm))
        (record {
          knows = refl;
          known = (refl, refl);
          completed = refl;
          queue = refl;
          sends = refl;
          acked = refl;
          back = λ n. (ground arith, ground arith);
          restarts = λ n. ground arith;
        })

  -- Of two endpoints with session ids that are connected by a request of `b`, which knows the session of
  -- `a` from its reply only, and that agree on a number other than 1, since `b` received messages: a
  -- connection by `a` with the right key, by a request with an id and a number that no waiting request
  -- has, makes `b` expect the number 1 again, while `a` goes on with its numbers, so that they disagree.
  pub exchange-diverges :
      key ≡ b.app_key
      → a.link.true_session_id ≡ b.session_id
      → b.link.true_session_id ≡ a.session_id
      → b.link.back_session_id ≡ unset
      → a.session_id ≢ unset
      → a.link.back_session_id ≡ b.session_id
      → a.link.next_send_seq ≡ b.link.next_match_recv_seq
      → seqnum b.link.next_match_recv_seq ≢ 1
      → ((exchange id key a b).0.link.next_send_seq ≡ a.link.next_send_seq)
        × ((exchange id key a b).1.link.next_match_recv_seq ≡ reset b.link.next_match_recv_seq)
        × ((exchange id key a b).0.link.next_send_seq
            ≢ (exchange id key a b).1.link.next_match_recv_seq)
  unfolding process_recv_connect_request connect handle_connect_reply connect_complete
  exchange-diverges right joined_a joined_b unknown real back agree received =
      let ok : answered.1.status ≡ success = rw (eq→== key b.app_key right) refl in
      let kept : (exchange id key a b).0.link.next_send_seq ≡ a.link.next_send_seq =
        ap (λ s. s.link.next_send_seq) reply-handled
        ∙ handle-again id answered.1 asked.0 ok joined_a back in
      let restarted : (exchange id key a b).1.link.next_match_recv_seq
          ≡ reset b.link.next_match_recv_seq =
        ground arith in
      (kept, restarted, λ same. reset-ne _ _ received agree (sym kept ∙ same ∙ restarted))
