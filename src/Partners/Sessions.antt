-- ===== src/Partners/Sessions.antt =====
-- Any number of connections between two endpoints before messages are sent: requests and replies may
-- be lost, repeated and reordered, and both endpoints may connect at once.
use open_mx.Common.{ℕ, ◌≡◌, ◌≢◌, refl, sym, subst, ◌∙◌, inl, inr, List, [], ◌∷◌, ◌++◌, arith}
use open_mx.Recv.Early.{All}
use open_mx.Seqnum.{reset, seqnum, sesnum, wire}
use open_mx.Partners.{
  Side, ConnectRequest, ConnectReply, unset, connect, connect_request, process_recv_connect_reply,
  process_recv_connect_request, partner_reset,
}
use open_mx.Partners.Half.{IsHalf, asked-IsHalf, answered-IsHalf}

-- The n-th element satisfies what all do.
All-middle :
    {A : Type 0} (P : A → Type 0) (xs : List A) (x : A) (ys : List A) → All P (xs ++ x ∷ ys) → P x
All-middle P [] x ys h = h.0
All-middle P (y ∷ xs) x ys h = All-middle P xs x ys h.1

-- Two endpoints, with the requests and the replies that each has sent so far.
pub record Net : Type 0 where
  pub a : Side
  pub b : Side
  pub requests_a : List ConnectRequest
  pub requests_b : List ConnectRequest
  pub replies_a : List ConnectReply
  pub replies_b : List ConnectReply

abbrev pub flip : Net → Net
flip n = record {
  a = n.b;
  b = n.a;
  requests_a = n.requests_b;
  requests_b = n.requests_a;
  replies_a = n.replies_b;
  replies_b = n.replies_a;
}

-- A step of `a`: it connects, or sends a request again, or one of the messages of `b` arrives.
pub data StepA (n : Net) : Net → Type 0 where
  connects :
      (id key : ℕ)
      → StepA n (record n {
        a = (connect id key n.a).0;
        requests_a = (connect id key n.a).1 ∷ n.requests_a;
      })
  resends :
      (key seqnum : ℕ)
      → StepA n (record n { requests_a = connect_request n.a key seqnum ∷ n.requests_a })
  asked :
      (xs : List ConnectRequest) (e : ConnectRequest) (ys : List ConnectRequest)
      → n.requests_b ≡ xs ++ e ∷ ys
      → StepA n (record n {
        a = (process_recv_connect_request e n.a).0;
        replies_a = (process_recv_connect_request e n.a).1 ∷ n.replies_a;
      })
  answered :
      (xs : List ConnectReply) (e : ConnectReply) (ys : List ConnectReply)
      → n.replies_b ≡ xs ++ e ∷ ys
      → StepA n (record n { a = process_recv_connect_reply e n.a })

pub data Run (n : Net) : Net → Type 0 where
  start : Run n n
  then_a : {n' n'' : Net} → Run n n' → StepA n' n'' → Run n n''
  then_b : {n' n'' : Net} → Run n n' → StepA (flip n') n'' → Run n (flip n'')

-- Both endpoints expect numbers that a connection does not change, and know of each other only what is
-- true.
pub record IsNet (na nb sa sb : ℕ) (n : Net) : Type 0 where
  pub sessions : (n.a.session_id ≡ sa) × (n.b.session_id ≡ sb)
  pub half_a : IsHalf na nb sb n.a n.requests_a n.replies_a
  pub half_b : IsHalf nb na sa n.b n.requests_b n.replies_b

module _ (na nb sa sb : ℕ) (first_a : reset na ≡ na) (real_b : sb ≢ unset) where
  -- What a step of `a` does, whichever endpoint is called so.
  StepA-IsNet : {n n' : Net} → StepA n n' → IsNet na nb sa sb n → IsNet na nb sa sb n'
  unfolding connect
  StepA-IsNet {n} (connects id key) v = record {
    sessions = v.sessions;
    half_a = record {
      match = v.half_a.match;
      frag = v.half_a.frag;
      true_ = v.half_a.true_;
      back = v.half_a.back;
      requests_ok = ((refl, v.half_a.match), v.half_a.requests_ok);
      replies_ok = v.half_a.replies_ok;
    };
    half_b = v.half_b;
  }
  StepA-IsNet {n} (resends key seqnum) v = record {
    sessions = v.sessions;
    half_a = record {
      match = v.half_a.match;
      frag = v.half_a.frag;
      true_ = v.half_a.true_;
      back = v.half_a.back;
      requests_ok = ((refl, v.half_a.match), v.half_a.requests_ok);
      replies_ok = v.half_a.replies_ok;
    };
    half_b = v.half_b;
  }
  StepA-IsNet {n} (asked xs e ys sent) v =
      let P = λ (e : ConnectRequest).
        (e.src_session_id ≡ n.b.session_id) × (e.target_recv_seqnum_start ≡ nb) in
      let ok = All-middle P xs e ys (subst (All P) sent v.half_b.requests_ok) in
      let x =
        asked-IsHalf na nb sb n.a n.requests_a n.replies_a first_a real_b v.half_a e
          (ok.0 ∙ v.sessions.1) ok.1 in
      record { sessions = (x.1 ∙ v.sessions.0, v.sessions.1); half_a = x.0; half_b = v.half_b }
  StepA-IsNet {n} (answered xs e ys sent) v =
      let P = λ (e : ConnectReply).
        (e.target_session_id ≡ n.b.session_id) × (e.target_recv_seqnum_start ≡ nb) in
      let ok = All-middle P xs e ys (subst (All P) sent v.half_b.replies_ok) in
      let x =
        answered-IsHalf na nb sb n.a n.requests_a n.replies_a first_a real_b v.half_a e
          (ok.0 ∙ v.sessions.1) ok.1 in
      record { sessions = (x.1 ∙ v.sessions.0, v.sessions.1); half_a = x.0; half_b = v.half_b }

-- The same, seen from the other endpoint.
flip-IsNet : {na nb sa sb : ℕ} {n : Net} → IsNet na nb sa sb n → IsNet nb na sb sa (flip n)
flip-IsNet v = record {
  sessions = (v.sessions.1, v.sessions.0);
  half_a = v.half_b;
  half_b = v.half_a;
}

Run-IsNet :
    (na nb sa sb : ℕ) {n n' : Net}
    → reset na ≡ na
    → reset nb ≡ nb
    → sa ≢ unset
    → sb ≢ unset
    → Run n n'
    → IsNet na nb sa sb n
    → IsNet na nb sa sb n'
Run-IsNet na nb sa sb fa fb ra rb start v = v
Run-IsNet na nb sa sb fa fb ra rb (then_a r st) v =
    StepA-IsNet na nb sa sb fa rb st (Run-IsNet na nb sa sb fa fb ra rb r v)
Run-IsNet na nb sa sb fa fb ra rb (then_b {n' = m} r st) v =
    flip-IsNet (
      StepA-IsNet nb na sb sa fb ra st (flip-IsNet {n = m} (Run-IsNet na nb sa sb fa fb ra rb r v)))

-- Two endpoints whose partners were just created or reset, and that have sent nothing.
abbrev pub fresh : Side → Side → Net
fresh a b = record {
  a = record a { link = partner_reset a.link };
  b = record b { link = partner_reset b.link };
  requests_a = [];
  requests_b = [];
  replies_a = [];
  replies_b = [];
}

fresh-IsHalf :
    (theirs other : ℕ) (s : Side)
    → IsHalf
        (reset s.link.next_match_recv_seq)
        theirs
        other
        (record s { link = partner_reset s.link })
        []
        []
unfolding partner_reset
fresh-IsHalf theirs other s = record {
  match = refl;
  frag = refl;
  true_ = inl refl;
  back = inl refl;
  requests_ok = tt;
  replies_ok = tt;
}

-- An endpoint that knows the session of the other one sends from the number that the other expects.
abbrev pub Agree : Side → Side → Type 0
Agree s t =
    s.link.true_session_id ≡ t.session_id
    → (s.link.next_send_seq ≡ t.link.next_match_recv_seq)
      × (s.link.next_acked_send_seq ≡ t.link.next_match_recv_seq)
      × (t.link.next_frag_recv_seq ≡ t.link.next_match_recv_seq)
      × (s.link.next_send_seq ≡ wire (sesnum s.link.next_send_seq) 1)

IsHalf-Agree :
    (na nb sa sb : ℕ) (n : Net) → reset nb ≡ nb → sb ≢ unset → IsNet na nb sa sb n → Agree n.a n.b
IsHalf-Agree na nb sa sb n first real v knows = elim v.half_a.true_ [
  | inl none_yet ↦ absurd (real (sym (v.sessions.1) ∙ sym knows ∙ none_yet))
  | inr known ↦ (
    known.1 ∙ sym v.half_b.match,
    known.2 ∙ sym v.half_b.match,
    v.half_b.frag ∙ sym v.half_b.match,
    rw known.1 (sym first),
  )
]

-- Two endpoints with session ids, whose partners are new: over any run of connections, by one of them
-- or by both, with requests and replies that may be lost, repeated or reordered, an endpoint that knows
-- the session of the other one sends from the number that the other expects, the first of a session.
pub Run-Agree :
    (a b : Side) (n : Net)
    → a.session_id ≢ unset
    → b.session_id ≢ unset
    → Run (fresh a b) n
    → Agree n.a n.b × Agree n.b n.a
Run-Agree a b n real_a real_b run =
    let na = reset a.link.next_match_recv_seq in
    let nb = reset b.link.next_match_recv_seq in
    let first : (x : ℕ) → reset (reset x) ≡ reset x = λ x. omega arith in
    let fa = first a.link.next_match_recv_seq in
    let fb = first b.link.next_match_recv_seq in
    let v0 : IsNet na nb a.session_id b.session_id (fresh a b) = record {
      sessions = (refl, refl);
      half_a = fresh-IsHalf nb b.session_id a;
      half_b = fresh-IsHalf na a.session_id b;
    } in
    let v = Run-IsNet na nb a.session_id b.session_id fa fb real_a real_b run v0 in
    (
      IsHalf-Agree na nb a.session_id b.session_id n fb real_b v,
      IsHalf-Agree nb na b.session_id a.session_id (flip n) fa real_a (flip-IsNet v),
    )
