-- ===== src/Channel/Invariant.antt =====
-- The invariant of a channel, step by step.
use open_mx.Common.{
  ℕ, ◌+◌, ◌-◌, ◌<◌, ◌≤◌, ◌≡◌, sym, ap, subst, ◌∙◌, ◌⊎◌, inl, inr, List, [], ◌∷◌, ◌++◌, some, length,
  get_elem?, append-nil, arith,
}
use open_mx.Seqnum.{diff, wire}
use open_mx.Seqnum.Laws.{diff-ge}
use open_mx.Recv.Defs.{Msg, Matching}
use open_mx.Recv.Window.{oldest, oldest-le}
use open_mx.Recv.Early.{All, All-map}
use open_mx.Recv.Delivery.{Run}
use open_mx.Recv.Session.{IsReceiver}
use open_mx.Send.Defs.{Request, Sender}
use open_mx.Send.Ops.{submit}
use open_mx.Send.Ack.{handle_ack}
use open_mx.Send.Window.{IsSender, IsThrottled, submitted}
use open_mx.Send.Throttle.{submit-Submitted, missing}
use open_mx.Send.Acked.{handle_ack-Acknowledged}
use open_mx.Channel.Net.{Net, oldest_of, acked_of}
use open_mx.Channel.Places.{All-get, get_elem?-append}

module _ (num identity : Msg → ℕ) (ses start : ℕ) where
  -- A packet of one of the requests `ids`, with a number that was given, before `s`.
  pub record IsGenuine (ids : List ℕ) (s : ℕ) (m : Msg) : Type 0 where
    pub numbered : m.seqnum ≡ wire ses (num m)
    pub from : start ≤ num m
    pub sent : num m < s
    pub place : get_elem? ids (num m - start) ≡ some (identity m)

  -- An ack for what was complete on the receive side.
  abbrev pub IsAck : ℕ → ℕ × ℕ → Type 0
  IsAck f x = (x.0 ≤ f) × (x.1 ≡ wire ses x.0)

  pub record IsNet {S : Type 0} (matching : Matching S) (n : Net S) : Type 0 where
    pub a : ℕ
    pub s : ℕ
    pub c : ℕ
    pub ns : List ℕ
    pub sender : IsSender ses start a s n.sender
    pub throttled : IsThrottled a s n.sender
    pub receiver : IsReceiver num ses matching c ns n.receiver
    pub behind : a ≤ oldest c ns
    pub run : Run num ses start n.taken c
    pub packets : All (IsGenuine (submitted n.sender) s) n.packets
    pub early : All (IsGenuine (submitted n.sender) s) n.receiver.early_recv_q
    pub taken : All (IsGenuine (submitted n.sender) s) n.taken
    pub acks : All (IsAck (oldest c ns)) n.acks

  Run-length : (b c : ℕ) (ms : List Msg) → Run num ses b ms c → c ≡ b + length ms
  Run-length b c [] v = omega (arith, v)
  Run-length b c (m ∷ ms) v = omega (arith, Run-length (b + 1) c ms v.1)

  pub Run-append :
      (b c d : ℕ) (ms ms' : List Msg)
      → Run num ses b ms c
      → Run num ses c ms' d
      → Run num ses b (ms ++ ms') d
  Run-append b c d [] ms' v w = subst (λ (x : ℕ). Run num ses x ms' d) (sym v) w
  Run-append b c d (m ∷ ms) ms' v w = (v.0, Run-append (b + 1) c d ms ms' v.1 w)

  Run-bound :
      (ids : List ℕ) (s b c : ℕ) (ms : List Msg)
      → b ≤ s
      → Run num ses b ms c
      → All (IsGenuine ids s) ms
      → c ≤ s
  Run-bound ids s b c [] le v w = omega (arith, v, le)
  Run-bound ids s b c (m ∷ ms) le v w =
      Run-bound ids s (b + 1) c ms (omega (arith, v.0, w.0.sent)) v.1 w.1

  -- More requests, with more numbers.
  IsGenuine-more :
      (ids more ids' : List ℕ) (s s' : ℕ) (m : Msg)
      → ids' ≡ ids ++ more
      → s ≤ s'
      → IsGenuine ids s m
      → IsGenuine ids' s' m
  IsGenuine-more ids more ids' s s' m e le v = record {
    numbered = v.numbered;
    from = v.from;
    sent = omega (arith, v.sent);
    place =
        ap (λ (x : List ℕ). get_elem? x (num m - start)) e
        ∙ get_elem?-append ids more (num m - start) (identity m) v.place;
  }

  All-more :
      (ids more ids' : List ℕ) (s s' : ℕ) (ms : List Msg)
      → ids' ≡ ids ++ more
      → s ≤ s'
      → All (IsGenuine ids s) ms
      → All (IsGenuine ids' s') ms
  All-more ids more ids' s s' ms e le =
      All-map (IsGenuine ids s) (IsGenuine ids' s') ms
        (λ (m : Msg) v. IsGenuine-more ids more ids' s s' m e le v)

  module _ {S : Type 0} {matching : Matching S} where
    pub oldest_of-oldest :
        (n : Net S) (v : IsNet matching n)
        → oldest_of matching num identity start n ≡ oldest v.c v.ns
    oldest_of-oldest n v =
        let o = v.receiver.order in
        let le = oldest-le (oldest v.c v.ns) v.c v.ns o.asc in
        let d : diff n.receiver.next_match_recv_seq n.receiver.next_frag_recv_seq
            ≡ v.c - oldest v.c v.ns =
          ap (λ (x : ℕ). diff x n.receiver.next_frag_recv_seq) o.match
          ∙ ap (diff (wire ses v.c)) o.frag
          ∙ diff-ge ses v.c (oldest v.c v.ns) o.session le (omega (arith, o.window)) in
        let l = Run-length start v.c n.taken v.run in omega (arith, d, l, le)

    pub acked_of-acked :
        (n : Net S) (v : IsNet matching n) → acked_of matching num identity start n ≡ v.a
    acked_of-acked n v = omega (arith, missing v.sender, v.sender.count, v.sender.low)

    -- All that was taken had been sent.
    pub taken-sent : (n : Net S) (v : IsNet matching n) → v.c ≤ v.s
    taken-sent n v =
        Run-bound (submitted n.sender) v.s start v.c n.taken (omega (arith, v.sender.count)) v.run
          v.taken

    -- A new state of the sender, that knows all requests of the old one.
    sender-IsNet :
        (n : Net S) (v : IsNet matching n) (p : Sender) (a s : ℕ) (more : List ℕ)
        → IsSender ses start a s p
        → IsThrottled a s p
        → submitted p ≡ submitted n.sender ++ more
        → v.s ≤ s
        → a ≤ oldest v.c v.ns
        → IsNet matching (record n { sender = p })
    sender-IsNet n v p a s more sender throttled e le behind = record {
      a = a;
      s = s;
      c = v.c;
      ns = v.ns;
      sender = sender;
      throttled = throttled;
      receiver = v.receiver;
      behind = behind;
      run = v.run;
      packets = All-more (submitted n.sender) more (submitted p) v.s s n.packets e le v.packets;
      early =
          All-more (submitted n.sender) more (submitted p) v.s s n.receiver.early_recv_q e le
            v.early;
      taken = All-more (submitted n.sender) more (submitted p) v.s s n.taken e le v.taken;
      acks = v.acks;
    }

    pub submits-IsNet :
        (n : Net S) (frags : ℕ) (r : Request)
        → IsNet matching n
        → IsNet matching (record n { sender = submit frags n.sender r })
    submits-IsNet n frags r v =
        let x = submit-Submitted frags ses start v.a v.s n.sender r v.sender v.throttled in
        sender-IsNet n v (submit frags n.sender r) v.a x.upto (r.id ∷ []) x.sender x.throttled
          x.order x.onward v.behind

    pub is_acked-IsNet :
        (n : Net S) (driver : Request → ℕ) (i k w : ℕ)
        → IsNet matching n
        → get_elem? n.acks i ≡ some (k, w)
        → acked_of matching num identity start n ≤ k + 8191
        → IsNet matching (record n { sender = handle_ack driver n.sender w })
    is_acked-IsNet n driver i k w v e recent =
        let ack = All-get (IsAck (oldest v.c v.ns)) n.acks i (k, w) v.acks e in
        let done = oldest-le (oldest v.c v.ns) v.c v.ns v.receiver.order.asc in
        let x =
          handle_ack-Acknowledged driver ses start v.a v.s k n.sender v.sender v.throttled
            (omega (arith, ack.0, done, taken-sent n v))
            (omega (arith, acked_of-acked n v, recent)) in
        subst (λ (w : ℕ). IsNet matching (record n { sender = handle_ack driver n.sender w }))
          (sym ack.1)
          (sender-IsNet n v (handle_ack driver n.sender (wire ses k)) x.acked x.upto [] x.sender
            x.throttled (x.order ∙ sym (append-nil _)) x.onward (bound x.latest.2 ack.0))
      where
        bound :
            {acked : ℕ}
            → (acked ≡ v.a) ⊎ (acked ≡ k)
            → k ≤ oldest v.c v.ns
            → acked ≤ oldest v.c v.ns
        bound (inl e) le = omega (arith, e, v.behind)
        bound (inr e) le = omega (arith, e, le)
