-- ===== src/Recv/Session.antt =====
-- All that comes for a session: what the receive side keeps, and the messages that it takes.
use open_mx.Common.{
  ℕ, ◌+◌, ◌-◌, ◌^◌, ◌<◌, ◌≤◌, ◌≡◌, refl, sym, ap, subst, ◌∙◌, inl, inr, Bool, true, false, List, [],
  ltb, leb, ◌==◌, if◌then◌else◌, arith, Bool-cases, eq→==, ne→==, ltb→lt, ltb→ge,
}
use open_mx.Seqnum.{diff, wire, early_packet_offset_max}
use open_mx.Seqnum.Laws.{diff-ge, diff-lt}
use open_mx.Recv.Defs.{Msg, Matching, Receiver, mark_need_ack_immediate}
use open_mx.Recv.Order.{ordered_recv, early_loop, session_recv}
use open_mx.Recv.Window.{IsMatching, oldest, oldest-le, IsOrder}
use open_mx.Recv.Turn.{Moves, ordered_recv-Turn}
use open_mx.Recv.Early.{All, All-map, postpone_early-All}
use open_mx.Recv.Delivery.{IsNumbered, IsEarly, Run, Looped, early_loop-Looped}

-- The order depends on three fields.
pub IsOrder-alike :
    {S : Type 0} {matching : Matching S} {ses c : ℕ} {ns : List ℕ} (r r' : Receiver S)
    → IsOrder matching ses c ns r
    → r'.next_match_recv_seq ≡ r.next_match_recv_seq
    → r'.next_frag_recv_seq ≡ r.next_frag_recv_seq
    → r'.requests ≡ r.requests
    → IsOrder matching ses c ns r'
IsOrder-alike {matching = matching} r r' v match frag requests = record {
  session = v.session;
  match = match ∙ v.match;
  frag = frag ∙ v.frag;
  partials = ap matching.partials requests ∙ v.partials;
  asc = v.asc;
  window = v.window;
}

module _ (num : Msg → ℕ) (ses : ℕ) where
  -- The receive side after `c` messages, when those of `ns` are partial.
  pub record IsReceiver {S : Type 0} (matching : Matching S) (c : ℕ) (ns : List ℕ) (r : Receiver S)
      : Type 0 where
    pub order : IsOrder matching ses c ns r
    pub early : All (IsEarly num ses c (oldest c ns)) r.early_recv_q

  -- The receive side after what came, and the messages it took then: those from `c` on, in order.
  pub record Delivered {S : Type 0} (matching : Matching S) (c f : ℕ) (x : Receiver S × List Msg)
      : Type 0 where
    pub count : ℕ
    pub partial : List ℕ
    pub receiver : IsReceiver matching count partial x.0
    pub forward : f ≤ oldest count partial
    pub run : Run num ses c x.1 count

  -- The bounds of an early packet.
  between :
      (n f c index gap : ℕ)
      → ses < 4
      → f ≤ n + 7900
      → n < f + 8191
      → f ≤ c
      → c ≤ f + 8191
      → index ≡ diff (wire ses n) (wire ses f)
      → gap ≡ c - f
      → leb index gap ≡ false
      → leb index (gap + early_packet_offset_max) ≡ true
      → (c ≤ n) × (n ≤ c + early_packet_offset_max)
  between n f c index gap s lo hi le w i g ahead early = elim (Bool-cases (ltb n f)) [
    | inl b ↦
        let older = ltb→lt n f b in
        let d = i ∙ diff-lt ses n f s older (omega arith) in (ground (arith, d), ground (arith, d))
    | inr b ↦
        let newer = ltb→ge n f b in
        let d = i ∙ diff-ge ses n f s newer (omega arith) in (ground (arith, d), ground (arith, d))
  ]

  nearer : {c f f' : ℕ} {e : Msg} → f ≤ f' → IsEarly num ses c f e → IsEarly num ses c f' e
  nearer le w = record {
    numbered = w.numbered;
    later = w.later;
    near = w.near;
    sent = omega (arith, le, w.sent);
  }

  module _ {S : Type 0} {matching : Matching S} (laws : IsMatching matching)
      (not_acked_max now : ℕ) where
    early_loop-wire :
        (c f old index : ℕ) (r1 : Receiver S)
        → old ≡ wire ses c
        → index ≡ 1
        → Looped num ses laws not_acked_max now c
            (c + 1)
            f
            (early_loop matching not_acked_max now (wire ses c) 1 r1.early_recv_q r1)
        → Looped num ses laws not_acked_max now c
            (c + 1)
            f
            (early_loop matching not_acked_max now old index r1.early_recv_q r1)
    early_loop-wire c f old index r1 e i x = rw (e, i) x

    -- The message `c` is taken, and the early ones that follow.
    taken-Delivered :
        (memory : Bool) (c : ℕ) (ns : List ℕ) (r : Receiver S) (m : Msg)
        → IsReceiver matching c ns r
        → leb (diff m.seqnum r.next_frag_recv_seq) (diff r.next_match_recv_seq r.next_frag_recv_seq)
          ≡ true
        → num m ≡ c
        → (ordered_recv matching not_acked_max now r m).1 ≡ true
        → Moves matching ses c ns r (ordered_recv matching not_acked_max now r m).0 (c + 1)
        → Delivered matching c (oldest c ns) (session_recv matching not_acked_max now memory r m)
    unfolding session_recv
    taken-Delivered memory c ns r m v due own taken moves =
        let s : ses < 4 = v.order.session in
        let r1 = (ordered_recv matching not_acked_max now r m).0 in
        let old = r.next_match_recv_seq in
        let index : diff r1.next_match_recv_seq old ≡ 1 =
          ap (λ (x : ℕ). diff x old) moves.order.match
          ∙ ap (diff (wire ses (c + 1))) v.order.match
          ∙ diff-ge ses (c + 1) c s (omega arith) (omega arith)
          ∙ omega arith in
        let moved : (old == r1.next_match_recv_seq) ≡ false =
          ne→== old r1.next_match_recv_seq (λ (e : old ≡ r1.next_match_recv_seq).
            let z : wire ses c ≡ wire ses (c + 1) = sym v.order.match ∙ e ∙ moves.order.match in
            absurd (omega (arith, z, s))) in
        let early : All (IsEarly num ses c (oldest c ns)) r1.early_recv_q =
          subst (All (IsEarly num ses c (oldest c ns))) (sym moves.early) v.early in
        let y =
          early_loop-Looped num ses laws not_acked_max now c (c + 1) (oldest c ns) moves.now_partial
            r1.early_recv_q r1 moves.order (omega arith) (omega arith) moves.forward early in
        let x =
          early_loop-wire c (oldest c ns) old (diff r1.next_match_recv_seq old) r1 v.order.match
            index y in
        rw (due, moved, taken)
          (record {
            count = x.count;
            partial = x.ns;
            receiver = record {
              order = IsOrder-alike _ _ x.order refl refl refl;
              early =
                  All-map (IsEarly num ses x.count (oldest c ns)) _ _
                    (λ (e : Msg) w. nearer x.forward w) x.kept;
            };
            forward = x.forward;
            run = (own, x.run);
          })

    -- From a receive side after c messages, which is IsReceiver, a packet with the number of its
    -- message, at most 7900 before the oldest incomplete message and less than 8191 after it,
    -- leaves an IsReceiver after some later count: the messages taken are numbered c, c + 1 and so
    -- on up to that count, and the oldest incomplete message does not go back. The packet may be
    -- new, early, a duplicate or obsolete, and memory may be short.
    pub session_recv-Delivered :
        (memory : Bool) (c : ℕ) (ns : List ℕ) (r : Receiver S) (m : Msg)
        → IsReceiver matching c ns r
        → IsNumbered num ses m
        → oldest c ns ≤ num m + 7900
        → num m < oldest c ns + 8191
        → Delivered matching c (oldest c ns) (session_recv matching not_acked_max now memory r m)
    unfolding session_recv
    session_recv-Delivered memory c ns r m v numbered lo hi =
        let frag_index = diff m.seqnum r.next_frag_recv_seq in
        let frag_index_max = diff r.next_match_recv_seq r.next_frag_recv_seq in
        elim (Bool-cases (leb frag_index frag_index_max)) [
          | inl due ↦
              let t =
                ordered_recv-Turn laws not_acked_max now ses c (num m) ns r m v.order numbered lo
                  hi in
              elim t.turn [
                | inl (taken, own, next) ↦
                    taken-Delivered memory c ns r m v due own taken
                      (subst (Moves matching ses c ns r _) next t.moves)
                | inr (missed, same) ↦
                    let moves = subst (Moves matching ses c ns r _) same t.moves in
                    rw
                      (
                        due,
                        missed,
                        stays r.next_match_recv_seq _ (moves.order.match ∙ sym v.order.match),
                      )
                      (record {
                        count = c;
                        partial = moves.now_partial;
                        receiver = record {
                          order = moves.order;
                          early =
                              subst (All (IsEarly num ses c (oldest c moves.now_partial)))
                                (sym moves.early)
                                (All-map (IsEarly num ses c (oldest c ns)) _ r.early_recv_q
                                  (λ (e : Msg) w. nearer moves.forward w) v.early);
                        };
                        forward = moves.forward;
                        run = refl;
                      })
              ]
          | inr ahead ↦
              elim (Bool-cases (leb frag_index (frag_index_max + early_packet_offset_max))) [
                | inl early ↦
                    rw (ahead, early)
                      (record {
                        count = c;
                        partial = ns;
                        receiver = record {
                          order = IsOrder-alike r _ v.order refl refl refl;
                          early =
                              postpone_early-All (IsEarly num ses c (oldest c ns)) memory
                                r.next_match_recv_seq m r.early_recv_q (waits ahead early) v.early;
                        };
                        forward = omega arith;
                        run = refl;
                      })
                | inr obsolete ↦ rw (ahead, obsolete) (rest (frag_index == 2 ^ 14 - 1))
              ]
        ]
      where
        stays : (x y : ℕ) → y ≡ x → (x == y) ≡ true
        stays x y e = eq→== x y (sym e)

        rest :
            (b : Bool)
            → Delivered matching c
                (oldest c ns)
                (if b then (mark_need_ack_immediate r, []) else (r, []))
        rest true = record {
          count = c;
          partial = ns;
          receiver = record { order = IsOrder-alike r _ v.order refl refl refl; early = v.early };
          forward = omega arith;
          run = refl;
        }
        rest false = record {
          count = c;
          partial = ns;
          receiver = v;
          forward = omega arith;
          run = refl;
        }

        waits :
            leb
                (diff m.seqnum r.next_frag_recv_seq)
                (diff r.next_match_recv_seq r.next_frag_recv_seq)
              ≡ false
            → leb
                (diff m.seqnum r.next_frag_recv_seq)
                (diff r.next_match_recv_seq r.next_frag_recv_seq + early_packet_offset_max)
              ≡ true
            → IsEarly num ses c (oldest c ns) m
        waits ahead early =
            let f = oldest c ns in
            let s : ses < 4 = v.order.session in
            let w : c ≤ f + 8191 = v.order.window in
            let le : f ≤ c = oldest-le (oldest c ns) c ns v.order.asc in
            let gap : diff r.next_match_recv_seq r.next_frag_recv_seq ≡ c - f =
              ap (λ (x : ℕ). diff x r.next_frag_recv_seq) v.order.match
              ∙ ap (diff (wire ses c)) v.order.frag
              ∙ diff-ge ses c f s le (omega arith) in
            let index : diff m.seqnum r.next_frag_recv_seq ≡ diff (wire ses (num m)) (wire ses f) =
              ap (λ (x : ℕ). diff x r.next_frag_recv_seq) numbered
              ∙ ap (diff (wire ses (num m))) v.order.frag in
            let b = between (num m) f c _ _ s lo hi le w index gap ahead early in
            record { numbered = numbered; later = b.0; near = b.1; sent = hi }
