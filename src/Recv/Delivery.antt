-- ===== src/Recv/Delivery.antt =====
-- Packets of a session, in whatever order they come: messages are taken in the order of their
-- numbers, each once.
use open_mx.Common.{
  ℕ, ◌+◌, ◌-◌, ◌<◌, ◌≤◌, ◌≡◌, refl, ap, subst, ◌∙◌, inl, inr, List, [], ◌∷◌, leb, arith, Bool-cases,
}
use open_mx.Seqnum.{diff, wire, early_packet_offset_max}
use open_mx.Seqnum.Laws.{diff-ge}
use open_mx.Recv.Defs.{Msg, Matching, Receiver}
use open_mx.Recv.Order.{ordered_recv, early_loop}
use open_mx.Recv.Window.{IsMatching, oldest, oldest-le, IsOrder}
use open_mx.Recv.Turn.{ordered_recv-Turn}
use open_mx.Recv.Early.{All}

module _ (num : Msg → ℕ) (ses : ℕ) where
  -- A message carries the number that its sender gave it.
  abbrev pub IsNumbered : Msg → Type 0
  IsNumbered m = m.seqnum ≡ wire ses (num m)

  -- A packet that waits for message `c`, when the sender's window begins at `f`.
  pub record IsEarly (c f : ℕ) (m : Msg) : Type 0 where
    pub numbered : m.seqnum ≡ wire ses (num m)
    pub later : c ≤ num m
    pub near : num m ≤ c + early_packet_offset_max
    pub sent : num m < f + 8191

  -- The messages that are taken, from `c` up to before `c'`.
  abbrev pub Run : ℕ → List Msg → ℕ → Type 0
  Run c [] c' = c ≡ c'
  Run c (m ∷ ms) c' = (num m ≡ c) × Run (c + 1) ms c'

  module _ {S : Type 0} {matching : Matching S} (laws : IsMatching matching)
      (not_acked_max now : ℕ) where
    pub record Looped (old c f : ℕ) (x : Receiver S × List Msg × List Msg) : Type 0 where
      pub count : ℕ
      pub ns : List ℕ
      pub order : IsOrder matching ses count ns x.0
      pub near : count ≤ old + 2
      pub onward : c ≤ count
      pub forward : f ≤ oldest count ns
      pub kept : All (IsEarly count f) x.1
      pub run : Run c x.2 count

    pub early_loop-Looped :
        (old c f : ℕ) (ns : List ℕ) (es : List Msg) (r : Receiver S)
        → IsOrder matching ses c ns r
        → old + 1 ≤ c
        → c ≤ old + 2
        → f ≤ oldest c ns
        → All (IsEarly old f) es
        → Looped old c f (early_loop matching not_acked_max now (wire ses old) 1 es r)
    unfolding early_loop
    early_loop-Looped old c f ns [] r v lo hi fwd early = record {
      count = c;
      ns = ns;
      order = v;
      near = hi;
      onward = omega arith;
      forward = fwd;
      kept = tt;
      run = refl;
    }
    early_loop-Looped old c f ns (e ∷ es) r v lo hi fwd early =
        let le : old ≤ num e = early.0.later in
        let near : num e ≤ old + early_packet_offset_max = early.0.near in
        let sent : num e < f + 8191 = early.0.sent in
        let before : oldest c ns ≤ c = oldest-le (oldest c ns) c ns v.asc in
        let i : diff e.seqnum (wire ses old) ≡ num e - old =
          ap (λ (x : ℕ). diff x (wire ses old)) early.0.numbered
          ∙ diff-ge ses (num e) old v.session le (omega arith) in
        elim (Bool-cases (leb (diff e.seqnum (wire ses old)) 1)) [
          | inl now_due ↦
              let due : num e ≤ old + 1 = ground (arith, i) in
              let t =
                ordered_recv-Turn laws not_acked_max now ses c (num e) ns r e v early.0.numbered
                  (omega arith) (omega arith) in
              let r1 = (ordered_recv matching not_acked_max now r e).0 in
              elim t.turn [
                | inl (taken, own, next) ↦
                    let x =
                      early_loop-Looped old t.count f t.moves.now_partial es r1 t.moves.order
                        (omega arith) (omega arith) (omega (arith, t.moves.forward)) early.1 in
                    rw (now_due, taken)
                      (record {
                        count = x.count;
                        ns = x.ns;
                        order = x.order;
                        near = x.near;
                        onward = omega (arith, x.onward);
                        forward = x.forward;
                        kept = x.kept;
                        run = (
                          own,
                          subst
                              (λ (n : ℕ).
                                Run n
                                  (early_loop matching not_acked_max now (wire ses old) 1 es r1).2
                                  x.count)
                              next x.run,
                        );
                      })
                | inr (missed, same) ↦
                    let x =
                      early_loop-Looped old t.count f t.moves.now_partial es r1 t.moves.order
                        (omega arith) (omega arith) (omega (arith, t.moves.forward)) early.1 in
                    rw (now_due, missed)
                      (record {
                        count = x.count;
                        ns = x.ns;
                        order = x.order;
                        near = x.near;
                        onward = omega (arith, x.onward);
                        forward = x.forward;
                        kept = x.kept;
                        run =
                            subst
                              (λ (n : ℕ).
                                Run n
                                  (early_loop matching not_acked_max now (wire ses old) 1 es r1).2
                                  x.count)
                              same x.run;
                      })
              ]
          | inr wait ↦
              let x = early_loop-Looped old c f ns es r v lo hi fwd early.1 in
              let far : old + 2 ≤ num e = ground (arith, i) in
              let kept : IsEarly x.count f e = record {
                numbered = early.0.numbered;
                later = omega (arith, x.near);
                near = omega (arith, x.onward);
                sent = sent;
              } in
              rw wait (record {
                count = x.count;
                ns = x.ns;
                order = x.order;
                near = x.near;
                onward = x.onward;
                forward = x.forward;
                kept = (kept, x.kept);
                run = x.run;
              })
        ]
