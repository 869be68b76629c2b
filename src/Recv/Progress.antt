-- ===== src/Recv/Progress.antt =====
-- The message that is next makes progress.
use open_mx.Common.{
  ℕ, ◌≡◌, refl, sym, ap, ◌∙◌, inl, inr, Bool, true, List, [], ◌∷◌, some, leb, ◌==◌, arith,
  Bool-cases,
}
use open_mx.Seqnum.{diff, wire}
use open_mx.Seqnum.Laws.{diff-ge}
use open_mx.Recv.Defs.{Msg, Matching, Receiver}
use open_mx.Recv.Order.{ordered_recv, session_recv}
use open_mx.Recv.Window.{IsOrder}

module _ {S : Type 0} (matching : Matching S) (not_acked_max now : ℕ) where
  ordered_recv-take :
      (r : Receiver S) (m : Msg) (s : S)
      → diff m.seqnum r.next_match_recv_seq ≡ 0
      → matching.take r.requests m ≡ some s
      → (ordered_recv matching not_acked_max now r m).1 ≡ true
  unfolding ordered_recv
  ordered_recv-take r m s z e = rw (z, e) refl

  -- Where the order of messages holds, a packet with the number of the next message that the
  -- matching can take is taken at once, before any other message.
  pub session_recv-take :
      (memory : Bool) (ses c : ℕ) (ns : List ℕ) (r : Receiver S) (m : Msg) (s : S)
      → IsOrder matching ses c ns r
      → m.seqnum ≡ wire ses c
      → matching.take r.requests m ≡ some s
      → (rest : List Msg) × ((session_recv matching not_acked_max now memory r m).1 ≡ m ∷ rest)
  unfolding session_recv
  session_recv-take memory ses c ns r m s v num e =
      let r1 = (ordered_recv matching not_acked_max now r m).0 in
      let here : m.seqnum ≡ r.next_match_recv_seq = num ∙ sym v.match in
      let z : diff m.seqnum r.next_match_recv_seq ≡ 0 =
        ap (λ (x : ℕ). diff x r.next_match_recv_seq) num
        ∙ ap (diff (wire ses c)) v.match
        ∙ diff-ge ses c c v.session (omega arith) (omega arith)
        ∙ omega arith in
      let same : diff m.seqnum r.next_frag_recv_seq
          ≡ diff r.next_match_recv_seq r.next_frag_recv_seq =
        ap (λ (x : ℕ). diff x r.next_frag_recv_seq) here in
      let due : leb (diff m.seqnum r.next_frag_recv_seq)
            (diff r.next_match_recv_seq r.next_frag_recv_seq)
          ≡ true =
        ground (arith, same) in
      let taken = ordered_recv-take r m s z e in
      elim (Bool-cases (r.next_match_recv_seq == r1.next_match_recv_seq)) [
        | inl still ↦ rw (due, still, taken) ([], refl)
        | inr moved ↦ rw (due, moved, taken) (_, refl)
      ]
