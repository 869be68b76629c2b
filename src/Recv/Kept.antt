-- ===== src/Recv/Kept.antt =====
-- Nothing is made up: the messages that are taken, and those that wait, are packets that came.
use open_mx.Common.{
  ℕ, ◌+◌, ◌-◌, ◌^◌, ◌<◌, ◌≤◌, ◌≡◌, sym, subst, inl, inr, Bool, true, false, List, [], ◌∷◌, leb,
  ◌==◌, if◌then◌else◌, Bool-cases,
}
use open_mx.Seqnum.{diff, wire, early_packet_offset_max}
use open_mx.Recv.Defs.{Msg, Matching, Receiver, mark_need_ack_immediate}
use open_mx.Recv.Order.{ordered_recv, if_taken, early_loop, session_recv}
use open_mx.Recv.Window.{IsMatching, oldest, IsOrder}
use open_mx.Recv.Turn.{ordered_recv-Turn}
use open_mx.Recv.Early.{All, postpone_early-All}

if_taken-All :
    (P : Msg → Type 0) (b : Bool) (m : Msg) (ms : List Msg)
    → P m
    → All P ms
    → All P (if_taken b m ms)
if_taken-All P true m ms p v = (p, v)
if_taken-All P false m ms p v = v

module _ {S : Type 0} (matching : Matching S) (P : Msg → Type 0) where
  early_loop-All :
      (not_acked_max now old index_max : ℕ) (es : List Msg) (r : Receiver S)
      → All P es
      → All P (early_loop matching not_acked_max now old index_max es r).1
        × All P (early_loop matching not_acked_max now old index_max es r).2
  unfolding early_loop
  early_loop-All not_acked_max now old index_max [] r v = (tt, tt)
  early_loop-All not_acked_max now old index_max (e ∷ es) r v =
      elim (Bool-cases (leb (diff e.seqnum old) index_max)) [
        | inl due ↦
            let x =
              early_loop-All not_acked_max now old index_max es
                (ordered_recv matching not_acked_max now r e).0 v.1 in
            rw due (x.0, if_taken-All P (ordered_recv matching not_acked_max now r e).1 e _ v.0 x.1)
        | inr wait ↦
            let x = early_loop-All not_acked_max now old index_max es r v.1 in
            rw wait ((v.0, x.0), x.1)
      ]

  pub session_recv-All :
      (laws : IsMatching matching) (not_acked_max now ses c n : ℕ) (ns : List ℕ) (memory : Bool)
      (r : Receiver S) (m : Msg)
      → IsOrder matching ses c ns r
      → m.seqnum ≡ wire ses n
      → oldest c ns ≤ n + 7900
      → n < oldest c ns + 8191
      → P m
      → All P r.early_recv_q
      → All P (session_recv matching not_acked_max now memory r m).0.early_recv_q
        × All P (session_recv matching not_acked_max now memory r m).1
  unfolding session_recv
  session_recv-All laws not_acked_max now ses c n ns memory r m v num lo hi p early =
      let frag_index = diff m.seqnum r.next_frag_recv_seq in
      let frag_index_max = diff r.next_match_recv_seq r.next_frag_recv_seq in
      elim (Bool-cases (leb frag_index frag_index_max)) [
        | inl due ↦
            let t = ordered_recv-Turn laws not_acked_max now ses c n ns r m v num lo hi in
            let r1 = (ordered_recv matching not_acked_max now r m).0 in
            let kept : All P r1.early_recv_q = subst (All P) (sym t.moves.early) early in
            elim (Bool-cases (r.next_match_recv_seq == r1.next_match_recv_seq)) [
              | inl same ↦
                  rw (due, same)
                    (kept, if_taken-All P (ordered_recv matching not_acked_max now r m).1 m [] p tt)
              | inr moved ↦
                  let x =
                    early_loop-All not_acked_max now r.next_match_recv_seq
                      (diff r1.next_match_recv_seq r.next_match_recv_seq) r1.early_recv_q r1 kept in
                  rw (due, moved)
                    (x.0, if_taken-All P (ordered_recv matching not_acked_max now r m).1 m _ p x.1)
            ]
        | inr ahead ↦
            elim (Bool-cases (leb frag_index (frag_index_max + early_packet_offset_max))) [
              | inl soon ↦
                  rw (ahead, soon)
                    (postpone_early-All P memory r.next_match_recv_seq m r.early_recv_q p early, tt)
              | inr obsolete ↦ rw (ahead, obsolete) (rest (frag_index == 2 ^ 14 - 1))
            ]
      ]
    where
      told : Bool → Receiver S × List Msg
      told b = if b then (mark_need_ack_immediate r, []) else (r, [])

      rest : (b : Bool) → All P (told b).0.early_recv_q × All P (told b).1
      rest true = (early, tt)
      rest false = (early, tt)
