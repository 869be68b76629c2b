-- ===== src/Recv/Order.antt =====
-- The order of messages, libopen-mx/omx_recv.c: early packets wait in a queue, a message is matched
-- when its turn has come, a fragment joins its request, and the rest is obsolete.
use open_mx.Common.{
  ℕ, ◌+◌, ◌-◌, ◌^◌, Bool, true, false, List, [], ◌∷◌, Option, none, some, ltb, leb, ◌==◌, ◌&&◌,
  if◌then◌else◌,
}
use open_mx.Seqnum.{diff, increase_by, early_packet_offset_max}
use open_mx.Recv.Defs.{
  Msg, is_medium_frag, Matching, Receiver, mark_need_ack_delayed, mark_need_ack_immediate,
}

-- A list turned round in front of another.
abbrev pub turned {ℓ} : {A : Type ℓ} → List A → List A → List A
turned [] acc = acc
turned (x ∷ xs) acc = turned xs (x ∷ acc)

abbrev pub cons_some {ℓ} : {A : Type ℓ} → A → Option (List A) → Option (List A)
cons_some x none = none
cons_some x (some xs) = some (x ∷ xs)

-- omx__find_previous_early_packet and the insertion behind what it finds. The queue is given from its
-- end, as the loop reads it; `next` is next_match_recv_seq, and `none` a duplicate.
unfoldable pub insert_early : ℕ → Msg → List Msg → Option (List Msg)
insert_early next m [] = some (m ∷ [])
insert_early next m (e ∷ es) =
    let new_index = diff m.seqnum next in
    let index = diff e.seqnum next in
    let further = cons_some e (insert_early next m es) in
    if ltb index new_index
    then some (m ∷ e ∷ es)
    else (if ltb new_index index
        then further
        else (if is_medium_frag m.type
            then (if ltb e.frag_seqnum m.frag_seqnum
                then some (m ∷ e ∷ es)
                else (if ltb m.frag_seqnum e.frag_seqnum then further else none))
            else none))

abbrev pub turned_back : List Msg → Option (List Msg) → List Msg
turned_back q none = q
turned_back q (some back) = turned back []

-- omx__postpone_early_packet, on the queue: `memory` says whether the copy could be allocated.
unfoldable pub postpone_early : Bool → ℕ → Msg → List Msg → List Msg
unfolding insert_early
postpone_early memory next m q =
    if memory then turned_back q (insert_early next m (turned q [])) else q

abbrev pub first_or : ℕ → List ℕ → ℕ
first_or d [] = d
first_or d (n ∷ ns) = n

abbrev pub if_taken : Bool → Msg → List Msg → List Msg
if_taken true m ms = m ∷ ms
if_taken false m ms = ms

module _ {S : Type 0} (matching : Matching S) (not_acked_max now : ℕ) where
  -- omx__update_partner_next_frag_recv_seq
  unfoldable pub update_next_frag : Receiver S → Receiver S
  update_next_frag r =
      let new = first_or r.next_match_recv_seq (matching.partials r.requests) in
      let r' = record r { next_frag_recv_seq = new } in
      if new == r.next_frag_recv_seq
      then r
      else (if leb not_acked_max (diff new r.last_acked_recv_seq)
          then mark_need_ack_immediate r'
          else mark_need_ack_delayed now r')

  -- omx__continue_partial_request
  unfoldable pub continue_partial : Receiver S → Msg → Receiver S
  unfolding update_next_frag
  continue_partial r m = elim (matching.go_on r.next_frag_recv_seq r.requests m) [
    | none ↦ r
    | some s ↦ update_next_frag (record r { requests = s })
  ]

  -- omx__process_partner_ordered_recv: the new state, and whether the message was the next one and
  -- is taken.
  unfoldable pub ordered_recv : Receiver S → Msg → Receiver S × Bool
  unfolding update_next_frag continue_partial
  ordered_recv r m =
      let match_index = diff m.seqnum r.next_match_recv_seq in
      let frag_index = diff m.seqnum r.next_frag_recv_seq in
      let frag_index_max = diff r.next_match_recv_seq r.next_frag_recv_seq in
      if match_index == 0
      then (elim (matching.take r.requests m) [
        | none ↦ (r, false)
        | some s ↦ (
          update_next_frag (record r {
            requests = s;
            next_match_recv_seq = increase_by r.next_match_recv_seq 1;
          }),
          true,
        )
      ])
      else (if is_medium_frag m.type && ltb frag_index frag_index_max
          then (continue_partial r m, false)
          else (r, false))

  -- The loop of omx__process_recv on the early packets: the state, the packets that stay queued, and
  -- the messages that were taken.
  unfoldable pub early_loop : ℕ → ℕ → List Msg → Receiver S → Receiver S × List Msg × List Msg
  unfolding ordered_recv
  early_loop old index_max [] r = (r, [], [])
  early_loop old index_max (e ∷ es) r =
      if leb (diff e.seqnum old) index_max
      then (let (r1, taken) = ordered_recv r e in
          let (r2, kept, ms) = early_loop old index_max es r1 in (r2, kept, if_taken taken e ms))
      else (let (r2, kept, ms) = early_loop old index_max es r in (r2, e ∷ kept, ms))

  -- omx__process_recv from line 782 on, for a message of the session: the new state, and the messages
  -- that were taken, in order. `memory` says whether an early packet can be stored.
  unfoldable pub session_recv : Bool → Receiver S → Msg → Receiver S × List Msg
  unfolding ordered_recv early_loop postpone_early
  session_recv memory r m =
      let old = r.next_match_recv_seq in
      let frag_index = diff m.seqnum r.next_frag_recv_seq in
      let frag_index_max = diff old r.next_frag_recv_seq in
      if leb frag_index frag_index_max
      then (let (r1, taken) = ordered_recv r m in
          if old == r1.next_match_recv_seq
          then (r1, if_taken taken m [])
          else (let (r2, kept, ms) =
                early_loop old (diff r1.next_match_recv_seq old) r1.early_recv_q r1 in
              (record r2 { early_recv_q = kept }, if_taken taken m ms)))
      else (if leb frag_index (frag_index_max + early_packet_offset_max)
          then (record r { early_recv_q = postpone_early memory old m r.early_recv_q }, [])
          else (if frag_index == 2 ^ 14 - 1 then (mark_need_ack_immediate r, []) else (r, [])))
