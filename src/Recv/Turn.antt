-- ===== src/Recv/Turn.antt =====
-- One message or fragment, in the window.
use open_mx.Common.{
  ℕ, ◌+◌, ◌<◌, ◌≤◌, ◌≡◌, refl, sym, ap, subst, ◌∙◌, ◌⊎◌, inl, inr, Bool, true, false, List, [], ◌∷◌,
  ◌++◌, some, ltb, leb, ◌==◌, ◌&&◌, map, arith, Bool-cases, Option-cases, ==→eq,
}
use open_mx.Seqnum.{diff, increase_by, wire}
use open_mx.Seqnum.Laws.{increase_by-wire}
use open_mx.Recv.Defs.{
  NeedAck, no_ack, ack_delayed, ack_immediate, Msg, is_medium_frag, Matching, Receiver, if_no_ack,
}
use open_mx.Recv.Order.{first_or, update_next_frag, continue_partial, ordered_recv}
use open_mx.Recv.Window.{
  without, IsMatching, IsAsc, IsAsc-snoc, IsAsc-wider, IsAsc-without, oldest, oldest-ge, oldest-le,
  map-without, map-snoc, IsOrder,
}

-- What updating the next fragment leaves as it was, and what it sets.
record Updated {S : Type 0} (matching : Matching S) (r r' : Receiver S) : Type 0 where
  match : r'.next_match_recv_seq ≡ r.next_match_recv_seq
  requests : r'.requests ≡ r.requests
  early : r'.early_recv_q ≡ r.early_recv_q
  frag : r'.next_frag_recv_seq ≡ first_or r.next_match_recv_seq (matching.partials r.requests)

module _ {S : Type 0} {matching : Matching S} (not_acked_max now : ℕ) where
  delayed-Updated :
      (r r' : Receiver S) (need : NeedAck)
      → Updated matching r r'
      → Updated matching r (if_no_ack now r' need)
  delayed-Updated r r' no_ack v = record {
    match = v.match;
    requests = v.requests;
    early = v.early;
    frag = v.frag;
  }
  delayed-Updated r r' ack_delayed v = v
  delayed-Updated r r' ack_immediate v = v

  update_next_frag-Updated :
      (r : Receiver S) → Updated matching r (update_next_frag matching not_acked_max now r)
  unfolding update_next_frag
  update_next_frag-Updated r =
      let new = first_or r.next_match_recv_seq (matching.partials r.requests) in
      let r' : Receiver S = record r { next_frag_recv_seq = new } in
      let v : Updated matching r r' = record {
        match = refl;
        requests = refl;
        early = refl;
        frag = refl;
      } in
      elim (Bool-cases (new == r.next_frag_recv_seq)) [
        | inl same ↦ rw same (record {
          match = refl;
          requests = refl;
          early = refl;
          frag = sym (==→eq new r.next_frag_recv_seq same);
        })
        | inr moved ↦ elim (Bool-cases (leb not_acked_max (diff new r.last_acked_recv_seq))) [
          | inl many ↦
              rw (moved, many) (record { match = refl; requests = refl; early = refl; frag = refl })
          | inr few ↦ rw (moved, few) (delayed-Updated r r' r.need_ack v)
        ]
      ]

first_or-wire :
    (ses c : ℕ) (ns : List ℕ) → first_or (wire ses c) (map (wire ses) ns) ≡ wire ses (oldest c ns)
first_or-wire ses c [] = refl
first_or-wire ses c (n ∷ ns) = refl

oldest-snoc : (c : ℕ) (ns : List ℕ) → oldest (c + 1) (ns ++ c ∷ []) ≡ oldest c ns
oldest-snoc c [] = refl
oldest-snoc c (n ∷ ns) = refl

-- How the receive side moves: to a later or the same count and oldest message.
pub record Moves {S : Type 0} (matching : Matching S) (ses c : ℕ) (ns : List ℕ) (r r' : Receiver S)
    (c' : ℕ) : Type 0 where
  pub now_partial : List ℕ
  pub order : IsOrder matching ses c' now_partial r'
  pub forward : oldest c ns ≤ oldest c' now_partial
  pub early : r'.early_recv_q ≡ r.early_recv_q

module _ {S : Type 0} {matching : Matching S} (laws : IsMatching matching)
    (not_acked_max now : ℕ) where
  -- Updating the next fragment, when the requests have changed.
  update-Moves :
      (ses c c' : ℕ) (ns ns' : List ℕ) (r r1 : Receiver S)
      → ses < 4
      → r1.next_match_recv_seq ≡ wire ses c'
      → matching.partials r1.requests ≡ map (wire ses) ns'
      → r1.early_recv_q ≡ r.early_recv_q
      → IsAsc (oldest c' ns') c' ns'
      → c' ≤ oldest c' ns' + 8191
      → oldest c ns ≤ oldest c' ns'
      → Moves matching ses c ns r (update_next_frag matching not_acked_max now r1) c'
  update-Moves ses c c' ns ns' r r1 s match partials early asc window forward =
      let u = update_next_frag-Updated {matching = matching} not_acked_max now r1 in
      record {
        now_partial = ns';
        order = record {
          session = s;
          match = u.match ∙ match;
          frag =
              u.frag
              ∙ ap (λ (x : ℕ). first_or x (matching.partials r1.requests)) match
              ∙ ap (first_or (wire ses c')) partials
              ∙ first_or-wire ses c' ns';
          partials = ap matching.partials u.requests ∙ partials;
          asc = asc;
          window = window;
        };
        forward = forward;
        early = u.early ∙ early;
      }

  stay :
      {ses c : ℕ} {ns : List ℕ} {r : Receiver S}
      → IsOrder matching ses c ns r
      → Moves matching ses c ns r r c
  stay {ns = ns} v = record { now_partial = ns; order = v; forward = omega arith; early = refl }

  -- The message that is next is taken.
  taken-Moves :
      (ses c : ℕ) (ns : List ℕ) (r : Receiver S) (m : Msg) (s : S)
      → IsOrder matching ses c ns r
      → c + 1 ≤ oldest c ns + 8191
      → m.seqnum ≡ wire ses c
      → matching.take r.requests m ≡ some s
      → Moves matching ses c ns r
          (update_next_frag matching not_acked_max now
            (record r { requests = s; next_match_recv_seq = increase_by r.next_match_recv_seq 1 }))
          (c + 1)
  taken-Moves ses c ns r m s v win num e =
      let r1 : Receiver S = record r {
        requests = s;
        next_match_recv_seq = increase_by r.next_match_recv_seq 1;
      } in
      let next : increase_by r.next_match_recv_seq 1 ≡ wire ses (c + 1) =
        ap (λ (x : ℕ). increase_by x 1) v.match ∙ increase_by-wire ses c 1 v.session in
      let first : oldest (c + 1) (ns ++ c ∷ []) ≡ oldest c ns = oldest-snoc c ns in
      elim (laws.take-partials r.requests s m e) [
        | inl whole ↦ grows ns v.asc v.window win (whole ∙ v.partials) next
        | inr begins ↦
            update-Moves ses c (c + 1) ns (ns ++ c ∷ []) r r1 v.session next
              (begins
                ∙ ap (λ (x : ℕ). matching.partials r.requests ++ x ∷ []) num
                ∙ ap (λ (xs : List ℕ). xs ++ wire ses c ∷ []) v.partials
                ∙ map-snoc (wire ses) ns c)
              refl
              (subst (λ (x : ℕ). IsAsc x (c + 1) (ns ++ c ∷ [])) (sym first)
                (IsAsc-snoc (oldest c ns) c ns (oldest-le (oldest c ns) c ns v.asc) v.asc))
              (omega arith) (omega arith)
      ]
    where
      grows :
          (ns : List ℕ)
          → IsAsc (oldest c ns) c ns
          → c ≤ oldest c ns + 8191
          → c + 1 ≤ oldest c ns + 8191
          → matching.partials s ≡ map (wire ses) ns
          → increase_by r.next_match_recv_seq 1 ≡ wire ses (c + 1)
          → Moves matching ses c ns r
              (update_next_frag matching not_acked_max now (record r {
                requests = s;
                next_match_recv_seq = increase_by r.next_match_recv_seq 1;
              }))
              (c + 1)
      grows [] asc w win p next =
          update-Moves ses c (c + 1) [] [] r _ v.session next p refl tt (omega arith) (omega arith)
      grows (n ∷ ns) asc w win p next =
          update-Moves ses c (c + 1) (n ∷ ns) (n ∷ ns) r _ v.session next p refl
            (IsAsc-wider n n c (c + 1) (n ∷ ns) (omega arith) (omega arith) asc) win (omega arith)

  -- A fragment of a message that began.
  continue-Moves :
      (ses c : ℕ) (ns : List ℕ) (r : Receiver S) (m : Msg)
      → IsOrder matching ses c ns r
      → Moves matching ses c ns r (continue_partial matching not_acked_max now r m) c
  unfolding continue_partial
  continue-Moves ses c ns r m v =
      elim (Option-cases (matching.go_on r.next_frag_recv_seq r.requests m)) [
        | inl none_found ↦ rw (continue_partial, none_found) (stay v)
        | inr (s, e) ↦
            let (i, p) = laws.go_on-partials r.next_frag_recv_seq r.requests s m e in
            let asc = IsAsc-without (oldest c ns) c i ns v.asc in
            let le = oldest-le (oldest c ns) c ns v.asc in
            let ge = oldest-ge (oldest c ns) c (without i ns) le asc in
            rw (continue_partial, e)
              (update-Moves ses c c ns (without i ns) r _ v.session v.match
                (p ∙ ap (without i) v.partials ∙ map-without (wire ses) i ns) refl
                (tight (oldest c ns) (without i ns) asc) (omega (arith, v.window)) ge)
      ]
    where
      tight : (lo : ℕ) (ns : List ℕ) → IsAsc lo c ns → IsAsc (oldest c ns) c ns
      tight lo [] v = tt
      tight lo (n ∷ ns) v = (omega arith, v.1, v.2)

  -- A message or fragment that the sender gave the number `n`, of the window: it is taken exactly if it
  -- is the next one, then there is memory for it.
  pub record Turn (ses c : ℕ) (ns : List ℕ) (n : ℕ) (r : Receiver S) (x : Receiver S × Bool)
      : Type 0 where
    pub count : ℕ
    pub moves : Moves matching ses c ns r x.0 count
    pub turn : ((x.1 ≡ true) × (n ≡ c) × (count ≡ c + 1)) ⊎ ((x.1 ≡ false) × (count ≡ c))

  pub ordered_recv-Turn :
      (ses c n : ℕ) (ns : List ℕ) (r : Receiver S) (m : Msg)
      → IsOrder matching ses c ns r
      → m.seqnum ≡ wire ses n
      → oldest c ns ≤ n + 7900
      → n < oldest c ns + 8191
      → Turn ses c ns n r (ordered_recv matching not_acked_max now r m)
  unfolding ordered_recv
  ordered_recv-Turn ses c n ns r m v num old new =
      elim (Bool-cases (diff m.seqnum r.next_match_recv_seq == 0)) [
        | inl here ↦
            let z = ==→eq (diff m.seqnum r.next_match_recv_seq) 0 here in
            let own : n ≡ c = is_next z in
            elim (Option-cases (matching.take r.requests m)) [
              | inl failed ↦
                  rw (here, failed) (record { count = c; moves = stay v; turn = inr (refl, refl) })
              | inr (s, e) ↦
                  rw (here, e)
                    (record {
                      count = c + 1;
                      moves =
                          taken-Moves ses c ns r m s v (omega (arith, own))
                            (num ∙ ap (wire ses) own) e;
                      turn = inl (refl, own, refl);
                    })
            ]
        | inr elsewhere ↦
            elim (Bool-cases (
              is_medium_frag m.type
              && ltb (diff m.seqnum r.next_frag_recv_seq)
                  (diff r.next_match_recv_seq r.next_frag_recv_seq))) [
                    | inl part ↦
                        rw (elsewhere, part)
                          (record {
                            count = c;
                            moves = continue-Moves ses c ns r m v;
                            turn = inr (refl, refl);
                          })
                    | inr obsolete ↦
                        rw (elsewhere, obsolete)
                          (record { count = c; moves = stay v; turn = inr (refl, refl) })
                  ]
      ]
    where
      is_next : diff m.seqnum r.next_match_recv_seq ≡ 0 → n ≡ c
      is_next z =
          let d : diff (wire ses n) (wire ses c) ≡ 0 =
            ap (λ (x : ℕ). diff x (wire ses c)) (sym num) ∙ ap (diff m.seqnum) (sym v.match) ∙ z in
          let s : ses < 4 = v.session in
          let w : c ≤ oldest c ns + 8191 = v.window in
          let le = oldest-le (oldest c ns) c ns v.asc in omega arith
