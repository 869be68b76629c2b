-- ===== src/Channel/Fifo.antt =====
-- What a channel promises: messages come out in the order in which the requests went in, each once.
use open_mx.Common.{
  ℕ, suc, ◌+◌, ◌-◌, ◌<◌, ◌≤◌, ◌≡◌, refl, sym, ap, ◌∙◌, inl, List, [], ◌∷◌, ◌++◌, map, length,
  get_elem?, arith,
}
use open_mx.Seqnum.{wire}
use open_mx.Recv.Defs.{Msg, Matching}
use open_mx.Recv.Window.{IsMatching}
use open_mx.Recv.Early.{All}
use open_mx.Recv.Delivery.{Run}
use open_mx.Send.Window.{submitted}
use open_mx.Channel.Net.{Net, Steps}
use open_mx.Channel.Places.{some_inj, none_is_some}
use open_mx.Channel.Invariant.{IsGenuine, IsNet}
use open_mx.Channel.Steps.{Steps-IsNet}

-- A channel that has just been connected: both sides start from the same number.
pub record IsConnected {S : Type 0} (matching : Matching S) (ses start : ℕ) (n : Net S)
    : Type 0 where
  pub session : ses < 4
  pub next_send_seq : n.sender.next_send_seq ≡ wire ses start
  pub next_acked_send_seq : n.sender.next_acked_send_seq ≡ wire ses start
  pub non_acked : n.sender.partner_non_acked_req_q ≡ []
  pub need_seqnum : n.sender.need_seqnum_send_req_q ≡ []
  pub throttling : n.sender.throttling_sends_nr ≡ 0
  pub posted : n.sender.posted ≡ []
  pub next_match : n.receiver.next_match_recv_seq ≡ wire ses start
  pub next_frag : n.receiver.next_frag_recv_seq ≡ wire ses start
  pub partials : matching.partials n.receiver.requests ≡ []
  pub early : n.receiver.early_recv_q ≡ []
  pub packets : n.packets ≡ []
  pub acks : n.acks ≡ []
  pub taken : n.taken ≡ []

module _ (num identity : Msg → ℕ) (ses start : ℕ) where
  connected-IsNet :
      {S : Type 0} {matching : Matching S} (n : Net S)
      → IsConnected matching ses start n
      → IsNet num identity ses start matching n
  connected-IsNet n v = record {
    a = start;
    s = start;
    c = start;
    ns = [];
    sender = record {
      session = v.session;
      next = v.next_send_seq;
      acked = v.next_acked_send_seq;
      low = omega arith;
      high = omega arith;
      waiting = rw v.non_acked tt;
      count = omega (arith, ap length v.posted);
      series = rw v.posted tt;
    };
    throttled = record {
      counted = v.throttling ∙ sym (ap length v.need_seqnum);
      full = inl v.need_seqnum;
    };
    receiver = record {
      order = record {
        session = v.session;
        match = v.next_match;
        frag = v.next_frag;
        partials = v.partials;
        asc = tt;
        window = omega arith;
      };
      early = rw v.early tt;
    };
    behind = omega arith;
    run = rw v.taken refl;
    packets = rw v.packets tt;
    early = rw v.early tt;
    taken = rw v.taken tt;
    acks = rw v.acks tt;
  }

  -- Messages with consecutive numbers are those of the requests in the places from the first on.
  taken-prefix :
      (ids ids' : List ℕ) (s b c : ℕ) (ms : List Msg)
      → ((i : ℕ) → get_elem? ids' i ≡ get_elem? ids (b + i - start))
      → start ≤ b
      → Run num ses b ms c
      → All (IsGenuine num identity ses start ids s) ms
      → (rest : List ℕ) × (ids' ≡ map identity ms ++ rest)
  taken-prefix ids ids' s b c [] at le v w = (ids', refl)
  taken-prefix ids [] s b c (m ∷ ms) at le v w = absurd (
      none_is_some
        (at 0 ∙ ap (λ (x : ℕ). get_elem? ids (x - start)) (omega (arith, v.0)) ∙ w.0.place))
  taken-prefix ids (x ∷ ids') s b c (m ∷ ms) at le v w =
      let first : x ≡ identity m =
        some_inj
          (at 0 ∙ ap (λ (x : ℕ). get_elem? ids (x - start)) (omega (arith, v.0)) ∙ w.0.place) in
      let y =
        taken-prefix ids ids' s (b + 1) c ms
          (λ (i : ℕ). at (suc i) ∙ ap (λ (x : ℕ). get_elem? ids (x - start)) (omega arith))
          (omega arith) v.1 w.1 in
      (y.0, ap (λ (z : ℕ). z ∷ ids') first ∙ ap (◌∷◌ (identity m)) y.1)

  -- In a channel that has just been connected, over a network that loses, repeats and reorders
  -- packets and acks, delivers no packet more than 7900 messages and no ack more than 8191 messages
  -- late, and with any matching that keeps the partial messages as IsMatching says: whatever steps
  -- are taken, the messages that the receive side took are those of the first requests that were
  -- submitted, in the order of submission, each exactly once.
  pub taken-submitted :
      {S : Type 0} {matching : Matching S} (laws : IsMatching matching) (n n' : Net S)
      → IsConnected matching ses start n
      → Steps matching num identity start n n'
      → (rest : List ℕ) × (submitted n'.sender ≡ map identity n'.taken ++ rest)
  taken-submitted laws n n' fresh steps =
      let v = Steps-IsNet num identity ses start laws n n' steps (connected-IsNet n fresh) in
      taken-prefix (submitted n'.sender) (submitted n'.sender) v.s start v.c n'.taken
        (λ (i : ℕ). ap (get_elem? (submitted n'.sender)) (omega arith)) (omega arith) v.run v.taken
