-- ===== src/Send/Window.antt =====
-- The invariant of the send side, and how sending keeps it.
use open_mx.Common.{
  ℕ, ◌+◌, ◌<◌, ◌≤◌, ◌≡◌, refl, ap, ◌∙◌, ◌⊎◌, List, [], ◌∷◌, ◌++◌, map, length, length-append, arith,
}
use open_mx.Seqnum.{increase_by, wire}
use open_mx.Seqnum.Laws.{increase_by-wire}
use open_mx.Send.Defs.{
  RequestType, send_tiny, send_small, send_mediumsq, send_mediumva, send_large, recv_large, Request,
  Sender,
}
use open_mx.Send.Ops.{if_posted, setup}

-- Requests with the numbers of messages, ascending between two bounds.
abbrev pub IsWaiting : ℕ → ℕ → ℕ → List Request → Type 0
IsWaiting ses lo hi [] = Unit {0}
IsWaiting ses lo hi (r ∷ rs) =
    (n : ℕ) × (r.send_seqnum ≡ wire ses n) × (lo ≤ n) × (n < hi) × IsWaiting ses (n + 1) hi rs

-- Requests with consecutive numbers.
abbrev pub IsSeries : ℕ → ℕ → List Request → Type 0
IsSeries ses n [] = Unit {0}
IsSeries ses n (r ∷ rs) = (r.send_seqnum ≡ wire ses n) × IsSeries ses (n + 1) rs

-- From number `start` on, those before `s` were posted, and those before `a` acked.
pub record IsSender (ses start a s : ℕ) (p : Sender) : Type 0 where
  pub session : ses < 4
  pub next : p.next_send_seq ≡ wire ses s
  pub acked : p.next_acked_send_seq ≡ wire ses a
  pub low : a ≤ s
  pub high : s ≤ a + 8191
  pub waiting : IsWaiting ses a s p.partner_non_acked_req_q
  pub count : s ≡ start + length p.posted
  pub series : IsSeries ses start p.posted

-- Requests wait for a number only while the window is full, and they are counted.
pub record IsThrottled (a s : ℕ) (p : Sender) : Type 0 where
  pub counted : p.throttling_sends_nr ≡ length p.need_seqnum_send_req_q
  pub full : (p.need_seqnum_send_req_q ≡ []) ⊎ (s ≡ a + 8191)

-- The requests of a partner in the order of their submission.
abbrev pub submitted : Sender → List ℕ
submitted p =
    map (λ (r : Request). r.id) p.posted ++ map (λ (r : Request). r.id) p.need_seqnum_send_req_q

pub IsWaiting-wider :
    (ses lo lo' hi hi' : ℕ) (rs : List Request)
    → lo' ≤ lo
    → hi ≤ hi'
    → IsWaiting ses lo hi rs
    → IsWaiting ses lo' hi' rs
IsWaiting-wider ses lo lo' hi hi' [] l h v = tt
IsWaiting-wider ses lo lo' hi hi' (r ∷ rs) l h (n, e, ge, lt, v) = (
  n,
  e,
  omega arith,
  omega arith,
  IsWaiting-wider ses (n + 1) (n + 1) hi hi' rs (omega arith) h v,
)

IsWaiting-snoc :
    (ses lo hi : ℕ) (rs : List Request) (r : Request)
    → lo ≤ hi
    → r.send_seqnum ≡ wire ses hi
    → IsWaiting ses lo hi rs
    → IsWaiting ses lo (hi + 1) (rs ++ r ∷ [])
IsWaiting-snoc ses lo hi [] r le e v = (hi, e, le, omega arith, tt)
IsWaiting-snoc ses lo hi (x ∷ rs) r le e (n, en, ge, lt, v) =
    (n, en, ge, omega arith, IsWaiting-snoc ses (n + 1) hi rs r (omega arith) e v)

IsSeries-snoc :
    (ses n s : ℕ) (rs : List Request) (r : Request)
    → s ≡ n + length rs
    → r.send_seqnum ≡ wire ses s
    → IsSeries ses n rs
    → IsSeries ses n (rs ++ r ∷ [])
IsSeries-snoc ses n s [] r c e v = (e ∙ ap (wire ses) (omega (arith, c)), tt)
IsSeries-snoc ses n s (x ∷ rs) r c e v =
    (v.0, IsSeries-snoc ses (n + 1) s rs r (omega (arith, c)) e v.1)

map-snoc :
    (rs : List Request) (r : Request)
    → map (λ (x : Request). x.id) (rs ++ r ∷ []) ≡ map (λ (x : Request). x.id) rs ++ r.id ∷ []
map-snoc [] r = refl
map-snoc (x ∷ rs) r = ap (◌∷◌ x.id) (map-snoc rs r)

-- Posting keeps the number and the identity.
if_posted-send_seqnum :
    (t : RequestType) (frags : ℕ) (r : Request) → (if_posted t frags r).send_seqnum ≡ r.send_seqnum
if_posted-send_seqnum send_tiny frags r = refl
if_posted-send_seqnum send_small frags r = refl
if_posted-send_seqnum send_mediumsq frags r = refl
if_posted-send_seqnum send_mediumva frags r = refl
if_posted-send_seqnum send_large frags r = refl
if_posted-send_seqnum recv_large frags r = refl

if_posted-id : (t : RequestType) (frags : ℕ) (r : Request) → (if_posted t frags r).id ≡ r.id
if_posted-id send_tiny frags r = refl
if_posted-id send_small frags r = refl
if_posted-id send_mediumsq frags r = refl
if_posted-id send_mediumva frags r = refl
if_posted-id send_large frags r = refl
if_posted-id recv_large frags r = refl

-- A request that gets a number, while there is room in the window.
pub setup-IsSender :
    (frags ses start a s : ℕ) (p : Sender) (r : Request)
    → IsSender ses start a s p
    → s < a + 8191
    → IsSender ses start a (s + 1) (setup frags p r)
unfolding setup
setup-IsSender frags ses start a s p r v room =
    let number : (if_posted r.type frags (record r { send_seqnum = p.next_send_seq })).send_seqnum
        ≡ wire ses s =
      if_posted-send_seqnum r.type frags _ ∙ v.next in
    record {
      session = v.session;
      next = ap (λ (x : ℕ). increase_by x 1) v.next ∙ increase_by-wire ses s 1 v.session;
      acked = v.acked;
      low = omega (arith, v.low);
      high = omega arith;
      waiting = IsWaiting-snoc ses a s p.partner_non_acked_req_q _ v.low number v.waiting;
      count = ap (λ (x : ℕ). x + 1) v.count ∙ omega (arith, length-append p.posted (_ ∷ []));
      series = IsSeries-snoc ses start s p.posted _ v.count number v.series;
    }

-- It is posted behind the others.
pub setup-posted :
    (frags : ℕ) (p : Sender) (r : Request)
    → map (λ (x : Request). x.id) (setup frags p r).posted
      ≡ map (λ (x : Request). x.id) p.posted ++ r.id ∷ []
unfolding setup
setup-posted frags p r =
    map-snoc p.posted _
    ∙ ap (λ (x : ℕ). map (λ (x : Request). x.id) p.posted ++ x ∷ []) (if_posted-id r.type frags _)

pub setup-need_seqnum_send_req_q :
    (frags : ℕ) (p : Sender) (r : Request)
    → (setup frags p r).need_seqnum_send_req_q ≡ p.need_seqnum_send_req_q
unfolding setup
setup-need_seqnum_send_req_q frags p r = refl

pub setup-throttling_sends_nr :
    (frags : ℕ) (p : Sender) (r : Request)
    → (setup frags p r).throttling_sends_nr ≡ p.throttling_sends_nr
unfolding setup
setup-throttling_sends_nr frags p r = refl
