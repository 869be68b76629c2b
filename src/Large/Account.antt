-- ===== src/Large/Account.antt =====
-- What the requests for large messages hold of the endpoint, and that nothing is lost or taken twice.
use open_mx.Common.{
  ℕ, ◌+◌, ◌≡◌, refl, sym, subst, List, [], ◌∷◌, ◌++◌, none, some, if◌then◌else◌, arith,
  append_assoc,
}
use open_mx.Regions.{Globals}
use open_mx.Regions.Ledger.{Use, IsMap}
use open_mx.Large.{Transfer, Resources, send_large, recv_large}

-- The uses of regions that a request has, and the slots that it took.
abbrev pub held : Transfer → List Use
held t = elim t.type [
  | send_large ↦ if t.missing_large_region then [] else (t.region, some t.id) ∷ []
  | recv_large ↦ if t.missing_large_region then [] else (t.region, none) ∷ []
]

abbrev pub send_slots : Transfer → ℕ
send_slots t = elim t.type [
  | send_large ↦ if t.missing_send_large_region then 0 else 1
  | recv_large ↦ 0
]

abbrev pub exp_events : Transfer → ℕ
exp_events t = elim t.type [ send_large ↦ 0 | recv_large ↦ if t.missing_exp_event then 0 else 1 ]

-- All requests that take resources, or hold some.
unfoldable pub all_held : List Transfer → List Use
all_held [] = []
all_held (t ∷ ts) = held t ++ all_held ts

unfoldable pub all_send_slots : List Transfer → ℕ
all_send_slots [] = 0
all_send_slots (t ∷ ts) = send_slots t + all_send_slots ts

unfoldable pub all_exp_events : List Transfer → ℕ
all_exp_events [] = 0
all_exp_events (t ∷ ts) = exp_events t + all_exp_events ts

-- The map holds each region once and counts the uses of these requests, and every slot is free or
-- taken by one of them: 128 for sends, and `events` for events.
pub record IsAccounted (g : Globals) (events : ℕ) (s : Resources) (ts : List Transfer)
    : Type 0 where
  pub map : IsMap g s.regions (all_held ts)
  pub sends : s.regions.large_sends_avail_nr + all_send_slots ts ≡ 128
  pub expected : s.avail_exp_events + all_exp_events ts ≡ events

all_held-middle :
    (xs : List Transfer) (t : Transfer) (ys : List Transfer)
    → all_held (xs ++ t ∷ ys) ≡ all_held xs ++ (held t ++ all_held ys)
unfolding all_held
all_held-middle [] t ys = refl
all_held-middle (x ∷ xs) t ys =
    rw (all_held-middle xs t ys) (sym (append_assoc (held x) (all_held xs) (held t ++ all_held ys)))

pub all_held-append : (xs ys : List Transfer) → all_held (xs ++ ys) ≡ all_held xs ++ all_held ys
unfolding all_held
all_held-append [] ys = refl
all_held-append (x ∷ xs) ys =
    rw (all_held-append xs ys) (sym (append_assoc (held x) (all_held xs) (all_held ys)))

all_send_slots-middle :
    (xs : List Transfer) (t : Transfer) (ys : List Transfer)
    → all_send_slots (xs ++ t ∷ ys) ≡ send_slots t + all_send_slots (xs ++ ys)
unfolding all_send_slots
all_send_slots-middle [] t ys = refl
all_send_slots-middle (x ∷ xs) t ys = omega (arith, all_send_slots-middle xs t ys)

all_exp_events-middle :
    (xs : List Transfer) (t : Transfer) (ys : List Transfer)
    → all_exp_events (xs ++ t ∷ ys) ≡ exp_events t + all_exp_events (xs ++ ys)
unfolding all_exp_events
all_exp_events-middle [] t ys = refl
all_exp_events-middle (x ∷ xs) t ys = omega (arith, all_exp_events-middle xs t ys)

-- One request among others: what it holds, and the rest of the account.
pub record Holds (g : Globals) (events : ℕ) (s : Resources) (xs ys : List Transfer) (t : Transfer)
    : Type 0 where
  pub map : IsMap g s.regions (all_held xs ++ (held t ++ all_held ys))
  pub sends : s.regions.large_sends_avail_nr + (send_slots t + all_send_slots (xs ++ ys)) ≡ 128
  pub expected : s.avail_exp_events + (exp_events t + all_exp_events (xs ++ ys)) ≡ events

module _ {g : Globals} {events : ℕ} {s : Resources} (xs ys : List Transfer) (t : Transfer) where
  pub IsAccounted-Holds : IsAccounted g events s (xs ++ t ∷ ys) → Holds g events s xs ys t
  IsAccounted-Holds a = record {
    map = subst (IsMap g s.regions) (all_held-middle xs t ys) a.map;
    sends = omega (arith, a.sends, all_send_slots-middle xs t ys);
    expected = omega (arith, a.expected, all_exp_events-middle xs t ys);
  }

  pub Holds-IsAccounted : Holds g events s xs ys t → IsAccounted g events s (xs ++ t ∷ ys)
  Holds-IsAccounted a = record {
    map = subst (IsMap g s.regions) (sym (all_held-middle xs t ys)) a.map;
    sends = omega (arith, a.sends, all_send_slots-middle xs t ys);
    expected = omega (arith, a.expected, all_exp_events-middle xs t ys);
  }

  -- A request that holds nothing any more leaves the account.
  pub Holds-gone :
      IsMap g s.regions (all_held xs ++ all_held ys)
      → s.regions.large_sends_avail_nr + all_send_slots (xs ++ ys) ≡ 128
      → s.avail_exp_events + all_exp_events (xs ++ ys) ≡ events
      → IsAccounted g events s (xs ++ ys)
  Holds-gone m n e = record {
    map = subst (IsMap g s.regions) (sym (all_held-append xs ys)) m;
    sends = n;
    expected = e;
  }
