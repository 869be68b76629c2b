-- ===== src/Large/Give.antt =====
-- What gives the resources of a large message back: the end of a pull, the notify or the nack of a
-- send, and the release of a request that was not sent.
use open_mx.Common.{
  ℕ, ◌+◌, ◌≡◌, refl, sym, subst, ◌∙◌, inl, inr, Bool, true, false, List, [], ◌∷◌, ◌++◌, Option,
  none, some, arith, Bool-cases, eq→==, if◌then◌else◌,
}
use open_mx.Regions.{Region, RegionMap, Globals, put_region, destroy_region, region_free}
use open_mx.Regions.Ledger.{Use, uses, reservers, View, IsAt, view, Fits, IsMap}
use open_mx.Regions.Put.{put_region-Puts}
use open_mx.Regions.Uses.{uses-middle, reservers-is}
use open_mx.Large.Move.{IsMap-avail, put_region-avail}
use open_mx.Large.{
  Transfer, send_large, recv_large, Resources, process_pull_done, put_send, finish_send, fail_send,
  process_recv_notify, is_for, release_unsent, release_send_slot, complete_unsent,
}
use open_mx.Large.Account.{held, all_held, Holds, IsAccounted, Holds-gone}

put_held :
    {g : Globals} {c : RegionMap} (id : ℕ) (q : Option ℕ) (xs ys : List Transfer)
    → IsMap g c (all_held xs ++ (id, q) ∷ all_held ys)
    → IsMap g (put_region g c id q) (all_held xs ++ all_held ys)
put_held {g} {c} id q xs ys m = (put_region-Puts g c id q (all_held xs) (all_held ys) m).0

slot-IsMap :
    {g : Globals} {c : RegionMap} {us : List Use} (t : Transfer)
    → IsMap g c us
    → IsMap g (release_send_slot t c) us
slot-IsMap {g} {c} {us} t m = elim (Bool-cases t.missing_send_large_region) [
  | inl e ↦ rw e m
  | inr e ↦ rw e (IsMap-avail (c.large_sends_avail_nr + 1) m)
]

module _ (g : Globals) (events : ℕ) (xs ys : List Transfer) (s : Resources) (t : Transfer)
    (h : Holds g events s xs ys t) where
  -- A send that holds its slot and its region gives both back.
  pub put_send-IsAccounted :
      t.type ≡ send_large
      → t.missing_send_large_region ≡ false
      → t.missing_large_region ≡ false
      → IsAccounted g events (put_send g s t) (xs ++ ys)
  put_send-IsAccounted send slot region =
      let e : held t ≡ (t.region, some t.id) ∷ [] = ground arith in
      let m = subst (λ u. IsMap g s.regions (all_held xs ++ (u ++ all_held ys))) e h.map in
      let n = put_region-avail g s.regions t.region (some t.id) in
      Holds-gone xs ys t (IsMap-avail _ (put_held t.region (some t.id) xs ys m))
        (ground (arith, h.sends, n)) (ground (arith, h.expected))

  -- A pull that holds the slot of its event and its region gives both back.
  pub process_pull_done-IsAccounted :
      (ok : Bool)
      → t.type ≡ recv_large
      → t.missing_exp_event ≡ false
      → t.missing_large_region ≡ false
      → IsAccounted g events (process_pull_done g ok t.region s t).0 (xs ++ ys)
  unfolding process_pull_done
  process_pull_done-IsAccounted ok pull event region =
      let e : held t ≡ (t.region, none) ∷ [] = ground arith in
      let m = subst (λ u. IsMap g s.regions (all_held xs ++ (u ++ all_held ys))) e h.map in
      let n = put_region-avail g s.regions t.region none in
      Holds-gone xs ys t (put_held t.region none xs ys m) (ground (arith, h.sends, n))
        (ground (arith, h.expected))

  -- A send that was not sent gives back what it got.
  pub release_send-IsAccounted :
      t.type ≡ send_large → IsAccounted g events (release_unsent g s t) (xs ++ ys)
  unfolding release_unsent
  release_send-IsAccounted send =
      let P = λ (r : Resources). IsAccounted g events r (xs ++ ys) in
      let c = release_send_slot t s.regions in
      elim (Bool-cases t.missing_large_region) [
        | inl missing ↦
            let e : held t ≡ [] = ground arith in
            let r : release_unsent g s t ≡ record s { regions = c } = ground arith in
            let m = subst (λ u. IsMap g s.regions (all_held xs ++ (u ++ all_held ys))) e h.map in
            subst P (sym r) (
              Holds-gone xs ys t (slot-IsMap t m) (ground (arith, h.sends))
                (ground (arith, h.expected)))
        | inr region ↦
            let e : held t ≡ (t.region, some t.id) ∷ [] = ground arith in
            let put = put_region g c t.region (some t.id) in
            let r : release_unsent g s t ≡ record s { regions = put } = ground arith in
            let m = subst (λ u. IsMap g s.regions (all_held xs ++ (u ++ all_held ys))) e h.map in
            let n = put_region-avail g c t.region (some t.id) in
            subst P (sym r) (
              Holds-gone xs ys t (put_held t.region (some t.id) xs ys (slot-IsMap t m))
                (ground (arith, h.sends, n)) (ground (arith, h.expected)))
      ]

Fits-reserver :
    {g : Globals} (id q : ℕ) (xs ys : List Use) (v : View)
    → v.uses ≡ uses id (xs ++ (id, some q) ∷ ys)
    → v.reservers ≡ reservers id (xs ++ (id, some q) ∷ ys)
    → Fits g id v
    → v.region.reserver ≡ some q
Fits-reserver id q xs ys v n e (r, IsAt.outside p u) =
    absurd (ground (arith, uses-middle id id (some q) xs ys))
Fits-reserver id q xs ys v n e (r, IsAt.vacant p u) =
    absurd (ground (arith, uses-middle id id (some q) xs ys))
Fits-reserver id q xs ys v n e (r, IsAt.cached p k o z w u) =
    absurd (ground (arith, uses-middle id id (some q) xs ys))
Fits-reserver id q xs ys v n e (r, IsAt.used p k o w x u f) =
    reservers-is id q xs ys v.region.reserver (sym e ∙ f)
Fits-reserver id q xs ys v n e (r, IsAt.vector p k o u f) =
    reservers-is id q xs ys v.region.reserver (sym e ∙ f)

-- The region that a send holds is reserved for it.
pub held-reserver :
    {g : Globals} {c : RegionMap} (id q : ℕ) (xs ys : List Use)
    → IsMap g c (xs ++ (id, some q) ∷ ys)
    → (c.region id).reserver ≡ some q
held-reserver {g} {c} id q xs ys m =
    Fits-reserver id q xs ys (view c m.free (xs ++ (id, some q) ∷ ys) id) refl refl (m.at id)

put_region-reserver :
    (g : Globals) (c : RegionMap) (id q : ℕ)
    → ((put_region g c id (some q)).region id).reserver ≡ none
unfolding put_region destroy_region region_free
put_region-reserver g c id q = ground (arith, eq→== id id refl)

is_for-owner :
    (t : Transfer) (r : Region) → r.reserver ≡ some t.id → is_for r t.region_seqnum t ≡ true
unfolding is_for
is_for-owner t r e =
    ground (arith, eq→== t.id t.id refl, eq→== t.region_seqnum t.region_seqnum refl)

-- A notify for the request that has the region reserved.
notify_owner :
    (g : Globals) (t : Transfer) (xfer_length : ℕ) (s : Resources)
    → (s.regions.region t.region).reserver ≡ some t.id
    → process_recv_notify g t.region t.region_seqnum xfer_length s t
      ≡ (finish_send (put_send g s t) t, record t { xfer_length = xfer_length; need_reply = false })
unfolding process_recv_notify
notify_owner g t xfer_length s owner =
    let mine : is_for (s.regions.region t.region) t.region_seqnum t ≡ true =
      is_for-owner t (s.regions.region t.region) owner in
    rw mine

-- A notify for a region that is not reserved.
notify_free :
    (g : Globals) (id seqnum len : ℕ) (s : Resources) (t : Transfer)
    → (s.regions.region id).reserver ≡ none
    → process_recv_notify g id seqnum len s t ≡ (s, t)
unfolding process_recv_notify is_for
notify_free g id seqnum len s t free = ground arith

module _ (g : Globals) (events : ℕ) (xs ys : List Transfer) (s : Resources) (t : Transfer)
    (h : Holds g events s xs ys t) where
  -- A send that has its slot and its region, of requests that are accounted for: the notify for its
  -- region with its sequence number is taken for it and sets its length, and the other requests are
  -- accounted for without it. The send completes then if it needs no ack. Any notify for that region
  -- after it changes nothing, for any request.
  pub process_recv_notify-IsAccounted :
      (xfer_length : ℕ)
      → t.type ≡ send_large
      → t.missing_send_large_region ≡ false
      → t.missing_large_region ≡ false
      → let x = process_recv_notify g t.region t.region_seqnum xfer_length s t in
        IsAccounted g events x.0 (xs ++ ys)
        × (x.1 ≡ record t { xfer_length = xfer_length; need_reply = false })
        × (x.0.done ≡ (if t.need_ack then s.done else s.done ++ t.id ∷ []))
        × ((seqnum len : ℕ) (u : Transfer)
            → process_recv_notify g t.region seqnum len x.0 u ≡ (x.0, u))
  process_recv_notify-IsAccounted xfer_length send slot region =
      let e : held t ≡ (t.region, some t.id) ∷ [] = ground arith in
      let m = subst (λ u. IsMap g s.regions (all_held xs ++ (u ++ all_held ys))) e h.map in
      let owner = held-reserver t.region t.id (all_held xs) (all_held ys) m in
      let free = put_region-reserver g s.regions t.region t.id in
      let t' = record t { xfer_length = xfer_length; need_reply = false } in
      let s' = finish_send (put_send g s t) t in
      let step : process_recv_notify g t.region t.region_seqnum xfer_length s t ≡ (s', t') =
        notify_owner g t xfer_length s owner in
      let a = put_send-IsAccounted g events xs ys s t h send slot region in
      let a' : IsAccounted g events s' (xs ++ ys) = record {
        map = a.map;
        sends = a.sends;
        expected = a.expected;
      } in
      rw step (a', refl, refl, λ seqnum len u. notify_free g t.region seqnum len s' u free)

  -- A send that fails gives back what it held.
  pub fail_send-IsAccounted :
      t.type ≡ send_large
      → t.missing_send_large_region ≡ false
      → t.missing_large_region ≡ false
      → IsAccounted g events (fail_send g s t) (xs ++ ys)
  unfolding fail_send
  fail_send-IsAccounted send slot region =
      let a = put_send-IsAccounted g events xs ys s t h send slot region in
      record { map = a.map; sends = a.sends; expected = a.expected }

-- A pull that was delayed before it started keeps what it took when it is completed unsent: its slot
-- for an event and its region are not given back.
pub complete_unsent-pull :
    (g : Globals) (s : Resources) (t : Transfer) → t.type ≡ recv_large → complete_unsent g s t ≡ s
unfolding complete_unsent
complete_unsent-pull g s t pull = ground arith
