-- ===== src/Large/Acquire.antt =====
-- The tries of a send and of a pull to get what they need: each either gets all, or keeps what it got.
use open_mx.Common.{
  ℕ, ◌-◌, ◌≤◌, ◌≡◌, refl, sym, subst, inl, inr, Bool, true, false, List, [], ◌∷◌, ◌++◌, Option,
  some, ◌==◌, arith, Bool-cases,
}
use open_mx.Regions.{RegionMap, Globals}
use open_mx.Regions.Ledger.{IsMap}
use open_mx.Regions.Add.{Gets}
use open_mx.Regions.Get.{get_region-Gets}
use open_mx.Large.Move.{IsMap-move, IsMap-avail, IsMap-seqnum, get_region-avail}
use open_mx.Large.{
  Transfer, send_large, recv_large, Resources, Outcome, success, missing_resources,
  alloc_setup_isend_large, take_send_region, send_with,
}
use open_mx.Large.Account.{held, all_held, Holds}

-- A try: what the request holds then is accounted for. It has succeeded exactly if the request has its
-- region, and then a send has its slot too, and a pull its handle.
pub record Tried (g : Globals) (events : ℕ) (xs ys : List Transfer) (t : Transfer)
    (x : Outcome × Resources × Transfer) : Type 0 where
  pub holds : Holds g events x.1 xs ys x.2
  pub same : (x.2.id ≡ t.id) × (x.2.type ≡ t.type) × (x.2.segs ≡ t.segs)
  pub got :
      x.0 ≡ success
      → (x.2.missing_large_region ≡ false)
        × (t.type ≡ send_large → x.2.missing_send_large_region ≡ false)
        × (t.type ≡ recv_large → x.2.missing_pull_handle ≡ false)
  pub kept : x.0 ≡ missing_resources → x.2.missing_large_region ≡ true

-- A use that was got, among the others.
pub got-among :
    {g : Globals} {c : RegionMap} (id : ℕ) (q : Option ℕ) (xs ys : List Transfer)
    → IsMap g c ((id, q) ∷ all_held xs ++ all_held ys)
    → IsMap g c (all_held xs ++ (id, q) ∷ all_held ys)
got-among id q xs ys m = IsMap-move id q (all_held xs) (all_held ys) m

module _ (g : Globals) (accepts : Bool) (events : ℕ) (xs ys : List Transfer) (s : Resources)
    (t : Transfer) (sends : t.type ≡ send_large) (waits : t.missing_large_region ≡ true)
    (slot : t.missing_send_large_region ≡ false) (h : Holds g events s xs ys t) where
  send_with-Tried :
      {y : RegionMap × Option ℕ}
      → Gets g accepts t.segs (some t.id) s.regions (all_held xs ++ all_held ys) y
      → y.0.large_sends_avail_nr ≡ s.regions.large_sends_avail_nr
      → Tried g events xs ys t (send_with s t y)
  send_with-Tried (Gets.fails m _ _) avail = record {
    holds = record { map = rw (sends, waits) m; sends = rw avail h.sends; expected = h.expected };
    same = (refl, refl, refl);
    got = λ e. cc;
    kept = λ e. waits;
  }
  send_with-Tried (Gets.gets {c'} id m _ _) avail = record {
    holds = record {
      map = rw sends (IsMap-seqnum id _ (got-among id (some t.id) xs ys m));
      sends = ground (arith, h.sends, avail, sends);
      expected = ground (arith, h.expected, sends);
    };
    same = (refl, refl, refl);
    got = λ e. (refl, λ _. slot, λ r. cc);
    kept = λ e. cc;
  }

-- Before the region is got, the request holds none.
pub unheld :
    {g : Globals} {events : ℕ} {s : Resources} {xs ys : List Transfer} (t : Transfer)
    → t.missing_large_region ≡ true
    → Holds g events s xs ys t
    → IsMap g s.regions (all_held xs ++ all_held ys)
unheld {g} {s = s} {xs = xs} {ys = ys} t waits h =
    let e : held t ≡ [] = ground arith in
    subst (λ u. IsMap g s.regions (all_held xs ++ (u ++ all_held ys))) e h.map

module _ (g : Globals) (accepts : Bool) (events : ℕ) (xs ys : List Transfer) (s : Resources)
    (t : Transfer) (waits : t.missing_large_region ≡ true) (some_seg : 1 ≤ t.segs.nseg)
    (h : Holds g events s xs ys t) where
  take_send_region-Tried :
      t.type ≡ send_large
      → t.missing_send_large_region ≡ false
      → Tried g events xs ys t (take_send_region g accepts s t)
  unfolding take_send_region
  take_send_region-Tried sends slot =
      send_with-Tried g accepts events xs ys s t sends waits slot h
        (get_region-Gets g accepts t.segs (some t.id) s.regions _ (unheld t waits h) some_seg)
        (get_region-avail g accepts t.segs (some t.id) s.regions)

  -- The slot of a send is taken once.
  abbrev slotted : Resources
  slotted = record s {
    regions = record s.regions { large_sends_avail_nr = s.regions.large_sends_avail_nr - 1 };
  }

  slotted-Holds :
      t.type ≡ send_large
      → t.missing_send_large_region ≡ true
      → (s.regions.large_sends_avail_nr == 0) ≡ false
      → Holds g events slotted xs ys (record t { missing_send_large_region = false })
  slotted-Holds sends missing left = record {
    map = IsMap-avail (s.regions.large_sends_avail_nr - 1) h.map;
    sends = ground (arith, h.sends, sends);
    expected = ground (arith, h.expected, sends);
  }

-- A send that waits for a region, of requests that are accounted for: a try leaves them accounted for,
-- whatever the driver answers. The send succeeds exactly if it has its region, and then its slot too.
pub alloc_setup_isend_large-Tried :
    (g : Globals) (accepts : Bool) (events : ℕ) (xs ys : List Transfer) (s : Resources)
    (t : Transfer)
    → t.type ≡ send_large
    → t.missing_large_region ≡ true
    → 1 ≤ t.segs.nseg
    → Holds g events s xs ys t
    → Tried g events xs ys t (alloc_setup_isend_large g accepts s t)
unfolding alloc_setup_isend_large
alloc_setup_isend_large-Tried g accepts events xs ys s t sends waits some_seg h =
    let P = Tried g events xs ys t in
    elim (Bool-cases t.missing_send_large_region) [
      | inr slot ↦
          let e : alloc_setup_isend_large g accepts s t ≡ take_send_region g accepts s t =
            ground arith in
          subst P (sym e)
            (take_send_region-Tried g accepts events xs ys s t waits some_seg h sends slot)
      | inl missing ↦ elim (Bool-cases (s.regions.large_sends_avail_nr == 0)) [
        | inl full ↦
            let e : alloc_setup_isend_large g accepts s t ≡ (missing_resources, s, t) =
              ground arith in
            subst P (sym e)
              (record { holds = h; same = (refl, refl, refl); got = λ e. cc; kept = λ e. waits })
        | inr left ↦
            let t1 = record t { missing_send_large_region = false } in
            let s1 = slotted g accepts events xs ys s t waits some_seg h in
            let e : alloc_setup_isend_large g accepts s t ≡ take_send_region g accepts s1 t1 =
              ground arith in
            let x =
              take_send_region-Tried g accepts events xs ys s1 t1 waits some_seg
                (slotted-Holds g accepts events xs ys s t waits some_seg h sends missing left) sends
                refl in
            subst P (sym e) (record { holds = x.holds; same = x.same; got = x.got; kept = x.kept })
      ]
    ]
