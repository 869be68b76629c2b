-- ===== src/Large/Pulling.antt =====
-- The tries of a pull to get what it needs.
use open_mx.Common.{
  ℕ, ◌-◌, ◌≤◌, ◌≡◌, refl, sym, subst, inl, inr, Bool, true, false, List, [], ◌∷◌, ◌++◌, Option,
  none, ◌==◌, arith, Bool-cases,
}
use open_mx.Regions.{RegionMap, Globals}
use open_mx.Regions.Add.{Gets}
use open_mx.Regions.Get.{get_region-Gets}
use open_mx.Large.Move.{get_region-avail}
use open_mx.Large.{
  Transfer, recv_large, Resources, success, missing_resources, alloc_setup_pull, pull_into_region,
  pull_with,
}
use open_mx.Large.Acquire.{Tried, unheld, got-among}
use open_mx.Large.Account.{all_held, Holds}

module _ (g : Globals) (accepts : Bool) (events : ℕ) (xs ys : List Transfer) (s : Resources)
    (t : Transfer) (pull : t.type ≡ recv_large) (waits : t.missing_large_region ≡ true)
    (event : t.missing_exp_event ≡ false) (h : Holds g events s xs ys t) where
  pull_with-Tried :
      {y : RegionMap × Option ℕ}
      → Gets g accepts t.segs none s.regions (all_held xs ++ all_held ys) y
      → y.0.large_sends_avail_nr ≡ s.regions.large_sends_avail_nr
      → Tried g events xs ys t (pull_with true s t y)
  pull_with-Tried (Gets.fails m _ _) avail = record {
    holds = record { map = rw (pull, waits) m; sends = rw avail h.sends; expected = h.expected };
    same = (refl, refl, refl);
    got = λ e. cc;
    kept = λ e. waits;
  }
  pull_with-Tried (Gets.gets {c'} id m _ _) avail = record {
    holds = record {
      map = rw pull (got-among id none xs ys m);
      sends = ground (arith, h.sends, avail, pull);
      expected = ground (arith, h.expected, pull);
    };
    same = (refl, refl, refl);
    got = λ e. (refl, λ r. cc, λ _. refl);
    kept = λ e. cc;
  }

module _ (g : Globals) (accepts : Bool) (events : ℕ) (xs ys : List Transfer) (s : Resources)
    (t : Transfer) (waits : t.missing_large_region ≡ true) (some_seg : 1 ≤ t.segs.nseg)
    (pull : t.type ≡ recv_large) (h : Holds g events s xs ys t) where
  pull_into_region-Tried :
      t.missing_exp_event ≡ false → Tried g events xs ys t (pull_into_region g accepts true s t)
  unfolding pull_into_region
  pull_into_region-Tried event =
      pull_with-Tried g accepts events xs ys s t pull waits event h
        (get_region-Gets g accepts t.segs none s.regions _ (unheld t waits h) some_seg)
        (get_region-avail g accepts t.segs none s.regions)

  -- The slot of an event is taken once.
  abbrev slotted : Resources
  slotted = record s { avail_exp_events = s.avail_exp_events - 1 }

  slotted-Holds :
      t.missing_exp_event ≡ true
      → (s.avail_exp_events == 0) ≡ false
      → Holds g events slotted xs ys (record t { missing_exp_event = false })
  slotted-Holds missing left = record {
    map = h.map;
    sends = ground (arith, h.sends, pull);
    expected = ground (arith, h.expected, pull);
  }

-- A pull that waits for a region, of requests that are accounted for, if the driver starts the pulls
-- that the library asks it for: a try leaves the requests accounted for, whether the driver pins the
-- segments or not. The pull succeeds exactly if it has its region.
pub alloc_setup_pull-Tried :
    (g : Globals) (accepts : Bool) (events uninitialized : ℕ) (xs ys : List Transfer)
    (s : Resources) (t : Transfer)
    → t.type ≡ recv_large
    → t.missing_large_region ≡ true
    → 1 ≤ t.segs.nseg
    → Holds g events s xs ys t
    → Tried g events xs ys t (alloc_setup_pull g accepts true uninitialized s t)
unfolding alloc_setup_pull
alloc_setup_pull-Tried g accepts events uninitialized xs ys s t pull waits some_seg h =
    let P = Tried g events xs ys t in
    let try = alloc_setup_pull g accepts true uninitialized s t in
    elim (Bool-cases t.missing_exp_event) [
      | inr event ↦
          let e : try ≡ pull_into_region g accepts true s t = ground arith in
          subst P (sym e)
            (pull_into_region-Tried g accepts events xs ys s t waits some_seg pull h event)
      | inl missing ↦ elim (Bool-cases (s.avail_exp_events == 0)) [
        | inl full ↦
            let e : try ≡ (missing_resources, s, t) = ground arith in
            subst P (sym e)
              (record { holds = h; same = (refl, refl, refl); got = λ e. cc; kept = λ e. waits })
        | inr left ↦
            let t1 = record t { missing_exp_event = false } in
            let s1 = slotted g accepts events xs ys s t waits some_seg pull h in
            let e : try ≡ pull_into_region g accepts true s1 t1 = ground arith in
            let x =
              pull_into_region-Tried g accepts events xs ys s1 t1 waits some_seg pull
                (slotted-Holds g accepts events xs ys s t waits some_seg pull h missing left)
                refl in
            subst P (sym e) (record { holds = x.holds; same = x.same; got = x.got; kept = x.kept })
      ]
    ]

-- A pull that has its slot and its region, and that the driver refused: each later try names the value
-- of an uninitialized variable to the driver, and if the driver starts it, the request records that
-- value as its region.
pub alloc_setup_pull_again :
    (g : Globals) (accepts : Bool) (uninitialized : ℕ) (s : Resources) (t : Transfer)
    → t.missing_exp_event ≡ false
    → t.missing_large_region ≡ false
    → alloc_setup_pull g accepts true uninitialized s t ≡ (
      success,
      record s { driver_pulling_req_q = s.driver_pulling_req_q ++ (t.id, uninitialized) ∷ [] },
      record t { missing_pull_handle = false; region = uninitialized },
    )
unfolding alloc_setup_pull
alloc_setup_pull_again g accepts uninitialized s t event region = ground arith
