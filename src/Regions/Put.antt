-- ===== src/Regions/Put.antt =====
-- Putting a region back: the cache keeps it, or its registration is undone.
use open_mx.Common.{
  ℕ, suc, ◌+◌, ◌≡◌, refl, sym, subst, ◌∙◌, inl, inr, true, false, List, [], ◌∷◌, ◌++◌, Option, ltb,
  ◌==◌, ◌&&◌, if◌then◌else◌, arith, remove, count-snoc, Bool-cases, ==→eq, eq→==,
}
use open_mx.Regions.{
  RegionMap, Globals, user_region_max, update, put_region, leave_region, destroy_region,
  region_free,
}
use open_mx.Regions.Slots.{InRange-small, Fits-everywhere, Fits-same, destroy_region-IsMap}
use open_mx.Regions.Add.{reservers-nil}
use open_mx.Regions.Uses.{uses-middle, reservers-other, reservers-left, to_list-nil}
use open_mx.Regions.Ledger.{Use, uses, reservers, to_list, View, IsAt, view, Fits, IsMap, IsLeaving}

-- A region that is put back was in use.
record WasUsed (g : Globals) (id : ℕ) (q : Option ℕ) (v : View) (left : ℕ) (rest : List ℕ)
    : Type 0 where
  small : ltb id user_region_max ≡ true
  fewer : suc left ≡ v.region.use_count
  fewer_reservers : rest ≡ to_list (leave_region q v.region).reserver []
  out : v.free ≡ 0
  kind : v.listed ≡ (if v.region.segs.nseg == 1 then 1 else 0)
  one : v.listed + v.vectorial ≡ 1
  kept : v.unused ≡ 0
  window : v.windows ≡ 1
  last : (g.regcache && (v.region.segs.nseg == 1)) ≡ false → left ≡ 0
  alone : g.parallel_regcache ≡ false → left ≡ 0

module _ {g : Globals} (c : RegionMap) (id : ℕ) (q : Option ℕ) (xs ys : List Use)
    (free : List ℕ) where
  Fits-WasUsed :
      Fits g id (view c free (xs ++ (id, q) ∷ ys) id)
      → WasUsed g id q
          (view c free (xs ++ (id, q) ∷ ys) id)
          (uses id (xs ++ ys))
          (reservers id (xs ++ ys))
  Fits-WasUsed (r, IsAt.outside p u) = absurd (ground (arith, uses-middle id id q xs ys))
  Fits-WasUsed (r, IsAt.vacant p u) = absurd (ground (arith, uses-middle id id q xs ys))
  Fits-WasUsed (r, IsAt.cached p n k w x u) = absurd (ground (arith, uses-middle id id q xs ys))
  Fits-WasUsed (r, IsAt.used p n k w x u e) =
      let fewer : suc (uses id (xs ++ ys)) ≡ (c.region id).use_count =
        ground (arith, uses-middle id id q xs ys) in
      record {
        small = InRange-small id (view c free (xs ++ (id, q) ∷ ys) id) r (ground arith);
        fewer = fewer;
        fewer_reservers = reservers-left id q xs ys (c.region id) e;
        out = p.0;
        kind = ground arith;
        one = ground arith;
        kept = ground arith;
        window = ground arith;
        last = λ h. let plain : g.regcache ≡ false = ground arith in ground (arith, w plain);
        alone = λ h. ground (arith, x h);
      }
  Fits-WasUsed (r, IsAt.vector p n k u e) = record {
    small = InRange-small id (view c free (xs ++ (id, q) ∷ ys) id) r (ground arith);
    fewer = ground (arith, uses-middle id id q xs ys);
    fewer_reservers = reservers-left id q xs ys (c.region id) e;
    out = p.0;
    kind = ground arith;
    one = ground arith;
    kept = ground arith;
    window = ground arith;
    last = λ h. ground (arith, uses-middle id id q xs ys);
    alone = λ h. ground (arith, uses-middle id id q xs ys);
  }

module _ (g : Globals) (c : RegionMap) (id : ℕ) (q : Option ℕ) (xs ys : List Use)
    (m : IsMap g c (xs ++ (id, q) ∷ ys)) where
  -- The map that no longer counts the use.
  abbrev left : RegionMap
  left = record c { region = update c.region id (leave_region q (c.region id)) }

  was_used :
      WasUsed g id q
        (view c m.free (xs ++ (id, q) ∷ ys) id)
        (uses id (xs ++ ys))
        (reservers id (xs ++ ys))
  was_used = Fits-WasUsed c id q xs ys m.free (m.at id)

  -- The cache keeps the region.
  abbrev kept : RegionMap
  kept =
      if (leave_region q (c.region id)).use_count == 0
      then record left { reg_unused_list = c.reg_unused_list ++ id ∷ [] }
      else left

  kept-at :
      g.regcache ≡ true
      → ((c.region id).segs.nseg == 1) ≡ true
      → Fits g id (view kept m.free (xs ++ ys) id)
  kept-at caching single =
      let w = was_used in
      let self = eq→== id id refl in
      let n : (c.region id).segs.nseg ≡ 1 = ==→eq _ 1 single in
      let more = count-snoc id id c.reg_unused_list in
      elim (Bool-cases ((leave_region q (c.region id)).use_count == 0)) [
        | inl zero_ ↦ (
          (λ e. ground arith, λ e. ground arith),
          IsAt.cached (ground arith) caching (ground arith) (ground arith)
              (let idle : uses id (xs ++ ys) ≡ 0 = ground (arith, w.fewer) in
                let free_now =
                  to_list-nil (leave_region q (c.region id)).reserver
                    (sym w.fewer_reservers ∙ reservers-nil id (xs ++ ys) idle) in
                ground arith)
              (ground (arith, w.fewer)),
        )
        | inr used ↦ (
          (λ e. ground arith, λ e. ground arith),
          IsAt.used (ground arith) (ground arith) (ground arith) (λ e. cc)
              (λ e.
                let last : (c.region id).use_count ≡ 1 = omega (arith, w.fewer, w.alone e) in
                absurd (ground (arith, last)))
              (ground (arith, w.fewer)) (ground arith),
        )
      ]

  kept-IsMap : g.regcache ≡ true → ((c.region id).segs.nseg == 1) ≡ true → IsMap g kept (xs ++ ys)
  unfolding uses
  kept-IsMap caching single = record {
    free = m.free;
    chain = ground arith;
    number = ground arith;
    at =
        Fits-everywhere g c kept m.free m.free (xs ++ (id, q) ∷ ys) (xs ++ ys) id
          (λ i e. ground (
            arith,
            count-snoc i id c.reg_unused_list,
            uses-middle i id q xs ys,
            reservers-other i id q xs ys,
          ))
          (λ i e. m.at i) (kept-at caching single);
  }

  -- A region that the cache does not keep has no use left.
  leaving : (g.regcache && ((c.region id).segs.nseg == 1)) ≡ false → IsLeaving g left (xs ++ ys) id
  leaving e =
      let w = was_used in
      record {
        free = m.free;
        chain = m.chain;
        number = m.number;
        small = w.small;
        out = w.out;
        listed = w.one;
        kept = w.kept;
        window = w.window;
        idle = w.last e;
        at =
            Fits-same g c left m.free m.free (xs ++ (id, q) ∷ ys) (xs ++ ys) id
              (λ i e. ground (arith, uses-middle i id q xs ys, reservers-other i id q xs ys))
              (λ i e. m.at i);
      }

  -- Of a map that holds each region once, where its state says, a use of a region ends: the map is one
  -- for the uses that remain. The cache keeps a contiguous region, behind the other unused ones if this
  -- was its last use; without the cache, and for a vectorial region, the driver drops the window. No
  -- other region changes.
  pub put_region-Puts :
      IsMap g (put_region g c id q) (xs ++ ys)
      × ((put_region g c id q).windows ≡ (
          if g.regcache && ((c.region id).segs.nseg == 1) then c.windows else remove id c.windows))
      × ((put_region g c id q).reg_unused_list ≡ (
          if g.regcache && ((c.region id).segs.nseg == 1) && ((c.region id).use_count == 1)
          then c.reg_unused_list ++ id ∷ []
          else c.reg_unused_list))
      × ((i : ℕ) → (i == id) ≡ false → (put_region g c id q).region i ≡ c.region i)
  unfolding put_region destroy_region region_free
  put_region-Puts =
      let w = was_used in
      let uses_now : (c.region id).use_count ≡ suc (uses id (xs ++ ys)) = sym w.fewer in
      elim (Bool-cases (g.regcache && ((c.region id).segs.nseg == 1))) [
        | inl keep ↦
            let e : put_region g c id q ≡ kept = ground arith in
            (
              subst (λ d. IsMap g d (xs ++ ys)) (sym e) (kept-IsMap (ground arith) (ground arith)),
              ground arith,
              ground (arith, uses_now),
              λ i n. ground arith,
            )
        | inr gone ↦
            let e : put_region g c id q ≡ destroy_region left id = ground arith in
            (
              subst (λ d. IsMap g d (xs ++ ys)) (sym e) (destroy_region-IsMap (leaving gone)),
              ground arith,
              ground arith,
              λ i n. ground arith,
            )
      ]
