-- ===== src/Regions/Init.antt =====
-- The region map of a new endpoint, and of one that closes.
use open_mx.Common.{
  ℕ, zero, suc, ◌+◌, ◌-◌, ◌≡◌, refl, sym, ap, inl, inr, List, [], ◌∷◌, some, ltb, ◌==◌,
  if◌then◌else◌, length, arith, count, remove, count-remove, Bool-cases,
}
use open_mx.Regions.{
  Region, RegionMap, Globals, user_region_max, map_init, destroy_region, region_free,
}
use open_mx.Regions.Ledger.{Use, uses, View, IsAt, view, Chain, Fits, IsMap}

-- The ids from `a` on.
ids_from : ℕ → ℕ → List ℕ
ids_from a zero = []
ids_from a (suc n) = a ∷ ids_from (suc a) n

length-ids_from : (a n : ℕ) → length (ids_from a n) ≡ n
unfolding ids_from
length-ids_from a zero = refl
length-ids_from a (suc n) = ap suc (length-ids_from (suc a) n)

count-ids_from :
    (i a n : ℕ) → count i (ids_from a n) ≡ (if ltb i a then 0 else if ltb i (a + n) then 1 else 0)
unfolding ids_from count
count-ids_from i a zero = ground arith
count-ids_from i a (suc n) = ground (arith, count-ids_from i (suc a) n)

-- The chain that the initialization writes, from the slot `a` on.
map_init-Chain :
    (memory : ℕ → Region) (a n : ℕ)
    → a + suc n ≡ user_region_max
    → Chain (map_init memory).next_free (some a) (ids_from a (suc n))
unfolding ids_from map_init
map_init-Chain memory a zero h = (refl, ground arith)
map_init-Chain memory a (suc n) h =
    let rest = map_init-Chain memory (suc a) n (omega arith) in
    let e : (map_init memory).next_free a ≡ some (suc a) = ground arith in (refl, rw e rest)

-- Whatever the memory of the map held, its slots are all vacant at first.
pub map_init-IsMap : (g : Globals) (memory : ℕ → Region) → IsMap g (map_init memory) []
unfolding map_init count uses
map_init-IsMap g memory = record {
  free = ids_from 0 user_region_max;
  chain = map_init-Chain memory 0 255 refl;
  number = sym (length-ids_from 0 user_region_max);
  at = λ i.
      let c = count-ids_from i 0 user_region_max in
      (
        (λ e. ground (arith, c), λ e. ground (arith, c)),
        elim (Bool-cases (ltb i user_region_max)) [
          | inl e ↦ IsAt.vacant (ground (arith, c)) refl
          | inr e ↦ IsAt.outside (ground (arith, c)) refl
        ],
      );
}

-- The loops of omx__endpoint_large_region_map_exit, which take an unused region from its list too.
unfoldable pub exit_list : List ℕ → RegionMap → RegionMap
unfolding destroy_region
exit_list [] c = c
exit_list (id ∷ ids) c = exit_list ids (
    destroy_region
      (if (c.region id).use_count == 0
        then record c { reg_unused_list = remove id c.reg_unused_list }
        else c)
      id)

-- Without the release of an unused region.
unfoldable pub exit_vect : List ℕ → RegionMap → RegionMap
unfolding destroy_region
exit_vect [] c = c
exit_vect (id ∷ ids) c = exit_vect ids (destroy_region c id)

-- omx__endpoint_large_region_map_exit
unfoldable pub map_exit : RegionMap → RegionMap
unfolding exit_list exit_vect
map_exit c = let c' = exit_list c.reg_list c in exit_vect c'.reg_vect_list c'

module _ (i : ℕ) where
  exit_list-windows :
      (ids : List ℕ) (c : RegionMap)
      → (count i (exit_list ids c).windows ≡ count i c.windows - count i ids)
        × (count i (exit_list ids c).reg_vect_list ≡ count i c.reg_vect_list - count i ids)
  unfolding exit_list count destroy_region region_free
  exit_list-windows [] c = (omega arith, omega arith)
  exit_list-windows (id ∷ ids) c =
      let c' =
        destroy_region
          (if (c.region id).use_count == 0
            then record c { reg_unused_list = remove id c.reg_unused_list }
            else c)
          id in
      let w : c'.windows ≡ remove id c.windows = ground arith in
      let v : c'.reg_vect_list ≡ remove id c.reg_vect_list = ground arith in
      let rest = exit_list-windows ids c' in
      (
        omega (arith, rest.0, ap (count i) w, count-remove i id c.windows),
        omega (arith, rest.1, ap (count i) v, count-remove i id c.reg_vect_list),
      )

  exit_vect-windows :
      (ids : List ℕ) (c : RegionMap)
      → count i (exit_vect ids c).windows ≡ count i c.windows - count i ids
  unfolding exit_vect count destroy_region region_free
  exit_vect-windows [] c = omega arith
  exit_vect-windows (id ∷ ids) c =
      omega (arith, exit_vect-windows ids (destroy_region c id), count-remove i id c.windows)

  -- The windows of an id are those of its region.
  Fits-windows :
      {g : Globals} (v : View) → Fits g i v → v.windows - v.listed - (v.vectorial - v.listed) ≡ 0
  Fits-windows v (r, IsAt.outside p u) = ground arith
  Fits-windows v (r, IsAt.vacant p u) = ground arith
  Fits-windows v (r, IsAt.cached p n k w x u) = ground arith
  Fits-windows v (r, IsAt.used p n k w x u e) = ground arith
  Fits-windows v (r, IsAt.vector p n k u e) = ground arith

  -- When the endpoint closes, of a map that holds each region once, where its state says: the driver
  -- keeps no window, even of the regions in use.
  pub map_exit-windows :
      (g : Globals) (c : RegionMap) (us : List Use)
      → IsMap g c us
      → count i (map_exit c).windows ≡ 0
  unfolding map_exit
  map_exit-windows g c us m =
      let c' = exit_list c.reg_list c in
      let x = exit_list-windows c.reg_list c in
      let y = exit_vect-windows c'.reg_vect_list c' in
      omega (arith, x, y, Fits-windows (view c m.free us i) (m.at i))
