-- ===== src/Regions/Slots.antt =====
-- Regions that leave the chain of free slots and come back.
use open_mx.Common.{
  ℕ, ◌+◌, ◌<◌, ◌≡◌, refl, sym, subst, inl, inr, true, false, List, [], ◌∷◌, Option, ltb, ◌==◌,
  arith, count, remove, count-remove, Bool-cases, ==→eq, eq→==,
}
use open_mx.Regions.{RegionMap, Globals, user_region_max, update, region_free, destroy_region}
use open_mx.Regions.Ledger.{Use, View, IsAt, view, Chain, InRange, Fits, IsMap, IsTaken, IsLeaving}

-- A write to a slot that is not in the chain does not change it.
Chain-update :
    (next : ℕ → Option ℕ) (first : Option ℕ) (is : List ℕ) (id : ℕ) (to : Option ℕ)
    → count id is ≡ 0
    → Chain next first is
    → Chain (update next id to) first is
unfolding count
Chain-update next first [] id to h ch = ch
Chain-update next first (i ∷ is) id to h ch = elim (Bool-cases (i == id)) [
  | inl same ↦ absurd (ground (arith, ==→eq i id same))
  | inr other ↦ (ch.0, rw other (Chain-update next (next i) is id to (ground arith) ch.1))
]

-- An id that stands somewhere is one of the map.
pub InRange-small :
    (i : ℕ) (v : View)
    → InRange i v
    → 0 < v.free + v.listed + v.vectorial
    → ltb i user_region_max ≡ true
InRange-small i v r h = elim (Bool-cases (ltb i user_region_max)) [
  | inl e ↦ e
  | inr e ↦ absurd (omega (arith, r.1 e))
]

-- What holds of one id, and of all others, holds of all.
everywhere : {P : ℕ → Type 0} (id : ℕ) → ((i : ℕ) → (i == id) ≡ false → P i) → P id → (i : ℕ) → P i
everywhere {P} id others here i = elim (Bool-cases (i == id)) [
  | inl e ↦ subst P (sym (==→eq i id e)) here
  | inr e ↦ others i e
]

-- What holds of the other ids under a map holds of them under one that agrees on them.
module _ (g : Globals) (c c' : RegionMap) (free free' : List ℕ) (us us' : List Use) (id : ℕ) where
  pub Fits-same :
      ((i : ℕ) → (i == id) ≡ false → view c' free' us' i ≡ view c free us i)
      → ((i : ℕ) → (i == id) ≡ false → Fits g i (view c free us i))
      → (i : ℕ) → (i == id) ≡ false
      → Fits g i (view c' free' us' i)
  Fits-same same fits i e = subst (Fits g i) (sym (same i e)) (fits i e)

  pub Fits-everywhere :
      ((i : ℕ) → (i == id) ≡ false → view c' free' us' i ≡ view c free us i)
      → ((i : ℕ) → (i == id) ≡ false → Fits g i (view c free us i))
      → Fits g id (view c' free' us' id)
      → (i : ℕ) → Fits g i (view c' free' us' i)
  Fits-everywhere same fits here =
      everywhere {P = λ i. Fits g i (view c' free' us' i)} id (Fits-same same fits) here

-- The region that is given back is vacant again.
pub region_free-IsMap :
    {g : Globals} {c : RegionMap} {us : List Use} {id : ℕ}
    → IsTaken g c us id
    → IsMap g (region_free c id) us
unfolding region_free count
region_free-IsMap {g} {c} {us} {id} t =
    let new = id ∷ t.free in
    record {
      free = new;
      chain = (
        refl,
        rw (eq→== id id refl)
            (Chain-update c.next_free c.first_free t.free id c.first_free t.out.0 t.chain),
      );
      number = ground (arith, t.number);
      at =
          Fits-everywhere g c (region_free c id) t.free new us us id (λ i e. ground arith) t.at
            (
              (ground arith, ground arith),
              IsAt.vacant (rw (eq→== id id refl) (ground arith)) t.idle,
            );
    }

-- A region that no one uses can be destroyed.
pub destroy_region-IsMap :
    {g : Globals} {c : RegionMap} {us : List Use} {id : ℕ}
    → IsLeaving g c us id
    → IsMap g (destroy_region c id) us
unfolding destroy_region
destroy_region-IsMap {g} {c} {us} {id} t =
    let c' = record c {
      windows = remove id c.windows;
      reg_list = remove id c.reg_list;
      reg_vect_list = remove id c.reg_vect_list;
    } in
    let self = eq→== id id refl in
    let taken : IsTaken g c' us id = record {
      free = t.free;
      chain = t.chain;
      number = t.number;
      small = t.small;
      out = (
        t.out,
        ground (arith, count-remove id id c.reg_list, t.listed),
        ground (arith, count-remove id id c.reg_vect_list, t.listed),
        t.kept,
        ground (arith, count-remove id id c.windows, t.window),
      );
      idle = t.idle;
      at =
          Fits-same g c c' t.free t.free us us id
            (λ i e. ground (
              arith,
              count-remove i id c.reg_list,
              count-remove i id c.reg_vect_list,
              count-remove i id c.windows,
            ))
            t.at;
    } in
    region_free-IsMap taken
