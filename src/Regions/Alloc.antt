-- ===== src/Regions/Alloc.antt =====
-- The allocation of a region, from the free slots or by giving up a region that is unused.
use open_mx.Common.{
  ℕ, ◌-◌, ◌<◌, ◌≡◌, refl, sym, ap, subst, ◌∙◌, inl, inr, true, false, List, [], ◌∷◌, Option, none,
  some, ltb, ◌==◌, if◌then◌else◌, length, arith, count, Bool-cases, Option-cases, ==→eq, eq→==,
}
use open_mx.Regions.{
  RegionMap, Globals, user_region_max, update, try_alloc, region_free, destroy_region, region_alloc,
  release_unused,
}
use open_mx.Regions.Slots.{Fits-same, InRange-small, destroy_region-IsMap}
use open_mx.Regions.Ledger.{
  Use, uses, View, Places, IsAt, view, Chain, Fits, IsMap, IsTaken, IsLeaving,
}

-- The slot of an id in the chain is vacant.
Fits-vacant :
    {g : Globals} (i : ℕ) (v : View)
    → Fits g i v
    → 0 < v.free
    → (ltb i user_region_max ≡ true) × Places v 1 0 0 0 0 × (v.uses ≡ 0)
Fits-vacant i v (r, IsAt.outside p u) h = ground arith
Fits-vacant i v (r, IsAt.vacant p u) h = (InRange-small i v r (ground arith), p, u)
Fits-vacant i v (r, IsAt.cached p _ _ _ _ u) h = ground arith
Fits-vacant i v (r, IsAt.used p _ _ _ _ _ _) h = ground arith
Fits-vacant i v (r, IsAt.vector p _ _ _ _) h = ground arith

-- What the allocation of a region comes to: the map as it was if no slot is free, and else a region
-- that no one uses.
pub data Allocates (g : Globals) (c : RegionMap) (us : List Use)
    : RegionMap × Option ℕ → Type 0 where
  full : c.first_free ≡ none → Allocates g c us (c, none)
  got :
      {c' : RegionMap} (id : ℕ)
      → IsTaken g c' us id
      → (c'.region id).use_count ≡ 0
      → ((i : ℕ) → (i == id) ≡ false → c'.region i ≡ c.region i)
      → Allocates g c us (c', some id)

try_alloc-Chain :
    {g : Globals} {c : RegionMap} {us : List Use} (free : List ℕ)
    → Chain c.next_free c.first_free free
    → c.nr_free ≡ length free
    → ((i : ℕ) → Fits g i (view c free us i))
    → Allocates g c us (try_alloc c)
unfolding try_alloc count
try_alloc-Chain {g} {c} {us} [] ch n at =
    let e : try_alloc c ≡ (c, none) = ground arith in subst (Allocates g c us) (sym e) (full ch)
try_alloc-Chain {g} {c} {us} (id ∷ free) ch n at =
    let c' = record c {
      region = update c.region id (record (c.region id) { use_count = 0 });
      first_free = c.next_free id;
      nr_free = c.nr_free - 1;
    } in
    let self = eq→== id id refl in
    let x = Fits-vacant id (view c (id ∷ free) us id) (at id) (ground arith) in
    let taken : IsTaken g c' us id = record {
      free = free;
      chain = ch.1;
      number = omega (arith, n);
      small = x.0;
      out = ground arith;
      idle = x.2;
      at = Fits-same g c c' (id ∷ free) free us us id (λ i e. ground arith) (λ i e. at i);
    } in
    let e : try_alloc c ≡ (c', some id) = ground arith in
    subst (Allocates g c us) (sym e) (got id taken (ground arith) (λ i e. rw e))

pub try_alloc-Allocates :
    {g : Globals} {c : RegionMap} {us : List Use} → IsMap g c us → Allocates g c us (try_alloc c)
try_alloc-Allocates {g} {c} {us} m = try_alloc-Chain m.free m.chain m.number m.at

-- A region in the list of the unused ones is cached.
Fits-unused :
    {g : Globals} (i : ℕ) (v : View)
    → Fits g i v
    → 0 < v.unused
    → (ltb i user_region_max ≡ true) × Places v 0 1 0 1 1 × (v.uses ≡ 0)
Fits-unused i v (r, IsAt.outside p u) h = ground arith
Fits-unused i v (r, IsAt.vacant p u) h = ground arith
Fits-unused i v (r, IsAt.cached p _ _ _ _ u) h = (InRange-small i v r (ground arith), p, u)
Fits-unused i v (r, IsAt.used p _ _ _ _ _ _) h = ground arith
Fits-unused i v (r, IsAt.vector p _ _ _ _) h = ground arith

-- An unused region leaves the cache: `rest` are the other unused ones.
pub evict-IsMap :
    {g : Globals} {c : RegionMap} {us : List Use} (id : ℕ) (rest : List ℕ)
    → ((i : ℕ) → count i rest ≡ count i c.reg_unused_list - (if i == id then 1 else 0))
    → 0 < count id c.reg_unused_list
    → IsMap g c us
    → IsMap g (destroy_region (record c { reg_unused_list = rest }) id) us
evict-IsMap {g} {c} {us} id rest e one m =
    let c' = record c { reg_unused_list = rest } in
    let x = Fits-unused id (view c m.free us id) (m.at id) one in
    let self = eq→== id id refl in
    destroy_region-IsMap (
      let l : IsLeaving g c' us id = record {
        free = m.free;
        chain = m.chain;
        number = m.number;
        small = x.0;
        out = x.1.0;
        listed = ground (arith, x.1);
        kept = ground (arith, x.1, e id);
        window = ground (arith, x.1);
        idle = x.2;
        at = Fits-same g c c' m.free m.free us us id (λ i n. ground (arith, e i)) (λ i n. m.at i);
      } in
      l)

-- What omx__endpoint_large_region_alloc comes to: it fails only if no slot is free, and no region
-- that the cache keeps is unused.
pub data Provides (g : Globals) (c : RegionMap) (us : List Use)
    : RegionMap × Option ℕ → Type 0 where
  none_left :
      c.first_free ≡ none → (g.regcache ≡ true → c.reg_unused_list ≡ []) → Provides g c us (c, none)
  provided :
      {c' : RegionMap} (id : ℕ)
      → IsTaken g c' us id
      → (c'.region id).use_count ≡ 0
      → ((i : ℕ) → 0 < uses i us → c'.region i ≡ c.region i)
      → Provides g c us (c', some id)

-- An allocated region is not one that is in use.
pub kept_in_use :
    {g : Globals} (c : RegionMap) {c' : RegionMap} {us : List Use} (id : ℕ)
    → IsTaken g c' us id
    → ((i : ℕ) → (i == id) ≡ false → c'.region i ≡ c.region i)
    → (i : ℕ) → 0 < uses i us
    → c'.region i ≡ c.region i
kept_in_use c {us} id t keep i h = elim (Bool-cases (i == id)) [
  | inl e ↦ let idle : uses i us ≡ 0 = rw (==→eq i id e) t.idle in absurd (omega (arith, idle))
  | inr e ↦ keep i e
]

-- The map `d` has a free slot, and the regions of `c`.
Allocates-Provides :
    {g : Globals} {c d : RegionMap} {us : List Use} (id : ℕ) {x : RegionMap × Option ℕ}
    → d.first_free ≡ some id
    → d.region ≡ c.region
    → Allocates g d us x
    → Provides g c us x
Allocates-Provides id first same (full e) = cc
Allocates-Provides {c} id first same (got id' t idle keep) =
    Provides.provided id' t idle (kept_in_use c id' t (λ i n. keep i n ∙ ap (λ f. f i) same))

release_unused-Provides :
    {g : Globals} {c : RegionMap} {us : List Use} (ids : List ℕ)
    → c.reg_unused_list ≡ ids
    → c.first_free ≡ none
    → IsMap g c us
    → Provides g c us (release_unused ids c)
unfolding destroy_region region_free count
release_unused-Provides [] e none_free m = Provides.none_left none_free (λ _. e)
release_unused-Provides (id ∷ ids) e none_free m =
    Allocates-Provides id refl refl
      (try_alloc-Allocates (evict-IsMap id ids (λ i. rw e (ground arith)) (rw e (ground arith)) m))

pub region_alloc-Provides :
    {g : Globals} {c : RegionMap} {us : List Use}
    → IsMap g c us
    → Provides g c us (region_alloc g c)
unfolding region_alloc try_alloc
region_alloc-Provides {g} {c} {us} m = elim (Option-cases c.first_free) [
  | inl empty ↦ elim (Bool-cases g.regcache) [
    | inl caching ↦
        let e : region_alloc g c ≡ release_unused c.reg_unused_list c = ground arith in
        subst (Provides g c us) (sym e) (release_unused-Provides c.reg_unused_list refl empty m)
    | inr plain ↦
        let e : region_alloc g c ≡ (c, none) = ground arith in
        subst (Provides g c us) (sym e) (Provides.none_left empty (λ h. cc))
  ]
  | inr (id, first) ↦
      let e : region_alloc g c ≡ try_alloc c = ground arith in
      subst (Provides g c us) (sym e) (Allocates-Provides id first refl (try_alloc-Allocates m))
]
