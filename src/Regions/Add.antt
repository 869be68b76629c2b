-- ===== src/Regions/Add.antt =====
-- A region that is created enters a list of the endpoint, with its first use.
use open_mx.Common.{
  ℕ, ◌≤◌, ◌<◌, ◌≡◌, refl, sym, subst, ◌⊎◌, inl, inr, Bool, true, false, List, [], ◌∷◌, Option, none,
  some, ltb, ◌==◌, arith, count, count-snoc, Bool-cases, ==→eq, eq→==,
}
use open_mx.Segments.Defs.{ReqSegs, clone_segments}
use open_mx.Regions.{
  Region, RegionMap, Globals, update, region_free, create_region, add_region, list_region,
  registered, refused, list_created, register_allocated,
}
use open_mx.Regions.Slots.{Fits-everywhere, Fits-same, region_free-IsMap}
use open_mx.Regions.Alloc.{Provides, region_alloc-Provides}
use open_mx.Regions.Ledger.{Use, uses, reservers, IsAt, view, Fits, IsMap, IsTaken}

-- A region covers the segments of a request.
pub record Serves (reqsegs : ReqSegs) (r : Region) : Type 0 where
  pub alike : r.segs.nseg ≡ reqsegs.nseg
  pub start : r.segs.single.vaddr ≡ reqsegs.single.vaddr
  pub long : reqsegs.single.len ≤ r.segs.single.len
  pub whole : 1 < reqsegs.nseg → r.segs ≡ reqsegs

-- What getting a region comes to. It fails only if the driver refuses to pin the segments, or if no
-- slot is free and no region that the cache keeps is unused. No region in use loses its segments.
pub data Gets (g : Globals) (accepts : Bool) (reqsegs : ReqSegs) (reserver : Option ℕ)
    (c : RegionMap) (us : List Use) : RegionMap × Option ℕ → Type 0 where
  fails :
      {c' : RegionMap}
      → IsMap g c' us
      → (accepts ≡ false) ⊎ ((c.first_free ≡ none) × (g.regcache ≡ true → c.reg_unused_list ≡ []))
      → ((i : ℕ) → 0 < uses i us → c'.region i ≡ c.region i)
      → Gets g accepts reqsegs reserver c us (c', none)
  gets :
      {c' : RegionMap} (id : ℕ)
      → IsMap g c' ((id, reserver) ∷ us)
      → Serves reqsegs (c'.region id)
      → ((i : ℕ) → 0 < uses i us → (c'.region i).segs ≡ (c.region i).segs)
      → Gets g accepts reqsegs reserver c us (c', some id)

pub reservers-nil : (i : ℕ) (us : List Use) → uses i us ≡ 0 → reservers i us ≡ []
unfolding uses reservers
reservers-nil i [] h = refl
reservers-nil i ((j, q) ∷ us) h = ground (arith, reservers-nil i us)

-- The segments that a region stores.
clone-Serves :
    (id : ℕ) (reqsegs : ReqSegs) (r : Region)
    → r.segs ≡ clone_segments id reqsegs
    → Serves reqsegs r
unfolding clone_segments
clone-Serves id reqsegs r e = record {
  alike = ground arith;
  start = ground arith;
  long = ground arith;
  whole = λ h. ground arith;
}

-- The region of the created slot, once it is listed.
abbrev created : ReqSegs → Option ℕ → RegionMap → ℕ → RegionMap
created reqsegs reserver c id =
    list_region reqsegs reserver id (registered (clone_segments id reqsegs) id c)

module _ (g : Globals) (reqsegs : ReqSegs) (reserver : Option ℕ) (c : RegionMap) (us : List Use)
    (id : ℕ) (t : IsTaken g c us id) (new : (c.region id).use_count ≡ 0)
    (some_seg : 1 ≤ reqsegs.nseg) where
  created-segs : ((created reqsegs reserver c id).region id).segs ≡ clone_segments id reqsegs
  created-segs = ground arith

  created-same :
      (i : ℕ)
      → (i == id) ≡ false
      → view (created reqsegs reserver c id) t.free ((id, reserver) ∷ us) i ≡ view c t.free us i
  unfolding uses reservers count
  created-same i e = ground (arith, count-snoc i id c.reg_list, count-snoc i id c.reg_vect_list)

  created-at : Fits g id (view (created reqsegs reserver c id) t.free ((id, reserver) ∷ us) id)
  unfolding uses reservers count clone_segments
  created-at =
      let out = t.out in
      let idle = t.idle in
      let none_yet = reservers-nil id us t.idle in
      let l = count-snoc id id c.reg_list in
      let v = count-snoc id id c.reg_vect_list in
      let self = eq→== id id refl in
      elim (Bool-cases (ltb 1 reqsegs.nseg)) [
        | inl many ↦ (
          (ground arith, ground arith),
          IsAt.vector (ground arith) (ground arith) (ground arith) (ground arith) (ground arith),
        )
        | inr one ↦ (
          (ground arith, ground arith),
          IsAt.used (ground arith) (ground arith) (ground arith) (λ _. ground arith)
              (λ _. ground arith) (ground arith) (ground arith),
        )
      ]

  created-IsMap : IsMap g (created reqsegs reserver c id) ((id, reserver) ∷ us)
  created-IsMap = record {
    free = t.free;
    chain = ground arith;
    number = ground arith;
    at =
        Fits-everywhere g c (created reqsegs reserver c id) t.free t.free us ((id, reserver) ∷ us)
          id created-same t.at created-at;
  }

-- The slot of a region that the driver refuses is free again.
refused-IsMap :
    {g : Globals} {c : RegionMap} {us : List Use} {id : ℕ} (segs : ReqSegs)
    → IsTaken g c us id
    → IsMap g (refused segs id c) us
refused-IsMap {g} {c} {us} {id} segs t =
    let c' = record c { region = update c.region id (record (c.region id) { segs = segs }) } in
    region_free-IsMap (
      let x : IsTaken g c' us id = record {
        free = t.free;
        chain = t.chain;
        number = t.number;
        small = t.small;
        out = t.out;
        idle = t.idle;
        at = Fits-same g c c' t.free t.free us us id (λ i e. ground arith) t.at;
      } in
      x)

-- A use of another region than a new one.
use-ne :
    {g : Globals} {c : RegionMap} {us : List Use} (id i : ℕ)
    → IsTaken g c us id
    → 0 < uses i us
    → (i == id) ≡ false
use-ne {us} id i t h = elim (Bool-cases (i == id)) [
  | inl e ↦ let idle : uses i us ≡ 0 = rw (==→eq i id e) t.idle in absurd (omega (arith, idle))
  | inr e ↦ e
]

module _ (g : Globals) (accepts : Bool) (reqsegs : ReqSegs) (reserver : Option ℕ) (c : RegionMap)
    (us : List Use) (some_seg : 1 ≤ reqsegs.nseg) where
  abbrev listing : RegionMap × Option ℕ → RegionMap × Option ℕ
  listing x = list_created reqsegs reserver (register_allocated accepts reqsegs x)

  list_created-Gets :
      {x : RegionMap × Option ℕ}
      → Provides g c us x
      → IsMap g c us
      → Gets g accepts reqsegs reserver c us (listing x)
  unfolding region_free
  list_created-Gets (Provides.none_left empty full) m =
      Gets.fails m (inr (empty, full)) (λ i h. refl)
  list_created-Gets (Provides.provided {c'} id t new keep) m = elim (Bool-cases accepts) [
    | inl yes_ ↦
        let e : listing (c', some id) ≡ (created reqsegs reserver c' id, some id) = ground arith in
        subst (Gets g accepts reqsegs reserver c us) (sym e) (
          Gets.gets id (created-IsMap g reqsegs reserver c' us id t new some_seg)
            (clone-Serves id reqsegs _ (created-segs g reqsegs reserver c' us id t new some_seg))
            λ i h. ground (arith, use-ne id i t h, keep i h))
    | inr no_ ↦
        let e : listing (c', some id) ≡ (refused (clone_segments id reqsegs) id c', none) =
          ground arith in
        subst (Gets g accepts reqsegs reserver c us) (sym e) (
          Gets.fails (refused-IsMap (clone_segments id reqsegs) t) (inl no_)
            λ i h. ground (arith, use-ne id i t h, keep i h))
  ]

  pub add_region-Gets :
      IsMap g c us → Gets g accepts reqsegs reserver c us (add_region g accepts reqsegs reserver c)
  unfolding add_region create_region
  add_region-Gets m = list_created-Gets (region_alloc-Provides m) m
