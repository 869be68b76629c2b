-- ===== src/Regions/Get.antt =====
-- Getting a region: a cached one that covers the segments is used again, or a new one is created.
use open_mx.Common.{
  ℕ, ◌≤◌, ◌<◌, ◌≡◌, refl, sym, subst, ◌⊎◌, inl, inr, Bool, true, List, [], ◌∷◌, Option, some, ltb,
  arith, count, count-remove, Bool-cases, Option-cases, eq→==, ltb→ge,
}
use open_mx.Segments.Defs.{ReqSegs}
use open_mx.Regions.{
  Region, RegionMap, Globals, add_region, can_serve, find_region, reuse_region,
  get_contigous_region, get_region,
}
use open_mx.Regions.Slots.{Fits-everywhere}
use open_mx.Regions.Add.{Serves, Gets, add_region-Gets, reservers-nil}
use open_mx.Regions.Ledger.{Use, uses, reservers, View, IsAt, view, Fits, IsMap}

-- The walk returns a region of the list that passes the test.
find_region-found :
    (test : Region → Bool) (region : ℕ → Region) (ids : List ℕ) (id : ℕ)
    → find_region test region ids ≡ some id
    → (0 < count id ids) × (test (region id) ≡ true)
unfolding find_region count
find_region-found test region [] id e = cc
find_region-found test region (i ∷ ids) id e = elim (Bool-cases (test (region i))) [
  | inl ok ↦
      let same : i ≡ id = ground arith in
      (ground arith, subst (λ j. test (region j) ≡ true) same ok)
  | inr bad ↦
      let rest = find_region-found test region ids id (ground arith) in (ground arith, rest.1)
]

-- A cached region that can serve is used once more.
reuse-at :
    (g : Globals) (reqsegs : ReqSegs) (reserver : Option ℕ) (c : RegionMap) (us : List Use) (id : ℕ)
    (free : List ℕ)
    → g.regcache ≡ true
    → 0 < count id c.reg_list
    → can_serve g reserver reqsegs (c.region id) ≡ true
    → Fits g id (view c free us id)
    → Fits g id (view (reuse_region reserver c id) free ((id, reserver) ∷ us) id)
unfolding reuse_region can_serve uses reservers
reuse-at g reqsegs reserver c us id free caching listed ok (r, IsAt.outside p u) = ground arith
reuse-at g reqsegs reserver c us id free caching listed ok (r, IsAt.vacant p u) = ground arith
reuse-at g reqsegs reserver c us id free caching listed ok (r, IsAt.cached p x n k q u) =
    let gone = count-remove id id c.reg_unused_list in
    let none_yet = reservers-nil id us u in
    let self = eq→== id id refl in
    (
      (λ e. ground (arith, r.0 e), λ e. ground (arith, r.1 e)),
      IsAt.used (ground arith) (ground arith) (ground arith) (λ _. ground arith) (λ _. ground arith)
          (ground arith) (ground arith),
    )
reuse-at g reqsegs reserver c us id free caching listed ok (r, IsAt.used p n k w x u q) =
    let self = eq→== id id refl in
    (
      (λ e. ground (arith, r.0 e), λ e. ground (arith, r.1 e)),
      IsAt.used (ground arith) (ground arith) (ground arith) (λ e. ground arith) (λ e. ground arith)
          (ground arith) (ground arith),
    )
reuse-at g reqsegs reserver c us id free caching listed ok (r, IsAt.vector p n k u q) = ground arith

-- What the test of a cached region says of it.
can_serve-Serves :
    (g : Globals) (reqsegs : ReqSegs) (reserver : Option ℕ) (r r' : Region)
    → can_serve g reserver reqsegs r ≡ true
    → r'.segs ≡ r.segs
    → r.segs.nseg ≡ 1
    → reqsegs.nseg ≡ 1
    → Serves reqsegs r'
unfolding can_serve
can_serve-Serves g reqsegs reserver r r' ok e one n = record {
  alike = ground arith;
  start = ground arith;
  long = ground arith;
  whole = λ h. absurd (omega arith);
}

-- A region of the list of contiguous ones has one segment.
listed-nseg : {g : Globals} (i : ℕ) (v : View) → Fits g i v → 0 < v.listed → v.region.segs.nseg ≡ 1
listed-nseg i v (r, IsAt.outside p u) h = ground arith
listed-nseg i v (r, IsAt.vacant p u) h = ground arith
listed-nseg i v (r, IsAt.cached p x n k q u) h = n
listed-nseg i v (r, IsAt.used p n k w x u q) h = n
listed-nseg i v (r, IsAt.vector p n k u q) h = ground arith

-- A request either creates a region or is served by a cached one.
pub get_region-cases :
    (g : Globals) (accepts : Bool) (reqsegs : ReqSegs) (reserver : Option ℕ) (c : RegionMap)
    → (get_region g accepts reqsegs reserver c ≡ add_region g accepts reqsegs reserver c)
      ⊎ ((id : ℕ) × (get_region g accepts reqsegs reserver c
            ≡ (reuse_region reserver c id, some id))
          × (reqsegs.nseg ≤ 1)
          × (g.regcache ≡ true)
          × (find_region (can_serve g reserver reqsegs) c.region c.reg_list ≡ some id))
unfolding get_region get_contigous_region
get_region-cases g accepts reqsegs reserver c = elim (Bool-cases (ltb 1 reqsegs.nseg)) [
  | inl many ↦ inl (ground arith)
  | inr one ↦ elim (Bool-cases g.regcache) [
    | inr plain ↦ inl (ground arith)
    | inl caching ↦
        elim (Option-cases (find_region (can_serve g reserver reqsegs) c.region c.reg_list)) [
          | inl missing ↦ inl (ground arith)
          | inr (id, found) ↦ inr (id, ground arith, ltb→ge 1 _ one, caching, found)
        ]
  ]
]

module _ (g : Globals) (accepts : Bool) (reqsegs : ReqSegs) (reserver : Option ℕ) (c : RegionMap)
    (us : List Use) (m : IsMap g c us) where
  reuse_region-Gets :
      (id : ℕ)
      → reqsegs.nseg ≡ 1
      → g.regcache ≡ true
      → find_region (can_serve g reserver reqsegs) c.region c.reg_list ≡ some id
      → Gets g accepts reqsegs reserver c us (reuse_region reserver c id, some id)
  unfolding reuse_region uses reservers
  reuse_region-Gets id one caching e =
      let found = find_region-found (can_serve g reserver reqsegs) c.region c.reg_list id e in
      let n = listed-nseg id (view c m.free us id) (m.at id) found.0 in
      Gets.gets id
        (record {
          free = m.free;
          chain = m.chain;
          number = m.number;
          at =
              Fits-everywhere g c (reuse_region reserver c id) m.free m.free us
                ((id, reserver) ∷ us) id
                (λ i e. ground (arith, count-remove i id c.reg_unused_list)) (λ i e. m.at i)
                (reuse-at g reqsegs reserver c us id m.free caching found.0 found.1 (m.at id));
        })
        (can_serve-Serves g reqsegs reserver (c.region id) _ found.1 (ground arith) n one)
        (λ i h. ground arith)

  -- A request with segments, of a map that holds each region once, where its state says: a region that
  -- is returned covers the segments, is counted as used once more, and reserved if a reserver was
  -- passed, which no one else has then. It fails only if the driver refuses to pin the segments, or if
  -- no slot is free and the cache keeps no unused region. The map stays one that holds each region once,
  -- and no region in use loses its segments.
  pub get_region-Gets :
      1 ≤ reqsegs.nseg
      → Gets g accepts reqsegs reserver c us (get_region g accepts reqsegs reserver c)
  get_region-Gets some_seg =
      let added = add_region-Gets g accepts reqsegs reserver c us some_seg m in
      let P = Gets g accepts reqsegs reserver c us in
      elim (get_region-cases g accepts reqsegs reserver c) [
        | inl e ↦ subst P (sym e) added
        | inr (id, e, few, caching, found) ↦
            subst P (sym e) (reuse_region-Gets id (omega arith) caching found)
      ]
