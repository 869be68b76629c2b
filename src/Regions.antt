-- ===== src/Regions.antt =====
-- Memory regions of an endpoint and the cache of their registrations (libopen-mx/omx_large.c): a
-- region stands for a window that the driver has pinned, and a transfer gets it, and puts it back.
pub mod Ledger
pub mod Slots
pub mod Alloc
pub mod Add
pub mod Get
pub mod Uses
pub mod Put
pub mod Invalidate
pub mod Init
mod Tests
use open_mx.Common.{
  ℕ, ◌+◌, ◌-◌, ◌%◌, ◌^◌, Bool, true, false, List, [], ◌∷◌, ◌++◌, Option, none, some, ltb, leb, ◌==◌,
  ◌&&◌, ◌||◌, not, if◌then◌else◌, min, remove,
}
use open_mx.Segments.Defs.{ReqSegs, clone_segments}

-- OMX_USER_REGION_MAX
abbrev pub user_region_max : ℕ
user_region_max = 256

-- struct omx__large_region; `reserver` is the request that has the region reserved.
pub record Region : Type 0 where
  pub segs : ReqSegs
  pub use_count : ℕ
  pub reserver : Option ℕ
  pub last_seqnum : ℕ

-- What struct omx_endpoint keeps of its regions, which are known by their ids. The array of slots is
-- two functions of the id, and `none` stands for the -1 that ends the chain of free slots. `windows`
-- are the windows that the driver has.
pub record RegionMap : Type 0 where
  pub region : ℕ → Region
  pub next_free : ℕ → Option ℕ
  pub first_free : Option ℕ
  pub nr_free : ℕ
  pub reg_list : List ℕ
  pub reg_unused_list : List ℕ
  pub reg_vect_list : List ℕ
  pub large_sends_avail_nr : ℕ
  pub windows : List ℕ

-- The settings that omx__globals holds.
pub record Globals : Type 0 where
  pub regcache : Bool
  pub parallel_regcache : Bool

abbrev pub update {ℓ} : {A : Type ℓ} → (ℕ → A) → ℕ → A → ℕ → A
update f i v j = if j == i then v else f j

-- omx__endpoint_large_region_map_init, on the memory that the allocation returned.
unfoldable pub map_init : (ℕ → Region) → RegionMap
map_init memory = record {
  region = λ i. record (memory i) { last_seqnum = 23 };
  next_free = λ i. if i == user_region_max - 1 then none else some (i + 1);
  first_free = some 0;
  nr_free = user_region_max;
  reg_list = [];
  reg_unused_list = [];
  reg_vect_list = [];
  large_sends_avail_nr = 128;
  windows = [];
}

-- omx__endpoint_large_region_try_alloc
unfoldable pub try_alloc : RegionMap → RegionMap × Option ℕ
try_alloc c = elim c.first_free [
  | none ↦ (c, none)
  | some index ↦ (
    record c {
      region = update c.region index (record (c.region index) { use_count = 0 });
      first_free = c.next_free index;
      nr_free = c.nr_free - 1;
    },
    some index,
  )
]

-- omx__endpoint_large_region_free
unfoldable pub region_free : RegionMap → ℕ → RegionMap
region_free c index = record c {
  next_free = update c.next_free index c.first_free;
  first_free = some index;
  nr_free = c.nr_free + 1;
}

-- omx__destroy_region: the driver drops the window, and the region leaves the list that it is in.
unfoldable pub destroy_region : RegionMap → ℕ → RegionMap
unfolding region_free
destroy_region c id =
    region_free
      (record c {
        windows = remove id c.windows;
        reg_list = remove id c.reg_list;
        reg_vect_list = remove id c.reg_vect_list;
      })
      id

-- omx__endpoint_large_region_alloc: the region that has been unused for longest is given up.
abbrev pub release_unused : List ℕ → RegionMap → RegionMap × Option ℕ
release_unused [] c = (c, none)
release_unused (id ∷ ids) c = try_alloc (destroy_region (record c { reg_unused_list = ids }) id)

unfoldable pub region_alloc : Globals → RegionMap → RegionMap × Option ℕ
unfolding try_alloc destroy_region
region_alloc g c = elim (try_alloc c).1 [
  | some id ↦ try_alloc c
  | none ↦ if g.regcache then release_unused c.reg_unused_list c else (c, none)
]

-- omx__create_region and omx__register_region: `accepts` says whether the driver pins the segments.
abbrev pub registered : ReqSegs → ℕ → RegionMap → RegionMap
registered segs id c = record c {
  region = update c.region id (record (c.region id) { segs = segs; reserver = none });
  windows = id ∷ c.windows;
}

abbrev pub refused : ReqSegs → ℕ → RegionMap → RegionMap
refused segs id c =
    region_free (record c { region = update c.region id (record (c.region id) { segs = segs }) }) id

abbrev pub register : Bool → ReqSegs → ℕ → RegionMap → RegionMap × Option ℕ
register accepts reqsegs id c =
    if accepts
    then (registered (clone_segments id reqsegs) id c, some id)
    else (refused (clone_segments id reqsegs) id c, none)

abbrev pub register_allocated : Bool → ReqSegs → RegionMap × Option ℕ → RegionMap × Option ℕ
register_allocated accepts reqsegs (c, none) = (c, none)
register_allocated accepts reqsegs (c, some id) = register accepts reqsegs id c

unfoldable pub create_region : Globals → Bool → ReqSegs → RegionMap → RegionMap × Option ℕ
unfolding region_alloc region_free clone_segments
create_region g accepts reqsegs c = register_allocated accepts reqsegs (region_alloc g c)

-- The test of a reserver that may be NULL.
abbrev pub is_some {ℓ} : {A : Type ℓ} → Option A → Bool
is_some none = false
is_some (some x) = true

-- Whether a cached region can serve a request.
unfoldable pub can_serve : Globals → Option ℕ → ReqSegs → Region → Bool
can_serve g reserver reqsegs r =
    (not (is_some reserver) || not (is_some r.reserver))
    && (g.parallel_regcache || r.use_count == 0)
    && (r.segs.single.vaddr == reqsegs.single.vaddr)
    && leb reqsegs.single.len r.segs.single.len

-- The walk through the regions of the endpoint.
unfoldable pub find_region : (Region → Bool) → (ℕ → Region) → List ℕ → Option ℕ
find_region test region [] = none
find_region test region (id ∷ ids) =
    if test (region id) then some id else find_region test region ids

-- One more use of a region, which a reserver keeps for itself.
abbrev pub use_region : Option ℕ → Region → Region
use_region reserver r = record r {
  use_count = r.use_count + 1;
  reserver = elim reserver [ none ↦ r.reserver | some q ↦ some q ];
}

-- A cached region is used again.
unfoldable pub reuse_region : Option ℕ → RegionMap → ℕ → RegionMap
reuse_region reserver c id = record c {
  region = update c.region id (use_region reserver (c.region id));
  reg_unused_list =
      if (c.region id).use_count == 0 then remove id c.reg_unused_list else c.reg_unused_list;
}

-- A region that was created is used, and enters its list.
abbrev pub list_region : ReqSegs → Option ℕ → ℕ → RegionMap → RegionMap
list_region reqsegs reserver id c =
    let used = update c.region id (use_region reserver (c.region id)) in
    if ltb 1 reqsegs.nseg
    then record c { region = used; reg_vect_list = c.reg_vect_list ++ id ∷ [] }
    else record c { region = used; reg_list = c.reg_list ++ id ∷ [] }

-- omx__get_contigous_region and omx__get_vect_region, from the creation of the region on.
abbrev pub list_created : ReqSegs → Option ℕ → RegionMap × Option ℕ → RegionMap × Option ℕ
list_created reqsegs reserver (c, none) = (c, none)
list_created reqsegs reserver (c, some id) = (list_region reqsegs reserver id c, some id)

unfoldable pub add_region : Globals → Bool → ReqSegs → Option ℕ → RegionMap → RegionMap × Option ℕ
unfolding create_region
add_region g accepts reqsegs reserver c =
    list_created reqsegs reserver (create_region g accepts reqsegs c)

-- omx__get_contigous_region
unfoldable pub get_contigous_region :
    Globals → Bool → ReqSegs → Option ℕ → RegionMap → RegionMap × Option ℕ
unfolding find_region can_serve reuse_region add_region
get_contigous_region g accepts reqsegs reserver c =
    elim (if g.regcache
      then find_region (can_serve g reserver reqsegs) c.region c.reg_list
      else none) [
        | some id ↦ (reuse_region reserver c id, some id)
        | none ↦ add_region g accepts reqsegs reserver c
      ]

-- omx__get_region
unfoldable pub get_region : Globals → Bool → ReqSegs → Option ℕ → RegionMap → RegionMap × Option ℕ
unfolding get_contigous_region add_region
get_region g accepts reqsegs reserver c =
    if ltb 1 reqsegs.nseg
    then add_region g accepts reqsegs reserver c
    else get_contigous_region g accepts reqsegs reserver c

-- omx__put_region
abbrev pub leave_region : Option ℕ → Region → Region
leave_region reserver r = record r {
  use_count = r.use_count - 1;
  reserver = if is_some reserver then none else r.reserver;
}

unfoldable pub put_region : Globals → RegionMap → ℕ → Option ℕ → RegionMap
unfolding destroy_region
put_region g c id reserver =
    let r = leave_region reserver (c.region id) in
    let c' = record c { region = update c.region id r } in
    if g.regcache && (r.segs.nseg == 1)
    then (if r.use_count == 0
        then record c' { reg_unused_list = c'.reg_unused_list ++ id ∷ [] }
        else c')
    else destroy_region c' id
