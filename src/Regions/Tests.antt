-- ===== src/Regions/Tests.antt =====
-- Regions run on small inputs.
use open_mx.Common.{
  ℕ, ◌+◌, ◌%◌, ◌^◌, ◌≡◌, refl, Bool, true, false, List, [], ◌∷◌, ◌++◌, Option, none, some, ◌==◌,
  ◌&&◌, if◌then◌else◌, arith, count, remove,
}
use open_mx.Segments.Defs.{ReqSegs, single_of}
use open_mx.Regions.{
  Region, RegionMap, Globals, map_init, get_region, put_region, find_region, can_serve,
  reuse_region,
}
use open_mx.Regions.Ledger.{Use, IsMap}
use open_mx.Regions.Add.{Gets}
use open_mx.Regions.Get.{get_region-Gets}
use open_mx.Regions.Put.{put_region-Puts}
use open_mx.Regions.Init.{map_init-IsMap, map_exit, map_exit-windows}
use open_mx.Regions.Invalidate.{Cleans, regcache_clean, regcache_clean-Cleans}

abbrev segs_at : ℕ → ℕ → ReqSegs
segs_at at len = record {
  single = record { vaddr = at; len = len };
  nseg = 1;
  segs = single_of 7;
  total_length = len;
}

abbrev memory : ℕ → Region
memory i = record { segs = segs_at 0 0; use_count = 5; reserver = some 3; last_seqnum = 0 }

abbrev caching : Globals
caching = record { regcache = true; parallel_regcache = false }

abbrev empty_map : RegionMap
empty_map = map_init memory

-- A region that request 9 reserves, and another one.
abbrev one_got : RegionMap × Option ℕ
one_got = get_region caching true (segs_at 4096 100) (some 9) empty_map

abbrev two_got : RegionMap × Option ℕ
two_got = get_region caching true (segs_at 8192 50) none one_got.0

abbrev put_back : RegionMap
put_back = put_region caching one_got.0 0 (some 9)

one_got-first : one_got.1 ≡ some 0
unfolding get_region find_region can_serve map_init
one_got-first = refl

two_got-second : two_got.1 ≡ some 1
unfolding get_region find_region can_serve map_init
two_got-second = refl

-- The cache serves a part of a segment that it keeps, without the driver.
reused : (get_region caching false (segs_at 4096 60) none put_back).1 ≡ some 0
unfolding get_region put_region find_region can_serve map_init reuse_region
reused = refl

-- A region in use by another request is not shared.
unshared : (get_region caching false (segs_at 4096 60) none one_got.0).1 ≡ none
unfolding get_region find_region can_serve map_init
unshared = refl

abbrev plain : Globals
plain = record { regcache = false; parallel_regcache = false }

abbrev plain_got : RegionMap × Option ℕ
plain_got = get_region plain true (segs_at 4096 100) (some 9) empty_map

-- Without the cache a region that is put back leaves the driver.
uncached : (put_region plain plain_got.0 0 (some 9)).windows ≡ []
unfolding get_region put_region find_region can_serve map_init remove
uncached = refl

get_region-Gets_example :
    Gets caching true
      (segs_at 4096 100)
      (some 9)
      empty_map
      []
      (get_region caching true (segs_at 4096 100) (some 9) empty_map)
get_region-Gets_example =
    get_region-Gets caching true (segs_at 4096 100) (some 9) empty_map []
      (map_init-IsMap caching memory) (omega arith)

-- The map that a successful request leaves.
abbrev Got : Globals → Option ℕ → List Use → RegionMap × Option ℕ → Type 0
Got g q us (c, none) = IsMap g c us
Got g q us (c, some id) = IsMap g c ((id, q) ∷ us)

Gets-Got :
    {g : Globals} {accepts : Bool} {reqsegs : ReqSegs} {q : Option ℕ} {c : RegionMap}
    {us : List Use} {x : RegionMap × Option ℕ}
    → Gets g accepts reqsegs q c us x
    → Got g q us x
Gets-Got (Gets.fails m _ _) = m
Gets-Got (Gets.gets id m _ _) = m

one_got-IsMap : IsMap caching one_got.0 ((0, some 9) ∷ [])
unfolding get_region find_region can_serve map_init
one_got-IsMap = Gets-Got get_region-Gets_example

put_region-Puts_example :
    IsMap caching (put_region caching one_got.0 0 (some 9)) []
    × ((put_region caching one_got.0 0 (some 9)).windows ≡ (
        if caching.regcache && ((one_got.0.region 0).segs.nseg == 1)
        then one_got.0.windows
        else remove 0 one_got.0.windows))
    × ((put_region caching one_got.0 0 (some 9)).reg_unused_list ≡ (
        if caching.regcache
          && ((one_got.0.region 0).segs.nseg == 1)
          && ((one_got.0.region 0).use_count == 1)
        then one_got.0.reg_unused_list ++ 0 ∷ []
        else one_got.0.reg_unused_list))
    × ((i : ℕ)
        → (i == 0) ≡ false
        → (put_region caching one_got.0 0 (some 9)).region i ≡ one_got.0.region i)
put_region-Puts_example = put_region-Puts caching one_got.0 0 (some 9) [] [] one_got-IsMap

put_back-IsMap : IsMap caching put_back []
put_back-IsMap = put_region-Puts_example.0

regcache_clean-Cleans_example :
    Cleans caching 4100 ((4100 + 10) % 2 ^ 64) put_back [] (regcache_clean caching 4100 10 put_back)
regcache_clean-Cleans_example =
    regcache_clean-Cleans caching 4100 10 put_back [] refl put_back-IsMap

map_exit-windows_example : count 0 (map_exit one_got.0).windows ≡ 0
map_exit-windows_example = map_exit-windows 0 caching one_got.0 ((0, some 9) ∷ []) one_got-IsMap
