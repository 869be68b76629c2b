-- ===== src/Regions/Invalidate.antt =====
-- Memory that the application frees: the regions of the cache that overlap it are given up
-- (omx__endpoint_regcache_clean in libopen-mx/omx_large.c).
use open_mx.Common.{
  ℕ, ◌+◌, ◌-◌, ◌%◌, ◌^◌, ◌≤◌, ◌<◌, ◌≡◌, refl, sym, subst, inl, inr, Bool, true, false, List, [],
  ◌∷◌, Option, none, some, ltb, ◌==◌, ◌&&◌, not, if◌then◌else◌, arith, count, remove, count-remove,
  Bool-cases, ==→eq,
}
use open_mx.Regions.{Region, RegionMap, Globals, destroy_region, region_free}
use open_mx.Regions.Alloc.{evict-IsMap}
use open_mx.Regions.Ledger.{Use, View, IsAt, view, Fits, IsMap}

-- omx__segments_intersect
unfoldable pub segments_intersect : ℕ → ℕ → ℕ → ℕ → Bool
segments_intersect begin1 end1 begin2 end2 =
    let min_end = if ltb end2 end1 then end2 else end1 in
    let max_begin = if ltb begin2 begin1 then begin1 else begin2 in ltb max_begin min_end

-- Whether the segment of a region overlaps a part of the memory; an address has 64 bits.
unfoldable pub hits : ℕ → ℕ → Region → Bool
unfolding segments_intersect
hits begin end_ r =
    let reg_begin = r.segs.single.vaddr in
    segments_intersect begin end_ reg_begin ((reg_begin + r.segs.single.len) % 2 ^ 64)

-- One region of the cache leaves it.
unfoldable pub give_up : RegionMap → ℕ → RegionMap
unfolding destroy_region
give_up c id = destroy_region (record c { reg_unused_list = remove id c.reg_unused_list }) id

-- The loop of omx__endpoint_regcache_clean; `none` stands for the abort at a region in use.
unfoldable pub clean_loop : ℕ → ℕ → List ℕ → RegionMap → Option RegionMap
clean_loop begin end_ [] c = some c
clean_loop begin end_ (id ∷ ids) c =
    let hit = hits begin end_ (c.region id) in
    let rest = clean_loop begin end_ ids (if hit then give_up c id else c) in
    if hit && not ((c.region id).use_count == 0) then none else rest

-- omx__regcache_clean, for one endpoint
unfoldable pub regcache_clean : Globals → ℕ → ℕ → RegionMap → Option RegionMap
regcache_clean g ptr size c =
    if g.regcache then clean_loop ptr ((ptr + size) % 2 ^ 64) c.reg_list c else some c

-- A region of the list that has no use is unused, and cached.
listed-unused :
    {g : Globals} (i : ℕ) (v : View)
    → Fits g i v
    → 0 < v.listed
    → v.region.use_count ≡ 0
    → 0 < v.unused
listed-unused i v (r, IsAt.outside p u) h z = ground arith
listed-unused i v (r, IsAt.vacant p u) h z = ground arith
listed-unused i v (r, IsAt.cached p n k w x u) h z = ground arith
listed-unused i v (r, IsAt.used p n k w x u e) h z = ground arith
listed-unused i v (r, IsAt.vector p n k u e) h z = ground arith

give_up-IsMap :
    {g : Globals} {c : RegionMap} {us : List Use} (id : ℕ)
    → 0 < count id c.reg_list
    → (c.region id).use_count ≡ 0
    → IsMap g c us
    → IsMap g (give_up c id) us
unfolding give_up
give_up-IsMap {g} {c} {us} id listed z m =
    evict-IsMap id (remove id c.reg_unused_list) (λ i. count-remove i id c.reg_unused_list)
      (listed-unused id (view c m.free us id) (m.at id) listed z) m

-- An address from `begin` to before `end_` that is also one of the segment of the region, whose end is
-- computed on 64 bits.
abbrev pub Overlaps : ℕ → ℕ → Region → Type 0
Overlaps begin end_ r =
    (x : ℕ) × (begin ≤ x)
    × (x < end_)
    × (r.segs.single.vaddr ≤ x)
    × (x < (r.segs.single.vaddr + r.segs.single.len) % 2 ^ 64)

hits→Overlaps : (begin end_ : ℕ) (r : Region) → hits begin end_ r ≡ true → Overlaps begin end_ r
unfolding hits segments_intersect
hits→Overlaps begin end_ r e = elim (Bool-cases (ltb r.segs.single.vaddr begin)) [
  | inl lt ↦ (begin, omega arith, ground arith, ground arith, ground arith)
  | inr ge ↦ (r.segs.single.vaddr, ground arith, ground arith, omega arith, ground arith)
]

Overlaps→hits : (begin end_ : ℕ) (r : Region) → Overlaps begin end_ r → hits begin end_ r ≡ true
unfolding hits segments_intersect
Overlaps→hits begin end_ r (x, a, b, c, d) = ground arith

-- What the loop over `ids` comes to. It aborts only at a region in use; else exactly those regions of
-- `ids` that overlap the memory leave the list.
data LoopCleans (g : Globals) (begin end_ : ℕ) (ids : List ℕ) (c : RegionMap) (us : List Use)
    : Option RegionMap → Type 0 where
  loop_aborts :
      (i : ℕ)
      → 0 < count i ids
      → hits begin end_ (c.region i) ≡ true
      → 0 < (c.region i).use_count
      → LoopCleans g begin end_ ids c us none
  loop_cleans :
      {c' : RegionMap}
      → IsMap g c' us
      → c'.region ≡ c.region
      → ((i : ℕ)
          → count i c'.reg_list
            ≡ count i c.reg_list - (if hits begin end_ (c.region i) then count i ids else 0))
      → LoopCleans g begin end_ ids c us (some c')

module _ (g : Globals) (begin end_ : ℕ) (us : List Use) (c : RegionMap) (id : ℕ)
    (ids : List ℕ) where
  -- A region outside of the memory stays.
  LoopCleans-miss :
      {x : Option RegionMap}
      → hits begin end_ (c.region id) ≡ false
      → LoopCleans g begin end_ ids c us x
      → LoopCleans g begin end_ (id ∷ ids) c us x
  unfolding count
  LoopCleans-miss miss (loop_aborts i among hit busy) = loop_aborts i (ground arith) hit busy
  LoopCleans-miss miss (loop_cleans m same counts) = loop_cleans m same λ i.
      elim (Bool-cases (i == id)) [
        | inl e ↦
            let out : hits begin end_ (c.region i) ≡ false = rw (==→eq i id e) miss in
            ground (arith, counts i, out)
        | inr e ↦ ground (arith, counts i)
      ]

  -- A region of the memory leaves.
  LoopCleans-hit :
      {x : Option RegionMap}
      → hits begin end_ (c.region id) ≡ true
      → LoopCleans g begin end_ ids (give_up c id) us x
      → LoopCleans g begin end_ (id ∷ ids) c us x
  unfolding count give_up destroy_region region_free
  LoopCleans-hit hit (loop_aborts i among hit' busy) = loop_aborts i (ground arith) hit' busy
  LoopCleans-hit hit (loop_cleans m same counts) = loop_cleans m same λ i.
      elim (Bool-cases (i == id)) [
        | inl e ↦
            let out : hits begin end_ (c.region i) ≡ true = rw (==→eq i id e) hit in
            ground (arith, counts i, count-remove i id c.reg_list)
        | inr e ↦ ground (arith, counts i, count-remove i id c.reg_list)
      ]

module _ (g : Globals) (begin end_ : ℕ) (us : List Use) where
  clean_loop-LoopCleans :
      (ids : List ℕ) (c : RegionMap)
      → ((i : ℕ) → count i ids ≤ count i c.reg_list)
      → IsMap g c us
      → LoopCleans g begin end_ ids c us (clean_loop begin end_ ids c)
  unfolding clean_loop count give_up destroy_region region_free
  clean_loop-LoopCleans [] c below m = loop_cleans m refl (λ i. ground arith)
  clean_loop-LoopCleans (id ∷ ids) c below m = elim (Bool-cases (hits begin end_ (c.region id))) [
    | inr miss ↦ rw miss (
        LoopCleans-miss g begin end_ us c id ids miss
          (clean_loop-LoopCleans ids c (λ i. ground (arith, below i)) m))
    | inl hit ↦ elim (Bool-cases ((c.region id).use_count == 0)) [
      | inl idle ↦
          let rest =
            clean_loop-LoopCleans ids (give_up c id)
              (λ i. ground (arith, below i, count-remove i id c.reg_list))
              (give_up-IsMap id (ground (arith, below id)) (==→eq _ 0 idle) m) in
          rw (hit, idle) (LoopCleans-hit g begin end_ us c id ids hit rest)
      | inr busy ↦ rw (hit, busy) (loop_aborts id (ground arith) hit (ground arith))
    ]
  ]

-- The contiguous regions that overlap memory that goes away, and the others: it aborts only at one in
-- use that overlaps it.
pub data Cleans (g : Globals) (begin end_ : ℕ) (c : RegionMap) (us : List Use)
    : Option RegionMap → Type 0 where
  aborts :
      (i : ℕ)
      → 0 < count i c.reg_list
      → Overlaps begin end_ (c.region i)
      → 0 < (c.region i).use_count
      → Cleans g begin end_ c us none
  cleans :
      {c' : RegionMap}
      → IsMap g c' us
      → c'.region ≡ c.region
      → ((i : ℕ) → Overlaps begin end_ (c.region i) → count i c'.reg_list ≡ 0)
      → ((i : ℕ)
          → (Overlaps begin end_ (c.region i) → ⊥)
          → count i c'.reg_list ≡ count i c.reg_list)
      → Cleans g begin end_ c us (some c')

LoopCleans→Cleans :
    {g : Globals} {begin end_ : ℕ} {c : RegionMap} {us : List Use} {x : Option RegionMap}
    → LoopCleans g begin end_ c.reg_list c us x
    → Cleans g begin end_ c us x
LoopCleans→Cleans {begin = begin} {end_} {c} (loop_aborts i among hit busy) =
    aborts i among (hits→Overlaps begin end_ (c.region i) hit) busy
LoopCleans→Cleans {begin = begin} {end_} {c} (loop_cleans m same counts) =
    cleans m same
      (λ (i : ℕ) o.
        let hit = Overlaps→hits begin end_ (c.region i) o in ground (arith, counts i, hit))
      (λ (i : ℕ) out. elim (Bool-cases (hits begin end_ (c.region i))) [
        | inl hit ↦ absurd (out (hits→Overlaps begin end_ (c.region i) hit))
        | inr miss ↦ ground (arith, counts i, miss)
      ])

-- With the cache on, of a map that holds each region once, where its state says: cleaning the memory
-- from `ptr` on, of which the end is computed on 64 bits as that of a region, aborts only if a
-- contiguous region in use has an address in it. Else the contiguous regions that have an address in it
-- leave the list, and exactly they, whatever the cache keeps; no region changes, and the map still holds
-- each region once.
pub regcache_clean-Cleans :
    (g : Globals) (ptr size : ℕ) (c : RegionMap) (us : List Use)
    → g.regcache ≡ true
    → IsMap g c us
    → Cleans g ptr ((ptr + size) % 2 ^ 64) c us (regcache_clean g ptr size c)
unfolding regcache_clean
regcache_clean-Cleans g ptr size c us caching m =
    let end_ = (ptr + size) % 2 ^ 64 in
    let e : regcache_clean g ptr size c ≡ clean_loop ptr end_ c.reg_list c = ground arith in
    subst (Cleans g ptr end_ c us) (sym e)
      (LoopCleans→Cleans (clean_loop-LoopCleans g ptr end_ us c.reg_list c (λ i. omega arith) m))
