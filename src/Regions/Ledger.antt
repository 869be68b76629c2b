-- ===== src/Regions/Ledger.antt =====
-- The state of each region of a map, and who uses it.
use open_mx.Common.{
  ℕ, ◌+◌, ◌<◌, ◌≡◌, true, false, List, [], ◌∷◌, Option, none, some, ltb, ◌==◌, if◌then◌else◌,
  length, count,
}
use open_mx.Regions.{Region, RegionMap, Globals, user_region_max}

-- A use of a region: its id, and the reserver that the user passed.
abbrev pub Use : Type 0
Use = ℕ × Option ℕ

-- How many uses a region has, and the reservers among them.
unfoldable pub uses : ℕ → List Use → ℕ
uses i [] = 0
uses i ((j, q) ∷ us) = (if i == j then 1 else 0) + uses i us

abbrev pub to_list {ℓ} : {A : Type ℓ} → Option A → List A → List A
to_list none xs = xs
to_list (some x) xs = x ∷ xs

unfoldable pub reservers : ℕ → List Use → List ℕ
reservers i [] = []
reservers i ((j, q) ∷ us) = if i == j then to_list q (reservers i us) else reservers i us

-- What concerns one id: how often it stands in the chain of free slots, in the lists of the map and
-- among the driver's windows, its region, and its uses.
pub record View : Type 0 where
  pub free : ℕ
  pub listed : ℕ
  pub vectorial : ℕ
  pub unused : ℕ
  pub windows : ℕ
  pub region : Region
  pub uses : ℕ
  pub reservers : List ℕ

-- The id stands in these places, once at most.
abbrev pub Places : View → ℕ → ℕ → ℕ → ℕ → ℕ → Type 0
Places v f l m u w =
    (v.free ≡ f) × (v.listed ≡ l) × (v.vectorial ≡ m) × (v.unused ≡ u) × (v.windows ≡ w)

-- The life of a region.
pub data IsAt (g : Globals) (v : View) : Type 0 where
  outside : Places v 0 0 0 0 0 → v.uses ≡ 0 → IsAt g v
  vacant : Places v 1 0 0 0 0 → v.uses ≡ 0 → IsAt g v
  cached :
      Places v 0 1 0 1 1
      → g.regcache ≡ true
      → v.region.segs.nseg ≡ 1
      → v.region.use_count ≡ 0
      → v.region.reserver ≡ none
      → v.uses ≡ 0
      → IsAt g v
  used :
      Places v 0 1 0 0 1
      → v.region.segs.nseg ≡ 1
      → 0 < v.region.use_count
      → (g.regcache ≡ false → v.region.use_count ≡ 1)
      → (g.parallel_regcache ≡ false → v.region.use_count ≡ 1)
      → v.uses ≡ v.region.use_count
      → v.reservers ≡ to_list v.region.reserver []
      → IsAt g v
  vector :
      Places v 0 0 1 0 1
      → 1 < v.region.segs.nseg
      → v.region.use_count ≡ 1
      → v.uses ≡ 1
      → v.reservers ≡ to_list v.region.reserver []
      → IsAt g v

-- What holds of the id under the map `c`, the chain `free` of its free slots and the uses `us`.
abbrev pub view : RegionMap → List ℕ → List Use → ℕ → View
view c free us i = record {
  free = count i free;
  listed = count i c.reg_list;
  vectorial = count i c.reg_vect_list;
  unused = count i c.reg_unused_list;
  windows = count i c.windows;
  region = c.region i;
  uses = uses i us;
  reservers = reservers i us;
}

-- The free slots are chained from the first one.
abbrev pub Chain : (ℕ → Option ℕ) → Option ℕ → List ℕ → Type 0
Chain next first [] = first ≡ none
Chain next first (i ∷ is) = (first ≡ some i) × Chain next (next i) is

-- An id is outside of the map exactly if no slot has it.
abbrev pub InRange : ℕ → View → Type 0
InRange i v =
    (ltb i user_region_max ≡ true → v.free + v.listed + v.vectorial ≡ 1)
    × (ltb i user_region_max ≡ false → v.free + v.listed + v.vectorial ≡ 0)

abbrev pub Fits : Globals → ℕ → View → Type 0
Fits g i v = InRange i v × IsAt g v

-- A map whose uses are `us`: its lists hold each region once, where its state says.
pub record IsMap (g : Globals) (c : RegionMap) (us : List Use) : Type 0 where
  pub free : List ℕ
  pub chain : Chain c.next_free c.first_free free
  pub number : c.nr_free ≡ length free
  pub at : (i : ℕ) → Fits g i (view c free us i)

-- The map while the region `id`, which no one uses, is out of its slots and not yet in a list.
pub record IsTaken (g : Globals) (c : RegionMap) (us : List Use) (id : ℕ) : Type 0 where
  pub free : List ℕ
  pub chain : Chain c.next_free c.first_free free
  pub number : c.nr_free ≡ length free
  pub small : ltb id user_region_max ≡ true
  pub out : Places (view c free us id) 0 0 0 0 0
  pub idle : uses id us ≡ 0
  pub at : (i : ℕ) → (i == id) ≡ false → Fits g i (view c free us i)

-- The map while the region `id`, which no one uses any more, is about to be destroyed.
pub record IsLeaving (g : Globals) (c : RegionMap) (us : List Use) (id : ℕ) : Type 0 where
  pub free : List ℕ
  pub chain : Chain c.next_free c.first_free free
  pub number : c.nr_free ≡ length free
  pub small : ltb id user_region_max ≡ true
  pub out : count id free ≡ 0
  pub listed : count id c.reg_list + count id c.reg_vect_list ≡ 1
  pub kept : count id c.reg_unused_list ≡ 0
  pub window : count id c.windows ≡ 1
  pub idle : uses id us ≡ 0
  pub at : (i : ℕ) → (i == id) ≡ false → Fits g i (view c free us i)
