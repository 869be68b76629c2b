-- ===== src/Large/Move.antt =====
-- Facts about region maps that large messages need: the order of the uses and the numbers that a map
-- keeps beside its regions do not matter.
use open_mx.Common.{
  ℕ, ◌≡◌, refl, sym, subst, ap, ◌∙◌, inl, inr, Bool, List, [], ◌∷◌, ◌++◌, Option, none, some, ◌==◌,
  arith, Bool-cases, Option-cases, List-cases, eq→==, ==→eq,
}
use open_mx.Segments.Defs.{ReqSegs}
use open_mx.Regions.{
  RegionMap, Globals, update, try_alloc, region_free, destroy_region, region_alloc, create_region,
  add_region, get_region, reuse_region, put_region,
}
use open_mx.Regions.Get.{get_region-cases}
use open_mx.Regions.Uses.{uses-middle, reservers-other}
use open_mx.Regions.Ledger.{Use, uses, reservers, to_list, IsAt, view, Fits, IsMap}

-- The same uses, and the same reservers while there is one at most.
abbrev Alike : List Use → List Use → Type 0
Alike us vs =
    (i : ℕ)
    → (uses i vs ≡ uses i us)
      × ((o : Option ℕ) → reservers i us ≡ to_list o [] → reservers i vs ≡ to_list o [])

Fits-Alike :
    {g : Globals} (c : RegionMap) (free : List ℕ) (us vs : List Use) (i : ℕ)
    → Alike us vs
    → Fits g i (view c free us i)
    → Fits g i (view c free vs i)
Fits-Alike c free us vs i al (r, IsAt.outside p u) = (r, IsAt.outside p ((al i).0 ∙ u))
Fits-Alike c free us vs i al (r, IsAt.vacant p u) = (r, IsAt.vacant p ((al i).0 ∙ u))
Fits-Alike c free us vs i al (r, IsAt.cached p n k w x u) =
    (r, IsAt.cached p n k w x ((al i).0 ∙ u))
Fits-Alike c free us vs i al (r, IsAt.used p n k w x u e) =
    (r, IsAt.used p n k w x ((al i).0 ∙ u) ((al i).1 _ e))
Fits-Alike c free us vs i al (r, IsAt.vector p n k u e) =
    (r, IsAt.vector p n k ((al i).0 ∙ u) ((al i).1 _ e))

-- A use without a reserver does not show among the reservers.
reservers-none :
    (i id : ℕ) (xs ys : List Use) → reservers i (xs ++ (id, none) ∷ ys) ≡ reservers i (xs ++ ys)
unfolding reservers
reservers-none i id [] ys = ground arith
reservers-none i id ((j, none) ∷ xs) ys = ground (arith, reservers-none i id xs ys)
reservers-none i id ((j, some p) ∷ xs) ys = ground (arith, reservers-none i id xs ys)

reservers-single :
    (i p : ℕ) (xs ys : List Use)
    → reservers i (xs ++ ys) ≡ []
    → reservers i (xs ++ (i, some p) ∷ ys) ≡ p ∷ []
unfolding reservers
reservers-single i p [] ys e = ground (arith, eq→== i i refl)
reservers-single i p ((j, none) ∷ xs) ys e = ground (arith, reservers-single i p xs ys)
reservers-single i p ((j, some q) ∷ xs) ys e = ground (arith, reservers-single i p xs ys)

reservers-move :
    (i id : ℕ) (q : Option ℕ) (xs ys : List Use) (o : Option ℕ)
    → reservers i ((id, q) ∷ xs ++ ys) ≡ to_list o []
    → reservers i (xs ++ (id, q) ∷ ys) ≡ to_list o []
unfolding reservers
reservers-move i id none xs ys o e = reservers-none i id xs ys ∙ ground arith
reservers-move i id (some p) xs ys none e = ground (arith, reservers-other i id (some p) xs ys)
reservers-move i id (some p) xs ys (some r) e = elim (Bool-cases (i == id)) [
  | inr other ↦ reservers-other i id (some p) xs ys other ∙ ground arith
  | inl same ↦
      let alone : reservers i (xs ++ ys) ≡ [] = ground arith in
      let first : p ≡ r = ground arith in
      rw (← ==→eq i id same) (reservers-single i p xs ys alone ∙ ap (λ x. x ∷ []) first)
]

reservers-some : (i p : ℕ) (xs ys : List Use) → reservers i (xs ++ (i, some p) ∷ ys) ≡ [] → ⊥
unfolding reservers
reservers-some i p [] ys e = ground (arith, eq→== i i refl)
reservers-some i p ((j, none) ∷ xs) ys e = ground (arith, reservers-some i p xs ys)
reservers-some i p ((j, some q) ∷ xs) ys e = ground (arith, reservers-some i p xs ys)

reservers-single_front :
    (i p : ℕ) (xs ys : List Use) (o : Option ℕ)
    → reservers i (xs ++ (i, some p) ∷ ys) ≡ to_list o []
    → p ∷ reservers i (xs ++ ys) ≡ to_list o []
unfolding reservers
reservers-single_front i p [] ys o e = ground (arith, eq→== i i refl)
reservers-single_front i p ((j, none) ∷ xs) ys o e =
    ground (arith, reservers-single_front i p xs ys o)
reservers-single_front i p ((j, some q) ∷ xs) ys none e =
    ground (arith, reservers-single_front i p xs ys none)
reservers-single_front i p ((j, some q) ∷ xs) ys (some r) e =
    ground (arith, reservers-single_front i p xs ys (some r), reservers-some i p xs ys)

reservers-front :
    (i id : ℕ) (q : Option ℕ) (xs ys : List Use) (o : Option ℕ)
    → reservers i (xs ++ (id, q) ∷ ys) ≡ to_list o []
    → reservers i ((id, q) ∷ xs ++ ys) ≡ to_list o []
unfolding reservers
reservers-front i id none xs ys o e = ground (arith, reservers-none i id xs ys)
reservers-front i id (some p) xs ys o e = elim (Bool-cases (i == id)) [
  | inr other ↦ rw other (sym (reservers-other i id (some p) xs ys other) ∙ e)
  | inl same ↦
      let e' : reservers i (xs ++ (i, some p) ∷ ys) ≡ to_list o [] =
        subst (λ (x : ℕ). reservers i (xs ++ (x, some p) ∷ ys) ≡ to_list o [])
          (sym (==→eq i id same)) e in
      rw same (reservers-single_front i p xs ys o e')
]

-- A use that stands first may stand anywhere.
Alike-move :
    (id : ℕ) (q : Option ℕ) (xs ys : List Use) → Alike ((id, q) ∷ xs ++ ys) (xs ++ (id, q) ∷ ys)
unfolding uses
Alike-move id q xs ys i = (ground (arith, uses-middle i id q xs ys), reservers-move i id q xs ys)

pub IsMap-move :
    {g : Globals} {c : RegionMap} (id : ℕ) (q : Option ℕ) (xs ys : List Use)
    → IsMap g c ((id, q) ∷ xs ++ ys)
    → IsMap g c (xs ++ (id, q) ∷ ys)
IsMap-move {c} id q xs ys m = record {
  free = m.free;
  chain = m.chain;
  number = m.number;
  at = λ i. Fits-Alike c m.free _ _ i (Alike-move id q xs ys) (m.at i);
}

Alike-front :
    (id : ℕ) (q : Option ℕ) (xs ys : List Use) → Alike (xs ++ (id, q) ∷ ys) ((id, q) ∷ xs ++ ys)
unfolding uses
Alike-front id q xs ys i = (ground (arith, uses-middle i id q xs ys), reservers-front i id q xs ys)

-- A use that stands anywhere may stand first.
pub IsMap-front :
    {g : Globals} {c : RegionMap} (id : ℕ) (q : Option ℕ) (xs ys : List Use)
    → IsMap g c (xs ++ (id, q) ∷ ys)
    → IsMap g c ((id, q) ∷ xs ++ ys)
IsMap-front {c} id q xs ys m = record {
  free = m.free;
  chain = m.chain;
  number = m.number;
  at = λ i. Fits-Alike c m.free _ _ i (Alike-front id q xs ys) (m.at i);
}

-- Fields of the map that its lists do not depend on.
pub IsMap-avail :
    {g : Globals} {c : RegionMap} {us : List Use} (n : ℕ)
    → IsMap g c us
    → IsMap g (record c { large_sends_avail_nr = n }) us
IsMap-avail n m = record { free = m.free; chain = m.chain; number = m.number; at = m.at }

-- The sequence number of a region.
abbrev pub numbered : RegionMap → ℕ → ℕ → RegionMap
numbered c id n = record c {
  region = update c.region id (record (c.region id) { last_seqnum = n });
}

Fits-seqnum :
    {g : Globals} (c : RegionMap) (free : List ℕ) (us : List Use) (id n i : ℕ)
    → Fits g i (view c free us i)
    → Fits g i (view (numbered c id n) free us i)
Fits-seqnum c free us id n i (r, IsAt.outside p u) = (r, IsAt.outside p u)
Fits-seqnum c free us id n i (r, IsAt.vacant p u) = (r, IsAt.vacant p u)
Fits-seqnum c free us id n i (r, IsAt.cached p k one z o u) =
    (r, IsAt.cached p k (ground arith) (ground arith) (ground arith) u)
Fits-seqnum c free us id n i (r, IsAt.used p one k w x u e) = (
  r,
  IsAt.used p (ground arith) (ground arith) (λ h. ground (arith, w h)) (λ h. ground (arith, x h))
      (ground arith) (ground arith),
)
Fits-seqnum c free us id n i (r, IsAt.vector p many k u e) =
    (r, IsAt.vector p (ground arith) (ground arith) u (ground arith))

pub IsMap-seqnum :
    {g : Globals} {c : RegionMap} {us : List Use} (id n : ℕ)
    → IsMap g c us
    → IsMap g (numbered c id n) us
IsMap-seqnum {c} {us} id n m = record {
  free = m.free;
  chain = m.chain;
  number = m.number;
  at = λ i. Fits-seqnum c m.free us id n i (m.at i);
}

-- The regions are got and put back without a look at the slots for sends.
region_alloc-avail :
    (g : Globals) (c : RegionMap)
    → (region_alloc g c).0.large_sends_avail_nr ≡ c.large_sends_avail_nr
unfolding region_alloc try_alloc destroy_region region_free
region_alloc-avail g c = elim (Option-cases c.first_free) [
  | inr (id, e) ↦ ground arith
  | inl e ↦ elim (List-cases c.reg_unused_list) [
    | inl none_left ↦ ground arith
    | inr (id, ids, more) ↦ ground arith
  ]
]

create_region-avail :
    (g : Globals) (accepts : Bool) (reqsegs : ReqSegs) (c : RegionMap)
    → (create_region g accepts reqsegs c).0.large_sends_avail_nr ≡ c.large_sends_avail_nr
unfolding create_region region_free
create_region-avail g accepts reqsegs c = ground (arith, region_alloc-avail g c)

add_region-avail :
    (g : Globals) (accepts : Bool) (reqsegs : ReqSegs) (q : Option ℕ) (c : RegionMap)
    → (add_region g accepts reqsegs q c).0.large_sends_avail_nr ≡ c.large_sends_avail_nr
unfolding add_region
add_region-avail g accepts reqsegs q c = ground (arith, create_region-avail g accepts reqsegs c)

pub get_region-avail :
    (g : Globals) (accepts : Bool) (reqsegs : ReqSegs) (q : Option ℕ) (c : RegionMap)
    → (get_region g accepts reqsegs q c).0.large_sends_avail_nr ≡ c.large_sends_avail_nr
unfolding reuse_region
get_region-avail g accepts reqsegs q c = elim (get_region-cases g accepts reqsegs q c) [
  | inl e ↦ rw e (add_region-avail g accepts reqsegs q c)
  | inr (id, e, few, caching, found) ↦ rw e refl
]

pub put_region-avail :
    (g : Globals) (c : RegionMap) (id : ℕ) (q : Option ℕ)
    → (put_region g c id q).large_sends_avail_nr ≡ c.large_sends_avail_nr
unfolding put_region destroy_region region_free
put_region-avail g c id q = ground arith
