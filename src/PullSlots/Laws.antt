-- ===== src/PullSlots/Laws.antt =====
-- The invariant of the slot table, and what a lookup finds after each operation.
use open_mx.Common.{
  ℕ, ◌+◌, ◌<◌, ◌≡◌, ◌≢◌, refl, sym, ap, ◌∙◌, inl, inr, true, List, [], ◌∷◌, ◌++◌, Option, none,
  some, ◌==◌, if◌then◌else◌, arith, length, length-set, get_elem?, set, get_elem?-set, get_elem?-lt,
  get_elem?-set_self, get_elem?-set_ne, lt→leb, Bool-cases, Option-cases, ==→eq, ==→ne, eq→==,
}
use open_mx.PullSlots.{
  Slot, Slots, slot_index_max, index_from_id, assign, alloc_from, alloc_slot, acquire_from_slot,
  holder,
}

-- How often an index stands in the free list, and how often it should.
unfoldable pub count : ℕ → List ℕ → ℕ
count i [] = 0
count i (j ∷ js) = (if i == j then 1 else 0) + count i js

abbrev pub unused : Option ℕ → ℕ
unused none = 1
unused (some h) = 0

abbrev pub vacancy : Option Slot → ℕ
vacancy none = 0
vacancy (some slot) = unused slot.handle

pub record IsSlots (s : Slots) : Type 0 where
  pub size : length s.array ≡ slot_index_max
  -- The slot of an index has ids of that index.
  pub ids : (i : ℕ) (slot : Slot) → get_elem? s.array i ≡ some slot → index_from_id slot.id ≡ i
  -- The free list holds exactly the slots without a handle, each once.
  pub free : (i : ℕ) → count i s.free_list ≡ vacancy (get_elem? s.array i)

pub count-append : (i : ℕ) (xs ys : List ℕ) → count i (xs ++ ys) ≡ count i xs + count i ys
unfolding count
count-append i [] ys = omega arith
count-append i (x ∷ xs) ys = omega (arith, count-append i xs ys)

count-cons_ne : (i j : ℕ) (js : List ℕ) → i ≢ j → count j (i ∷ js) ≡ count j js
unfolding count
count-cons_ne i j js h = ground arith

pub count-snoc_self : (i : ℕ) (js : List ℕ) → count i js ≡ 0 → count i (js ++ i ∷ []) ≡ 1
unfolding count
count-snoc_self i js h = ground (arith, count-append i js (i ∷ []))

pub count-snoc_ne : (i j : ℕ) (js : List ℕ) → i ≢ j → count j (js ++ i ∷ []) ≡ count j js
unfolding count
count-snoc_ne i j js h = ground (arith, count-append j js (i ∷ []))

-- Writing a slot of the same index changes the number of free slots at that index only.
pub set-IsSlots :
    {s : Slots} (i : ℕ) (old new : Slot) (free : List ℕ)
    → IsSlots s
    → get_elem? s.array i ≡ some old
    → index_from_id new.id ≡ i
    → count i free ≡ unused new.handle
    → ((j : ℕ) → i ≢ j → count j free ≡ count j s.free_list)
    → IsSlots (record { array = set s.array i new; free_list = free })
set-IsSlots {s} i old new free v at id here others =
    let w = λ (j : ℕ). get_elem?-set s.array i j new (get_elem?-lt s.array i at) in
    record {
      size = length-set s.array i new ∙ v.size;
      ids = λ j slot e. ground (arith, w j, v.ids j slot);
      free = λ j. elim (Bool-cases (i == j)) [
        | inl same ↦ ground (arith, w j)
        | inr other ↦ ground (arith, w j, others j, v.free j)
      ];
    }

-- Of a valid table the head of the free list is a slot without a handle.
free_head :
    {s : Slots} (i : ℕ) (rest : List ℕ)
    → IsSlots s
    → s.free_list ≡ i ∷ rest
    → (slot : Slot) × (get_elem? s.array i ≡ some slot) × (slot.handle ≡ none) × (count i rest ≡ 0)
unfolding count
free_head {s} i rest v e = elim (Option-cases (get_elem? s.array i)) [
  | inl out ↦ absurd (ground (arith, v.free i))
  | inr (slot, at) ↦ (slot, at, ground (arith, v.free i), ground (arith, v.free i))
]

-- A lookup by an id finds what stands in the slot of its index.
acquire-holder :
    (s : Slots) (id : ℕ)
    → index_from_id id < slot_index_max
    → acquire_from_slot s id ≡ holder id (get_elem? s.array (index_from_id id))
unfolding acquire_from_slot
acquire-holder s id h = rw (lt→leb slot_index_max (index_from_id id) h)

-- Writing one slot changes no lookup by an id of another index.
pub acquire-set_ne :
    (s : Slots) (i : ℕ) (new : Slot) (free : List ℕ) (other : ℕ)
    → index_from_id other ≢ i
    → acquire_from_slot (record { array = set s.array i new; free_list = free }) other
      ≡ acquire_from_slot s other
unfolding acquire_from_slot
acquire-set_ne s i new free other ne =
    rw (get_elem?-set_ne s.array {i = i} {j = index_from_id other} new (λ e. ne (sym e)))

-- What an id finds in its slot after the slot was written.
pub acquire-set_self :
    (s : Slots) (i : ℕ) (new : Slot) (free : List ℕ) (id : ℕ)
    → length s.array ≡ slot_index_max
    → index_from_id id ≡ i
    → i < slot_index_max
    → acquire_from_slot (record { array = set s.array i new; free_list = free }) id
      ≡ holder id (some new)
unfolding acquire_from_slot
acquire-set_self s i new free id size e h =
    rw (e, lt→leb slot_index_max i h, get_elem?-set_self s.array i new (omega arith))

-- What a successful allocation gives, for the lookup of any id: a valid table, in which the new id,
-- that found nothing before, finds the handle, and every other id finds what it found before.
abbrev pub Allocates : Slots → ℕ → ℕ → Option (Slots × ℕ) → Type 0
Allocates s h other none = s.free_list ≡ []
Allocates s h other (some (s', id)) =
    IsSlots s'
    × (acquire_from_slot s id ≡ none)
    × (acquire_from_slot s' other ≡ (if other == id then some h else acquire_from_slot s other))

-- The lookup after one slot, of a known index, was written.
pub acquire-set :
    (s : Slots) (i : ℕ) (old new : Slot) (free : List ℕ) (other : ℕ)
    → length s.array ≡ slot_index_max
    → get_elem? s.array i ≡ some old
    → acquire_from_slot (record { array = set s.array i new; free_list = free }) other
      ≡ (if index_from_id other == i then holder other (some new) else acquire_from_slot s other)
acquire-set s i old new free other size at = elim (Bool-cases (index_from_id other == i)) [
  | inl here ↦
      let e = ==→eq (index_from_id other) i here in
      rw here (
        acquire-set_self s i new free other size e (omega (arith, size, get_elem?-lt s.array i at)))
  | inr there ↦ rw there (acquire-set_ne s i new free other (==→ne (index_from_id other) i there))
]

-- The lookup in the slot of a known index.
pub acquire-at :
    (s : Slots) (i : ℕ) (slot : Slot) (id : ℕ)
    → length s.array ≡ slot_index_max
    → get_elem? s.array i ≡ some slot
    → index_from_id id ≡ i
    → acquire_from_slot s id ≡ holder id (some slot)
acquire-at s i slot id size at e =
    acquire-holder s id (omega (arith, size, get_elem?-lt s.array i at)) ∙ rw (e, at) refl

-- Of a valid table, an allocation fails exactly when no slot is free. Otherwise the table stays
-- valid, the id that it gives found nothing before, and the lookup of any id `other` then finds the
-- new handle if it is that id, and else what it found before.
pub alloc_slot-Allocates :
    (s : Slots) (h other : ℕ) → IsSlots s → Allocates s h other (alloc_slot s h)
unfolding alloc_slot
alloc_slot-Allocates s h other v = from_list s.free_list refl
  where
    from_slot :
        (i : ℕ) (rest : List ℕ) (slot : Slot)
        → get_elem? s.array i ≡ some slot
        → slot.handle ≡ none
        → count i rest ≡ 0
        → ((j : ℕ) → i ≢ j → count j rest ≡ count j s.free_list)
        → Allocates s h other (assign s i rest h (some slot))
    from_slot i rest slot at vacant once others =
        let new : Slot = record slot { handle = some h } in
        let index = v.ids i slot at in
        let same : slot.id == slot.id ≡ true = eq→== slot.id slot.id refl in
        let after = acquire-set s i slot new rest other v.size at in
        (
          set-IsSlots i slot new rest v at index once others,
          acquire-at s i slot slot.id v.size at index ∙ rw same vacant,
          elim (Bool-cases (other == slot.id)) [
            | inl own ↦
                let e : index_from_id other == i ≡ true =
                  eq→== (index_from_id other) i
                    (ap index_from_id (==→eq other slot.id own) ∙ index) in
                after ∙ rw (own, e) refl
            | inr foreign ↦ elim (Bool-cases (index_from_id other == i)) [
              | inl here ↦
                  let before : acquire_from_slot s other ≡ none =
                    acquire-at s i slot other v.size at (==→eq (index_from_id other) i here)
                    ∙ rw foreign refl in
                  after ∙ rw (here, foreign, before) refl
              | inr there ↦ after ∙ rw (there, foreign) refl
            ]
          ],
        )

    from_list : (free : List ℕ) → s.free_list ≡ free → Allocates s h other (alloc_from s h free)
    from_list [] e = e
    from_list (i ∷ rest) e =
        let (slot, at, vacant, once) = free_head i rest v e in
        rw at
          (from_slot i rest slot at vacant once (λ j ne. rw e (sym (count-cons_ne i j rest ne))))
