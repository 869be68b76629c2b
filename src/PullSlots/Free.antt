-- ===== src/PullSlots/Free.antt =====
-- Freeing the slot of a handle, and what becomes of its id.
use open_mx.Common.{
  ℕ, zero, suc, ◌+◌, ◌*◌, ◌/◌, ◌%◌, ◌^◌, ◌<◌, ◌≡◌, ◌≢◌, refl, sym, ap, subst, ◌∙◌, inl, inr, false,
  List, [], ◌∷◌, ◌++◌, Option, none, some, ◌==◌, if◌then◌else◌, arith, get_elem?, set,
  get_elem?-set, get_elem?-lt, get_elem?-set_self, Bool-cases, Option-cases, some-eq, ==→eq, ==→ne,
  ne→==,
}
use open_mx.PullSlots.{
  Slot, Slots, slot_index_max, generations, index_from_id, id_inc, assign, vacate, alloc_from,
  alloc_slot, free_slot, acquire_from_slot,
}
use open_mx.PullSlots.Laws.{
  IsSlots, count, count-snoc_self, count-snoc_ne, set-IsSlots, acquire-set, acquire-at,
}

-- An id from the wire that finds a handle names its slot.
acquire-some :
    (s : Slots) (id h : ℕ)
    → acquire_from_slot s id ≡ some h
    → (slot : Slot) × (get_elem? s.array (index_from_id id) ≡ some slot)
      × (slot.id ≡ id)
      × (slot.handle ≡ some h)
unfolding acquire_from_slot
acquire-some s id h e = elim (Option-cases (get_elem? s.array (index_from_id id))) [
  | inl out ↦ absurd (ground arith)
  | inr (slot, at) ↦ (slot, at, ground arith, ground arith)
]

-- The new generation keeps the index and differs from the old one.
id_inc-index : (id : ℕ) → id < 2 ^ 32 → index_from_id (id_inc id) ≡ index_from_id id
unfolding id_inc
id_inc-index id h = omega arith

id_inc-ne : (id : ℕ) → id_inc id ≢ id
unfolding id_inc
id_inc-ne id = omega arith

-- Of a valid table, an id of 32 bits that finds a handle: freeing its slot succeeds and keeps the
-- table valid, and the lookup of any id `other` then finds nothing if it is the freed one, and else
-- what it found before.
pub free_slot-frees :
    (s : Slots) (id h other : ℕ)
    → IsSlots s
    → id < 2 ^ 32
    → acquire_from_slot s id ≡ some h
    → (s' : Slots) × (free_slot s id ≡ some s')
      × IsSlots s'
      × (acquire_from_slot s' other ≡ (if other == id then none else acquire_from_slot s other))
unfolding free_slot
free_slot-frees s id h other v small e =
    let (slot, at, own, held) = acquire-some s id h e in
    let i = index_from_id id in
    let new : Slot = record { handle = none; id = id_inc slot.id } in
    let free = s.free_list ++ i ∷ [] in
    let index : index_from_id new.id ≡ i = rw (own, id_inc-index id small) refl in
    let none_free : count i s.free_list ≡ 0 = v.free i ∙ rw (at, held) in
    let after = acquire-set s i slot new free other v.size at in
    (
      record { array = set s.array i new; free_list = free },
      rw at,
      set-IsSlots i slot new free v at index (count-snoc_self i s.free_list none_free)
          (λ j ne. count-snoc_ne i j s.free_list ne),
      elim (Bool-cases (index_from_id other == i)) [
        | inl here ↦
            let before = acquire-at s i slot other v.size at (==→eq (index_from_id other) i here) in
            after ∙ rw here (ground (arith, before))
        | inr there ↦
            let other_id : other == id ≡ false =
              ne→== other id (λ p. ==→ne (index_from_id other) i there (ap index_from_id p)) in
            after ∙ rw (there, other_id) refl
      ],
    )

-- Allocation keeps the id of every slot.
alloc_slot-id :
    (s s' : Slots) (h id' i : ℕ) (slot : Slot)
    → alloc_slot s h ≡ some (s', id')
    → get_elem? s'.array i ≡ some slot
    → (old : Slot) × (get_elem? s.array i ≡ some old) × (old.id ≡ slot.id)
unfolding alloc_slot
alloc_slot-id s s' h id' i slot e at = from_list s.free_list e
  where
    from_slot :
        (k : ℕ) (rest : List ℕ) (o : Option Slot)
        → get_elem? s.array k ≡ o
        → assign s k rest h o ≡ some (s', id')
        → (old : Slot) × (get_elem? s.array i ≡ some old) × (old.id ≡ slot.id)
    from_slot k rest none p q = cc
    from_slot k rest (some old) p q =
        let new : Slot = record old { handle = some h } in
        let w = get_elem?-set s.array k i new (get_elem?-lt s.array k p) in
        elim (Bool-cases (k == i)) [
          | inl same ↦ (
            old,
            subst (λ (x : ℕ). get_elem? s.array x ≡ some old) (==→eq k i same) p,
            ground (arith, w),
          )
          | inr other ↦ (slot, ground (arith, w), refl)
        ]

    from_list :
        (free : List ℕ)
        → alloc_from s h free ≡ some (s', id')
        → (old : Slot) × (get_elem? s.array i ≡ some old) × (old.id ≡ slot.id)
    from_list [] p = cc
    from_list (k ∷ rest) p = from_slot k rest (get_elem? s.array k) refl p

-- What a freed slot holds.
freed_slot :
    (s s' : Slots) (id h : ℕ)
    → acquire_from_slot s id ≡ some h
    → free_slot s id ≡ some s'
    → get_elem? s'.array (index_from_id id) ≡ some (record { handle = none; id = id_inc id })
unfolding free_slot
freed_slot s s' id h e freed =
    let (slot, at, own, held) = acquire-some s id h e in
    let i = index_from_id id in
    let new : Slot = record { handle = none; id = id_inc slot.id } in
    let t : Slots = record { array = set s.array i new; free_list = s.free_list ++ i ∷ [] } in
    let gives : vacate s i (get_elem? s.array i) ≡ some t = rw at in
    let same : t ≡ s' = some-eq (sym gives ∙ freed) in
    let w : get_elem? (set s.array i new) i ≡ some new =
      get_elem?-set_self s.array i new (get_elem?-lt s.array i at) in
    ap (λ (x : Slots). get_elem? x.array i) (sym same)
    ∙ w
    ∙ ap (λ (k : ℕ). some (record { handle = none; id = id_inc k })) own

-- Of a valid table, when the slot of an id of 32 bits is freed and a slot is then allocated, the
-- freed id finds nothing, even if it is the same slot that another handle got.
pub stale_id-none :
    (s s' s'' : Slots) (id h h' id' : ℕ)
    → IsSlots s
    → id < 2 ^ 32
    → acquire_from_slot s id ≡ some h
    → free_slot s id ≡ some s'
    → alloc_slot s' h' ≡ some (s'', id')
    → acquire_from_slot s'' id ≡ none
stale_id-none s s' s'' id h h' id' v small e freed taken =
    elim (Option-cases (acquire_from_slot s'' id)) [
      | inl done ↦ done
      | inr (h2, found) ↦
          let (slot2, at2, own2, _) = acquire-some s'' id h2 found in
          let (slot1, at1, own1) = alloc_slot-id s' s'' h' id' (index_from_id id) slot2 taken at2 in
          let ids : id_inc id ≡ id =
            ap (λ (x : Slot). x.id) (some-eq (sym (freed_slot s s' id h e freed) ∙ at1))
            ∙ own1
            ∙ own2 in
          absurd (id_inc-ne id ids)
    ]

-- The generation of a slot after `n` frees.
pub id_after : ℕ → ℕ → ℕ
id_after zero id = id
id_after (suc n) id = id_after n (id_inc id)

id_after_lem :
    (n id : ℕ)
    → id < 2 ^ 32
    → id_after n id ≡ id / generations * generations + (id + n) % generations
unfolding id_after id_inc
id_after_lem zero id h = omega arith
id_after_lem (suc n) id h = omega (
  arith,
  id_after_lem n (id / generations % slot_index_max * generations + (id + 1) % generations),
)

-- The ids of a slot repeat only after 2^22 frees: after fewer, at least one, the id is another one.
pub id_after-ne : (n id : ℕ) → 0 < n → n < generations → id < 2 ^ 32 → id_after n id ≢ id
id_after-ne n id pos few h = omega (arith, id_after_lem n id)
