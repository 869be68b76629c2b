-- ===== src/PullSlots/Tests.antt =====
-- The slot table on concrete inputs.
use open_mx.Common.{
  ℕ, ◌≡◌, ◌≢◌, refl, Bool, true, false, Option, none, some, ◌==◌, if◌then◌else◌, arith,
}
use open_mx.PullSlots.{
  Slots, slots_init, alloc_slot, free_slot, acquire_from_slot, id_first, init_from,
}
use open_mx.PullSlots.Laws.{IsSlots, Allocates, alloc_slot-Allocates}
use open_mx.PullSlots.Init.{slots_init-IsSlots}
use open_mx.PullSlots.Free.{free_slot-frees, stale_id-none, id_after, id_after-ne}

-- The table behind a call, and the table before if it failed.
abbrev after : Slots → Option (Slots × ℕ) → Slots
after s none = s
after s (some (s', id)) = s'

abbrev taken : Slots
taken = after slots_init (alloc_slot slots_init 7)

after-IsSlots :
    (s : Slots) (h other : ℕ) (o : Option (Slots × ℕ))
    → IsSlots s
    → Allocates s h other o
    → IsSlots (after s o)
after-IsSlots s h other none v a = v
after-IsSlots s h other (some (s', id)) v a = a.0

abbrev taken-IsSlots : IsSlots taken
taken-IsSlots =
    after-IsSlots slots_init 7 35 (alloc_slot slots_init 7) slots_init-IsSlots
      (alloc_slot-Allocates slots_init 7 35 slots_init-IsSlots)

-- The first id is 0x23.
found : acquire_from_slot taken 35 ≡ some 7
unfolding slots_init init_from id_first alloc_slot acquire_from_slot
found = refl

free_slot-frees_example :
    (s' : Slots) × (free_slot taken 35 ≡ some s')
    × IsSlots s'
    × (acquire_from_slot s' 35 ≡ (if 35 == 35 then none else acquire_from_slot taken 35))
free_slot-frees_example = free_slot-frees taken 35 7 35 taken-IsSlots (omega arith) found

abbrev given {ℓ} : {A : Type ℓ} → A → Option A → A
given d none = d
given d (some a) = a

abbrev is_some {ℓ} : {A : Type ℓ} → Option A → Bool
is_some none = false
is_some (some a) = true

given-some {ℓ} : {A : Type ℓ} (d : A) (o : Option A) → is_some o ≡ true → o ≡ some (given d o)
given-some d none e = cc
given-some d (some a) e = refl

abbrev freed : Slots
freed = given taken (free_slot taken 35)

is_freed : is_some (free_slot taken 35) ≡ true
unfolding slots_init init_from id_first alloc_slot free_slot
is_freed = refl

is_taken : is_some (alloc_slot freed 9) ≡ true
unfolding slots_init init_from id_first alloc_slot free_slot
is_taken = refl

stale_id-none_example : acquire_from_slot (given (freed, 0) (alloc_slot freed 9)).0 35 ≡ none
stale_id-none_example =
    stale_id-none taken freed (given (freed, 0) (alloc_slot freed 9)).0 35 7 9
      (given (freed, 0) (alloc_slot freed 9)).1 taken-IsSlots (omega arith) found
      (given-some taken (free_slot taken 35) is_freed)
      (given-some (freed, 0) (alloc_slot freed 9) is_taken)

id_after-ne_example : id_after 5 35 ≢ 35
id_after-ne_example = id_after-ne 5 35 (omega arith) (omega arith) (omega arith)
