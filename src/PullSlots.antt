-- ===== src/PullSlots.antt =====
-- The table of pull handles of an endpoint, driver/linux/omx_pull.c: 1024 slots, each with an id
-- made of its index and a generation, and the list of free slots. A handle is named by a number;
-- RCU and the locks are left out, and so is the reference count of a handle.
pub mod Laws
pub mod Init
pub mod Free
mod Tests
use open_mx.Common.{
  ℕ, zero, suc, ◌+◌, ◌*◌, ◌/◌, ◌%◌, ◌^◌, List, [], ◌∷◌, ◌++◌, Option, none, some, leb, ◌==◌,
  if◌then◌else◌, get_elem?, set,
}

-- OMX_PULL_HANDLE_SLOT_INDEX_MAX; the generation has the other 22 bits of an id.
abbrev pub slot_index_max : ℕ
slot_index_max = 1024

abbrev pub generations : ℕ
generations = 2 ^ 22

abbrev pub generation_first : ℕ
generation_first = 0x23

-- struct omx_pull_handle_slot
pub record Slot : Type 0 where
  pub handle : Option ℕ
  pub id : ℕ

-- The slot array of an endpoint, and the indexes of its free list.
pub record Slots : Type 0 where
  pub array : List Slot
  pub free_list : List ℕ

-- OMX_PULL_HANDLE_SLOT_ID_FIRST, ..._ID_INC, ..._INDEX_FROM_ID: masks and shifts as arithmetic; the
-- two fields of an id do not overlap, so `|` is a sum.
unfoldable pub id_first : ℕ → ℕ
id_first index = generation_first % generations + index * generations

unfoldable pub id_inc : ℕ → ℕ
id_inc id = id / generations % slot_index_max * generations + (id + 1) % generations

abbrev pub index_from_id : ℕ → ℕ
index_from_id id = id / generations

-- omx_pull_handle_slots_init: the loop, from index `i` on.
unfoldable pub init_from : ℕ → ℕ → Slots → Slots
init_from zero i s = s
init_from (suc left) i s = init_from left (i + 1) (record {
  array = s.array ++ record { handle = none; id = id_first i } ∷ [];
  free_list = s.free_list ++ i ∷ [];
})

unfoldable pub slots_init : Slots
unfolding init_from id_first
slots_init = init_from slot_index_max 0 (record { array = []; free_list = [] })

-- omx_pull_handle_alloc_slot: `none` is -ENOMEM; the number is the handle's new slot id.
abbrev pub assign : Slots → ℕ → List ℕ → ℕ → Option Slot → Option (Slots × ℕ)
assign s i rest h none = none
assign s i rest h (some slot) =
    some (
      record { array = set s.array i (record slot { handle = some h }); free_list = rest },
      slot.id,
    )

abbrev pub alloc_from : Slots → ℕ → List ℕ → Option (Slots × ℕ)
alloc_from s h [] = none
alloc_from s h (i ∷ rest) = assign s i rest h (get_elem? s.array i)

unfoldable pub alloc_slot : Slots → ℕ → Option (Slots × ℕ)
alloc_slot s h = alloc_from s h s.free_list

-- omx_pull_handle_free_slot, of a handle with this slot id. An index outside the array is a fault
-- of the caller.
abbrev pub vacate : Slots → ℕ → Option Slot → Option Slots
vacate s i none = none
vacate s i (some slot) = some (record {
  array = set s.array i (record { handle = none; id = id_inc slot.id });
  free_list = s.free_list ++ i ∷ [];
})

unfoldable pub free_slot : Slots → ℕ → Option Slots
unfolding id_inc
free_slot s id = vacate s (index_from_id id) (get_elem? s.array (index_from_id id))

-- omx_pull_handle_acquire_from_slot, of an id from the wire.
abbrev pub holder : ℕ → Option Slot → Option ℕ
holder id none = none
holder id (some slot) = if id == slot.id then slot.handle else none

unfoldable pub acquire_from_slot : Slots → ℕ → Option ℕ
acquire_from_slot s id =
    if leb slot_index_max (index_from_id id)
    then none
    else holder id (get_elem? s.array (index_from_id id))
