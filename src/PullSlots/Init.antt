-- ===== src/PullSlots/Init.antt =====
-- The table after omx_pull_handle_slots_init.
use open_mx.Common.{
  ℕ, zero, suc, ◌+◌, ◌-◌, ◌≤◌, ◌≡◌, refl, List, [], ◌∷◌, ◌++◌, none, some, ◌==◌, if◌then◌else◌,
  arith, length, length-append, get_elem?, get_elem?-append,
}
use open_mx.PullSlots.{Slot, Slots, slot_index_max, index_from_id, id_first, init_from, slots_init}
use open_mx.PullSlots.Laws.{IsSlots, count, count-append, vacancy}

-- The table after `n` rounds of the loop.
record IsFilled (n : ℕ) (s : Slots) : Type 0 where
  size : length s.array ≡ n
  ids : (i : ℕ) (slot : Slot) → get_elem? s.array i ≡ some slot → index_from_id slot.id ≡ i
  free : (i : ℕ) → count i s.free_list ≡ vacancy (get_elem? s.array i)

abbrev fresh_slot : ℕ → Slot
fresh_slot i = record { handle = none; id = id_first i }

index-id_first : (i : ℕ) → index_from_id (id_first i) ≡ i
unfolding id_first
index-id_first i = omega arith

count_one : (i j : ℕ) → count i (j ∷ []) ≡ (if i == j then 1 else 0)
unfolding count
count_one i j = ground arith

count_nil : (i : ℕ) → count i [] ≡ 0
unfolding count
count_nil i = refl

get_elem?-length {ℓ} : {A : Type ℓ} (xs : List A) (i : ℕ) → length xs ≤ i → get_elem? xs i ≡ none
get_elem?-length [] i h = refl
get_elem?-length (x ∷ xs) zero h = elim h [ ]
get_elem?-length (x ∷ xs) (suc i) h = get_elem?-length xs i (omega arith)

one : (x : Slot) (k : ℕ) → get_elem? (x ∷ []) k ≡ (if k == 0 then some x else none)
one x zero = refl
one x (suc k) = ground arith

round-IsFilled :
    (n : ℕ) (s : Slots)
    → IsFilled n s
    → IsFilled
        (n + 1)
        (record { array = s.array ++ fresh_slot n ∷ []; free_list = s.free_list ++ n ∷ [] })
round-IsFilled n s v =
    let at = λ (i : ℕ). get_elem?-append s.array (fresh_slot n ∷ []) i in
    record {
      size = omega (arith, length-append s.array (fresh_slot n ∷ []), v.size);
      ids = λ i slot e. ground (
        arith,
        at i,
        v.ids i slot,
        v.size,
        index-id_first n,
        one (fresh_slot n) (i - length s.array),
      );
      free = λ i. ground (
        arith,
        at i,
        v.free i,
        v.size,
        one (fresh_slot n) (i - length s.array),
        count-append i s.free_list (n ∷ []),
        count_one i n,
        get_elem?-length s.array i,
      );
    }

init_from-IsFilled :
    (left i j : ℕ) (s : Slots) → i + left ≡ j → IsFilled i s → IsFilled j (init_from left i s)
unfolding init_from
init_from-IsFilled zero i j s e v = let e' : i ≡ j = omega arith in rw (← e') v
init_from-IsFilled (suc left) i j s e v =
    init_from-IsFilled left (i + 1) j
      (record { array = s.array ++ fresh_slot i ∷ []; free_list = s.free_list ++ i ∷ [] })
      (omega arith) (round-IsFilled i s v)

-- Initialisation gives 1024 free slots, each with its index in its id, and all in the free list.
pub slots_init-IsSlots : IsSlots slots_init
unfolding slots_init
slots_init-IsSlots =
    let v =
      init_from-IsFilled slot_index_max 0 slot_index_max (record { array = []; free_list = [] })
        refl (record { size = refl; ids = λ i slot e. cc; free = λ i. count_nil i }) in
    record { size = v.size; ids = v.ids; free = v.free }
