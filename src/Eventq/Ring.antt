-- ===== src/Eventq/Ring.antt =====
-- What a queue of slots holds, whichever of the two it is: `n` filled slots from an index on, and
-- slots that the reader will not take for filled ones behind them.
use open_mx.Common.{
  ℕ, zero, suc, ◌+◌, ◌-◌, ◌%◌, ◌^◌, ◌≤◌, ◌<◌, ◌≡◌, ◌≢◌, refl, ap, subst, ◌∙◌, ◌⊎◌, inl, inr, List,
  [], ◌∷◌, ◌++◌, add32, length, get_or, set, length-set, length-append, arith, dec_lt,
}
use open_mx.Eventq.Defs.{entry_nr, Event, unused_event, event_id, fill_slot, reset}

-- The slot of an index, and the event as the driver leaves it there.
abbrev pub slot : List Event → ℕ → Event
slot slots i = get_or slots (i % entry_nr) unused_event

abbrev pub tagged : Event → ℕ → Event
tagged e i = record e { id = event_id i }

-- The slots from index `r` on hold the events of `q`, in order.
abbrev pub Holds : List Event → ℕ → List Event → Type 0
Holds slots r [] = Unit {0}
Holds slots r (e ∷ q) = (slot slots r ≡ tagged e r) × Holds slots (add32 r 1) q

-- The slot of an index is unused, or still has the id of the round before.
abbrev pub Stale : List Event → ℕ → Type 0
Stale slots i =
    ((slot slots i).id ≡ 0) ⊎ ((slot slots i).id ≡ event_id ((i + (2 ^ 32 - entry_nr)) % 2 ^ 32))

-- The ids of two rounds differ, so a stale slot is not taken for a filled one.
pub old_id_ne :
    (slots : List Event) (i : ℕ) → i < 2 ^ 32 → Stale slots i → (slot slots i).id ≢ event_id i
old_id_ne slots i h (inl e) = omega arith
old_id_ne slots i h (inr e) = omega arith

pub record IsRing (slots : List Event) (r : ℕ) (q : List Event) : Type 0 where
  pub size : length slots ≡ entry_nr
  pub in_range : r < 2 ^ 32
  pub fits : length q ≤ entry_nr
  pub holds : Holds slots r q
  pub stale : (k : ℕ) → length q ≤ k → k < entry_nr → Stale slots ((r + k) % 2 ^ 32)

pub get_or-set_self :
    (xs : List Event) (i : ℕ) (v d : Event) → i < length xs → get_or (set xs i v) i d ≡ v
get_or-set_self [] i v d h = elim h [ ]
get_or-set_self (x ∷ xs) zero v d h = refl
get_or-set_self (x ∷ xs) (suc i) v d h = get_or-set_self xs i v d (omega arith)

pub get_or-set_ne :
    (xs : List Event) (i j : ℕ) (v d : Event) → i ≢ j → get_or (set xs i v) j d ≡ get_or xs j d
get_or-set_ne [] i j v d h = refl
get_or-set_ne (x ∷ xs) zero zero v d h = absurd (h refl)
get_or-set_ne (x ∷ xs) zero (suc j) v d h = refl
get_or-set_ne (x ∷ xs) (suc i) zero v d h = refl
get_or-set_ne (x ∷ xs) (suc i) (suc j) v d h = get_or-set_ne xs i j v d (λ e. h (ap suc e))

-- Filling a slot leaves the slots of other indexes.
pub slot-fill_slot_ne :
    (slots : List Event) (i j : ℕ) (e : Event)
    → i % entry_nr ≢ j % entry_nr
    → slot (fill_slot slots i e) j ≡ slot slots j
unfolding fill_slot
slot-fill_slot_ne slots i j e h =
    get_or-set_ne slots (i % entry_nr) (j % entry_nr) (tagged e i) unused_event h

pub slot-fill_slot_self :
    (slots : List Event) (i : ℕ) (e : Event)
    → length slots ≡ entry_nr
    → slot (fill_slot slots i e) i ≡ tagged e i
unfolding fill_slot
slot-fill_slot_self slots i e h =
    get_or-set_self slots (i % entry_nr) (tagged e i) unused_event (omega arith)

-- Filling the slot behind the filled ones appends an event.
pub Holds-fill_slot :
    (slots : List Event) (r i : ℕ) (q : List Event) (e : Event)
    → length slots ≡ entry_nr
    → r < 2 ^ 32
    → length q < entry_nr
    → i ≡ (r + length q) % 2 ^ 32
    → Holds slots r q
    → Holds (fill_slot slots i e) r (q ++ e ∷ [])
Holds-fill_slot slots r i [] e size hr hq eq h =
    let same : i ≡ r = omega arith in rw same (slot-fill_slot_self slots r e size, tt)
Holds-fill_slot slots r i (x ∷ q) e size hr hq eq h = (
  slot-fill_slot_ne slots i r e (omega arith) ∙ h.0,
  Holds-fill_slot slots (add32 r 1) i q e size (omega arith) (omega arith) (omega arith) h.1,
)

Stale-fill_slot :
    (slots : List Event) (i j : ℕ) (e : Event)
    → i % entry_nr ≢ j % entry_nr
    → Stale slots j
    → Stale (fill_slot slots i e) j
Stale-fill_slot slots i j e h s = rw (slot-fill_slot_ne slots i j e h) s

length-fill_slot :
    (slots : List Event) (i : ℕ) (e : Event) → length (fill_slot slots i e) ≡ length slots
unfolding fill_slot
length-fill_slot slots i e = length-set slots (i % entry_nr) (tagged e i)

pub fill_slot-IsRing :
    (slots : List Event) (r i : ℕ) (q : List Event) (e : Event)
    → length q < entry_nr
    → i ≡ (r + length q) % 2 ^ 32
    → IsRing slots r q
    → IsRing (fill_slot slots i e) r (q ++ e ∷ [])
fill_slot-IsRing slots r i q e h eq v = record {
  size = length-fill_slot slots i e ∙ v.size;
  in_range = v.in_range;
  fits = omega (arith, length-append q (e ∷ []));
  holds = Holds-fill_slot slots r i q e v.size v.in_range h eq v.holds;
  stale = λ k lo hi.
      let lo' : suc (length q) ≤ k = omega (arith, length-append q (e ∷ [])) in
      let rr : r < 2 ^ 32 = v.in_range in
      Stale-fill_slot slots i ((r + k) % 2 ^ 32) e (omega arith) (v.stale k (omega arith) hi);
}

Stale-eq : (slots : List Event) (i j : ℕ) → i ≡ j → Stale slots i → Stale slots j
Stale-eq slots i j e s = subst (λ (k : ℕ). Stale slots k) e s

-- A slot that was read is stale for the index one round later.
read_slot-Stale :
    (slots : List Event) (r j : ℕ)
    → r < 2 ^ 32
    → j ≡ (r + entry_nr) % 2 ^ 32
    → (slot slots r).id ≡ event_id r
    → Stale slots j
read_slot-Stale slots r j h e t =
    let same : j % entry_nr ≡ r % entry_nr = omega arith in
    let back : (j + (2 ^ 32 - entry_nr)) % 2 ^ 32 ≡ r = omega arith in rw (same, back) (inr t)

-- Reading the first event makes its slot the last of the stale ones.
pub tail-IsRing :
    (slots : List Event) (r : ℕ) (e : Event) (q : List Event)
    → IsRing slots r (e ∷ q)
    → IsRing slots (add32 r 1) q
tail-IsRing slots r e q v = record {
  size = v.size;
  in_range = omega arith;
  fits = omega (arith, v.fits);
  holds = v.holds.1;
  stale = λ k lo hi. elim (dec_lt (suc k) entry_nr) [
    | yes more ↦
        Stale-eq slots ((r + suc k) % 2 ^ 32) ((add32 r 1 + k) % 2 ^ 32) (omega arith)
          (v.stale (suc k) (omega (arith, lo)) more)
    | no last ↦
        read_slot-Stale slots r ((add32 r 1 + k) % 2 ^ 32) v.in_range (omega arith)
          (ap (λ (x : Event). x.id) v.holds.0)
  ];
}

-- The first event of a queue is in its slot, with the id that the reader expects.
pub head_slot :
    (slots : List Event) (r : ℕ) (e : Event) (q : List Event)
    → IsRing slots r (e ∷ q)
    → slot slots r ≡ tagged e r
head_slot slots r e q v = v.holds.0

-- Behind the last event the reader finds another id.
pub end_slot : (slots : List Event) (r : ℕ) → IsRing slots r [] → (slot slots r).id ≢ event_id r
end_slot slots r v = old_id_ne slots r v.in_range (
    Stale-eq slots ((r + 0) % 2 ^ 32) r (let h : r < 2 ^ 32 = v.in_range in omega arith)
      (v.stale 0 (omega arith) (omega arith)))

length-reset : (slots : List Event) → length (reset slots) ≡ length slots
unfolding reset
length-reset [] = refl
length-reset (x ∷ xs) = ap suc (length-reset xs)

id-reset : (slots : List Event) (i : ℕ) → (get_or (reset slots) i unused_event).id ≡ 0
unfolding reset
id-reset [] i = refl
id-reset (x ∷ xs) zero = refl
id-reset (x ∷ xs) (suc i) = id-reset xs i

-- A queue that was just initialised is empty.
pub reset-IsRing : (slots : List Event) → length slots ≡ entry_nr → IsRing (reset slots) 0 []
reset-IsRing slots h = record {
  size = length-reset slots ∙ h;
  in_range = omega arith;
  fits = omega arith;
  holds = tt;
  stale = λ k lo hi. inl (id-reset slots ((0 + k) % 2 ^ 32 % entry_nr));
}
