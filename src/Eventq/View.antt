-- ===== src/Eventq/View.antt =====
-- The abstract queue, a bounded FIFO with reservations, and when an endpoint's unexpected queue
-- shows it.
use open_mx.Common.{
  ℕ, ◌+◌, ◌-◌, ◌%◌, ◌^◌, ◌≤◌, ◌<◌, ◌≡◌, ◌∙◌, Bool, true, false, List, [], ◌∷◌, ◌++◌, Option, none,
  some, add32, sub32, ltb, leb, ◌==◌, if◌then◌else◌, length, length-append, arith,
}
use open_mx.Eventq.Defs.{
  entry_nr, batch_nr, Event, Errno, success, ebusy, Endpoint, fill_slot, queues_init,
}
use open_mx.Eventq.Ring.{IsRing, fill_slot-IsRing, reset-IsRing}

-- The abstract queue: slots that are read and not yet released, events that wait, and slots that
-- are promised.
pub record View : Type 0 where
  pub held : ℕ
  pub pending : List Event
  pub prepared : ℕ

abbrev pub occupied : View → ℕ
occupied v = v.held + length v.pending + v.prepared

unfoldable pub push : View → Event → View × Errno
push v e =
    if ltb (occupied v) entry_nr
    then (record v { pending = v.pending ++ e ∷ [] }, success)
    else (v, ebusy)

unfoldable pub promise : View → ℕ → View × Bool
promise v nr =
    if leb (occupied v + nr) entry_nr
    then (record v { prepared = v.prepared + nr }, true)
    else (v, false)

unfoldable pub commit : View → Event → Option View
commit v e =
    if v.prepared == 0
    then none
    else some (record v { pending = v.pending ++ e ∷ []; prepared = v.prepared - 1 })

-- The queue of an endpoint shows a view to the reader whose next index is `r`.
pub record Shows (ep : Endpoint) (r : ℕ) (v : View) : Type 0 where
  pub ring : IsRing ep.unexp_eventq r v.pending
  pub held : v.held ≡ r % batch_nr
  pub released : ep.nextreleased_unexp ≡ r - r % batch_nr
  pub reserved : ep.nextreserved_unexp ≡ (r + length v.pending) % 2 ^ 32
  pub free : ep.nextfree_unexp ≡ (r + length v.pending + v.prepared) % 2 ^ 32
  pub fits : occupied v ≤ entry_nr

abbrev pub empty_view : View
empty_view = record { held = 0; pending = []; prepared = 0 }

-- On 1024 slots, whatever they hold, omx_endpoint_queues_init leaves an empty unexpected queue.
pub queues_init-Shows :
    (exp unexp : List Event) (desc : ℕ)
    → length unexp ≡ entry_nr
    → Shows (queues_init exp unexp desc) 0 empty_view
unfolding queues_init
queues_init-Shows exp unexp desc h = record {
  ring = reset-IsRing unexp h;
  held = omega arith;
  released = omega arith;
  reserved = omega arith;
  free = omega arith;
  fits = omega arith;
}

-- The driver's count of the slots in use, after it asked for `nr` more.
pub count_used :
    {ep : Endpoint} {r : ℕ} {v : View} (nr : ℕ)
    → Shows ep r v
    → nr < 2 ^ 31
    → sub32 (add32 ep.nextfree_unexp nr) ep.nextreleased_unexp ≡ occupied v + nr
count_used {ep} {r} {v} nr s h =
    let a : r < 2 ^ 32 = s.ring.in_range in
    let b : occupied v ≤ entry_nr = s.fits in
    let c : v.held ≡ r % batch_nr = s.held in omega (arith, s.released, s.free)

-- Giving the slots back undoes the request.
pub undo32 : (a nr b : ℕ) → nr < 2 ^ 31 → a ≡ b % 2 ^ 32 → sub32 (add32 a nr) nr ≡ a
undo32 a nr b h e = omega arith

-- A filled slot behind those that wait, however many slots are promised behind it.
pub fill-Shows :
    {ep : Endpoint} {r : ℕ} {v : View} (e : Event) (k free : ℕ)
    → Shows ep r v
    → v.held + length v.pending + 1 + k ≤ entry_nr
    → free ≡ (r + length v.pending + 1 + k) % 2 ^ 32
    → (ep' : Endpoint) → ep'.unexp_eventq ≡ fill_slot ep.unexp_eventq ep.nextreserved_unexp e
    → ep'.nextreleased_unexp ≡ ep.nextreleased_unexp
    → ep'.nextreserved_unexp ≡ add32 ep.nextreserved_unexp 1
    → ep'.nextfree_unexp ≡ free
    → Shows ep' r (record { held = v.held; pending = v.pending ++ e ∷ []; prepared = k })
fill-Shows {ep} {r} {v} e k free s fits eq ep' slots released reserved eq' =
    let n : length (v.pending ++ e ∷ []) ≡ length v.pending + 1 =
      length-append v.pending (e ∷ []) in
    let a : r < 2 ^ 32 = s.ring.in_range in
    record {
      ring = rw slots (
          fill_slot-IsRing ep.unexp_eventq r ep.nextreserved_unexp v.pending e (omega arith)
            s.reserved s.ring);
      held = s.held;
      released = released ∙ s.released;
      reserved = omega (arith, s.reserved);
      free = omega arith;
      fits = omega arith;
    }

-- The view changes only with the slots and the indexes, and new promises move one index.
pub promise-Shows :
    {ep : Endpoint} {r : ℕ} {v : View} (k : ℕ)
    → Shows ep r v
    → occupied v + k ≤ entry_nr
    → (ep' : Endpoint) → ep'.unexp_eventq ≡ ep.unexp_eventq
    → ep'.nextreleased_unexp ≡ ep.nextreleased_unexp
    → ep'.nextreserved_unexp ≡ ep.nextreserved_unexp
    → ep'.nextfree_unexp ≡ add32 ep.nextfree_unexp k
    → Shows ep' r (record v { prepared = v.prepared + k })
promise-Shows {ep} {r} {v} k s fits ep' slots released reserved free = record {
  ring = rw slots s.ring;
  held = s.held;
  released = released ∙ s.released;
  reserved = reserved ∙ s.reserved;
  free = omega (arith, s.free);
  fits = omega arith;
}

pub keep-Shows :
    {ep : Endpoint} {r : ℕ} {v : View}
    → Shows ep r v
    → (ep' : Endpoint) → ep'.unexp_eventq ≡ ep.unexp_eventq
    → ep'.nextreleased_unexp ≡ ep.nextreleased_unexp
    → ep'.nextreserved_unexp ≡ ep.nextreserved_unexp
    → ep'.nextfree_unexp ≡ ep.nextfree_unexp
    → Shows ep' r v
keep-Shows s ep' slots released reserved free = record {
  ring = rw slots s.ring;
  held = s.held;
  released = released ∙ s.released;
  reserved = reserved ∙ s.reserved;
  free = free ∙ s.free;
  fits = s.fits;
}
