-- ===== src/Eventq/Drain.antt =====
-- The library's loop over the unexpected queue (libopen-mx/omx_lib.c, omx__progress) empties the
-- queue that the driver filled.
use open_mx.Common.{
  ℕ, zero, suc, ◌+◌, ◌%◌, ◌^◌, ◌<◌, ◌≤◌, ◌≡◌, ◌≢◌, refl, ap, ◌∙◌, inl, inr, true, List, [], ◌∷◌,
  some, add32, sub32, ◌==◌, length, arith, Bool-cases, eq→==, ne→==, ==→eq, ==→ne, le→ltb,
}
use open_mx.Eventq.Defs.{entry_nr, batch_nr, Event, Endpoint, event_id}
use open_mx.Eventq.Progress.{finished, hand_over, drain_unexp, after_unexp}
use open_mx.Eventq.Ring.{slot, tagged, tail-IsRing, head_slot, end_slot}
use open_mx.Eventq.View.{View, Shows}

-- The events as the library finds them: with the ids of their indexes.
unfoldable pub delivered : ℕ → List Event → List Event
delivered r [] = []
delivered r (e ∷ q) = tagged e r ∷ delivered (add32 r 1) q

-- The index behind `n` slots.
unfoldable pub advance : ℕ → ℕ → ℕ
advance zero r = r
advance (suc n) r = advance n (add32 r 1)

-- The view when everything is read: a batch of slots that is read as a whole is released.
unfoldable pub drained : View → ℕ → View
drained v r = record { held = r % batch_nr; pending = []; prepared = v.prepared }

-- One round of the loop: the next slot is handed over and counted, and at the end of a batch the
-- kernel accepts its release.
after-Shows :
    {ep : Endpoint} {r : ℕ} (held prepared : ℕ) (e : Event) (q : List Event)
    → Shows ep r (record { held = held; pending = e ∷ q; prepared = prepared })
    → (ep' : Endpoint) × (after_unexp ep (add32 r 1) ≡ some ep')
      × Shows ep'
          (add32 r 1)
          (record { held = add32 r 1 % batch_nr; pending = q; prepared = prepared })
unfolding after_unexp
after-Shows {ep} {r} held prepared e q s =
    let a : r < 2 ^ 32 = s.ring.in_range in
    let b : held ≡ r % batch_nr = s.held in
    let fits : held + suc (length q) + prepared ≤ entry_nr = s.fits in
    elim (Bool-cases (add32 r 1 % batch_nr == 0)) [
      | inl last ↦
          let l : add32 r 1 % batch_nr ≡ 0 = ==→eq (add32 r 1 % batch_nr) 0 last in
          let n : batch_nr ≤ sub32 ep.nextreserved_unexp ep.nextreleased_unexp =
            omega (arith, s.released, s.reserved) in
          (
            record ep { nextreleased_unexp = add32 ep.nextreleased_unexp batch_nr },
            rw (last, le→ltb (sub32 ep.nextreserved_unexp ep.nextreleased_unexp) batch_nr n),
            record {
              ring = tail-IsRing ep.unexp_eventq r e q s.ring;
              held = refl;
              released = omega (arith, s.released);
              reserved = omega (arith, s.reserved);
              free = omega (arith, s.free);
              fits = omega arith;
            },
          )
      | inr more ↦
          let l = ==→ne (add32 r 1 % batch_nr) 0 more in
          (
            ep,
            rw more,
            record {
              ring = tail-IsRing ep.unexp_eventq r e q s.ring;
              held = refl;
              released = omega (arith, s.released);
              reserved = omega (arith, s.reserved);
              free = omega (arith, s.free);
              fits = omega arith;
            },
          )
    ]

drain_step :
    (fuel r : ℕ) (ep ep' : Endpoint) (e : Event)
    → slot ep.unexp_eventq r ≡ tagged e r
    → after_unexp ep (add32 r 1) ≡ some ep'
    → drain_unexp (suc fuel) ep r ≡ hand_over (tagged e r) (drain_unexp fuel ep' (add32 r 1))
unfolding drain_unexp
drain_step fuel r ep ep' e filled next =
    let same : (tagged e r).id == event_id r ≡ true = eq→== (event_id r) (event_id r) refl in
    rw (ap (λ (x : Event). x.id == event_id r) filled ∙ same, drain_unexp, next)
      (ap (λ (x : Event). hand_over x (drain_unexp fuel ep' (add32 r 1))) filled)

drain_stop :
    (fuel r : ℕ) (ep : Endpoint)
    → (slot ep.unexp_eventq r).id ≢ event_id r
    → drain_unexp (suc fuel) ep r ≡ finished (record { endpoint = ep; next = r; events = [] })
unfolding drain_unexp
drain_stop fuel r ep ne = rw (ne→== (slot ep.unexp_eventq r).id (event_id r) ne, drain_unexp)

-- The loop, for every list of waiting events.
drain_list :
    (q : List Event) (fuel held prepared r : ℕ) {ep : Endpoint}
    → length q < fuel
    → Shows ep r (record { held = held; pending = q; prepared = prepared })
    → (ep' : Endpoint) × (drain_unexp fuel ep r
        ≡ finished (record { endpoint = ep'; next = advance (length q) r; events = delivered r q }))
      × Shows ep'
          (advance (length q) r)
          (record { held = advance (length q) r % batch_nr; pending = []; prepared = prepared })
unfolding delivered advance
drain_list q zero held prepared r h s = elim h [ ]
drain_list [] (suc fuel) held prepared r {ep} h s = (
  ep,
  drain_stop fuel r ep (end_slot ep.unexp_eventq r s.ring),
  record {
    ring = s.ring;
    held = refl;
    released = s.released;
    reserved = s.reserved;
    free = s.free;
    fits = omega (arith, s.fits, s.held);
  },
)
drain_list (e ∷ q) (suc fuel) held prepared r {ep} h s =
    let (ep1, step, s1) = after-Shows held prepared e q s in
    let (ep2, rest, s2) =
      drain_list q fuel (add32 r 1 % batch_nr) prepared (add32 r 1) {ep = ep1} (omega arith) s1 in
    (
      ep2,
      drain_step fuel r ep ep1 e (head_slot ep.unexp_eventq r e q s.ring) step
          ∙ ap (hand_over (tagged e r)) rest,
      s2,
    )

-- Of an endpoint that shows a view to the reader of index `r`, with more than 1024 rounds of fuel:
-- the library's loop over the unexpected queue ends without an abort, hands over exactly the
-- events that wait, in their order, and leaves a queue in which no event waits, all complete
-- batches are released, and the promised slots are as before.
pub drain_unexp-delivers :
    {ep : Endpoint} {r : ℕ} {v : View} (fuel : ℕ)
    → Shows ep r v
    → entry_nr < fuel
    → (ep' : Endpoint) × (drain_unexp fuel ep r
        ≡ finished (record {
          endpoint = ep';
          next = advance (length v.pending) r;
          events = delivered r v.pending;
        }))
      × Shows ep' (advance (length v.pending) r) (drained v (advance (length v.pending) r))
unfolding drained
drain_unexp-delivers {ep} {r} {v} fuel s h =
    drain_list v.pending fuel v.held v.prepared r (omega (arith, s.ring.fits)) s
