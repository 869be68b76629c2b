-- ===== src/Eventq/Expected.antt =====
-- The expected queue (omx_notify_exp_event, the second loop of omx__progress) against the same
-- bounded FIFO, with no promised slots.
use open_mx.Common.{
  ℕ, zero, suc, ◌+◌, ◌-◌, ◌%◌, ◌^◌, ◌<◌, ◌≤◌, ◌≡◌, ◌≢◌, refl, ap, ◌∙◌, inl, inr, true, List, [],
  ◌∷◌, some, add32, sub32, ◌==◌, length, length-append, arith, Bool-cases, eq→==, ne→==, ==→eq,
  ==→ne, le→ltb, lt→ltb, dec_lt,
}
use open_mx.Eventq.Defs.{entry_nr, batch_nr, Event, Endpoint, event_id, queues_init}
use open_mx.Eventq.Notify.{notify_exp_event}
use open_mx.Eventq.Progress.{finished, hand_over, drain_exp, after_exp}
use open_mx.Eventq.Ring.{
  slot, tagged, IsRing, tail-IsRing, head_slot, end_slot, fill_slot-IsRing, reset-IsRing,
}
use open_mx.Eventq.View.{View, push}
use open_mx.Eventq.Drain.{delivered, advance}

abbrev pub exp_view : ℕ → List Event → View
exp_view held q = record { held = held; pending = q; prepared = 0 }

-- The expected queue of an endpoint holds `q` for the reader whose next index is `r`.
pub record ShowsExp (ep : Endpoint) (r : ℕ) (q : List Event) : Type 0 where
  pub ring : IsRing ep.exp_eventq r q
  pub released : ep.nextreleased_exp ≡ r - r % batch_nr
  pub free : ep.nextfree_exp ≡ (r + length q) % 2 ^ 32
  pub fits : r % batch_nr + length q ≤ entry_nr

-- On 1024 slots, whatever they hold, omx_endpoint_queues_init leaves an empty expected queue.
pub queues_init-ShowsExp :
    (exp unexp : List Event) (desc : ℕ)
    → length exp ≡ entry_nr
    → ShowsExp (queues_init exp unexp desc) 0 []
unfolding queues_init
queues_init-ShowsExp exp unexp desc h = record {
  ring = reset-IsRing exp h;
  released = omega arith;
  free = omega arith;
  fits = omega arith;
}

back32 : (a b : ℕ) → a ≡ b % 2 ^ 32 → sub32 (add32 a 1) 1 ≡ a
back32 a b e = omega arith

-- Of an endpoint whose expected queue holds `q` for the reader of index `r`: omx_notify_exp_event
-- pushes the event behind those, or answers EBUSY exactly when the queue is full and leaves it as
-- it was.
pub notify_exp-push :
    {ep : Endpoint} {r : ℕ} {q : List Event} (e : Event)
    → ShowsExp ep r q
    → ((notify_exp_event ep e).1 ≡ (push (exp_view (r % batch_nr) q) e).1)
      × ShowsExp (notify_exp_event ep e).0 r (push (exp_view (r % batch_nr) q) e).0.pending
unfolding notify_exp_event push
notify_exp-push {ep} {r} {q} e s =
    let a : r < 2 ^ 32 = s.ring.in_range in
    let n = sub32 (add32 ep.nextfree_exp 1) ep.nextreleased_exp in
    let k = r % batch_nr + length q + 0 in
    let used : n ≡ k + 1 = omega (arith, s.released, s.free, s.fits) in
    let same : sub32 (add32 ep.nextfree_exp 1) 1 ≡ ep.nextfree_exp =
      back32 ep.nextfree_exp (r + length q) s.free in
    elim (dec_lt k entry_nr) [
      | yes room ↦
          rw (le→ltb entry_nr n (omega arith), lt→ltb k entry_nr room)
            (
              refl,
              record {
                ring = rw same (
                    fill_slot-IsRing ep.exp_eventq r ep.nextfree_exp q e (omega arith) s.free
                      s.ring);
                released = s.released;
                free = omega (arith, s.free, length-append q (e ∷ []));
                fits = omega (arith, length-append q (e ∷ []));
              },
            )
      | no full ↦
          rw (lt→ltb entry_nr n (omega arith), le→ltb k entry_nr (omega arith))
            (
              refl,
              record { ring = s.ring; released = s.released; free = same ∙ s.free; fits = s.fits },
            )
    ]

after-ShowsExp :
    {ep : Endpoint} {r : ℕ} (e : Event) (q : List Event)
    → ShowsExp ep r (e ∷ q)
    → (ep' : Endpoint) × (after_exp ep (add32 r 1) ≡ some ep') × ShowsExp ep' (add32 r 1) q
unfolding after_exp
after-ShowsExp {ep} {r} e q s =
    let a : r < 2 ^ 32 = s.ring.in_range in
    let fits : r % batch_nr + suc (length q) ≤ entry_nr = s.fits in
    elim (Bool-cases (add32 r 1 % batch_nr == 0)) [
      | inl last ↦
          let l : add32 r 1 % batch_nr ≡ 0 = ==→eq (add32 r 1 % batch_nr) 0 last in
          let n : batch_nr ≤ sub32 ep.nextfree_exp ep.nextreleased_exp =
            omega (arith, s.released, s.free) in
          (
            record ep { nextreleased_exp = add32 ep.nextreleased_exp batch_nr },
            rw (last, le→ltb (sub32 ep.nextfree_exp ep.nextreleased_exp) batch_nr n),
            record {
              ring = tail-IsRing ep.exp_eventq r e q s.ring;
              released = omega (arith, s.released);
              free = omega (arith, s.free);
              fits = omega arith;
            },
          )
      | inr more ↦
          let l = ==→ne (add32 r 1 % batch_nr) 0 more in
          (
            ep,
            rw more,
            record {
              ring = tail-IsRing ep.exp_eventq r e q s.ring;
              released = omega (arith, s.released);
              free = omega (arith, s.free);
              fits = omega arith;
            },
          )
    ]

drain_step :
    (fuel r : ℕ) (ep ep' : Endpoint) (e : Event)
    → slot ep.exp_eventq r ≡ tagged e r
    → after_exp ep (add32 r 1) ≡ some ep'
    → drain_exp (suc fuel) ep r ≡ hand_over (tagged e r) (drain_exp fuel ep' (add32 r 1))
unfolding drain_exp
drain_step fuel r ep ep' e filled next =
    let same : (tagged e r).id == event_id r ≡ true = eq→== (event_id r) (event_id r) refl in
    rw (ap (λ (x : Event). x.id == event_id r) filled ∙ same, drain_exp, next)
      (ap (λ (x : Event). hand_over x (drain_exp fuel ep' (add32 r 1))) filled)

drain_stop :
    (fuel r : ℕ) (ep : Endpoint)
    → (slot ep.exp_eventq r).id ≢ event_id r
    → drain_exp (suc fuel) ep r ≡ finished (record { endpoint = ep; next = r; events = [] })
unfolding drain_exp
drain_stop fuel r ep ne = rw (ne→== (slot ep.exp_eventq r).id (event_id r) ne, drain_exp)

-- Of an endpoint whose expected queue holds `q` for the reader of index `r`, with more rounds of
-- fuel than events: the library's second loop ends without an abort, hands over exactly those
-- events, in their order, and leaves the queue empty.
pub drain_exp-delivers :
    {ep : Endpoint} {r : ℕ} (q : List Event) (fuel : ℕ)
    → ShowsExp ep r q
    → length q < fuel
    → (ep' : Endpoint) × (drain_exp fuel ep r
        ≡ finished (record { endpoint = ep'; next = advance (length q) r; events = delivered r q }))
      × ShowsExp ep' (advance (length q) r) []
unfolding delivered advance
drain_exp-delivers q zero s h = elim h [ ]
drain_exp-delivers {ep} {r} [] (suc fuel) s h =
    (ep, drain_stop fuel r ep (end_slot ep.exp_eventq r s.ring), s)
drain_exp-delivers {ep} {r} (e ∷ q) (suc fuel) s h =
    let (ep1, step, s1) = after-ShowsExp e q s in
    let (ep2, rest, s2) = drain_exp-delivers {ep = ep1} {r = add32 r 1} q fuel s1 (omega arith) in
    (
      ep2,
      drain_step fuel r ep ep1 e (head_slot ep.exp_eventq r e q s.ring) step
          ∙ ap (hand_over (tagged e r)) rest,
      s2,
    )
