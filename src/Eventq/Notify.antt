-- ===== src/Eventq/Notify.antt =====
-- The driver's side: driver/linux/omx_event.c, the functions that report events to user-space, each
-- run as a whole. The function that a C call returns through a pointer is part of the result.
use open_mx.Common.{
  ℕ, zero, suc, ◌+◌, ◌*◌, ◌%◌, Bool, true, List, [], ◌∷◌, Option, none, some, add32, sub32, ltb,
  leb, if◌then◌else◌, map,
}
use open_mx.Eventq.Defs.{
  entry_nr, evt_ignore, Event, Errno, success, ebusy, Waiter, Endpoint, fill_slot, exp_eventq_full,
  unexp_eventq_full, report,
}

-- omx_wakeup_waiter_list
abbrev pub wake : ℕ → Waiter → Waiter
wake status w = record { status = status; awake = true }

unfoldable pub wakeup_waiter_list : ℕ → Endpoint → Endpoint
wakeup_waiter_list status ep = record ep { waiters = map (wake status) ep.waiters }

abbrev pub status_event : ℕ
status_event = 1

-- omx_notify_exp_event
unfoldable pub notify_exp_event : Endpoint → Event → Endpoint × Errno
unfolding fill_slot report wakeup_waiter_list
notify_exp_event ep event =
    let next = add32 ep.nextfree_exp 1 in
    let index = sub32 next 1 in
    if ltb entry_nr (sub32 next ep.nextreleased_exp)
    then (report exp_eventq_full (record ep { nextfree_exp = sub32 next 1 }), ebusy)
    else (
      wakeup_waiter_list status_event
          (record ep { nextfree_exp = next; exp_eventq = fill_slot ep.exp_eventq index event }),
      success,
    )

-- omx_notify_unexp_event
unfoldable pub notify_unexp_event : Endpoint → Event → Endpoint × Errno
unfolding fill_slot report wakeup_waiter_list
notify_unexp_event ep event =
    let free = add32 ep.nextfree_unexp 1 in
    let index = ep.nextreserved_unexp in
    let reserved = add32 index 1 in
    if ltb entry_nr (sub32 free ep.nextreleased_unexp)
    then (
      report unexp_eventq_full
          (record ep { nextfree_unexp = sub32 free 1; nextreserved_unexp = sub32 reserved 1 }),
      ebusy,
    )
    else (
      wakeup_waiter_list status_event (record ep {
        nextfree_unexp = free;
        nextreserved_unexp = reserved;
        unexp_eventq = fill_slot ep.unexp_eventq index event;
      }),
      success,
    )

module _ (recvq_entry_size : ℕ) where
  -- omx_prepare_notify_unexp_event_with_recvq; the number is what goes through `recvq_offset_p`.
  unfoldable pub prepare_notify : Endpoint → Endpoint × Option ℕ
  unfolding report
  prepare_notify ep =
      let free = add32 ep.nextfree_unexp 1 in
      let recvq = add32 ep.next_recvq 1 in
      if ltb entry_nr (sub32 free ep.nextreleased_unexp)
      then (
        report unexp_eventq_full
            (record ep { nextfree_unexp = sub32 free 1; next_recvq = sub32 recvq 1 }),
        none,
      )
      else (
        record ep { nextfree_unexp = free; next_recvq = recvq },
        some (ep.next_recvq % entry_nr * recvq_entry_size),
      )

  -- The loop that fills `recvq_offset_p`, from `i` on.
  unfoldable pub recvq_offsets : ℕ → ℕ → ℕ → List ℕ
  recvq_offsets first zero i = []
  recvq_offsets first (suc left) i =
      (add32 first i % entry_nr * recvq_entry_size) ∷ recvq_offsets first left (i + 1)

  -- omx_prepare_notify_unexp_events_with_recvq
  unfoldable pub prepare_notify_many : Endpoint → ℕ → Endpoint × Option (List ℕ)
  unfolding report
  prepare_notify_many ep nr =
      let free = add32 ep.nextfree_unexp nr in
      let recvq = add32 ep.next_recvq nr in
      if ltb entry_nr (sub32 free ep.nextreleased_unexp)
      then (
        report unexp_eventq_full
            (record ep { nextfree_unexp = sub32 free nr; next_recvq = sub32 recvq nr }),
        none,
      )
      else (
        record ep { nextfree_unexp = free; next_recvq = recvq },
        some (recvq_offsets ep.next_recvq nr 0),
      )

-- The BUG_ON of the two functions below: no slot was prepared.
unfoldable pub nothing_prepared : Endpoint → Bool
nothing_prepared ep =
    leb (sub32 ep.nextfree_unexp ep.nextreleased_unexp)
      (sub32 ep.nextreserved_unexp ep.nextreleased_unexp)

-- omx_commit_notify_unexp_event_with_recvq; `none` is the kernel's BUG.
unfoldable pub commit_notify : Endpoint → Event → Option Endpoint
unfolding nothing_prepared fill_slot wakeup_waiter_list
commit_notify ep event =
    if nothing_prepared ep
    then none
    else (let index = ep.nextreserved_unexp in
        some (
          wakeup_waiter_list status_event (record ep {
            nextreserved_unexp = add32 index 1;
            unexp_eventq = fill_slot ep.unexp_eventq index event;
          })))

-- The event that the cancel call leaves in a slot: the bytes that were there, with its type.
unfoldable pub ignored : List Event → ℕ → Event
ignored [] i = record { body = []; type = evt_ignore; id = 0 }
ignored (e ∷ es) zero = record e { type = evt_ignore; id = 0 }
ignored (e ∷ es) (suc i) = ignored es i

-- omx_cancel_notify_unexp_event_with_recvq
unfoldable pub cancel_notify : Endpoint → Option Endpoint
unfolding nothing_prepared fill_slot
cancel_notify ep =
    if nothing_prepared ep
    then none
    else (let index = ep.nextreserved_unexp in
        some (record ep {
          nextreserved_unexp = add32 index 1;
          unexp_eventq =
              fill_slot ep.unexp_eventq index (ignored ep.unexp_eventq (index % entry_nr));
        }))
