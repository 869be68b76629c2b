-- ===== src/Eventq/Progress.antt =====
-- The library's side: the two loops of omx__progress in libopen-mx/omx_lib.c that read the slots of
-- each queue in order and release them in batches. Handling an event (omx__process_event) is kept
-- apart: a loop returns the events that it hands over, in order. Each loop runs on fuel.
use open_mx.Common.{
  ℕ, zero, suc, ◌%◌, true, false, List, [], ◌∷◌, Option, none, some, add32, ◌==◌, if◌then◌else◌,
  get_or,
}
use open_mx.Eventq.Defs.{
  entry_nr, batch_nr, Event, unused_event, event_id, Errno, success, ebusy, einval, efault, enomem,
  Endpoint, release_exp_slots, release_unexp_slots,
}

-- How a loop ends: `next` is the new next event index of the library, `events` what it handed over.
pub record Drained : Type 0 where
  pub endpoint : Endpoint
  pub next : ℕ
  pub events : List Event

pub data Outcome : Type 0 where
  finished : Drained → Outcome
  -- omx__abort: the kernel refused to release a batch.
  aborted : Outcome
  out_of_fuel : Outcome

abbrev pub hand_over : Event → Outcome → Outcome
hand_over e (finished d) = finished (record d { events = e ∷ d.events })
hand_over e aborted = aborted
hand_over e out_of_fuel = out_of_fuel

-- The call that is made after each event: `err < 0` aborts.
abbrev pub checked : Endpoint × Errno → Option Endpoint
checked (ep, success) = some ep
checked (ep, ebusy) = none
checked (ep, einval) = none
checked (ep, efault) = none
checked (ep, enomem) = none

unfoldable pub after_unexp : Endpoint → ℕ → Option Endpoint
unfolding release_unexp_slots
after_unexp ep index = if index % batch_nr == 0 then checked (release_unexp_slots ep) else some ep

unfoldable pub after_exp : Endpoint → ℕ → Option Endpoint
unfolding release_exp_slots
after_exp ep index = if index % batch_nr == 0 then checked (release_exp_slots ep) else some ep

-- while (1) over the unexpected queue, from `index`.
unfoldable pub drain_unexp : ℕ → Endpoint → ℕ → Outcome
unfolding after_unexp
drain_unexp zero ep index = out_of_fuel
drain_unexp (suc fuel) ep index =
    let e = get_or ep.unexp_eventq (index % entry_nr) unused_event in
    elim (e.id == event_id index) [
      | false ↦ finished (record { endpoint = ep; next = index; events = [] })
      | true ↦ elim (after_unexp ep (add32 index 1)) [
        | none ↦ aborted
        | some ep' ↦ hand_over e (drain_unexp fuel ep' (add32 index 1))
      ]
    ]

-- while (1) over the expected queue, from `index`.
unfoldable pub drain_exp : ℕ → Endpoint → ℕ → Outcome
unfolding after_exp
drain_exp zero ep index = out_of_fuel
drain_exp (suc fuel) ep index =
    let e = get_or ep.exp_eventq (index % entry_nr) unused_event in
    elim (e.id == event_id index) [
      | false ↦ finished (record { endpoint = ep; next = index; events = [] })
      | true ↦ elim (after_exp ep (add32 index 1)) [
        | none ↦ aborted
        | some ep' ↦ hand_over e (drain_exp fuel ep' (add32 index 1))
      ]
    ]
