-- ===== src/Large/Tests.antt =====
-- Large messages run on small inputs.
use open_mx.Common.{ℕ, ◌≡◌, refl, true, false, [], ◌∷◌, some, arith, if◌then◌else◌, ◌++◌}
use open_mx.Segments.Defs.{ReqSegs, single_of}
use open_mx.Regions.{Region, Globals, map_init, get_region, find_region, can_serve}
use open_mx.Large.{
  Transfer, send_large, recv_large, Resources, Outcome, success, missing_resources,
  alloc_setup_isend_large, alloc_setup_pull, complete_unsent, process_recv_notify,
}
use open_mx.Large.Account.{IsAccounted, IsAccounted-Holds, Holds}
use open_mx.Large.Acquire.{Tried, alloc_setup_isend_large-Tried}
use open_mx.Large.Give.{process_recv_notify-IsAccounted}
use open_mx.Large.Step.{submit, try_send}
use open_mx.Large.Steps.{Run, start, then_step, fresh, fresh_run-IsAccounted}

abbrev segs_at : ℕ → ℕ → ReqSegs
segs_at at len = record {
  single = record { vaddr = at; len = len };
  nseg = 1;
  segs = single_of 7;
  total_length = len;
}

abbrev memory : ℕ → Region
memory i = record { segs = segs_at 0 0; use_count = 5; reserver = some 3; last_seqnum = 0 }

abbrev caching : Globals
caching = record { regcache = true; parallel_regcache = false }

abbrev request : Transfer
request = record {
  id = 9;
  type = send_large;
  segs = segs_at 4096 100000;
  missing_exp_event = false;
  missing_send_large_region = true;
  missing_large_region = true;
  missing_pull_handle = false;
  region = 0;
  region_seqnum = 0;
  need_reply = true;
  need_ack = true;
  partial = false;
  xfer_length = 0;
}

abbrev at_first : Resources
at_first = fresh memory 1000

-- The driver refuses to pin the segments at the first try.
abbrev refused : Outcome × Resources × Transfer
refused = alloc_setup_isend_large caching false at_first request

abbrev sent : Outcome × Resources × Transfer
sent = alloc_setup_isend_large caching true refused.1 refused.2

refused-keeps : (refused.0 ≡ missing_resources) × (refused.1.regions.large_sends_avail_nr ≡ 127)
unfolding alloc_setup_isend_large get_region find_region can_serve map_init
refused-keeps = (refl, refl)

sent-numbered :
    (sent.0 ≡ success) × (sent.2.region_seqnum ≡ 23) × (sent.1.regions.large_sends_avail_nr ≡ 127)
unfolding alloc_setup_isend_large get_region find_region can_serve map_init
sent-numbered = (refl, refl, refl)

sent_run : Run caching at_first [] sent.1 (sent.2 ∷ []) []
unfolding alloc_setup_isend_large get_region find_region can_serve map_init
sent_run =
    then_step
      (then_step
        (then_step start
          (submit [] request (record { region = refl; slot = λ _. refl; event = λ e. cc })))
        (try_send [] request [] false refl refl (omega arith)))
      (try_send [] refused.2 [] true refl refl (omega arith))

sent-IsAccounted : IsAccounted caching 1000 sent.1 (sent.2 ∷ [])
sent-IsAccounted = fresh_run-IsAccounted caching memory 1000 sent.1 (sent.2 ∷ []) [] sent_run

-- A pull got its slot for an event, and is completed before the driver pins its segments.
abbrev pull : Transfer
pull = record request { id = 10; type = recv_large; missing_exp_event = true; partial = true }

abbrev pull_refused : Outcome × Resources × Transfer
pull_refused = alloc_setup_pull caching false true 0 sent.1 pull

abbrev lossy : Resources
lossy = complete_unsent caching pull_refused.1 pull_refused.2

one_event_is_lost : lossy.avail_exp_events ≡ 999
unfolding alloc_setup_isend_large alloc_setup_pull get_region find_region can_serve map_init
    complete_unsent
one_event_is_lost = refl

submitted_run : Run caching at_first [] at_first (request ∷ []) []
submitted_run =
    then_step start
      (submit [] request (record { region = refl; slot = λ _. refl; event = λ e. cc }))

request-Holds : Holds caching 1000 at_first [] [] request
request-Holds =
    IsAccounted-Holds [] [] request
      (fresh_run-IsAccounted caching memory 1000 at_first (request ∷ []) [] submitted_run)

alloc_setup_isend_large-Tried_example : Tried caching 1000 [] [] request refused
alloc_setup_isend_large-Tried_example =
    alloc_setup_isend_large-Tried caching false 1000 [] [] at_first request refl refl (omega arith)
      request-Holds

sent-held :
    (sent.2.type ≡ send_large)
    × (sent.2.missing_send_large_region ≡ false)
    × (sent.2.missing_large_region ≡ false)
unfolding alloc_setup_isend_large get_region find_region can_serve map_init
sent-held = (refl, refl, refl)

process_recv_notify-IsAccounted_example :
    let x = process_recv_notify caching sent.2.region sent.2.region_seqnum 100000 sent.1 sent.2 in
    IsAccounted caching 1000 x.0 []
    × (x.1 ≡ record sent.2 { xfer_length = 100000; need_reply = false })
    × (x.0.done ≡ (if sent.2.need_ack then sent.1.done else sent.1.done ++ sent.2.id ∷ []))
    × ((seqnum len : ℕ) (u : Transfer)
        → process_recv_notify caching sent.2.region seqnum len x.0 u ≡ (x.0, u))
process_recv_notify-IsAccounted_example =
    process_recv_notify-IsAccounted caching 1000 [] [] sent.1 sent.2
      (IsAccounted-Holds [] [] sent.2 sent-IsAccounted) 100000 sent-held.0 sent-held.1 sent-held.2
