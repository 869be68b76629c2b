-- ===== src/Eventq/Tests.antt =====
-- The event queues on concrete inputs.
use open_mx.Common.{
  ℕ, ◌≡◌, ◌≢◌, inr, ltb, if◌then◌else◌, refl, true, false, List, [], ◌∷◌, some, length, arith,
  replicate, length-replicate, Option, none,
}
use open_mx.Eventq.Defs.{Event, Endpoint, unused_event, queues_init}
use open_mx.Eventq.Notify.{notify_unexp_event, prepare_notify}
use open_mx.Eventq.Progress.{finished, drain_unexp}
use open_mx.Eventq.View.{View, Shows, empty_view, push, promise, commit, queues_init-Shows}
use open_mx.Eventq.Refine.{notify_unexp-push, prepare_notify-promise}
use open_mx.Eventq.Drain.{delivered, advance, drained, drain_unexp-delivers}
use open_mx.Eventq.Expected.{ShowsExp, queues_init-ShowsExp}
use open_mx.Eventq.Runs.{
  Call, notify, prepare, commits, progress, run, run_view, AllCalls, Agree, run-Agree,
}
use open_mx.Eventq.Wait.Laws.{MaySleep, wait_event-sleeps}
use open_mx.Eventq.Wait.{
  infinite, no_wakeup, status_progress, status_timeout, Cmd, Desc, by_timer, Env, wait_event, woken,
  has_raced, choose_timer, status_intr, time_before64, time_after_eq64, report_status,
}

abbrev slots : List Event
slots = replicate 1024 unused_event

abbrev ep0 : Endpoint
ep0 = queues_init slots slots 0

abbrev an_event : Event
an_event = record { body = replicate 62 7; type = 20; id = 0 }

abbrev shows0 : Shows ep0 0 empty_view
shows0 = queues_init-Shows slots slots 0 (length-replicate 1024 unused_event)

abbrev exp0 : ShowsExp ep0 0 []
exp0 = queues_init-ShowsExp slots slots 0 (length-replicate 1024 unused_event)

abbrev view1 : View
view1 = (push empty_view an_event).0

abbrev shows1 : Shows (notify_unexp_event ep0 an_event).0 0 view1
shows1 = (notify_unexp-push an_event shows0).1

notify_unexp-push_example :
    ((notify_unexp_event ep0 an_event).1 ≡ (push empty_view an_event).1)
    × Shows (notify_unexp_event ep0 an_event).0 0 view1
notify_unexp-push_example = notify_unexp-push an_event shows0

abbrev promised : Shows (prepare_notify 4096 ep0).0 0 (promise empty_view 1).0
promised = (prepare_notify-promise 4096 shows0).1

drain_unexp-delivers_example :
    (ep' : Endpoint) × (drain_unexp 1025 (notify_unexp_event ep0 an_event).0 0
      ≡ finished (record {
        endpoint = ep';
        next = advance (length view1.pending) 0;
        events = delivered 0 view1.pending;
      }))
    × Shows ep'
        (advance (length view1.pending) 0)
        (drained view1 (advance (length view1.pending) 0))
drain_unexp-delivers_example = drain_unexp-delivers 1025 shows1 (omega arith)

abbrev idle : Desc
idle = record { wakeup_jiffies = 900; user_event_index = 0 }

abbrev command : Cmd
command = record { next_exp = 0; next_unexp = 0; user_event = 0; jiffies_expire = 800; status = 0 }

abbrev calm : Env
calm = record {
  copy_in_ok = true;
  alloc_ok = true;
  copy_out_ok = true;
  jiffies = 500;
  signal_pending = false;
  before_sleep = [];
  waking = by_timer;
}

-- The deadline of the progression is later than that of the command, and both are set.
wait_event-sleeps_example :
    let x = wait_event ep0 idle calm command in
    (x.slept ≡ true → MaySleep ep0 idle calm command)
    × (MaySleep ep0 idle calm command → x.slept ≡ true)
    × (x.slept ≡ true
        → calm.waking ≡ by_timer
        → calm.copy_out_ok ≡ true
        → command.jiffies_expire ≢ infinite
        → idle.wakeup_jiffies ≢ no_wakeup
        → x.status
          ≡ some (
              if ltb idle.wakeup_jiffies command.jiffies_expire
              then status_progress
              else status_timeout))
wait_event-sleeps_example =
    wait_event-sleeps ep0 idle calm command refl refl refl (omega arith) (inr (omega arith))
      (omega arith)

-- The timer of the command ends the sleep.
goes_to_sleep :
    ((wait_event ep0 idle calm command).slept ≡ true)
    × ((wait_event ep0 idle calm command).status ≡ some 4)
unfolding wait_event has_raced queues_init choose_timer time_before64 time_after_eq64 woken
    report_status
goes_to_sleep = (refl, refl)

-- An event that came before is reported as a signal.
race_is_lost :
    (wait_event ep0 idle calm (record command { next_unexp = 5 })).status ≡ some status_intr
unfolding wait_event has_raced queues_init choose_timer time_before64 time_after_eq64 woken
    report_status
race_is_lost = refl

abbrev calls : List Call
calls =
    notify an_event
    ∷ prepare 4096 2
    ∷ commits an_event
    ∷ progress
    ∷ commits an_event
    ∷ progress
    ∷ []

calls-AllCalls : AllCalls calls
calls-AllCalls = (tt, (omega arith, (tt, (tt, (tt, (tt, tt))))))

run-Agree_example : Agree (run calls ep0 0) (run_view calls empty_view 0)
run-Agree_example = run-Agree calls ep0 0 empty_view calls-AllCalls shows0

-- Both commits succeed, and three events are handed over.
abbrev handed : Option (View × ℕ × List Event) → ℕ
handed none = 0
handed (some (v, r, es)) = length es

three_handed : handed (run_view calls empty_view 0) ≡ 3
unfolding run_view push promise commit advance delivered drained
three_handed = refl
