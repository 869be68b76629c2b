-- ===== src/Eventq/Wait.antt =====
-- Sleeping until an event: omx_ioctl_wait_event of driver/linux/omx_event.c, for one thread. What
-- the other threads, the timer and the signals do while it runs is an argument. The list of waiters
-- is seen through the wake-ups that reach this thread; the kernel's timers and scheduler are not
-- modelled beyond that.
use open_mx.Common.{
  ℕ, ◌+◌, ◌-◌, ◌%◌, ◌^◌, ◌≤◌, ◌<◌, ◌≡◌, ◌≢◌, refl, inl, inr, ◌⊎◌, Bool, true, false, not, ◌&&◌,
  ◌||◌, List, [], ◌∷◌, Option, none, some, ltb, leb, ◌==◌, if◌then◌else◌, arith, Bool-cases,
}
pub mod Laws
use open_mx.Eventq.Defs.{Errno, success, efault, enomem, Endpoint, Waiter}
use open_mx.Eventq.Notify.{wake}

-- OMX_CMD_WAIT_EVENT_STATUS_*
abbrev pub status_none : ℕ
status_none = 0

abbrev pub status_intr : ℕ
status_intr = 2

abbrev pub status_progress : ℕ
status_progress = 3

abbrev pub status_timeout : ℕ
status_timeout = 4

abbrev pub status_race : ℕ
status_race = 5

-- OMX_CMD_WAIT_EVENT_TIMEOUT_INFINITE and OMX_NO_WAKEUP_JIFFIES
abbrev pub infinite : ℕ
infinite = 2 ^ 64 - 1

abbrev pub no_wakeup : ℕ
no_wakeup = 0

-- struct omx_cmd_wait_event, which the library passes and reads back, and the two words of the shared descriptor that are read.
pub record Cmd : Type 0 where
  pub next_exp : ℕ
  pub next_unexp : ℕ
  pub user_event : ℕ
  pub jiffies_expire : ℕ
  pub status : ℕ

pub record Desc : Type 0 where
  pub wakeup_jiffies : ℕ
  pub user_event_index : ℕ

-- What ends the sleep.
pub data Waking : Type 0 where
  by_signal by_timer : Waking
  by_thread : ℕ → Waking

pub record Env : Type 0 where
  pub copy_in_ok : Bool
  pub alloc_ok : Bool
  pub copy_out_ok : Bool
  pub jiffies : ℕ
  pub signal_pending : Bool
  -- Statuses that other threads write after the waiter is queued and before it would sleep.
  pub before_sleep : List ℕ
  pub waking : Waking

pub record Waited : Type 0 where
  pub errno : Errno
  pub slept : Bool
  -- The status that the library reads, if the command was written back.
  pub status : Option ℕ

-- time_before64 and time_after_eq64
unfoldable pub time_before64 : ℕ → ℕ → Bool
time_before64 a b = leb (2 ^ 63) ((a + (2 ^ 64 - b % 2 ^ 64)) % 2 ^ 64)

unfoldable pub time_after_eq64 : ℕ → ℕ → Bool
time_after_eq64 a b = ltb ((a + (2 ^ 64 - b % 2 ^ 64)) % 2 ^ 64) (2 ^ 63)

-- The timer's handler and when it runs.
pub data Timer : Type 0 where
  no_timer : Timer
  on_timeout on_progress : ℕ → Timer

abbrev pub progress_timer : ℕ → Timer → Timer
progress_timer wakeup no_timer = on_progress wakeup
progress_timer wakeup (on_timeout t) =
    if time_before64 wakeup t then on_progress wakeup else on_timeout t
progress_timer wakeup (on_progress t) =
    if time_before64 wakeup t then on_progress wakeup else on_progress t

unfoldable pub choose_timer : ℕ → ℕ → Timer
choose_timer expire wakeup =
    let timer = if expire == infinite then no_timer else on_timeout expire in
    if wakeup == no_wakeup then timer else progress_timer wakeup timer

abbrev pub has_passed : ℕ → Timer → Bool
has_passed now no_timer = false
has_passed now (on_timeout t) = time_after_eq64 now t
has_passed now (on_progress t) = time_after_eq64 now t

unfoldable pub woken : List ℕ → Waiter → Waiter
woken [] w = w
woken (s ∷ ss) w = woken ss (wake s w)

-- omx_wakeup_on_timeout_handler and omx_wakeup_on_progress_timeout_handler
abbrev pub timer_runs : Timer → Waiter → Waiter
timer_runs no_timer w = w
timer_runs (on_timeout t) w = wake status_timeout w
timer_runs (on_progress t) w = wake status_progress w

abbrev pub sleeps : Timer → Waking → Waiter → Waiter
sleeps timer by_signal w = w
sleeps timer by_timer w = timer_runs timer w
sleeps timer (by_thread s) w = wake s w

-- The code from the label `wakeup` on: the status of the waiter is stored in the command, whatever it
-- held, and the command is written back.
unfoldable pub report_status : Env → Bool → Cmd → Waiter → Waited
report_status env slept cmd w =
    let cmd' = record cmd { status = if w.status == status_none then status_intr else w.status } in
    record {
      errno = success;
      slept = slept;
      status = if env.copy_out_ok then some cmd'.status else none;
    }

abbrev pub new_waiter : Waiter
new_waiter = record { status = status_none; awake = false }

-- An event was deposited, or the library notified itself, since it last looked.
unfoldable pub has_raced : Endpoint → Desc → Cmd → Bool
has_raced ep desc cmd =
    not (cmd.next_exp == ep.nextfree_exp)
    || not (cmd.next_unexp == ep.nextreserved_unexp)
    || not (cmd.user_event == desc.user_event_index)

-- omx_ioctl_wait_event
unfoldable pub wait_event : Endpoint → Desc → Env → Cmd → Waited
unfolding choose_timer woken report_status has_raced time_before64 time_after_eq64
wait_event ep desc env cmd =
    let waiter = woken env.before_sleep new_waiter in
    let timer = choose_timer cmd.jiffies_expire desc.wakeup_jiffies in
    if not env.copy_in_ok
    then record { errno = efault; slept = false; status = none }
    else (if not env.alloc_ok
        then record { errno = enomem; slept = false; status = none }
        else (if has_raced ep desc cmd
            then report_status env false (record cmd { status = status_race }) waiter
            else (if has_passed env.jiffies timer
                then report_status env false cmd (record waiter { status = status_race })
                else (if (waiter.status == status_none) && not env.signal_pending
                    then report_status env true cmd (sleeps timer env.waking waiter)
                    else report_status env false cmd waiter))))
