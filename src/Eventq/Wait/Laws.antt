-- ===== src/Eventq/Wait/Laws.antt =====
-- What the wait call does with events that arrive while it goes to sleep, and what it reports.
use open_mx.Common.{
  ℕ, ◌^◌, ◌<◌, ◌≡◌, ◌≢◌, ap, List, ◌⊎◌, inl, inr, true, false, [], some, ltb, if◌then◌else◌, arith,
}
use open_mx.Eventq.Defs.{success, efault, enomem, Endpoint}
use open_mx.Eventq.Wait.{
  by_timer, report_status, status_progress, status_timeout, Cmd, Desc, Env, wait_event, woken,
  new_waiter, choose_timer, has_passed, has_raced, status_none, on_timeout, on_progress, no_wakeup,
  infinite, time_before64, time_after_eq64,
}

-- The status that is written back is never NONE.
pub wait_event-status_ne_none :
    (ep : Endpoint) (desc : Desc) (env : Env) (cmd : Cmd)
    → (wait_event ep desc env cmd).status ≢ some status_none
unfolding wait_event
wait_event-status_ne_none ep desc env cmd = ground arith

-- Of two deadlines below 2^63, the one of the progression being set, the timer is set for the
-- earlier, with the handler that reports it; at the same time it is the application's.
pub choose_timer_lem :
    (expire wakeup : ℕ)
    → wakeup ≢ no_wakeup
    → expire < 2 ^ 63
    → wakeup < 2 ^ 63
    → choose_timer expire wakeup
      ≡ (if ltb wakeup expire then on_progress wakeup else on_timeout expire)
unfolding choose_timer time_before64
choose_timer_lem expire wakeup h k l = ground arith

-- The return value: only the reading of the command and the allocation of the waiter can fail. In
-- particular a command that could not be written back is a success, with no status.
pub wait_event-errno :
    (ep : Endpoint) (desc : Desc) (env : Env) (cmd : Cmd)
    → (wait_event ep desc env cmd).errno
      ≡ (if env.copy_in_ok then (if env.alloc_ok then success else enomem) else efault)
unfolding wait_event
wait_event-errno ep desc env cmd = ground arith

-- Nothing is new for the library, no signal is pending, and no deadline that is set has come.
pub record MaySleep (ep : Endpoint) (desc : Desc) (env : Env) (cmd : Cmd) : Type 0 where
  pub exp : cmd.next_exp ≡ ep.nextfree_exp
  pub unexp : cmd.next_unexp ≡ ep.nextreserved_unexp
  pub user : cmd.user_event ≡ desc.user_event_index
  pub signal : env.signal_pending ≡ false
  pub timeout : cmd.jiffies_expire ≢ infinite → env.jiffies < cmd.jiffies_expire
  pub progress : desc.wakeup_jiffies ≢ no_wakeup → env.jiffies < desc.wakeup_jiffies

-- The timer that is chosen has passed exactly if a deadline has.
has_passed-choose_timer :
    (now expire wakeup : ℕ)
    → now < 2 ^ 63
    → (expire ≡ infinite) ⊎ (expire < 2 ^ 63)
    → wakeup < 2 ^ 63
    → (has_passed now (choose_timer expire wakeup) ≡ false
        → (expire ≢ infinite → now < expire) × (wakeup ≢ no_wakeup → now < wakeup))
      × ((expire ≢ infinite → now < expire)
          → (wakeup ≢ no_wakeup → now < wakeup)
          → has_passed now (choose_timer expire wakeup) ≡ false)
unfolding choose_timer time_before64 time_after_eq64
has_passed-choose_timer now expire wakeup n (inl never) w = ground (arith, never)
has_passed-choose_timer now expire wakeup n (inr e) w = ground arith

-- When reading the command and allocating the waiter succeed, no other thread wakes this one while it
-- goes to sleep, and the time and the deadlines that are set are below 2^63: it sleeps exactly if the
-- library passed the three event indexes as they are, no signal is pending, and neither the deadline of
-- the application nor that of the progression has come, of those that are set. If then the timer ends
-- the sleep, both deadlines are set, and writing back succeeds, the status is that of the earlier
-- deadline: PROGRESS if the progression's comes first, else TIMEOUT.
pub wait_event-sleeps :
    (ep : Endpoint) (desc : Desc) (env : Env) (cmd : Cmd)
    → env.copy_in_ok ≡ true
    → env.alloc_ok ≡ true
    → env.before_sleep ≡ []
    → env.jiffies < 2 ^ 63
    → (cmd.jiffies_expire ≡ infinite) ⊎ (cmd.jiffies_expire < 2 ^ 63)
    → desc.wakeup_jiffies < 2 ^ 63
    → let x = wait_event ep desc env cmd in
      (x.slept ≡ true → MaySleep ep desc env cmd)
      × (MaySleep ep desc env cmd → x.slept ≡ true)
      × (x.slept ≡ true
          → env.waking ≡ by_timer
          → env.copy_out_ok ≡ true
          → cmd.jiffies_expire ≢ infinite
          → desc.wakeup_jiffies ≢ no_wakeup
          → x.status
            ≡ some (
                if ltb desc.wakeup_jiffies cmd.jiffies_expire
                then status_progress
                else status_timeout))
unfolding wait_event woken has_raced report_status
wait_event-sleeps ep desc env cmd copied allocated alone now expire wakeup =
    let timer =
      has_passed-choose_timer env.jiffies cmd.jiffies_expire desc.wakeup_jiffies now expire
        wakeup in
    let none : (woken env.before_sleep new_waiter).status ≡ status_none =
      ap (λ (ss : List ℕ). (woken ss new_waiter).status) alone in
    let slept : ((wait_event ep desc env cmd).slept ≡ true
        → (cmd.next_exp ≡ ep.nextfree_exp)
          × (cmd.next_unexp ≡ ep.nextreserved_unexp)
          × (cmd.user_event ≡ desc.user_event_index)
          × (env.signal_pending ≡ false)
          × (has_passed env.jiffies (choose_timer cmd.jiffies_expire desc.wakeup_jiffies)
              ≡ false)) =
      λ h. ground arith in
    (
      λ h.
          let x = slept h in
          let y = timer.0 x.4 in
          record {
            exp = x.0;
            unexp = x.1;
            user = x.2;
            signal = x.3;
            timeout = y.0;
            progress = y.1;
          },
      λ m.
          let x = timer.1 m.timeout m.progress in
          ground (arith, m.exp, m.unexp, m.user, m.signal, x, none),
      λ h ends copied_out set wanted.
          let x = slept h in
          let low : cmd.jiffies_expire < 2 ^ 63 = elim expire [
            | inl never ↦ absurd (set never)
            | inr lt ↦ lt
          ] in
          let c = choose_timer_lem cmd.jiffies_expire desc.wakeup_jiffies wanted low wakeup in
          ground (arith, x.0, x.1, x.2, x.3, x.4, none, ends, copied_out, c),
    )
