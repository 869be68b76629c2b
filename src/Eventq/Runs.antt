-- ===== src/Eventq/Runs.antt =====
-- Sequences of calls on the unexpected queue, by the driver (omx_notify_unexp_event and the prepare
-- and commit calls of driver/linux/omx_event.c) and by the library (the loop of omx__progress).
use open_mx.Common.{
  ℕ, ◌+◌, ◌^◌, ◌<◌, ◌≡◌, refl, ap, subst, ◌∙◌, List, [], ◌∷◌, ◌++◌, Option, none, some, length,
  arith,
}
use open_mx.Eventq.Defs.{entry_nr, Event, Endpoint}
use open_mx.Eventq.Notify.{notify_unexp_event, prepare_notify_many, commit_notify}
use open_mx.Eventq.Progress.{Outcome, Drained, finished, aborted, out_of_fuel, drain_unexp}
use open_mx.Eventq.View.{View, Shows, push, promise, commit}
use open_mx.Eventq.Refine.{
  notify_unexp-push, prepare_notify_many-promise, Commits, commit_notify-commit,
}
use open_mx.Eventq.Drain.{delivered, advance, drained, drain_unexp-delivers}

-- A call: an event, the preparation of slots, the commit of an event, or a run of the library's loop.
pub data Call : Type 0 where
  notify : Event → Call
  prepare : ℕ → ℕ → Call
  commits : Event → Call
  progress : Call

-- The state between two calls: an endpoint and the library's next index, or a view of it.
abbrev after_commit : ℕ → Option Endpoint → Option (Endpoint × ℕ × List Event)
after_commit r none = none
after_commit r (some ep) = some (ep, r, [])

abbrev after_drain : Outcome → Option (Endpoint × ℕ × List Event)
after_drain (finished d) = some (d.endpoint, d.next, d.events)
after_drain aborted = none
after_drain out_of_fuel = none

-- One call: the new state and what the library handed over; `none` is a BUG_ON or an abort.
unfoldable pub call : Call → Endpoint → ℕ → Option (Endpoint × ℕ × List Event)
call (notify e) ep r = some ((notify_unexp_event ep e).0, r, [])
call (prepare size nr) ep r = some ((prepare_notify_many size ep nr).0, r, [])
call (commits e) ep r = after_commit r (commit_notify ep e)
call progress ep r = after_drain (drain_unexp (entry_nr + 1) ep r)

abbrev after_view : ℕ → Option View → Option (View × ℕ × List Event)
after_view r none = none
after_view r (some v) = some (v, r, [])

-- The same call on a view.
unfoldable pub call_view : Call → View → ℕ → Option (View × ℕ × List Event)
call_view (notify e) v r = some ((push v e).0, r, [])
call_view (prepare size nr) v r = some ((promise v nr).0, r, [])
call_view (commits e) v r = after_view r (commit v e)
call_view progress v r =
    let r' = advance (length v.pending) r in some (drained v r', r', delivered r v.pending)

-- The arguments that the callers pass: the number of slots is an `int`.
abbrev pub IsCall : Call → Type 0
IsCall (notify e) = Unit {0}
IsCall (prepare size nr) = nr < 2 ^ 31
IsCall (commits e) = Unit {0}
IsCall progress = Unit {0}

-- Both fail, or both give the same index and the same events, and the endpoint shows the view.
abbrev pub Agree : Option (Endpoint × ℕ × List Event) → Option (View × ℕ × List Event) → Type 0
Agree none none = Unit
Agree none (some x) = ⊥
Agree (some x) none = ⊥
Agree (some (ep, r, es)) (some (v, r', es')) = Shows ep r v × (r ≡ r') × (es ≡ es')

commit-Agree :
    (r : ℕ) (o : Option Endpoint) (p : Option View)
    → Commits o r p
    → Agree (after_commit r o) (after_view r p)
commit-Agree r none none c = tt
commit-Agree r none (some v) c = c
commit-Agree r (some ep) none c = c
commit-Agree r (some ep) (some v) c = (c, refl, refl)

drain-Agree :
    (o : Outcome) (d : Drained) (v : View) (r : ℕ) (es : List Event)
    → o ≡ finished d
    → Shows d.endpoint d.next v
    → d.next ≡ r
    → d.events ≡ es
    → Agree (after_drain o) (some (v, r, es))
drain-Agree o d v r es e s p q = rw e (s, p, q)

call-Agree :
    (c : Call) {ep : Endpoint} {r : ℕ} {v : View}
    → IsCall c
    → Shows ep r v
    → Agree (call c ep r) (call_view c v r)
unfolding call call_view
call-Agree (notify e) i s = ((notify_unexp-push e s).1, refl, refl)
call-Agree (prepare size nr) i s = ((prepare_notify_many-promise size nr s i).1, refl, refl)
call-Agree (commits e) {ep} {r} {v} i s =
    commit-Agree r (commit_notify ep e) (commit v e) (commit_notify-commit e s)
call-Agree progress {ep} {r} {v} i s =
    let (ep', e, s') = drain_unexp-delivers (entry_nr + 1) s (omega arith) in
    let r' = advance (length v.pending) r in
    drain-Agree (drain_unexp (entry_nr + 1) ep r)
      (record { endpoint = ep'; next = r'; events = delivered r v.pending }) (drained v r') r'
      (delivered r v.pending) e s' refl refl

-- A sequence of calls, with all events that the library was handed, in order.
abbrev hand {ℓ} :
    {A : Type ℓ} → List Event → Option (A × ℕ × List Event) → Option (A × ℕ × List Event)
hand es none = none
hand es (some (a, r, es')) = some (a, r, es ++ es')

unfoldable pub run : List Call → Endpoint → ℕ → Option (Endpoint × ℕ × List Event)
unfolding call
run [] ep r = some (ep, r, [])
run (c ∷ cs) ep r = elim (call c ep r) [
  | none ↦ none
  | some (ep', r', es) ↦ hand es (run cs ep' r')
]

unfoldable pub run_view : List Call → View → ℕ → Option (View × ℕ × List Event)
unfolding call_view
run_view [] v r = some (v, r, [])
run_view (c ∷ cs) v r = elim (call_view c v r) [
  | none ↦ none
  | some (v', r', es) ↦ hand es (run_view cs v' r')
]

abbrev pub AllCalls : List Call → Type 0
AllCalls [] = Unit {0}
AllCalls (c ∷ cs) = IsCall c × AllCalls cs

hand-Agree :
    (es es' : List Event) (o : Option (Endpoint × ℕ × List Event))
    (p : Option (View × ℕ × List Event))
    → es ≡ es'
    → Agree o p
    → Agree (hand es o) (hand es' p)
hand-Agree es es' none none e a = tt
hand-Agree es es' none (some x) e a = a
hand-Agree es es' (some x) none e a = a
hand-Agree es es' (some (ep, r, fs)) (some (v, r', fs')) e (s, p, q) =
    (s, p, ap (λ (x : List Event). x ++ fs) e ∙ ap (◌++◌ es') q)

-- From an endpoint that shows a view, whatever sequence of notifications, preparations of less than
-- 2^31 slots, commits and runs of the library's loop follows: it reaches a BUG_ON or an abort exactly
-- if the same sequence on the bounded FIFO commits a slot that was not promised; else the library is
-- handed exactly the events of the FIFO, in its order, and the endpoint shows the FIFO at the end.
pub run-Agree :
    (cs : List Call) (ep : Endpoint) (r : ℕ) (v : View)
    → AllCalls cs
    → Shows ep r v
    → Agree (run cs ep r) (run_view cs v r)
unfolding run run_view
run-Agree [] ep r v i s = (s, refl, refl)
run-Agree (c ∷ cs) ep r v i s =
    rest (call c ep r) (call_view c v r) (call-Agree c i.0 s)
      (λ ep' r' v' s'. run-Agree cs ep' r' v' i.1 s')
  where
    rest :
        (o : Option (Endpoint × ℕ × List Event)) (p : Option (View × ℕ × List Event))
        → Agree o p
        → ((ep' : Endpoint) (r' : ℕ) (v' : View)
            → Shows ep' r' v'
            → Agree (run cs ep' r') (run_view cs v' r'))
        → Agree
            (elim o [ none ↦ none | some (ep', r', es) ↦ hand es (run cs ep' r') ])
            (elim p [ none ↦ none | some (v', r', es) ↦ hand es (run_view cs v' r') ])
    rest none none a ih = tt
    rest none (some x) a ih = absurd a
    rest (some x) none a ih = absurd a
    rest (some (ep', r', es)) (some (v', r'', es')) (s', p, q) ih =
        hand-Agree es es' (run cs ep' r') (run_view cs v' r'') q
          (subst (λ (n : ℕ). Agree (run cs ep' r') (run_view cs v' n)) p (ih ep' r' v' s'))
