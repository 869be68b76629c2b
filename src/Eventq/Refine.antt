-- ===== src/Eventq/Refine.antt =====
-- The unexpected queue against a bounded FIFO with reservations: what the driver's calls do to the
-- events that the library has not read yet.
use open_mx.Common.{
  ℕ, zero, suc, ◌+◌, ◌-◌, ◌%◌, ◌^◌, ◌≤◌, ◌<◌, ◌≡◌, ◌≢◌, refl, inl, inr, Bool-cases, ==→ne, lt→leb,
  le→leb, Bool, true, false, List, [], ◌∷◌, Option, none, some, add32, sub32, ◌==◌, length, arith,
  dec_lt, lt→ltb, le→ltb,
}
use open_mx.Eventq.Defs.{entry_nr, batch_nr, evt_ignore, Event, Endpoint}
use open_mx.Eventq.Notify.{
  notify_unexp_event, prepare_notify, prepare_notify_many, commit_notify, cancel_notify, ignored,
  nothing_prepared,
}
use open_mx.Eventq.View.{
  View, occupied, push, promise, commit, Shows, count_used, undo32, fill-Shows, promise-Shows,
  keep-Shows,
}

-- Of an endpoint that shows a view: omx_notify_unexp_event pushes the event on the queue that the
-- library sees, or answers EBUSY exactly when that queue is full and leaves it as it was.
pub notify_unexp-push :
    {ep : Endpoint} {r : ℕ} {v : View} (e : Event)
    → Shows ep r v
    → ((notify_unexp_event ep e).1 ≡ (push v e).1)
      × Shows (notify_unexp_event ep e).0 r (push v e).0
unfolding notify_unexp_event push
notify_unexp-push {ep} {r} {v} e s =
    let used = count_used 1 s (omega arith) in
    let n = sub32 (add32 ep.nextfree_unexp 1) ep.nextreleased_unexp in
    elim (dec_lt (occupied v) entry_nr) [
      | yes room ↦
          rw (le→ltb entry_nr n (omega arith), lt→ltb (occupied v) entry_nr room)
            (
              refl,
              fill-Shows e v.prepared (add32 ep.nextfree_unexp 1) s (omega arith)
                  (omega (arith, s.free)) _ refl refl refl refl,
            )
      | no full ↦
          rw (lt→ltb entry_nr n (omega arith), le→ltb (occupied v) entry_nr (omega arith))
            (
              refl,
              keep-Shows s _ refl refl
                  (undo32 ep.nextreserved_unexp 1 (r + length v.pending) (omega arith) s.reserved)
                  (undo32 ep.nextfree_unexp 1 (r + length v.pending + v.prepared) (omega arith)
                    s.free),
            )
    ]

-- The answer of a call that promises slots.
abbrev pub accepted {ℓ} : {A : Type ℓ} → Option A → Bool
accepted none = false
accepted (some a) = true

-- Of an endpoint that shows a view, for less than 2^31 slots:
-- omx_prepare_notify_unexp_events_with_recvq promises the `nr` slots, or refuses exactly when
-- fewer are left and changes nothing that the library sees.
pub prepare_notify_many-promise :
    {ep : Endpoint} {r : ℕ} {v : View} (size nr : ℕ)
    → Shows ep r v
    → nr < 2 ^ 31
    → (accepted (prepare_notify_many size ep nr).1 ≡ (promise v nr).1)
      × Shows (prepare_notify_many size ep nr).0 r (promise v nr).0
unfolding prepare_notify_many promise
prepare_notify_many-promise {ep} {r} {v} size nr s h =
    let used = count_used nr s h in
    let n = sub32 (add32 ep.nextfree_unexp nr) ep.nextreleased_unexp in
    elim (dec_lt entry_nr (occupied v + nr)) [
      | yes full ↦
          rw (lt→ltb entry_nr n (omega arith), lt→leb (occupied v + nr) entry_nr full)
            (
              refl,
              keep-Shows s _ refl refl refl
                  (undo32 ep.nextfree_unexp nr (r + length v.pending + v.prepared) h s.free),
            )
      | no room ↦
          rw (le→ltb entry_nr n (omega arith), le→leb (occupied v + nr) entry_nr (omega arith))
            (refl, promise-Shows nr s (omega arith) _ refl refl refl refl)
    ]

-- Of an endpoint that shows a view: omx_prepare_notify_unexp_event_with_recvq promises one slot,
-- or refuses exactly when none is left and changes nothing that the library sees.
pub prepare_notify-promise :
    {ep : Endpoint} {r : ℕ} {v : View} (size : ℕ)
    → Shows ep r v
    → (accepted (prepare_notify size ep).1 ≡ (promise v 1).1)
      × Shows (prepare_notify size ep).0 r (promise v 1).0
unfolding prepare_notify promise
prepare_notify-promise {ep} {r} {v} size s =
    let used = count_used 1 s (omega arith) in
    let n = sub32 (add32 ep.nextfree_unexp 1) ep.nextreleased_unexp in
    elim (dec_lt entry_nr (occupied v + 1)) [
      | yes full ↦
          rw (lt→ltb entry_nr n (omega arith), lt→leb (occupied v + 1) entry_nr full)
            (
              refl,
              keep-Shows s _ refl refl refl (
                  undo32 ep.nextfree_unexp 1 (r + length v.pending + v.prepared) (omega arith)
                    s.free),
            )
      | no room ↦
          rw (le→ltb entry_nr n (omega arith), le→leb (occupied v + 1) entry_nr (omega arith))
            (refl, promise-Shows 1 s (omega arith) _ refl refl refl refl)
    ]

-- What a commit leaves: a kernel BUG, or an endpoint that shows the new view.
abbrev pub Commits : Option Endpoint → ℕ → Option View → Type 0
Commits none r none = Unit
Commits none r (some v) = ⊥
Commits (some ep) r none = ⊥
Commits (some ep) r (some v) = Shows ep r v

-- The BUG_ON of commit and cancel fires exactly when no slot is promised.
nothing_prepared-eq :
    {ep : Endpoint} {r : ℕ} {v : View} → Shows ep r v → nothing_prepared ep ≡ (v.prepared == 0)
unfolding nothing_prepared
nothing_prepared-eq {ep} {r} {v} s =
    let a : r < 2 ^ 32 = s.ring.in_range in
    let b : occupied v ≤ entry_nr = s.fits in
    let c : v.held ≡ r % batch_nr = s.held in
    let f : sub32 ep.nextfree_unexp ep.nextreleased_unexp ≡ occupied v =
      omega (arith, s.released, s.free) in
    let g : sub32 ep.nextreserved_unexp ep.nextreleased_unexp ≡ v.held + length v.pending =
      omega (arith, s.released, s.reserved) in
    rw (f, g) (ground arith)

-- Of an endpoint that shows a view: omx_commit_notify_unexp_event_with_recvq turns a promised slot
-- into a waiting event, behind all those that wait; the kernel's BUG_ON fires exactly when no slot
-- is promised.
pub commit_notify-commit :
    {ep : Endpoint} {r : ℕ} {v : View} (e : Event)
    → Shows ep r v
    → Commits (commit_notify ep e) r (commit v e)
unfolding commit_notify commit
commit_notify-commit {ep} {r} {v} e s = elim (Bool-cases (v.prepared == 0)) [
  | inl z ↦ rw (nothing_prepared-eq s, z) tt
  | inr nz ↦
      let pos : v.prepared ≢ 0 = ==→ne v.prepared 0 nz in
      rw (nothing_prepared-eq s, nz)
        (fill-Shows e (v.prepared - 1) ep.nextfree_unexp s (omega (arith, s.fits))
          (omega (arith, s.free)) _ refl refl refl refl)
]

type-ignored : (slots : List Event) (i : ℕ) → (ignored slots i).type ≡ evt_ignore
unfolding ignored
type-ignored [] i = refl
type-ignored (x ∷ xs) zero = refl
type-ignored (x ∷ xs) (suc i) = type-ignored xs i

-- Of an endpoint that shows a view: omx_cancel_notify_unexp_event_with_recvq turns a promised slot
-- into an event of type IGNORE, behind all those that wait; its BUG_ON fires exactly when no slot
-- is promised.
pub cancel_notify-commit :
    {ep : Endpoint} {r : ℕ} {v : View}
    → Shows ep r v
    → (e : Event) × (e.type ≡ evt_ignore) × Commits (cancel_notify ep) r (commit v e)
unfolding cancel_notify commit
cancel_notify-commit {ep} {r} {v} s =
    let e = ignored ep.unexp_eventq (ep.nextreserved_unexp % entry_nr) in
    (
      e,
      type-ignored ep.unexp_eventq (ep.nextreserved_unexp % entry_nr),
      elim (Bool-cases (v.prepared == 0)) [
        | inl z ↦ rw (nothing_prepared-eq s, z) tt
        | inr nz ↦
            let pos : v.prepared ≢ 0 = ==→ne v.prepared 0 nz in
            rw (nothing_prepared-eq s, nz)
              (fill-Shows e (v.prepared - 1) ep.nextfree_unexp s (omega (arith, s.fits))
                (omega (arith, s.free)) _ refl refl refl refl)
      ],
    )
