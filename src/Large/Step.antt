-- ===== src/Large/Step.antt =====
-- One step of large messages at an endpoint: a request is submitted, tries to get what it needs, or gives
-- it back.
use open_mx.Common.{
  ℕ, ◌≤◌, ◌≡◌, refl, sym, subst, ◌⊎◌, inl, inr, Bool, true, false, List, [], ◌∷◌, ◌++◌, arith,
  append-nil, append_assoc,
}
use open_mx.Regions.{Globals}
use open_mx.Regions.Ledger.{IsMap}
use open_mx.Large.{
  Transfer, TransferType, send_large, recv_large, Resources, alloc_setup_isend_large,
  alloc_setup_pull, process_pull_done, process_recv_notify, fail_send, complete_unsent,
  release_unsent,
}
use open_mx.Large.Account.{
  held, send_slots, exp_events, all_held, all_send_slots, all_exp_events, IsAccounted,
  IsAccounted-Holds, Holds-IsAccounted,
}
use open_mx.Large.Acquire.{alloc_setup_isend_large-Tried}
use open_mx.Large.Pulling.{alloc_setup_pull-Tried}
use open_mx.Large.Give.{
  fail_send-IsAccounted, process_pull_done-IsAccounted, release_send-IsAccounted,
  process_recv_notify-IsAccounted,
}

-- omx__submit_isend_large and omx__submit_pull: a request that has nothing yet.
pub record IsNew (t : Transfer) : Type 0 where
  pub region : t.missing_large_region ≡ true
  pub slot : t.type ≡ send_large → t.missing_send_large_region ≡ true
  pub event : t.type ≡ recv_large → t.missing_exp_event ≡ true

-- A step from resources and requests that take some to others. The driver may refuse to pin segments,
-- but it starts the pulls that it is asked for.
pub data Step (g : Globals) (s : Resources)
    : List Transfer → Resources → List Transfer → Type 0 where
  submit : (ts : List Transfer) (t : Transfer) → IsNew t → Step g s ts s (ts ++ t ∷ [])
  try_send :
      (xs : List Transfer) (t : Transfer) (ys : List Transfer) (accepts : Bool)
      → t.type ≡ send_large
      → t.missing_large_region ≡ true
      → 1 ≤ t.segs.nseg
      → Step g s
          (xs ++ t ∷ ys)
          (alloc_setup_isend_large g accepts s t).1
          (xs ++ (alloc_setup_isend_large g accepts s t).2 ∷ ys)
  try_pull :
      (xs : List Transfer) (t : Transfer) (ys : List Transfer) (accepts : Bool) (uninitialized : ℕ)
      → t.type ≡ recv_large
      → t.missing_large_region ≡ true
      → 1 ≤ t.segs.nseg
      → Step g s
          (xs ++ t ∷ ys)
          (alloc_setup_pull g accepts true uninitialized s t).1
          (xs ++ (alloc_setup_pull g accepts true uninitialized s t).2 ∷ ys)
  pulled :
      (xs : List Transfer) (t : Transfer) (ys : List Transfer) (ok : Bool)
      → t.type ≡ recv_large
      → t.missing_exp_event ≡ false
      → t.missing_large_region ≡ false
      → Step g s (xs ++ t ∷ ys) (process_pull_done g ok t.region s t).0 (xs ++ ys)
  notified :
      (xs : List Transfer) (t : Transfer) (ys : List Transfer) (xfer_length : ℕ)
      → t.type ≡ send_large
      → t.missing_send_large_region ≡ false
      → t.missing_large_region ≡ false
      → Step g s
          (xs ++ t ∷ ys)
          (process_recv_notify g t.region t.region_seqnum xfer_length s t).0
          (xs ++ ys)
  nacked :
      (xs : List Transfer) (t : Transfer) (ys : List Transfer)
      → t.type ≡ send_large
      → t.missing_send_large_region ≡ false
      → t.missing_large_region ≡ false
      → Step g s (xs ++ t ∷ ys) (fail_send g s t) (xs ++ ys)
  unsent :
      (xs : List Transfer) (t : Transfer) (ys : List Transfer)
      → t.type ≡ send_large
      → Step g s (xs ++ t ∷ ys) (complete_unsent g s t) (xs ++ ys)

pub TransferType-cases : (x : TransferType) → (x ≡ send_large) ⊎ (x ≡ recv_large)
TransferType-cases send_large = inl refl
TransferType-cases recv_large = inr refl

submit-IsAccounted :
    {g : Globals} {events : ℕ} {s : Resources} (ts : List Transfer) (t : Transfer)
    → IsNew t
    → IsAccounted g events s ts
    → IsAccounted g events s (ts ++ t ∷ [])
unfolding all_held all_send_slots all_exp_events
submit-IsAccounted {g} {events} {s} ts t new a =
    let held_none : held t ≡ [] = ground (arith, new.region) in
    let same : all_held ts ++ (held t ++ []) ≡ all_held ts =
      rw held_none (append-nil (all_held ts)) in
    let none_yet : (send_slots t ≡ 0) × (exp_events t ≡ 0) = elim (TransferType-cases t.type) [
      | inl e ↦ (ground (arith, new.slot e), ground (arith, e))
      | inr e ↦ (ground (arith, e), ground (arith, new.event e))
    ] in
    let all : ts ++ [] ≡ ts = append-nil ts in
    Holds-IsAccounted ts [] t (record {
      map = subst (IsMap g s.regions) (sym same) a.map;
      sends = rw all (omega (arith, a.sends, none_yet));
      expected = rw all (omega (arith, a.expected, none_yet));
    })

pub Step-IsAccounted :
    {g : Globals} {events : ℕ} {s s' : Resources} {ts ts' : List Transfer}
    → Step g s ts s' ts'
    → IsAccounted g events s ts
    → IsAccounted g events s' ts'
unfolding complete_unsent
Step-IsAccounted (submit ts t new) a = submit-IsAccounted ts t new a
Step-IsAccounted {g} {events} {s} (try_send xs t ys accepts send waits segs) a =
    let x =
      alloc_setup_isend_large-Tried g accepts events xs ys s t send waits segs
        (IsAccounted-Holds xs ys t a) in
    Holds-IsAccounted xs ys (alloc_setup_isend_large g accepts s t).2 x.holds
Step-IsAccounted {g} {events} {s} (try_pull xs t ys accepts u pull waits segs) a =
    let x =
      alloc_setup_pull-Tried g accepts events u xs ys s t pull waits segs
        (IsAccounted-Holds xs ys t a) in
    Holds-IsAccounted xs ys (alloc_setup_pull g accepts true u s t).2 x.holds
Step-IsAccounted {g} {events} {s} (pulled xs t ys ok pull event region) a =
    process_pull_done-IsAccounted g events xs ys s t (IsAccounted-Holds xs ys t a) ok pull event
      region
Step-IsAccounted {g} {events} {s} (notified xs t ys len send slot region) a =
    (process_recv_notify-IsAccounted g events xs ys s t (IsAccounted-Holds xs ys t a) len send slot
      region).0
Step-IsAccounted {g} {events} {s} (nacked xs t ys send slot region) a =
    fail_send-IsAccounted g events xs ys s t (IsAccounted-Holds xs ys t a) send slot region
Step-IsAccounted {g} {events} {s} (unsent xs t ys send) a =
    let e : complete_unsent g s t ≡ release_unsent g s t = ground (arith, send) in
    subst (λ r. IsAccounted g events r (xs ++ ys)) (sym e)
      (release_send-IsAccounted g events xs ys s t (IsAccounted-Holds xs ys t a) send)

-- A step of some requests is one beside others.
pub Step-beside :
    {g : Globals} {s s' : Resources} {ts ts' : List Transfer} (lost : List Transfer)
    → Step g s ts s' ts'
    → Step g s (lost ++ ts) s' (lost ++ ts')
Step-beside {g} {s = s} lost (submit ts t new) =
    subst (λ zs. Step g s (lost ++ ts) s zs) (append_assoc lost ts (t ∷ []))
      (submit (lost ++ ts) t new)
Step-beside lost (try_send xs t ys accepts send waits segs) =
    rw (← append_assoc lost xs _, ← append_assoc lost xs _)
      (try_send (lost ++ xs) t ys accepts send waits segs)
Step-beside lost (try_pull xs t ys accepts u pull waits segs) =
    rw (← append_assoc lost xs _, ← append_assoc lost xs _)
      (try_pull (lost ++ xs) t ys accepts u pull waits segs)
Step-beside lost (pulled xs t ys ok pull event region) =
    rw (← append_assoc lost xs _, ← append_assoc lost xs _)
      (pulled (lost ++ xs) t ys ok pull event region)
Step-beside lost (notified xs t ys len send slot region) =
    rw (← append_assoc lost xs _, ← append_assoc lost xs _)
      (notified (lost ++ xs) t ys len send slot region)
Step-beside lost (nacked xs t ys send slot region) =
    rw (← append_assoc lost xs _, ← append_assoc lost xs _)
      (nacked (lost ++ xs) t ys send slot region)
Step-beside lost (unsent xs t ys send) =
    rw (← append_assoc lost xs _, ← append_assoc lost xs _) (unsent (lost ++ xs) t ys send)
