-- ===== src/Recv/Received.antt =====
-- What becomes of a receive: omx__irecv_segs and omx__complete_unexp_req_as_irecv of
-- libopen-mx/omx_recv.c.
use Prim.Native.Nat.{bit_and}
use open_mx.Common.{
  ℕ, ◌<◌, ◌≤◌, ◌≡◌, ◌≢◌, refl, sym, subst, ap, ◌⊎◌, inl, inr, true, false, List, [], ◌∷◌, ◌++◌,
  Option, none, some, ◌==◌, min, arith, Bool-cases, ==→eq, ==→ne,
}
use open_mx.Recv.Early.{All}
use open_mx.Recv.Match.{RecvRequest, Requests, sync}
use open_mx.Recv.Irecv.{
  find_unexp, as_irecv, complete_unexp_req_as_irecv, posted_request, if_found, irecv_segs,
}

-- The receive is not for a message.
abbrev pub IsOther : ℕ → ℕ → RecvRequest → Type 0
IsOther match_info match_mask u = match_info ≢ bit_and match_mask u.status_match_info

-- The message `u` with a receive of `total_length` bytes: its length is that of the shorter one.
pub record IsWith (u : RecvRequest) (total_length : ℕ) (r : RecvRequest) : Type 0 where
  pub id : r.id ≡ u.id
  pub expected : r.unexpected ≡ false
  pub total : r.total_length ≡ total_length
  pub length : r.xfer_length ≡ min total_length u.msg_length

-- The bytes of the message that came are those of the receive, as far as the message goes in it, and
-- the others are as they were.
pub record IsCopied (u : RecvRequest) (before : ℕ → ℕ) (r : RecvRequest) : Type 0 where
  pub inside : (k : ℕ) → k < r.xfer_length → r.buffer k ≡ u.buffer k
  pub outside : (k : ℕ) → r.xfer_length ≤ k → r.buffer k ≡ before k

-- A request takes the place of the one with its id.
abbrev pub IsReplaced : RecvRequest → List RecvRequest → List RecvRequest → Type 0
IsReplaced r [] [] = Unit {0}
IsReplaced r [] (y ∷ ys) = ⊥
IsReplaced r (x ∷ xs) [] = ⊥
IsReplaced r (x ∷ xs) (y ∷ ys) =
    (((x.id ≡ r.id) × (y ≡ r)) ⊎ ((x.id ≢ r.id) × (y ≡ x))) × IsReplaced r xs ys

-- Where a message goes that met a receive: a rendezvous is pulled, a message that is not whole goes on
-- with the receive, and another one is done.
pub data GoesOn (u : RecvRequest) (total_length : ℕ) (before : ℕ → ℕ) (s s' : Requests)
    : Type 0 where
  is_pulled :
      (r : RecvRequest)
      → u.recv_large ≡ true
      → IsWith u total_length r
      → s'.pulls ≡ s.pulls ++ r ∷ []
      → s'.partial_medium_recv_req_q ≡ s.partial_medium_recv_req_q
      → s'.done ≡ s.done
      → GoesOn u total_length before s s'
  is_partial :
      (r : RecvRequest)
      → u.recv_large ≡ false
      → u.partial ≡ true
      → IsWith u total_length r
      → IsCopied u before r
      → s'.pulls ≡ s.pulls
      → IsReplaced r s.partial_medium_recv_req_q s'.partial_medium_recv_req_q
      → s'.done ≡ s.done
      → GoesOn u total_length before s s'
  is_done :
      (r : RecvRequest)
      → u.recv_large ≡ false
      → u.partial ≡ false
      → IsWith u total_length r
      → IsCopied u before r
      → s'.pulls ≡ s.pulls
      → s'.partial_medium_recv_req_q ≡ s.partial_medium_recv_req_q
      → s'.done ≡ s.done ++ r ∷ []
      → GoesOn u total_length before s s'

-- A receive takes the first message that waits and matches, or it is posted behind the others, or there
-- is no memory for it.
pub data Received (alloc : Option ℕ) (match_info match_mask total_length : ℕ) (before : ℕ → ℕ)
    (s : Requests) : Option Requests → Type 0 where
  meets :
      (earlier : List RecvRequest) (u : RecvRequest) (later : List RecvRequest) {s' : Requests}
      → s.unexp_req_q ≡ earlier ++ u ∷ later
      → All (IsOther match_info match_mask) earlier
      → match_info ≡ bit_and match_mask u.status_match_info
      → s'.unexp_req_q ≡ earlier ++ later
      → s'.recv_req_q ≡ s.recv_req_q
      → GoesOn u total_length before s s'
      → Received alloc match_info match_mask total_length before s (some s')
  is_posted :
      (r : RecvRequest)
      → All (IsOther match_info match_mask) s.unexp_req_q
      → alloc ≡ some r.id
      → (r.match_info ≡ match_info) × (r.match_mask ≡ match_mask)
      → (r.total_length ≡ total_length) × (r.buffer ≡ before)
      → Received alloc match_info match_mask total_length before s
          (some (record s { recv_req_q = s.recv_req_q ++ r ∷ [] }))
  no_memory :
      All (IsOther match_info match_mask) s.unexp_req_q
      → alloc ≡ none
      → Received alloc match_info match_mask total_length before s none

-- What the search of the unexpected queue finds.
data FoundAt (match_info match_mask : ℕ) (us : List RecvRequest)
    : Option (RecvRequest × List RecvRequest) → Type 0 where
  found_at :
      (earlier : List RecvRequest) (u : RecvRequest) (later : List RecvRequest)
      → us ≡ earlier ++ u ∷ later
      → All (IsOther match_info match_mask) earlier
      → match_info ≡ bit_and match_mask u.status_match_info
      → FoundAt match_info match_mask us (some (u, earlier ++ later))
  found_none : All (IsOther match_info match_mask) us → FoundAt match_info match_mask us none

FoundAt-cons :
    {match_info match_mask : ℕ} {us : List RecvRequest}
    {o : Option (RecvRequest × List RecvRequest)} (x : RecvRequest)
    → IsOther match_info match_mask x
    → FoundAt match_info match_mask us o
    → FoundAt match_info match_mask (x ∷ us) (elim o [ none ↦ none | some y ↦ some (y.0, x ∷ y.1) ])
FoundAt-cons x other (found_at earlier u later parts others e) =
    found_at (x ∷ earlier) u later (ap (◌∷◌ x) parts) (other, others) e
FoundAt-cons x other (found_none others) = found_none (other, others)

find_unexp-FoundAt :
    (match_info match_mask : ℕ) (us : List RecvRequest)
    → FoundAt match_info match_mask us (find_unexp match_info match_mask us)
unfolding find_unexp
find_unexp-FoundAt match_info match_mask [] = found_none tt
find_unexp-FoundAt match_info match_mask (u ∷ us) =
    elim (Bool-cases (match_info == bit_and match_mask u.status_match_info)) [
      | inl b ↦ rw b (found_at [] u us refl tt (==→eq match_info _ b))
      | inr b ↦
          rw b (FoundAt-cons u (==→ne match_info _ b) (find_unexp-FoundAt match_info match_mask us))
    ]

sync-IsReplaced : (r : RecvRequest) (xs : List RecvRequest) → IsReplaced r xs (sync r xs)
sync-IsReplaced r [] = tt
sync-IsReplaced r (x ∷ xs) = elim (Bool-cases (x.id == r.id)) [
  | inl b ↦ rw b (inl (==→eq x.id r.id b, refl), sync-IsReplaced r xs)
  | inr b ↦ rw b (inr (==→ne x.id r.id b, refl), sync-IsReplaced r xs)
]

as_irecv-IsCopied :
    (u : RecvRequest) (total_length : ℕ) (before : ℕ → ℕ)
    → IsCopied u before (as_irecv u total_length before)
as_irecv-IsCopied u total_length before = record {
  inside = λ (k : ℕ) lt. ground arith;
  outside = λ (k : ℕ) le. ground arith;
}

complete-GoesOn :
    (u : RecvRequest) (total_length : ℕ) (before : ℕ → ℕ) (us : List RecvRequest) (s : Requests)
    → GoesOn u total_length before s
        (complete_unexp_req_as_irecv u total_length before (record s { unexp_req_q = us }))
unfolding complete_unexp_req_as_irecv
complete-GoesOn u total_length before us s =
    let r = as_irecv u total_length before in
    let with_r : IsWith u total_length r = record {
      id = refl;
      expected = refl;
      total = refl;
      length = refl;
    } in
    let copied = as_irecv-IsCopied u total_length before in
    let s1 : Requests = record s { unexp_req_q = us } in
    let pull : RecvRequest = record u {
      total_length = total_length;
      xfer_length = min total_length u.msg_length;
      unexpected = false;
    } in
    elim (Bool-cases u.recv_large) [
      | inl large ↦
          let e : complete_unexp_req_as_irecv u total_length before s1
              ≡ record s1 { pulls = s.pulls ++ pull ∷ [] } =
            ground (arith, large) in
          subst (GoesOn u total_length before s) (sym e) (
            is_pulled pull large
              (record { id = refl; expected = refl; total = refl; length = refl }) refl refl refl)
      | inr small ↦ elim (Bool-cases u.partial) [
        | inl part ↦
            let e : complete_unexp_req_as_irecv u total_length before s1
                ≡ record s1 { partial_medium_recv_req_q = sync r s.partial_medium_recv_req_q } =
              ground (arith, small, part) in
            subst (GoesOn u total_length before s) (sym e) (
              is_partial r small part with_r copied refl
                (sync-IsReplaced r s.partial_medium_recv_req_q) refl)
        | inr whole ↦
            let e : complete_unexp_req_as_irecv u total_length before s1
                ≡ record s1 { done = s.done ++ r ∷ [] } =
              ground (arith, small, whole) in
            subst (GoesOn u total_length before s) (sym e)
              (is_done r small whole with_r copied refl refl refl)
      ]
    ]

complete-queues :
    (u : RecvRequest) (total_length : ℕ) (before : ℕ → ℕ) (s : Requests)
    → let s' = complete_unexp_req_as_irecv u total_length before s in
      (s'.unexp_req_q ≡ s.unexp_req_q) × (s'.recv_req_q ≡ s.recv_req_q)
unfolding complete_unexp_req_as_irecv
complete-queues u total_length before s = ground arith

pub irecv_segs-Received :
    (alloc : Option ℕ) (match_info match_mask total_length : ℕ) (before : ℕ → ℕ) (s : Requests)
    → Received alloc match_info match_mask total_length before s
        (irecv_segs alloc match_info match_mask total_length before s)
unfolding irecv_segs
irecv_segs-Received alloc match_info match_mask total_length before s =
    received alloc (find_unexp-FoundAt match_info match_mask s.unexp_req_q)
  where
    received :
        (alloc : Option ℕ) {o : Option (RecvRequest × List RecvRequest)}
        → FoundAt match_info match_mask s.unexp_req_q o
        → Received alloc match_info match_mask total_length before s
            (if_found o alloc match_info match_mask total_length before s)
    received alloc (found_at earlier u later parts others e) =
        let q =
          complete-queues u total_length before (record s { unexp_req_q = earlier ++ later }) in
        meets earlier u later parts others e q.0 q.1
          (complete-GoesOn u total_length before (earlier ++ later) s)
    received none (found_none others) = no_memory others refl
    received (some id) (found_none others) =
        is_posted (posted_request id match_info match_mask total_length before) others refl
          (refl, refl) (refl, refl)
