-- ===== src/Recv/Apart.antt =====
-- A receive and a message that match never both wait.
use Prim.Native.Nat.{bit_and}
use open_mx.Common.{
  ℕ, ◌≡◌, refl, inl, inr, false, List, [], ◌∷◌, ◌++◌, Option, none, some, ◌==◌, Bool-cases,
}
use open_mx.Recv.Early.{All}
use open_mx.Recv.Match.{RecvRequest, Requests}
use open_mx.Recv.Take.{match_recv}
use open_mx.Recv.Irecv.{find_unexp}

-- A receive is not for some match information.
abbrev pub NotFor : ℕ → RecvRequest → Type 0
NotFor info r = (r.match_info == bit_and r.match_mask info) ≡ false

abbrev pub IsPosted : RecvRequest → Type 0
IsPosted r = r.unexpected ≡ false

-- No posted receive is for a message that waits.
pub record IsApart (s : Requests) : Type 0 where
  pub posted : All IsPosted s.recv_req_q
  pub apart : All (λ (u : RecvRequest). All (NotFor u.status_match_info) s.recv_req_q) s.unexp_req_q

pub All-snoc :
    {A : Type 0} (P : A → Type 0) (xs : List A) (y : A) → All P xs → P y → All P (xs ++ y ∷ [])
All-snoc P [] y v p = (p, tt)
All-snoc P (x ∷ xs) y v p = (v.0, All-snoc P xs y v.1 p)

-- What is found, and what is left.
abbrev pub FoundIf : (RecvRequest → Type 0) → Option (RecvRequest × List RecvRequest) → Type 0
FoundIf P none = Unit {0}
FoundIf P (some x) = P x.0 × All P x.1

abbrev cons_found :
    RecvRequest → Option (RecvRequest × List RecvRequest) → Option (RecvRequest × List RecvRequest)
cons_found r o = elim o [ none ↦ none | some x ↦ some (x.0, r ∷ x.1) ]

FoundIf-cons :
    (P : RecvRequest → Type 0) (r : RecvRequest) (o : Option (RecvRequest × List RecvRequest))
    → P r
    → FoundIf P o
    → FoundIf P (cons_found r o)
FoundIf-cons P r none p v = tt
FoundIf-cons P r (some x) p v = (v.0, (p, v.1))

pub match_recv-FoundIf :
    (P : RecvRequest → Type 0) (info : ℕ) (rs : List RecvRequest)
    → All P rs
    → FoundIf P (match_recv info rs)
unfolding match_recv
match_recv-FoundIf P info [] v = tt
match_recv-FoundIf P info (r ∷ rs) v =
    elim (Bool-cases (r.match_info == bit_and r.match_mask info)) [
      | inl b ↦ rw b v
      | inr b ↦ rw b (FoundIf-cons P r (match_recv info rs) v.0 (match_recv-FoundIf P info rs v.1))
    ]

pub find_unexp-FoundIf :
    (P : RecvRequest → Type 0) (info mask : ℕ) (us : List RecvRequest)
    → All P us
    → FoundIf P (find_unexp info mask us)
unfolding find_unexp
find_unexp-FoundIf P info mask [] v = tt
find_unexp-FoundIf P info mask (u ∷ us) v =
    elim (Bool-cases (info == bit_and mask u.status_match_info)) [
      | inl b ↦ rw b v
      | inr b ↦
          rw b
            (FoundIf-cons P u (find_unexp info mask us) v.0 (find_unexp-FoundIf P info mask us v.1))
    ]

-- Nothing is found only if nothing is for it.
abbrev pub MissedIf : Type 0 → Option (RecvRequest × List RecvRequest) → Type 0
MissedIf T none = T
MissedIf T (some x) = Unit {0}

MissedIf-cons :
    (T U : Type 0) (r : RecvRequest) (o : Option (RecvRequest × List RecvRequest))
    → (T → U)
    → MissedIf T o
    → MissedIf U (cons_found r o)
MissedIf-cons T U r none f v = f v
MissedIf-cons T U r (some x) f v = tt

pub match_recv-MissedIf :
    (info : ℕ) (rs : List RecvRequest) → MissedIf (All (NotFor info) rs) (match_recv info rs)
unfolding match_recv
match_recv-MissedIf info [] = tt
match_recv-MissedIf info (r ∷ rs) = elim (Bool-cases (r.match_info == bit_and r.match_mask info)) [
  | inl b ↦ rw b tt
  | inr b ↦ rw b (
      MissedIf-cons (All (NotFor info) rs) _ r (match_recv info rs) (λ v. (refl, v))
        (match_recv-MissedIf info rs))
]

pub find_unexp-MissedIf :
    (info mask : ℕ) (us : List RecvRequest)
    → MissedIf
        (All (λ (u : RecvRequest). (info == bit_and mask u.status_match_info) ≡ false) us)
        (find_unexp info mask us)
unfolding find_unexp
find_unexp-MissedIf info mask [] = tt
find_unexp-MissedIf info mask (u ∷ us) =
    elim (Bool-cases (info == bit_and mask u.status_match_info)) [
      | inl b ↦ rw b tt
      | inr b ↦ rw b (
          MissedIf-cons _ _ u (find_unexp info mask us) (λ v. (refl, v))
            (find_unexp-MissedIf info mask us))
    ]

-- A receive that is posted, when no message is for it.
pub All-posted :
    (r : RecvRequest) (rs us : List RecvRequest)
    → All
        (λ (u : RecvRequest). (r.match_info == bit_and r.match_mask u.status_match_info) ≡ false)
        us
    → All (λ (u : RecvRequest). All (NotFor u.status_match_info) rs) us
    → All (λ (u : RecvRequest). All (NotFor u.status_match_info) (rs ++ r ∷ [])) us
All-posted r rs [] w v = tt
All-posted r rs (u ∷ us) w v =
    (All-snoc (NotFor u.status_match_info) rs r v.0 w.0, All-posted r rs us w.1 v.1)
