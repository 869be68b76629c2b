-- ===== src/Recv/Meet.antt =====
-- Receives and messages that meet: one of them waits, never both.
use Prim.Native.Nat.{bit_and}
use open_mx.Common.{
  ℕ, ◌+◌, ◌≡◌, refl, ◌⊎◌, inl, inr, Bool, true, false, List, [], ◌∷◌, ◌++◌, Option, none, some,
  ◌==◌, min, Bool-cases,
}
use open_mx.Recv.Defs.{MsgType, tiny, small, medium_frag, rndv, notify, Msg}
use open_mx.Recv.Early.{All}
use open_mx.Recv.Match.{RecvRequest, Requests, add_frag, process_first_frag}
use open_mx.Recv.Take.{
  match_recv, recv_func, matched, unexpected_request, HandlerAction, finished, posts, posted_by,
  if_unexpected, if_matched, if_handled, try_match_next_recv,
}
use open_mx.Recv.Irecv.{
  find_unexp, complete_unexp_req_as_irecv, posted_request, if_found, irecv_segs,
}
use open_mx.Recv.Received.{Received, irecv_segs-Received}
use open_mx.Recv.Apart.{
  NotFor, IsPosted, IsApart, FoundIf, MissedIf, All-snoc, match_recv-FoundIf, find_unexp-FoundIf,
  match_recv-MissedIf, find_unexp-MissedIf, All-posted,
}

-- The result of an attempt, if there is one.
abbrev pub ApartIf : Option Requests → Type 0
ApartIf none = Unit {0}
ApartIf (some s) = IsApart s

-- A message that waits gets a receive.
complete-IsApart :
    (u : RecvRequest) (total_length : ℕ) (before : ℕ → ℕ) (s : Requests)
    → IsApart s
    → IsApart (complete_unexp_req_as_irecv u total_length before s)
unfolding complete_unexp_req_as_irecv
complete-IsApart u total_length before s v = elim (Bool-cases u.recv_large) [
  | inl large ↦ rw large (record { posted = v.posted; apart = v.apart })
  | inr not_large ↦ elim (Bool-cases u.partial) [
    | inl part ↦ rw (not_large, part) (record { posted = v.posted; apart = v.apart })
    | inr whole ↦ rw (not_large, whole) (record { posted = v.posted; apart = v.apart })
  ]
]

irecv_segs-apart :
    (alloc : Option ℕ) (match_info match_mask total_length : ℕ) (before : ℕ → ℕ) (s : Requests)
    → IsApart s
    → ApartIf (irecv_segs alloc match_info match_mask total_length before s)
unfolding irecv_segs
irecv_segs-apart alloc match_info match_mask total_length before s v =
    found (find_unexp match_info match_mask s.unexp_req_q) alloc
      (find_unexp-FoundIf _ match_info match_mask s.unexp_req_q v.apart)
      (find_unexp-MissedIf match_info match_mask s.unexp_req_q)
  where
    found :
        (o : Option (RecvRequest × List RecvRequest)) (alloc : Option ℕ)
        → FoundIf (λ (u : RecvRequest). All (NotFor u.status_match_info) s.recv_req_q) o
        → MissedIf
            (All
              (λ (u : RecvRequest). (match_info == bit_and match_mask u.status_match_info) ≡ false)
              s.unexp_req_q)
            o
        → ApartIf (if_found o alloc match_info match_mask total_length before s)
    found (some x) alloc f w =
        complete-IsApart x.0 total_length before (record s { unexp_req_q = x.1 })
          (record { posted = v.posted; apart = f.1 })
    found none none f w = tt
    found none (some id) f w = record {
      posted = All-snoc IsPosted s.recv_req_q _ v.posted refl;
      apart =
          All-posted (posted_request id match_info match_mask total_length before) s.recv_req_q
            s.unexp_req_q w v.apart;
    }

-- A receive takes the first message that waits and matches: the message leaves the unexpected queue, the
-- others stay in their order, and it goes on with the receive, as a pull, as a partial message, or as a
-- message that is done, with the bytes that came. If none matches, the receive is posted behind the
-- others, or there is no memory for it. If no posted receive is for a message that waits, it stays so.
pub irecv_segs-ApartIf :
    (alloc : Option ℕ) (match_info match_mask total_length : ℕ) (before : ℕ → ℕ) (s : Requests)
    → IsApart s
    → let x = irecv_segs alloc match_info match_mask total_length before s in
      Received alloc match_info match_mask total_length before s x × ApartIf x
irecv_segs-ApartIf alloc match_info match_mask total_length before s v = (
  irecv_segs-Received alloc match_info match_mask total_length before s,
  irecv_segs-apart alloc match_info match_mask total_length before s v,
)

-- The receives that are left are for no message that waits.
abbrev LeftApart : List RecvRequest → Option (RecvRequest × List RecvRequest) → Type 0
LeftApart us none = Unit {0}
LeftApart us (some x) = All (λ (u : RecvRequest). All (NotFor u.status_match_info) x.1) us

LeftApart-cons :
    (u : RecvRequest) (us : List RecvRequest) (o : Option (RecvRequest × List RecvRequest))
    → FoundIf (NotFor u.status_match_info) o
    → LeftApart us o
    → LeftApart (u ∷ us) o
LeftApart-cons u us none f v = tt
LeftApart-cons u us (some x) f v = (f.1, v)

match_recv-LeftApart :
    (info : ℕ) (rs us : List RecvRequest)
    → All (λ (u : RecvRequest). All (NotFor u.status_match_info) rs) us
    → LeftApart us (match_recv info rs)
match_recv-LeftApart info rs [] v = none_left (match_recv info rs)
  where
    none_left : (o : Option (RecvRequest × List RecvRequest)) → LeftApart [] o
    none_left none = tt
    none_left (some x) = tt
match_recv-LeftApart info rs (u ∷ us) v =
    LeftApart-cons u us (match_recv info rs)
      (match_recv-FoundIf (NotFor u.status_match_info) info rs v.0)
      (match_recv-LeftApart info rs us v.1)

-- A request that waits is one that no receive is for.
waits :
    (r : RecvRequest) (s : Requests)
    → (r.unexpected ≡ false) ⊎ All (NotFor r.status_match_info) s.recv_req_q
    → r.unexpected ≡ true
    → All (NotFor r.status_match_info) s.recv_req_q
waits r s (inl f) u = absurd (differ f u)
  where
    differ : {b : Bool} → b ≡ false → b ≡ true → ⊥
    differ f t = cc
waits r s (inr w) u = w

-- What a message leaves, when it is with a receive, or no receive is for it.
recv_func-IsApart :
    (t : MsgType) (r : RecvRequest) (m : Msg) (xfer_length : ℕ) (s : Requests)
    → (r.unexpected ≡ false) ⊎ All (NotFor r.status_match_info) s.recv_req_q
    → IsApart s
    → IsApart (recv_func t r m xfer_length s)
unfolding process_first_frag add_frag
recv_func-IsApart tiny r m xfer_length s w v = elim (Bool-cases r.unexpected) [
  | inl u ↦
      rw u
        (record { posted = v.posted; apart = All-snoc _ s.unexp_req_q _ v.apart (waits r s w u) })
  | inr u ↦ rw u (record { posted = v.posted; apart = v.apart })
]
recv_func-IsApart small r m xfer_length s w v = elim (Bool-cases r.unexpected) [
  | inl u ↦
      rw u
        (record { posted = v.posted; apart = All-snoc _ s.unexp_req_q _ v.apart (waits r s w u) })
  | inr u ↦ rw u (record { posted = v.posted; apart = v.apart })
]
recv_func-IsApart medium_frag r m xfer_length s w v =
    elim (Bool-cases (0 + m.frag_length == m.msg_length)) [
      | inl whole ↦ elim (Bool-cases r.unexpected) [
        | inl u ↦
            rw (whole, u)
              (record {
                posted = v.posted;
                apart = All-snoc _ s.unexp_req_q _ v.apart (waits r s w u);
              })
        | inr u ↦ rw (whole, u) (record { posted = v.posted; apart = v.apart })
      ]
      | inr part ↦ elim (Bool-cases r.unexpected) [
        | inl u ↦
            rw (part, u)
              (record {
                posted = v.posted;
                apart = All-snoc _ s.unexp_req_q _ v.apart (waits r s w u);
              })
        | inr u ↦ rw (part, u) (record { posted = v.posted; apart = v.apart })
      ]
    ]
recv_func-IsApart rndv r m xfer_length s w v = elim (Bool-cases r.unexpected) [
  | inl u ↦
      rw u
        (record { posted = v.posted; apart = All-snoc _ s.unexp_req_q _ v.apart (waits r s w u) })
  | inr u ↦ rw u (record { posted = v.posted; apart = v.apart })
]
recv_func-IsApart notify r m xfer_length s w v = v

-- A message that meets a posted receive, or waits if none is for it.
unexpected-ApartIf :
    (handler : Msg → HandlerAction) (alloc : Requests → Msg → Option ℕ) (o : Option ℕ)
    (s : Requests) (m : Msg)
    → All (NotFor m.match_info) s.recv_req_q
    → IsApart s
    → ApartIf (if_unexpected handler alloc o m s)
unexpected-ApartIf handler alloc none s m w v = tt
unexpected-ApartIf handler alloc (some id) s m w v =
    recv_func-IsApart m.type (unexpected_request id m) m m.msg_length s (inr w) v

matched-ApartIf :
    (handler : Msg → HandlerAction) (alloc : Requests → Msg → Option ℕ) (s : Requests) (m : Msg)
    (otherwise : Option Requests)
    → IsApart s
    → (All (NotFor m.match_info) s.recv_req_q → ApartIf otherwise)
    → ApartIf (if_matched handler alloc (match_recv m.match_info s.recv_req_q) m s otherwise)
matched-ApartIf handler alloc s m otherwise v next =
    found (match_recv m.match_info s.recv_req_q)
      (match_recv-FoundIf IsPosted m.match_info s.recv_req_q v.posted)
      (match_recv-LeftApart m.match_info s.recv_req_q s.unexp_req_q v.apart)
      (match_recv-MissedIf m.match_info s.recv_req_q)
  where
    found :
        (o : Option (RecvRequest × List RecvRequest))
        → FoundIf IsPosted o
        → LeftApart s.unexp_req_q o
        → MissedIf (All (NotFor m.match_info) s.recv_req_q) o
        → ApartIf (if_matched handler alloc o m s otherwise)
    found (some x) f l w =
        recv_func-IsApart m.type (matched x.0 m) m (min x.0.total_length m.msg_length)
          (record s { recv_req_q = x.1 }) (inl f.0) (record { posted = f.1; apart = l })
    found none f l w = next w

handled-ApartIf :
    (handler : Msg → HandlerAction) (alloc : Requests → Msg → Option ℕ) (s : Requests) (m : Msg)
    (a : HandlerAction)
    → IsApart (record s { recv_req_q = s.recv_req_q ++ posted_by a })
    → ApartIf (if_handled handler alloc a m s)
handled-ApartIf handler alloc s m (finished rs) v = v
handled-ApartIf handler alloc s m (posts rs) v =
    let s' : Requests = record s { recv_req_q = s.recv_req_q ++ rs } in
    matched-ApartIf handler alloc s' m _ v
      (λ w. unexpected-ApartIf handler alloc (alloc s' m) s' m w v)

-- Where no posted receive is for a message that waits, also with what the unexpected handler posts,
-- taking a message keeps it so, whether it meets a receive, waits, or is taken care of.
pub try_match_next_recv-ApartIf :
    (handler : Msg → HandlerAction) (alloc : Requests → Msg → Option ℕ) (s : Requests) (m : Msg)
    → IsApart s
    → IsApart (record s { recv_req_q = s.recv_req_q ++ posted_by (handler m) })
    → ApartIf (try_match_next_recv handler alloc s m)
unfolding try_match_next_recv
try_match_next_recv-ApartIf handler alloc s m v keeps =
    matched-ApartIf handler alloc s m _ v (λ w. handled-ApartIf handler alloc s m (handler m) keeps)
