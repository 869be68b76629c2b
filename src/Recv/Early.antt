-- ===== src/Recv/Early.antt =====
-- The queue of early packets.
use open_mx.Common.{ℕ, Bool, true, false, List, [], ◌∷◌, Option, none, some, ltb, if◌then◌else◌}
use open_mx.Seqnum.{diff}
use open_mx.Recv.Defs.{Msg, is_medium_frag}
use open_mx.Recv.Order.{turned, cons_some, insert_early, turned_back, postpone_early}

-- Every element of a list.
abbrev pub All : {A : Type 0} → (A → Type 0) → List A → Type 0
All P [] = Unit {0}
All P (m ∷ ms) = P m × All P ms

abbrev pub AllSome : (Msg → Type 0) → Option (List Msg) → Type 0
AllSome P none = Unit {0}
AllSome P (some ms) = All P ms

pub All-map :
    {A : Type 0} (P Q : A → Type 0) (ms : List A) → ((m : A) → P m → Q m) → All P ms → All Q ms
All-map P Q [] f v = tt
All-map P Q (m ∷ ms) f v = (f m v.0, All-map P Q ms f v.1)

All-turned : (P : Msg → Type 0) (xs acc : List Msg) → All P xs → All P acc → All P (turned xs acc)
All-turned P [] acc v w = w
All-turned P (x ∷ xs) acc v w = All-turned P xs (x ∷ acc) v.1 (v.0, w)

AllSome-cons :
    (P : Msg → Type 0) (e : Msg) (o : Option (List Msg))
    → P e
    → AllSome P o
    → AllSome P (cons_some e o)
AllSome-cons P e none p v = tt
AllSome-cons P e (some ms) p v = (p, v)

AllSome-if :
    (P : Msg → Type 0) (b : Bool) (x y : Option (List Msg))
    → AllSome P x
    → AllSome P y
    → AllSome P (if b then x else y)
AllSome-if P true x y v w = v
AllSome-if P false x y v w = w

insert_early-AllSome :
    (P : Msg → Type 0) (next : ℕ) (m : Msg) (q : List Msg)
    → P m
    → All P q
    → AllSome P (insert_early next m q)
unfolding insert_early
insert_early-AllSome P next m [] p v = (p, tt)
insert_early-AllSome P next m (e ∷ es) p v =
    let here : AllSome P (some (m ∷ e ∷ es)) = (p, v) in
    let further =
      AllSome-cons P e (insert_early next m es) v.0 (insert_early-AllSome P next m es p v.1) in
    let later = cons_some e (insert_early next m es) in
    let ahead = ltb (diff e.seqnum next) (diff m.seqnum next) in
    let behind = ltb (diff m.seqnum next) (diff e.seqnum next) in
    let ahead' = ltb e.frag_seqnum m.frag_seqnum in
    let behind' = ltb m.frag_seqnum e.frag_seqnum in
    let frag = if behind' then later else none in
    let same = if ahead' then some (m ∷ e ∷ es) else frag in
    let equal = if is_medium_frag m.type then same else none in
    AllSome-if P ahead (some (m ∷ e ∷ es)) (if behind then later else equal) here (
      AllSome-if P behind later equal further (
        AllSome-if P (is_medium_frag m.type) same none
          (AllSome-if P ahead' (some (m ∷ e ∷ es)) frag here
            (AllSome-if P behind' later none further tt))
          tt))

-- A packet that is postponed joins the queue or is dropped.
pub postpone_early-All :
    (P : Msg → Type 0) (memory : Bool) (next : ℕ) (m : Msg) (q : List Msg)
    → P m
    → All P q
    → All P (postpone_early memory next m q)
unfolding postpone_early
postpone_early-All P false next m q p v = v
postpone_early-All P true next m q p v =
    joins (insert_early next m (turned q []))
      (insert_early-AllSome P next m (turned q []) p (All-turned P q [] v tt))
  where
    joins : (o : Option (List Msg)) → AllSome P o → All P (turned_back q o)
    joins none w = v
    joins (some back) w = All-turned P back [] w tt
