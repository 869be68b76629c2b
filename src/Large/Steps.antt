-- ===== src/Large/Steps.antt =====
-- Runs of large messages at an endpoint, in any order of their steps.
use open_mx.Common.{
  ℕ, ◌≡◌, refl, sym, subst, ◌⊎◌, inl, inr, true, false, List, [], ◌∷◌, ◌++◌, Option, none, some,
  arith, append_assoc, Bool-cases,
}
use open_mx.Regions.{Region, RegionMap, Globals, map_init}
use open_mx.Regions.Ledger.{Use, IsMap}
use open_mx.Regions.Init.{map_init-IsMap}
use open_mx.Large.{Transfer, send_large, recv_large, Resources, complete_unsent, drop_need_reply}
use open_mx.Large.Account.{
  held, all_held, all_send_slots, all_exp_events, all_held-append, IsAccounted, IsAccounted-Holds,
  Holds-IsAccounted,
}
use open_mx.Large.Move.{IsMap-front}
use open_mx.Large.Step.{Step, Step-IsAccounted, Step-beside, TransferType-cases}

-- A run of such steps, the requests of it that go on, and those that were completed with what they
-- held: a pull that is completed before the driver has it, and a large send that was acked, when its
-- partner is dropped before the notify comes.
pub data Run (g : Globals) (s : Resources) (ts : List Transfer)
    : Resources → List Transfer → List Transfer → Type 0 where
  start : Run g s ts s ts []
  then_step :
      {s' s'' : Resources} {ts' ts'' lost : List Transfer}
      → Run g s ts s' ts' lost
      → Step g s' ts' s'' ts''
      → Run g s ts s'' ts'' lost
  then_unsent_pull :
      {s' : Resources} (xs : List Transfer) (t : Transfer) (ys : List Transfer)
      {lost : List Transfer}
      → t.type ≡ recv_large
      → t.partial ≡ true
      → Run g s ts s' (xs ++ t ∷ ys) lost
      → Run g s ts (complete_unsent g s' t) (xs ++ ys) (t ∷ lost)
  then_dropped :
      {s' : Resources} (xs : List Transfer) (t : Transfer) (ys : List Transfer)
      {lost : List Transfer}
      → t.type ≡ send_large
      → t.need_ack ≡ false
      → t.need_reply ≡ true
      → Run g s ts s' (xs ++ t ∷ ys) lost
      → Run g s ts (drop_need_reply s' t) (xs ++ ys) (t ∷ lost)

-- A request may stand first.
held-front :
    {g : Globals} {c : RegionMap} (us : List Use) (xs ys : List Use)
    → (us ≡ []) ⊎ ((id : ℕ) × (q : Option ℕ) × (us ≡ (id, q) ∷ []))
    → IsMap g c (xs ++ (us ++ ys))
    → IsMap g c (us ++ (xs ++ ys))
held-front {g} {c} us xs ys (inl e) m = rw e (subst (λ vs. IsMap g c (xs ++ (vs ++ ys))) e m)
held-front {g} {c} us xs ys (inr (id, q, e)) m =
    rw e (IsMap-front id q xs ys (subst (λ vs. IsMap g c (xs ++ (vs ++ ys))) e m))

held-cases : (t : Transfer) → (held t ≡ []) ⊎ ((id : ℕ) × (q : Option ℕ) × (held t ≡ (id, q) ∷ []))
held-cases t = elim (Bool-cases t.missing_large_region) [
  | inl missing ↦ inl (ground arith)
  | inr got ↦ elim (TransferType-cases t.type) [
    | inl e ↦ inr (t.region, some t.id, ground arith)
    | inr e ↦ inr (t.region, none, ground arith)
  ]
]

-- A request that holds something still, and goes on no more.
lost-IsAccounted :
    {g : Globals} {events : ℕ} {s : Resources} (lost xs : List Transfer) (t : Transfer)
    (ys : List Transfer)
    → IsAccounted g events s (lost ++ (xs ++ t ∷ ys))
    → IsAccounted g events s (t ∷ lost ++ (xs ++ ys))
unfolding all_held
lost-IsAccounted {g} {events} {s} lost xs t ys a =
    let a' : IsAccounted g events s ((lost ++ xs) ++ t ∷ ys) =
      subst (IsAccounted g events s) (sym (append_assoc lost xs (t ∷ ys))) a in
    let h = IsAccounted-Holds (lost ++ xs) ys t a' in
    subst (λ zs. IsAccounted g events s (t ∷ zs)) (append_assoc lost xs ys)
      (Holds-IsAccounted [] ((lost ++ xs) ++ ys) t (record {
        map =
            rw (all_held-append (lost ++ xs) ys)
              (held-front (held t) (all_held (lost ++ xs)) (all_held ys) (held-cases t) h.map);
        sends = h.sends;
        expected = h.expected;
      }))

Run-IsAccounted :
    {g : Globals} {events : ℕ} {s : Resources} {ts : List Transfer} {s' : Resources}
    {ts' lost : List Transfer}
    → Run g s ts s' ts' lost
    → IsAccounted g events s ts
    → IsAccounted g events s' (lost ++ ts')
unfolding complete_unsent drop_need_reply
Run-IsAccounted start a = a
Run-IsAccounted (then_step {lost = lost} r st) a =
    Step-IsAccounted (Step-beside lost st) (Run-IsAccounted r a)
Run-IsAccounted {g} {events} (then_unsent_pull {s'} xs t ys {lost} pull part r) a =
    let e : complete_unsent g s' t ≡ s' = ground (arith, pull, part) in
    subst (λ z. IsAccounted g events z (t ∷ lost ++ (xs ++ ys))) (sym e)
      (lost-IsAccounted lost xs t ys (Run-IsAccounted r a))
Run-IsAccounted (then_dropped xs t ys {lost} send acked reply r) a =
    let x = lost-IsAccounted lost xs t ys (Run-IsAccounted r a) in
    record { map = x.map; sends = x.sends; expected = x.expected }

-- The resources of a new endpoint.
abbrev pub fresh : (ℕ → Region) → ℕ → Resources
fresh memory events = record {
  regions = map_init memory;
  avail_exp_events = events;
  driver_pulling_req_q = [];
  large_send_need_reply_req_q = [];
  done = [];
}

pub fresh_run-IsAccounted :
    (g : Globals) (memory : ℕ → Region) (events : ℕ) (s : Resources) (ts lost : List Transfer)
    → Run g (fresh memory events) [] s ts lost
    → IsAccounted g events s (lost ++ ts)
unfolding map_init all_held all_send_slots all_exp_events
fresh_run-IsAccounted g memory events s ts lost run =
    Run-IsAccounted run
      (record { map = map_init-IsMap g memory; sends = refl; expected = omega arith })
