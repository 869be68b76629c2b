-- ===== src/Send/Posting.antt =====
-- When posting a medium message ends, and what it has posted then.
use open_mx.Common.{
  ℕ, zero, suc, ◌+◌, ◌-◌, ◌≤◌, ◌≡◌, refl, sym, ap, subst, ◌∙◌, Bool, true, false, List, [], ◌∷◌,
  Option, none, some, length, ltb, ◌==◌, ◌&&◌, if◌then◌else◌, add32, arith, Bool-cases, inl, inr,
  min,
}
use open_mx.Send.Medium.{
  frag_max, Frag, Refused, chunk_of, post_frags, finish_copy, Posted, if_refused,
  post_isend_mediumsq,
}

-- The first fragment, from `i` on, that a driver refuses, if it is one of `count`.
abbrev pub first_refused : (ℕ → Bool) → ℕ → ℕ → Option ℕ
first_refused driver zero i = none
first_refused driver (suc count) i = if driver i then first_refused driver count (i + 1) else some i

-- A first attempt that is refused before its last fragment.
abbrev pub if_stuck : Option ℕ → ℕ → ℕ → Bool
if_stuck none resends frags_nr = false
if_stuck (some i) resends frags_nr = resends == 0 && ltb (i + 1) frags_nr

abbrev pub stuck : (ℕ → Bool) → ℕ → ℕ → Bool
stuck driver resends frags_nr = if_stuck (first_refused driver frags_nr 0) resends frags_nr

finish_copy-none :
    (rounds frags_nr j i remaining offset : ℕ)
    → ltb j frags_nr ≡ true
    → finish_copy rounds frags_nr j i remaining offset ≡ none
unfolding finish_copy
finish_copy-none zero frags_nr j i remaining offset e = rw e refl
finish_copy-none (suc rounds) frags_nr j i remaining offset e =
    let chunk = chunk_of remaining in
    rw e (finish_copy-none rounds frags_nr j (add32 i 1) (remaining - chunk) (add32 offset chunk) e)

finish_copy-some :
    (rounds frags_nr j i remaining offset : ℕ)
    → ltb j frags_nr ≡ false
    → finish_copy rounds frags_nr j i remaining offset ≡ some i
unfolding finish_copy
finish_copy-some zero frags_nr j i remaining offset e = rw e refl
finish_copy-some (suc rounds) frags_nr j i remaining offset e = rw e refl

-- Consecutive fragments of a message, that begin with number `i` at `offset`.
abbrev pub IsChain : ℕ → ℕ → ℕ → List Frag → Type 0
IsChain i offset remaining [] = Unit {0}
IsChain i offset remaining (f ∷ fs) =
    (f.frag_seqnum ≡ i)
    × (f.offset ≡ offset)
    × (f.frag_length ≡ min frag_max remaining)
    × IsChain (i + 1) (offset + f.frag_length) (remaining - f.frag_length) fs

post_frags-IsChain :
    (driver : ℕ → Bool) (count i remaining offset : ℕ)
    → IsChain i offset remaining (post_frags driver count i remaining offset).0
unfolding post_frags
post_frags-IsChain driver zero i remaining offset = tt
post_frags-IsChain driver (suc count) i remaining offset =
    let chunk = chunk_of remaining in
    elim (Bool-cases (driver i)) [
      | inl ok ↦ rw ok (
        refl,
        refl,
        ground arith,
        post_frags-IsChain driver count (i + 1) (remaining - chunk) (offset + chunk),
      )
      | inr fails ↦ rw fails tt
    ]

-- The loop stops where the driver first refuses.
abbrev StopsIf : Option ℕ → Option Refused → Type 0
StopsIf none none = Unit {0}
StopsIf none (some e) = ⊥
StopsIf (some i) none = ⊥
StopsIf (some i) (some e) = e.at ≡ i

post_frags-StopsIf :
    (driver : ℕ → Bool) (count i remaining offset : ℕ)
    → StopsIf (first_refused driver count i) (post_frags driver count i remaining offset).1
unfolding post_frags
post_frags-StopsIf driver zero i remaining offset = tt
post_frags-StopsIf driver (suc count) i remaining offset =
    let chunk = chunk_of remaining in
    elim (Bool-cases (driver i)) [
      | inl ok ↦
          rw ok (post_frags-StopsIf driver count (i + 1) (remaining - chunk) (offset + chunk))
      | inr fails ↦ rw fails refl
    ]

-- How many fragments went out.
abbrev sent_before : Option ℕ → ℕ → ℕ
sent_before none upto = upto
sent_before (some i) upto = i

post_frags-length :
    (driver : ℕ → Bool) (count i remaining offset : ℕ)
    → i + length (post_frags driver count i remaining offset).0
      ≡ sent_before (first_refused driver count i) (i + count)
unfolding post_frags
post_frags-length driver zero i remaining offset = refl
post_frags-length driver (suc count) i remaining offset =
    let chunk = chunk_of remaining in
    elim (Bool-cases (driver i)) [
      | inl ok ↦ rw ok (
          omega arith
          ∙ post_frags-length driver count (i + 1) (remaining - chunk) (offset + chunk)
          ∙ ap (sent_before (first_refused driver count (i + 1))) (omega arith))
      | inr fails ↦ rw fails (omega arith)
    ]

first_refused-bound :
    (driver : ℕ → Bool) (count i : ℕ)
    → sent_before (first_refused driver count i) (i + count) ≤ i + count
first_refused-bound driver zero i = omega arith
first_refused-bound driver (suc count) i = elim (Bool-cases (driver i)) [
  | inl ok ↦ rw ok (
      subst (λ (n : ℕ). sent_before (first_refused driver count (i + 1)) n ≤ n) (omega arith)
        (first_refused-bound driver count (i + 1)))
  | inr fails ↦ rw fails (omega arith)
]

-- A post that ended: what went out, all fragments accounted for, and the events of the others given
-- back.
pub record IsPosted (driver : ℕ → Bool) (frags_nr len : ℕ) (x : Posted) : Type 0 where
  pub upto : length x.frags ≡ sent_before (first_refused driver frags_nr 0) frags_nr
  pub chain : IsChain 0 0 len x.frags
  pub pending : x.frags_pending_nr ≡ length x.frags
  pub events : x.frags_pending_nr + x.events_back ≡ frags_nr

abbrev pub PostedIf : (ℕ → Bool) → ℕ → ℕ → Bool → Option Posted → Type 0
PostedIf driver frags_nr len true o = o ≡ none
PostedIf driver frags_nr len false o = (x : Posted) × (o ≡ some x) × IsPosted driver frags_nr len x

-- For any driver: if a first attempt is refused before the last fragment, the function does not end
-- within any number of rounds of its copy loop. Otherwise it ends: the fragments before the refused
-- one went out, in order, cut at 4096 bytes, they are the pending ones, and the events of the
-- others are given back.
pub post_isend_mediumsq-PostedIf :
    (rounds : ℕ) (driver : ℕ → Bool) (resends frags_nr len : ℕ)
    → PostedIf driver frags_nr len
        (stuck driver resends frags_nr)
        (post_isend_mediumsq rounds driver resends frags_nr len)
unfolding post_isend_mediumsq
post_isend_mediumsq-PostedIf rounds driver resends frags_nr len =
    cases (first_refused driver frags_nr 0) (post_frags driver frags_nr 0 len 0).1 refl
      (post_frags-StopsIf driver frags_nr 0 len 0) (post_frags-length driver frags_nr 0 len 0)
      (first_refused-bound driver frags_nr 0)
  where
    frags : List Frag
    frags = (post_frags driver frags_nr 0 len 0).0

    ended :
        (o : Option ℕ) (i : ℕ) (x : Posted)
        → first_refused driver frags_nr 0 ≡ o
        → x.frags ≡ frags
        → length frags ≡ sent_before o frags_nr
        → x.frags_pending_nr ≡ length frags
        → x.frags_pending_nr + x.events_back ≡ frags_nr
        → IsPosted driver frags_nr len x
    ended o i x e same l pending events = record {
      upto = ap length same ∙ l ∙ ap (λ (o : Option ℕ). sent_before o frags_nr) (sym e);
      chain = rw same (post_frags-IsChain driver frags_nr 0 len 0);
      pending = pending ∙ ap length (sym same);
      events = events;
    }

    cases :
        (o : Option ℕ) (e : Option Refused)
        → first_refused driver frags_nr 0 ≡ o
        → StopsIf o e
        → 0 + length frags ≡ sent_before o (0 + frags_nr)
        → sent_before o (0 + frags_nr) ≤ 0 + frags_nr
        → PostedIf driver frags_nr len
            (if_stuck o resends frags_nr)
            (if_refused rounds resends frags_nr frags e)
    cases none none q s l b =
        (_, refl, ended none 0 _ q refl (omega (arith, l)) (omega (arith, l)) (omega arith))
    cases none (some e) q s l b = elim s [ ]
    cases (some i) none q s l b = elim s [ ]
    cases (some i) (some e) q s l b = elim (Bool-cases (resends == 0)) [
      | inl first ↦ elim (Bool-cases (ltb (i + 1) frags_nr)) [
        | inl more ↦
            rw
              (
                first,
                more,
                finish_copy-none rounds frags_nr (e.at + 1) e.at e.remaining e.offset (rw s more),
              )
              refl
        | inr last ↦
            rw
              (
                first,
                last,
                finish_copy-some rounds frags_nr (e.at + 1) e.at e.remaining e.offset (rw s last),
              )
              (
                _,
                refl,
                ended (some i) 0 _ q refl (omega (arith, l)) (omega (arith, l, s))
                    (omega (arith, s, b)),
              )
      ]
      | inr again ↦ rw again (
        _,
        refl,
        ended (some i) 0 _ q refl (omega (arith, l)) (omega (arith, l, s)) (omega (arith, s, b)),
      )
    ]
