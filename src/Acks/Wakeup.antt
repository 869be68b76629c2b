-- ===== src/Acks/Wakeup.antt =====
-- When the library is to be woken up.
use open_mx.Common.{
  ℕ, ◌+◌, ◌%◌, ◌^◌, ◌<◌, ◌≤◌, ◌≡◌, refl, sym, subst, ◌∙◌, ◌⊎◌, inl, inr, List, [], ◌∷◌, ltb, ◌==◌,
  arith, Bool-cases, ==→eq, ==→ne,
}
use open_mx.Acks.{sooner, first_due, prepare_progress_wakeup}

-- Times of 64 bits in ascending order, that do not overflow with a delay and are not 0.
abbrev pub IsQueue : ℕ → ℕ → List ℕ → Type 0
IsQueue delay t [] = Unit {0}
IsQueue delay t (x ∷ xs) = (t ≤ x) × (0 < x) × (x + delay < 2 ^ 64) × IsQueue delay x xs

-- A wake-up that comes before all that a queue waits for.
abbrev pub Before : ℕ → ℕ → List ℕ → Type 0
Before wakeup delay [] = Unit {0}
Before wakeup delay (x ∷ xs) = (wakeup ≤ x + delay) × Before wakeup delay xs

-- A wake-up that is for something in a queue.
abbrev pub IsFor : ℕ → ℕ → List ℕ → Type 0
IsFor wakeup delay [] = ⊥
IsFor wakeup delay (x ∷ xs) = (wakeup ≡ x + delay) ⊎ IsFor wakeup delay xs

Before-sorted :
    (wakeup delay t : ℕ) (xs : List ℕ)
    → wakeup ≤ t + delay
    → IsQueue delay t xs
    → Before wakeup delay xs
Before-sorted wakeup delay t [] le v = tt
Before-sorted wakeup delay t (x ∷ xs) le v =
    (omega (arith, le, v.0), Before-sorted wakeup delay x xs (omega (arith, le, v.0)) v.3)

-- The sooner of a time and the wake-up so far, where 0 is none.
sooner-cases :
    (tmp w : ℕ)
    → ((sooner tmp w ≡ tmp) × ((w ≡ 0) ⊎ (tmp ≤ w))) ⊎ ((sooner tmp w ≡ w) × (0 < w) × (w ≤ tmp))
sooner-cases tmp w = elim (Bool-cases (ltb tmp w)) [
  | inl b ↦ let lt : tmp < w = ground (arith, b) in rw b (inl (refl, inr (omega (arith, lt))))
  | inr b ↦ elim (Bool-cases (w == 0)) [
    | inl z ↦ let e = ==→eq w 0 z in rw (b, z) (inl (refl, inl e))
    | inr p ↦ let ne = ==→ne w 0 p in rw (b, p) (inr (refl, ground (arith, ne), ground (arith, b)))
  ]
]

-- What one more queue does to the wake-up.
record Sooner (delay : ℕ) (xs : List ℕ) (w w' : ℕ) : Type 0 where
  earlier : (w ≡ 0) ⊎ (w' ≤ w)
  all : Before w' delay xs
  from : ((w' ≡ w) × ((w ≡ 0) → xs ≡ [])) ⊎ IsFor w' delay xs

first_due-Sooner :
    (delay t : ℕ) (xs : List ℕ) (w : ℕ)
    → IsQueue delay t xs
    → Sooner delay xs w (first_due delay xs w)
first_due-Sooner delay t [] w v = record {
  earlier = inr (omega arith);
  all = tt;
  from = inl (refl, λ e. refl);
}
first_due-Sooner delay t (x ∷ xs) w v =
    let tmp : (x + delay) % 2 ^ 64 ≡ x + delay = omega (arith, v.2) in
    elim (sooner-cases ((x + delay) % 2 ^ 64) w) [
      | inl (e, le) ↦
          let at : sooner ((x + delay) % 2 ^ 64) w ≡ x + delay = e ∙ tmp in
          let up_to : sooner ((x + delay) % 2 ^ 64) w ≤ x + delay = omega (arith, at) in
          record {
            earlier = no_later e le;
            all = (up_to, Before-sorted _ delay x xs up_to v.3);
            from = inr (inl at);
          }
      | inr (e, positive, le) ↦
          let up_to : sooner ((x + delay) % 2 ^ 64) w ≤ x + delay = omega (arith, e, le, tmp) in
          record {
            earlier = inr (omega (arith, e));
            all = (up_to, Before-sorted _ delay x xs up_to v.3);
            from = inl (e, λ z. absurd (omega (arith, positive, z)));
          }
    ]
  where
    no_later : {a b : ℕ} → a ≡ b → (w ≡ 0) ⊎ (b ≤ w) → (w ≡ 0) ⊎ (a ≤ w)
    no_later e (inl z) = inl z
    no_later e (inr le) = inr (omega (arith, e, le))

Before-wider : (w w' delay : ℕ) (xs : List ℕ) → w' ≤ w → Before w delay xs → Before w' delay xs
Before-wider w w' delay [] le v = tt
Before-wider w w' delay (x ∷ xs) le v = (omega (arith, v.0), Before-wider w w' delay xs le v.1)

IsFor-positive : (w delay t : ℕ) (xs : List ℕ) → IsQueue delay t xs → IsFor w delay xs → 0 < w
IsFor-positive w delay t [] v for = elim for [ ]
IsFor-positive w delay t (x ∷ xs) v (inl e) = omega (arith, e, v.1)
IsFor-positive w delay t (x ∷ xs) v (inr for) = IsFor-positive w delay x xs v.3 for

-- There is no wake-up only if nothing waits.
Sooner-none :
    (delay t : ℕ) (xs : List ℕ) (w w' : ℕ)
    → IsQueue delay t xs
    → Sooner delay xs w w'
    → w' ≡ 0
    → (w ≡ 0) × (xs ≡ [])
Sooner-none delay t xs w w' v s e = elim s.from [
  | inl (same, f) ↦ let z = sym same ∙ e in (z, f z)
  | inr for ↦ let p = IsFor-positive w' delay t xs v for in absurd (omega (arith, p, e))
]

-- The wake-up stays before what the queues so far wait for.
Before-Sooner :
    (delay : ℕ) (xs : List ℕ) (w w' : ℕ)
    → Sooner delay xs w w'
    → (delay' : ℕ) (ys : List ℕ) → (w ≡ 0 → ys ≡ [])
    → Before w delay' ys
    → Before w' delay' ys
Before-Sooner delay xs w w' s delay' ys none v = elim s.earlier [
  | inl z ↦ rw (none z) tt
  | inr le ↦ Before-wider w w' delay' ys le v
]

-- The wake-up of three queues.
pub record IsEarliest (ack_delay resend_delay : ℕ) (delayed non_acked connects : List ℕ) (w : ℕ)
    : Type 0 where
  pub acks : Before w ack_delay delayed
  pub resends : Before w resend_delay non_acked
  pub reconnects : Before w resend_delay connects
  pub for_one :
      ((w ≡ 0) × (delayed ≡ []) × (non_acked ≡ []) × (connects ≡ []))
      ⊎ (IsFor w ack_delay delayed
          ⊎ (IsFor w resend_delay non_acked ⊎ IsFor w resend_delay connects))

-- For queues in the order of their times, which are not 0 and do not overflow with their delay, the
-- wake-up is no later than the time of any delayed ack, resend or connect, and it is the time of one of
-- them; there is none exactly when nothing waits.
pub prepare_progress_wakeup-IsEarliest :
    (ack_delay resend_delay : ℕ) (delayed non_acked connects : List ℕ)
    → IsQueue ack_delay 0 delayed
    → IsQueue resend_delay 0 non_acked
    → IsQueue resend_delay 0 connects
    → IsEarliest ack_delay resend_delay delayed non_acked connects
        (prepare_progress_wakeup ack_delay resend_delay delayed non_acked connects)
unfolding prepare_progress_wakeup
prepare_progress_wakeup-IsEarliest ack_delay resend_delay delayed non_acked connects u v w =
    let a = first_due ack_delay delayed 0 in
    let b = first_due resend_delay non_acked a in
    let c = first_due resend_delay connects b in
    let x = first_due-Sooner ack_delay 0 delayed 0 u in
    let y = first_due-Sooner resend_delay 0 non_acked a v in
    let z = first_due-Sooner resend_delay 0 connects b w in
    let none_a = λ (e : a ≡ 0). (Sooner-none ack_delay 0 delayed 0 a u x e).1 in
    let none_b = Sooner-none resend_delay 0 non_acked a b v y in
    record {
      acks =
          Before-Sooner resend_delay connects b c z ack_delay delayed
            (λ (e : b ≡ 0). none_a (none_b e).0)
            (Before-Sooner resend_delay non_acked a b y ack_delay delayed none_a x.all);
      resends =
          Before-Sooner resend_delay connects b c z resend_delay non_acked
            (λ (e : b ≡ 0). (none_b e).1) y.all;
      reconnects = z.all;
      for_one = elim z.from [
        | inr for ↦ inr (inr (inr for))
        | inl (ez, fz) ↦ elim y.from [
          | inr for ↦
              inr (inr (inl (subst (λ (n : ℕ). IsFor n resend_delay non_acked) (sym ez) for)))
          | inl (ey, fy) ↦ elim x.from [
            | inr for ↦ inr (inl (subst (λ (n : ℕ). IsFor n ack_delay delayed) (sym (ez ∙ ey)) for))
            | inl (ex, fx) ↦ inl (ez ∙ ey ∙ ex, fx refl, fy ex, fz (ey ∙ ex))
          ]
        ]
      ];
    }
