-- ===== src/Recv/Reassembly.antt =====
-- Medium messages, which come in fragments: in any order, and more than once.
use open_mx.Common.{
  ℕ, zero, suc, ◌+◌, ◌-◌, ◌*◌, ◌/◌, ◌%◌, ◌^◌, ◌<◌, ◌≤◌, ◌≡◌, ◌≢◌, refl, sym, ap, subst, ◌∙◌, inl,
  inr, Bool, true, false, ltb, ◌==◌, min, if◌then◌else◌, arith, Bool-cases, ==→eq, ==→ne,
}
use open_mx.Recv.Defs.{Msg}
use open_mx.Recv.Match.{bit}

-- A bit that is set.
pub bit_set : (mask k : ℕ) → bit mask k ≡ false → bit (mask + 2 ^ k) k ≡ true
bit_set mask zero e = ground arith
bit_set mask (suc k) e =
    let half : (mask + 2 ^ suc k) / 2 ≡ mask / 2 + 2 ^ k = omega arith in
    rw half (bit_set (mask / 2) k e)

pub bit_other : (mask k i : ℕ) → i ≢ k → bit mask k ≡ false → bit (mask + 2 ^ k) i ≡ bit mask i
bit_other mask zero zero ne e = absurd (ne refl)
bit_other mask zero (suc i) ne e =
    let half : (mask + 2 ^ 0) / 2 ≡ mask / 2 = ground arith in ap (λ (x : ℕ). bit x i) half
bit_other mask (suc k) zero ne e =
    let even : (mask + 2 ^ suc k) % 2 ≡ mask % 2 = omega arith in ap (λ (x : ℕ). x == 1) even
bit_other mask (suc k) (suc i) ne e =
    let half : (mask + 2 ^ suc k) / 2 ≡ mask / 2 + 2 ^ k = omega arith in
    rw half (bit_other (mask / 2) k i (λ (x : i ≡ k). ne (ap suc x)) e)

-- A bit that is not set does not carry.
pub bit_within : (w mask k : ℕ) → mask < 2 ^ w → k < w → bit mask k ≡ false → mask + 2 ^ k < 2 ^ w
bit_within zero mask k m lt e = elim lt [ ]
bit_within (suc w) mask zero m lt e =
    let d : 2 ^ suc w ≡ 2 * 2 ^ w = omega arith in
    let even : mask % 2 ≢ 1 = ==→ne (mask % 2) 1 e in omega (arith, m, d, even)
bit_within (suc w) mask (suc k) m lt e =
    let d : 2 ^ suc w ≡ 2 * 2 ^ w = omega arith in
    let d' : 2 ^ suc k ≡ 2 * 2 ^ k = omega arith in
    let half : mask / 2 < 2 ^ w = omega (arith, m, d) in
    omega (arith, bit_within w (mask / 2) k half (omega (arith, lt)) e, d, d')

pub bit_zero : (k : ℕ) → bit 0 k ≡ false
bit_zero zero = refl
bit_zero (suc k) = bit_zero k

pow-pos : (p : ℕ) → 0 < 2 ^ p
pow-pos zero = omega arith
pow-pos (suc p) = omega (arith, pow-pos p)

-- A message of `L` bytes in `F` fragments of `2 ^ p`, the last of which may be shorter: `content x`
-- is byte `x`.
module _ (content : ℕ → ℕ) (L p F : ℕ) where
  abbrev pub chunk : ℕ → ℕ
  chunk i = min (2 ^ p) (L - i * 2 ^ p)

  -- All of it is in the fragments, and none is empty.
  pub record IsCut : Type 0 where
    pub enough : L ≤ F * 2 ^ p
    pub none_empty : (i : ℕ) → i < F → i * 2 ^ p < L

  -- A packet with a fragment of it.
  pub record IsFrag (m : Msg) : Type 0 where
    pub index : m.frag_seqnum < F
    pub pipeline : m.frag_pipeline ≡ p
    pub length : m.frag_length ≡ chunk m.frag_seqnum
    pub payload : (k : ℕ) → k < m.frag_length → m.bytes k ≡ content (m.frag_seqnum * 2 ^ p + k)

  -- The bytes of the fragments in a mask, among the first `n`.
  abbrev pub received : ℕ → ℕ → ℕ
  received mask zero = 0
  received mask (suc n) = received mask n + (if bit mask n then chunk n else 0)

  pub received-le : (mask n : ℕ) → received mask n ≤ min L (n * 2 ^ p)
  received-le mask zero = omega arith
  received-le mask (suc n) =
      let le = received-le mask n in
      let step : suc n * 2 ^ p ≡ n * 2 ^ p + 2 ^ p = omega arith in
      elim (Bool-cases (bit mask n)) [
        | inl b ↦ rw b (ground (arith, le, step))
        | inr b ↦ rw b (ground (arith, le, step))
      ]

  pub received-none : (n : ℕ) → received 0 n ≡ 0
  received-none zero = refl
  received-none (suc n) = rw (bit_zero n) (omega (arith, received-none n))

  pub received-all :
      (mask n : ℕ) → ((i : ℕ) → i < n → bit mask i ≡ true) → received mask n ≡ min L (n * 2 ^ p)
  received-all mask zero all = omega arith
  received-all mask (suc n) all =
      let e = received-all mask n (λ (i : ℕ) lt. all i (omega arith)) in
      let step : suc n * 2 ^ p ≡ n * 2 ^ p + 2 ^ p = omega arith in
      rw (all n (omega arith)) (ground (arith, e, step))

  -- With all bytes, no fragment is missing.
  pub received-full :
      (mask n : ℕ)
      → ((i : ℕ) → i < n → i * 2 ^ p < L)
      → received mask n ≡ min L (n * 2 ^ p)
      → (i : ℕ) → i < n
      → bit mask i ≡ true
  received-full mask zero some_of full i lt = elim lt [ ]
  received-full mask (suc n) some_of full i lt =
      let le = received-le mask n in
      let pos : 0 < 2 ^ p = pow-pos p in
      let step : suc n * 2 ^ p ≡ n * 2 ^ p + 2 ^ p = omega arith in
      let own = some_of n (omega arith) in
      elim (Bool-cases (bit mask n)) [
        | inl b ↦
            let f : received mask n + chunk n ≡ min L (suc n * 2 ^ p) =
              ap (λ (x : Bool). received mask n + (if x then chunk n else 0)) (sym b) ∙ full in
            elim (Bool-cases (i == n)) [
              | inl e ↦ subst (λ (x : ℕ). bit mask x ≡ true) (sym (==→eq i n e)) b
              | inr e ↦
                  let ne = ==→ne i n e in
                  received-full mask n (λ (i : ℕ) lt. some_of i (omega arith))
                    (ground (arith, f, step, le)) i (ground (arith, ne))
            ]
        | inr b ↦
            let f : received mask n ≡ min L (suc n * 2 ^ p) =
              omega arith
              ∙ ap (λ (x : Bool). received mask n + (if x then chunk n else 0)) (sym b)
              ∙ full in
            absurd (ground (arith, f, step, le, own, pos))
      ]

  pub received-add :
      (mask k n : ℕ)
      → bit mask k ≡ false
      → received (mask + 2 ^ k) n ≡ received mask n + (if ltb k n then chunk k else 0)
  received-add mask k zero e = ground arith
  received-add mask k (suc n) e =
      let r = received-add mask k n e in
      let part : Bool → ℕ → ℕ = λ (b : Bool) (i : ℕ). if b then chunk i else 0 in
      elim (Bool-cases (n == k)) [
        | inl same ↦
            let s = ==→eq n k same in
            let past : ltb k n ≡ false = ground (arith, s) in
            let upto : ltb k (suc n) ≡ true = ground (arith, s) in
            ap (λ (b : Bool). received (mask + 2 ^ k) n + part b n)
              (ap (bit (mask + 2 ^ k)) s ∙ bit_set mask k e)
            ∙ ap (λ (x : ℕ). x + chunk n) (r ∙ ap (λ (b : Bool). received mask n + part b k) past)
            ∙ ap (λ (x : ℕ). received mask n + 0 + chunk x) s
            ∙ ap (λ (b : Bool). received mask n + part b n + chunk k) (sym (ap (bit mask) s ∙ e))
            ∙ ap (λ (b : Bool). received mask n + part (bit mask n) n + part b k) (sym upto)
        | inr other ↦
            let ne = ==→ne n k other in
            let side : ltb k (suc n) ≡ ltb k n = ground (arith, ne) in
            ap (λ (b : Bool). received (mask + 2 ^ k) n + part b n) (bit_other mask k n ne e)
            ∙ ap (λ (x : ℕ). x + part (bit mask n) n) r
            ∙ swap (received mask n) (part (ltb k n) k) (part (bit mask n) n)
            ∙ ap (λ (b : Bool). received mask n + part (bit mask n) n + part b k) (sym side)
      ]
    where
      swap : (a b c : ℕ) → a + b + c ≡ a + c + b
      swap a b c = omega arith
