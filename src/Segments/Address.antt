-- ===== src/Segments/Address.antt =====
-- Where the bytes of a scattered buffer are, and what a memcpy leaves as it was.
use open_mx.Common.{
  ℕ, ◌+◌, ◌-◌, ◌<◌, ◌≤◌, ◌≡◌, refl, ◌⊎◌, inl, inr, List, [], ◌∷◌, ltb, leb, if◌then◌else◌, arith,
  Bool-cases, ltb→lt, ltb→ge, lt→leb, le→leb, lt→ltb, le→ltb,
}
use open_mx.Segments.Defs.{Seg}
use open_mx.Segments.Copy.{Memory, memcpy}

-- The address of byte `k` of the segments.
unfoldable pub addr : List Seg → ℕ → ℕ
addr [] k = 0
addr (s ∷ ss) k = if ltb k s.len then s.vaddr + k else addr ss (k - s.len)

unfoldable pub sum : List Seg → ℕ
sum [] = 0
sum (s ∷ ss) = s.len + sum ss

-- A range that no segment overlaps.
abbrev pub IsApart : ℕ → ℕ → List Seg → Type 0
IsApart at n [] = Unit {0}
IsApart at n (s ∷ ss) = ((s.vaddr + s.len ≤ at) ⊎ (at + n ≤ s.vaddr)) × IsApart at n ss

pub IsApart-part :
    {at at' : ℕ} (n n' : ℕ) (ss : List Seg)
    → at ≤ at'
    → at' + n' ≤ at + n
    → IsApart at n ss
    → IsApart at' n' ss
IsApart-part n n' [] lo hi v = tt
IsApart-part n n' (s ∷ ss) lo hi (v, w) = (
  elim v [ inl below ↦ inl (omega arith) | inr above ↦ inr (omega arith) ],
  IsApart-part n n' ss lo hi w,
)

-- A byte of the segments is outside such a range.
pub addr-IsApart :
    {at : ℕ} (n : ℕ) (ss : List Seg) (k : ℕ)
    → IsApart at n ss
    → k < sum ss
    → (addr ss k < at) ⊎ (at + n ≤ addr ss k)
unfolding addr sum
addr-IsApart n [] k v h = elim h [ ]
addr-IsApart n (s ∷ ss) k (v, w) h = elim (Bool-cases (ltb k s.len)) [
  | inl here ↦ rw here (elim v [
    | inl below ↦ inl (omega (arith, ltb→lt k s.len here))
    | inr above ↦ inr (omega arith)
  ])
  | inr there ↦ rw there (addr-IsApart n ss (k - s.len) w (omega (arith, ltb→ge k s.len there)))
]

pub memcpy-in :
    (dst src n : ℕ) (m : Memory) (a : ℕ)
    → dst ≤ a
    → a < dst + n
    → memcpy dst src n m a ≡ m (src + (a - dst))
unfolding memcpy
memcpy-in dst src n m a lo hi = rw (le→leb dst a lo, lt→ltb a (dst + n) hi) refl

pub memcpy-out :
    (dst src n : ℕ) (m : Memory) (a : ℕ) → (a < dst) ⊎ (dst + n ≤ a) → memcpy dst src n m a ≡ m a
unfolding memcpy
memcpy-out dst src n m a (inl below) = rw (lt→leb dst a below) refl
memcpy-out dst src n m a (inr above) = elim (Bool-cases (leb dst a)) [
  | inl b ↦ rw (b, le→ltb a (dst + n) above) refl
  | inr b ↦ rw b refl
]
