-- ===== src/Regions/Uses.antt =====
-- The uses of a region when one of them ends.
use open_mx.Common.{
  ℕ, ◌+◌, ◌≡◌, ◌≢◌, refl, sym, ◌∙◌, inl, inr, false, List, [], ◌∷◌, ◌++◌, Option, none, some, ◌==◌,
  if◌then◌else◌, arith, Bool-cases,
}
use open_mx.Regions.{Region, leave_region}
use open_mx.Regions.Ledger.{Use, uses, reservers, to_list}

-- One use that ends.
module _ (i id : ℕ) (q : Option ℕ) where
  pub uses-middle :
      (xs ys : List Use)
      → uses i (xs ++ (id, q) ∷ ys) ≡ uses i (xs ++ ys) + (if i == id then 1 else 0)
  unfolding uses
  uses-middle [] ys = omega arith
  uses-middle ((j, p) ∷ xs) ys = omega (arith, uses-middle xs ys)

  pub reservers-other :
      (xs ys : List Use)
      → (i == id) ≡ false
      → reservers i (xs ++ (id, q) ∷ ys) ≡ reservers i (xs ++ ys)
  unfolding reservers
  reservers-other [] ys e = ground arith
  reservers-other ((j, p) ∷ xs) ys e = ground (arith, reservers-other xs ys e)

-- A use without a reserver ends.
pub reservers-unreserved :
    (id : ℕ) (xs ys : List Use) → reservers id (xs ++ (id, none) ∷ ys) ≡ reservers id (xs ++ ys)
unfolding reservers
reservers-unreserved id [] ys = ground arith
reservers-unreserved id ((j, p) ∷ xs) ys = ground (arith, reservers-unreserved id xs ys)

reservers-has : (id r : ℕ) (xs ys : List Use) → reservers id (xs ++ (id, some r) ∷ ys) ≢ []
unfolding reservers
reservers-has id r [] ys e = ground arith
reservers-has id r ((j, none) ∷ xs) ys e = ground (arith, reservers-has id r xs ys)
reservers-has id r ((j, some p) ∷ xs) ys e = ground (arith, reservers-has id r xs ys)

-- The use of the only reserver ends.
reservers-only :
    (id r : ℕ) (xs ys : List Use) (o : Option ℕ)
    → reservers id (xs ++ (id, some r) ∷ ys) ≡ to_list o []
    → reservers id (xs ++ ys) ≡ []
unfolding reservers
reservers-only id r [] ys none e = ground arith
reservers-only id r [] ys (some o) e = ground arith
reservers-only id r ((j, none) ∷ xs) ys o e = ground (arith, reservers-only id r xs ys o)
reservers-only id r ((j, some p) ∷ xs) ys o e = elim (Bool-cases (id == j)) [
  | inl same ↦ absurd (reservers-has id r xs ys (ground arith))
  | inr other ↦ ground (arith, reservers-only id r xs ys o)
]

-- The reservers that remain, and what the field says then.
pub reservers-left :
    (id : ℕ) (q : Option ℕ) (xs ys : List Use) (r : Region)
    → reservers id (xs ++ (id, q) ∷ ys) ≡ to_list r.reserver []
    → reservers id (xs ++ ys) ≡ to_list (leave_region q r).reserver []
reservers-left id none xs ys r e = sym (reservers-unreserved id xs ys) ∙ e
reservers-left id (some p) xs ys r e = reservers-only id p xs ys r.reserver e

pub to_list-nil : (o : Option ℕ) → to_list o [] ≡ [] → o ≡ none
to_list-nil none e = refl
to_list-nil (some x) e = cc

-- The reserver of a use is the one that the field holds.
pub reservers-is :
    (id r : ℕ) (xs ys : List Use) (o : Option ℕ)
    → reservers id (xs ++ (id, some r) ∷ ys) ≡ to_list o []
    → o ≡ some r
unfolding reservers
reservers-is id r [] ys none e = ground arith
reservers-is id r [] ys (some o) e = ground arith
reservers-is id r ((j, none) ∷ xs) ys o e = ground (arith, reservers-is id r xs ys o)
reservers-is id r ((j, some p) ∷ xs) ys none e = ground (arith, reservers-is id r xs ys none)
reservers-is id r ((j, some p) ∷ xs) ys (some o) e = elim (Bool-cases (id == j)) [
  | inl same ↦ absurd (reservers-has id r xs ys (ground arith))
  | inr other ↦ ground (arith, reservers-is id r xs ys (some o))
]
