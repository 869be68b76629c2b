-- ===== src/Recv/Window.antt =====
-- The invariant of the receive side: the sequence numbers that it keeps are those of messages, all
-- within a window of half the numbers.
use open_mx.Common.{
  ℕ, zero, suc, ◌+◌, ◌<◌, ◌≤◌, ◌≡◌, refl, ap, ◌⊎◌, List, [], ◌∷◌, ◌++◌, some, map, arith,
}
use open_mx.Seqnum.{wire}
use open_mx.Recv.Defs.{Msg, Matching, Receiver}

-- A list without its `i`-th entry.
abbrev pub without {ℓ} : {A : Type ℓ} → ℕ → List A → List A
without i [] = []
without zero (x ∷ xs) = xs
without (suc i) (x ∷ xs) = x ∷ without i xs

-- What the order of messages relies on: a message that is taken may begin a partial one, behind the
-- others, and a fragment may end one.
pub record IsMatching {S : Type 0} (matching : Matching S) : Type 0 where
  pub take-partials :
      (s s' : S) (m : Msg)
      → matching.take s m ≡ some s'
      → (matching.partials s' ≡ matching.partials s)
        ⊎ (matching.partials s' ≡ matching.partials s ++ m.seqnum ∷ [])
  pub go_on-partials :
      (next : ℕ) (s s' : S) (m : Msg)
      → matching.go_on next s m ≡ some s'
      → (i : ℕ) × (matching.partials s' ≡ without i (matching.partials s))

-- Numbers that ascend, between two bounds.
abbrev pub IsAsc : ℕ → ℕ → List ℕ → Type 0
IsAsc lo hi [] = Unit {0}
IsAsc lo hi (n ∷ ns) = (lo ≤ n) × (n < hi) × IsAsc (n + 1) hi ns

pub IsAsc-snoc :
    (lo hi : ℕ) (ns : List ℕ) → lo ≤ hi → IsAsc lo hi ns → IsAsc lo (hi + 1) (ns ++ hi ∷ [])
IsAsc-snoc lo hi [] le v = (le, omega arith, tt)
IsAsc-snoc lo hi (n ∷ ns) le v =
    (v.0, omega (arith, v.1), IsAsc-snoc (n + 1) hi ns (omega (arith, v.1)) v.2)

pub IsAsc-wider :
    (lo lo' hi hi' : ℕ) (ns : List ℕ) → lo' ≤ lo → hi ≤ hi' → IsAsc lo hi ns → IsAsc lo' hi' ns
IsAsc-wider lo lo' hi hi' [] l h v = tt
IsAsc-wider lo lo' hi hi' (n ∷ ns) l h v = (
  omega (arith, v.0),
  omega (arith, v.1),
  IsAsc-wider (n + 1) (n + 1) hi hi' ns (omega arith) h v.2,
)

pub IsAsc-without : (lo hi i : ℕ) (ns : List ℕ) → IsAsc lo hi ns → IsAsc lo hi (without i ns)
IsAsc-without lo hi i [] v = tt
IsAsc-without lo hi zero (n ∷ ns) v =
    IsAsc-wider (n + 1) lo hi hi ns (omega (arith, v.0)) (omega arith) v.2
IsAsc-without lo hi (suc i) (n ∷ ns) v = (v.0, v.1, IsAsc-without (n + 1) hi i ns v.2)

-- The oldest message that is not complete: the first partial one, or the next to match.
abbrev pub oldest : ℕ → List ℕ → ℕ
oldest c [] = c
oldest c (n ∷ ns) = n

pub oldest-ge : (lo c : ℕ) (ns : List ℕ) → lo ≤ c → IsAsc lo c ns → lo ≤ oldest c ns
oldest-ge lo c [] le v = le
oldest-ge lo c (n ∷ ns) le v = v.0

pub oldest-le : (lo c : ℕ) (ns : List ℕ) → IsAsc lo c ns → oldest c ns ≤ c
oldest-le lo c [] v = omega arith
oldest-le lo c (n ∷ ns) v = omega (arith, v.1)

pub map-without : (f : ℕ → ℕ) (i : ℕ) (ns : List ℕ) → without i (map f ns) ≡ map f (without i ns)
map-without f i [] = refl
map-without f zero (n ∷ ns) = refl
map-without f (suc i) (n ∷ ns) = ap (◌∷◌ (f n)) (map-without f i ns)

pub map-snoc : (f : ℕ → ℕ) (ns : List ℕ) (n : ℕ) → map f ns ++ f n ∷ [] ≡ map f (ns ++ n ∷ [])
map-snoc f [] n = refl
map-snoc f (x ∷ ns) n = ap (◌∷◌ (f x)) (map-snoc f ns n)

-- `c` messages of the session were taken, and those of `ns` are partial.
pub record IsOrder {S : Type 0} (matching : Matching S) (ses c : ℕ) (ns : List ℕ) (r : Receiver S)
    : Type 0 where
  pub session : ses < 4
  pub match : r.next_match_recv_seq ≡ wire ses c
  pub frag : r.next_frag_recv_seq ≡ wire ses (oldest c ns)
  pub partials : matching.partials r.requests ≡ map (wire ses) ns
  pub asc : IsAsc (oldest c ns) c ns
  pub window : c ≤ oldest c ns + 8191
