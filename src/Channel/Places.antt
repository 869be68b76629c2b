-- ===== src/Channel/Places.antt =====
-- Places in lists: a posted request has the number of its place.
use open_mx.Common.{
  ℕ, zero, suc, ◌+◌, ◌<◌, ◌≡◌, refl, sym, ap, subst, ◌∙◌, List, [], ◌∷◌, ◌++◌, none, some, map,
  length, get_elem?, arith,
}
use open_mx.Seqnum.{wire}
use open_mx.Recv.Early.{All}
use open_mx.Send.Defs.{Request}
use open_mx.Send.Window.{IsSeries}

pub none_is_some : {A : Type 0} {x : A} → none ≡ some x → ⊥
none_is_some e = cc

pub some_inj : {A : Type 0} {x y : A} → some x ≡ some y → x ≡ y
some_inj e = cc

pub All-get :
    {A : Type 0} (P : A → Type 0) (xs : List A) (i : ℕ) (x : A)
    → All P xs
    → get_elem? xs i ≡ some x
    → P x
All-get P [] i x v e = absurd (none_is_some e)
All-get P (y ∷ ys) zero x v e = subst P (some_inj e) v.0
All-get P (y ∷ ys) (suc i) x v e = All-get P ys i x v.1 e

pub All-append :
    {A : Type 0} (P : A → Type 0) (xs ys : List A) → All P xs → All P ys → All P (xs ++ ys)
All-append P [] ys v w = w
All-append P (x ∷ xs) ys v w = (v.0, All-append P xs ys v.1 w)

pub get_elem?-append :
    {A : Type 0} (xs ys : List A) (i : ℕ) (x : A)
    → get_elem? xs i ≡ some x
    → get_elem? (xs ++ ys) i ≡ some x
get_elem?-append [] ys i x e = absurd (none_is_some e)
get_elem?-append (y ∷ xs) ys zero x e = e
get_elem?-append (y ∷ xs) ys (suc i) x e = get_elem?-append xs ys i x e

-- A posted request has the number of its place.
pub series-number :
    (ses start i : ℕ) (rs : List Request) (r : Request)
    → IsSeries ses start rs
    → get_elem? rs i ≡ some r
    → (r.send_seqnum ≡ wire ses (start + i)) × (i < length rs)
series-number ses start i [] r v e = absurd (none_is_some e)
series-number ses start zero (x ∷ rs) r v e = (
  sym (ap (λ (x : Request). x.send_seqnum) (some_inj e)) ∙ v.0 ∙ ap (wire ses) (omega arith),
  omega arith,
)
series-number ses start (suc i) (x ∷ rs) r v e =
    let y = series-number ses (start + 1) i rs r v.1 e in
    (y.0 ∙ ap (wire ses) (omega arith), omega (arith, y.1))

pub get_elem?-map :
    (rs : List Request) (i : ℕ) (r : Request)
    → get_elem? rs i ≡ some r
    → get_elem? (map (λ (x : Request). x.id) rs) i ≡ some r.id
get_elem?-map [] i r e = absurd (none_is_some e)
get_elem?-map (x ∷ rs) zero r e = rw (some_inj e) refl
get_elem?-map (x ∷ rs) (suc i) r e = get_elem?-map rs i r e
