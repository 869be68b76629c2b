-- ===== src/Pull/Marks.antt =====
-- Marking a frame as received.
use open_mx.Common.{
  ℕ, zero, suc, ◌+◌, ◌/◌, ◌<◌, ◌≡◌, refl, sym, ap, ◌∙◌, inl, inr, Bool, true, false, List, [], ◌∷◌,
  ◌++◌, length, length-set, set, get_or, arith, subst,
}
use open_mx.Pull.Defs.{frames_per_block, Desc, Handle}
use open_mx.Pull.Requests.{desc, no_desc}
use open_mx.Pull.Replies.{mark_received}
use open_mx.Pull.Invariant.{
  popcount, total, missing_in, IsBlock, IsChain, IsPull, total-le, missing_in-le,
}

-- The descriptor with one frame less.
abbrev pub without : Desc → ℕ → Desc
without d bit = record d { frames_missing = set d.frames_missing bit false }

popcount-set :
    (bits : List Bool) (k : ℕ)
    → get_or bits k false ≡ true
    → popcount (set bits k false) + 1 ≡ popcount bits
popcount-set [] k e = cc
popcount-set (true ∷ bs) zero e = omega arith
popcount-set (false ∷ bs) zero e = cc
popcount-set (true ∷ bs) (suc k) e = omega (arith, popcount-set bs k e)
popcount-set (false ∷ bs) (suc k) e = omega (arith, popcount-set bs k e)

get_or-set :
    (bits : List Bool) (j k : ℕ)
    → get_or bits k false ≡ false
    → get_or (set bits j false) k false ≡ false
get_or-set [] j k e = refl
get_or-set (b ∷ bs) zero zero e = refl
get_or-set (b ∷ bs) zero (suc k) e = e
get_or-set (b ∷ bs) (suc j) zero e = e
get_or-set (b ∷ bs) (suc j) (suc k) e = get_or-set bs j k e

without-IsBlock : (i bit : ℕ) (d : Desc) → IsBlock i d → IsBlock i (without d bit)
without-IsBlock i bit d b = record {
  at = b.at;
  bits = length-set d.frames_missing bit false ∙ b.bits;
  offset = b.offset;
  not_empty = b.not_empty;
  fits = b.fits;
  beyond = λ k lo hi. get_or-set d.frames_missing bit k (b.beyond k lo hi);
}

-- Marking a frame in one of the blocks.
abbrev pub marked : List Desc → ℕ → ℕ → List Desc
marked bs i bit = set bs i (without (get_or bs i no_desc) bit)

IsChain-marked :
    (start : ℕ) (bs : List Desc) (i bit : ℕ) → IsChain start bs → IsChain start (marked bs i bit)
IsChain-marked start [] i bit c = tt
IsChain-marked start (d ∷ []) zero bit c = without-IsBlock start bit d c
IsChain-marked start (d ∷ []) (suc i) bit c = c
IsChain-marked start (d ∷ e ∷ ds) zero bit c = (without-IsBlock start bit d c.0, c.1, c.2)
IsChain-marked start (d ∷ e ∷ ds) (suc zero) bit c =
    (c.0, c.1, IsChain-marked (start + frames_per_block) (e ∷ ds) zero bit c.2)
IsChain-marked start (d ∷ e ∷ ds) (suc (suc i)) bit c =
    (c.0, c.1, IsChain-marked (start + frames_per_block) (e ∷ ds) (suc i) bit c.2)

total-marked : (bs : List Desc) (i bit : ℕ) → total (marked bs i bit) ≡ total bs
total-marked [] i bit = refl
total-marked (d ∷ ds) zero bit = refl
total-marked (d ∷ ds) (suc i) bit = omega (arith, total-marked ds i bit)

missing_in-marked :
    (bs : List Desc) (i bit : ℕ)
    → i < length bs
    → get_or (get_or bs i no_desc).frames_missing bit false ≡ true
    → missing_in (marked bs i bit) + 1 ≡ missing_in bs
missing_in-marked [] i bit h e = elim h [ ]
missing_in-marked (d ∷ ds) zero bit h e = omega (arith, popcount-set d.frames_missing bit e)
missing_in-marked (d ∷ ds) (suc i) bit h e =
    omega (arith, missing_in-marked ds i bit (omega arith) e)

pub get_or-front :
    (bs junk : List Desc) (i : ℕ)
    → i < length bs
    → get_or (bs ++ junk) i no_desc ≡ get_or bs i no_desc
get_or-front [] junk i h = elim h [ ]
get_or-front (b ∷ bs) junk zero h = refl
get_or-front (b ∷ bs) junk (suc i) h = get_or-front bs junk i (omega arith)

set-front :
    (bs junk : List Desc) (i : ℕ) (d : Desc)
    → i < length bs
    → set (bs ++ junk) i d ≡ set bs i d ++ junk
set-front [] junk i d h = elim h [ ]
set-front (b ∷ bs) junk zero d h = refl
set-front (b ∷ bs) junk (suc i) d h = ap (◌∷◌ b) (set-front bs junk i d (omega arith))

-- A requested frame lies in a valid descriptor.
pub block-lt :
    (start : ℕ) (bs : List Desc) (offset : ℕ)
    → IsChain start bs
    → offset < total bs
    → offset / frames_per_block < length bs
block-lt start bs offset c h = omega (arith, total-le start bs c)

-- The handle whose missing frame was marked: one frame less is missing, all else is as before.
pub mark-IsPull :
    {h : Handle} {bs junk : List Desc} (i bit : ℕ)
    → IsPull h bs junk
    → i < length bs
    → get_or (desc h i).frames_missing bit false ≡ true
    → IsPull (mark_received h i bit) (marked bs i bit) junk
mark-IsPull {h} {bs} {junk} i bit v lt e =
    let same : desc h i ≡ get_or bs i no_desc =
      ap (λ (ds : List Desc). get_or ds i no_desc) v.descs ∙ get_or-front bs junk i lt in
    let e' : get_or (get_or bs i no_desc).frames_missing bit false ≡ true =
      subst (λ (d : Desc). get_or d.frames_missing bit false ≡ true) same e in
    let l : length (marked bs i bit) ≡ length bs =
      length-set bs i (without (get_or bs i no_desc) bit) in
    record {
      queue = record {
        descs =
            ap (λ (d : Desc). set h.block_desc i (without d bit)) same
            ∙ ap (λ (ds : List Desc). set ds i (without (get_or bs i no_desc) bit)) v.descs
            ∙ set-front bs junk i (without (get_or bs i no_desc) bit) lt;
        four = omega (arith, v.four);
        valid = v.valid ∙ sym l;
        requested = v.requested ∙ sym (total-marked bs i bit);
        missing = omega (
          arith,
          v.missing,
          v.four,
          missing_in-marked bs i bit lt e',
          missing_in-le h.frame_index bs v.chain,
        );
        next = omega (arith, v.next, total-marked bs i bit);
        chain = IsChain-marked h.frame_index bs i bit v.chain;
        small = v.small;
      };
      lower = v.lower;
      upper = v.upper;
      exact = v.exact;
      full = elim v.full [
        | inl all ↦ inl all
        | inr whole ↦ inr (omega (arith, whole, total-marked bs i bit))
      ];
    }
