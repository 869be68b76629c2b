-- ===== src/Segments/Digest.antt =====
-- The checksum of scattered and of contiguous bytes.
use open_mx.Common.{
  ℕ, zero, suc, ◌+◌, ◌-◌, ◌<◌, ◌≤◌, ◌≡◌, refl, sym, ap, ◌∙◌, inl, inr, List, [], ◌∷◌, some, ◌==◌,
  arith, Bool-cases, ==→eq, some-eq,
}
use open_mx.Segments.Defs.{Seg, ReqSegs, segments}
use open_mx.Segments.Copy.{Memory, chunk_of, copy_from_segments}
use open_mx.Segments.Checksum.{crc_byte, crc_bytes, checksum_array, checksum_segments}
use open_mx.Segments.Address.{addr, sum, IsApart}
use open_mx.Segments.Gather.{addr-here, addr-there, gathered-in, copy_from_segments-gathered}

-- The checksum of the bytes f 0, f 1, ..., `n` of them.
pub crc_of : (ℕ → ℕ) → ℕ → ℕ → ℕ
crc_of f zero crc = crc
crc_of f (suc n) crc = crc_of (λ k. f (suc k)) n (crc_byte crc (f 0))

crc_of-ext :
    (f g : ℕ → ℕ) (n crc : ℕ) → ((k : ℕ) → k < n → f k ≡ g k) → crc_of f n crc ≡ crc_of g n crc
unfolding crc_of
crc_of-ext f g zero crc e = refl
crc_of-ext f g (suc n) crc e =
    ap (λ (b : ℕ). crc_of (λ k. f (suc k)) n (crc_byte crc b)) (e 0 (omega arith))
    ∙ crc_of-ext (λ k. f (suc k)) (λ k. g (suc k)) n (crc_byte crc (g 0))
        (λ k h. e (suc k) (omega arith))

crc_of-append :
    (f : ℕ → ℕ) (a b n crc : ℕ)
    → n ≡ a + b
    → crc_of f n crc ≡ crc_of (λ k. f (a + k)) b (crc_of f a crc)
unfolding crc_of
crc_of-append f zero b n crc e =
    let p : n ≡ b = omega arith in
    ap (λ (x : ℕ). crc_of f x crc) p
    ∙ crc_of-ext f (λ k. f (0 + k)) b crc (λ k h. ap f (omega arith))
crc_of-append f (suc a) b zero crc e = absurd (omega arith)
crc_of-append f (suc a) b (suc n) crc e =
    crc_of-append (λ k. f (suc k)) a b n (crc_byte crc (f 0)) (omega arith)
    ∙ crc_of-ext (λ k. f (suc (a + k))) (λ k. f (suc a + k)) b
        (crc_of (λ k. f (suc k)) a (crc_byte crc (f 0))) (λ k h. ap f (omega arith))

crc_bytes-crc_of :
    (m : Memory) (at n crc : ℕ) → crc_bytes m at n crc ≡ crc_of (λ k. m (at + k)) n crc
unfolding crc_bytes crc_of
crc_bytes-crc_of m at zero crc = refl
crc_bytes-crc_of m at (suc n) crc =
    crc_bytes-crc_of m (at + 1) n (crc_byte crc (m at))
    ∙ crc_of-ext (λ k. m (at + 1 + k)) (λ k. m (at + suc k)) n (crc_byte crc (m at))
        (λ k h. ap m (omega arith))
    ∙ ap (λ (x : ℕ). crc_of (λ k. m (at + suc k)) n (crc_byte crc (m x))) (omega arith)

checksum_array-crc_of :
    (m : Memory) (ss : List Seg) (length crc : ℕ)
    → length ≤ sum ss
    → checksum_array m ss length crc ≡ crc_of (λ k. m (addr ss k)) length crc
unfolding checksum_array sum crc_of
checksum_array-crc_of m [] length crc h =
    let e : 0 ≡ length = omega arith in ap (λ (n : ℕ). crc_of (λ k. m (addr [] k)) n crc) e
checksum_array-crc_of m (s ∷ ss) length crc h = elim (Bool-cases (length == 0)) [
  | inl z ↦
      let e : 0 ≡ length = sym (==→eq length 0 z) in
      rw z (ap (λ (n : ℕ). crc_of (λ k. m (addr (s ∷ ss) k)) n crc) e)
  | inr more ↦
      let c = chunk_of s length in
      let f = λ (k : ℕ). m (addr (s ∷ ss) k) in
      let first : crc_bytes m s.vaddr c crc ≡ crc_of f c crc =
        crc_bytes-crc_of m s.vaddr c crc
        ∙ crc_of-ext (λ k. m (s.vaddr + k)) f c crc
            (λ k h. ap m (sym (addr-here s ss k (ground arith)))) in
      rw more (
        checksum_array-crc_of m ss (length - c) (crc_bytes m s.vaddr c crc) (ground arith)
        ∙ ap (crc_of (λ k. m (addr ss k)) (length - c)) first
        ∙ crc_of-ext (λ k. m (addr ss k)) (λ k. f (c + k)) (length - c) (crc_of f c crc)
            (λ k h. ap m (sym (addr-there s ss (c + k) k (ground arith))))
        ∙ sym (crc_of-append f c (length - c) length crc (ground arith)))
]

-- Of a request with at least `length` bytes, none of them in the target: omx_checksum_segments gives
-- the checksum that the same loop on bytes gives for the contiguous copy that
-- omx_copy_from_segments made.
pub checksum_segments-copied :
    (dst : ℕ) (r : ReqSegs) (length : ℕ) (m m' : Memory)
    → length ≤ sum (segments r)
    → IsApart dst length (segments r)
    → copy_from_segments dst r length m ≡ some m'
    → checksum_segments m r length ≡ crc_bytes m' dst length 0
unfolding checksum_segments
checksum_segments-copied dst r length m m' fits v e =
    checksum_array-crc_of m (segments r) length 0 fits
    ∙ crc_of-ext (λ k. m (addr (segments r) k)) (λ k. m' (dst + k)) length 0
        (λ k h.
          let (m1, e1, at) = copy_from_segments-gathered dst r length m (dst + k) fits v in
          let same : m1 ≡ m' = some-eq (sym e1 ∙ e) in
          ap m (ap (addr (segments r)) (omega arith))
          ∙ sym (gathered-in dst (segments r) length m (dst + k) (omega arith) (omega arith))
          ∙ sym at
          ∙ ap (λ (x : Memory). x (dst + k)) same)
    ∙ sym (crc_bytes-crc_of m' dst length 0)
