-- ===== src/Recv/Fragments.antt =====
-- A request that gets the fragments of its message.
use open_mx.Common.{
  ℕ, ◌+◌, ◌-◌, ◌*◌, ◌^◌, ◌<◌, ◌≤◌, ◌≡◌, ◌≢◌, refl, sym, ap, subst, ◌∙◌, ◌⊎◌, inl, inr, Bool, true,
  false, List, [], ◌∷◌, ltb, leb, ◌==◌, ◌&&◌, min, if◌then◌else◌, arith, Bool-cases, ==→eq, ==→ne,
  add32,
}
use open_mx.Recv.Defs.{Msg}
use open_mx.Recv.Early.{All}
use open_mx.Recv.Match.{RecvRequest, bit, copy_to, frag_offset, xfer_chunk, add_frag}
use open_mx.Recv.Reassembly.{
  bit_within, bit_set, bit_other, bit_zero, chunk, IsCut, IsFrag, received, received-le,
  received-none, received-all, received-full, received-add,
}

-- The request after some fragments, as omx__process_recv_medium_frag leaves it.
unfoldable pub reassembled : RecvRequest → List Msg → RecvRequest
unfolding add_frag
reassembled r [] = r
reassembled r (m ∷ ms) =
    reassembled (if bit r.frags_received_mask m.frag_seqnum then r else add_frag r m r.xfer_length)
      ms

-- A fragment is among the packets.
abbrev pub Comes : ℕ → List Msg → Type 0
Comes i [] = ⊥
Comes i (m ∷ ms) = (m.frag_seqnum ≡ i) ⊎ Comes i ms

module _ (content : ℕ → ℕ) (L p F : ℕ) where
  -- The fragments of the mask are counted, and their bytes are in place, as far as the receive goes.
  record IsPartial (xfer : ℕ) (r : RecvRequest) : Type 0 where
    xfer_length : r.xfer_length ≡ xfer
    count : r.accumulated_length ≡ received content L p F r.frags_received_mask F
    bounded : r.frags_received_mask < 2 ^ 32
    right :
        (i k : ℕ)
        → i < F
        → bit r.frags_received_mask i ≡ true
        → k < chunk content L p F i
        → i * 2 ^ p + k < xfer
        → r.buffer (i * 2 ^ p + k) ≡ content (i * 2 ^ p + k)

  -- What the copy of a fragment puts at a place.
  copied :
      (xfer x : ℕ) (m : Msg) (buffer : ℕ → ℕ)
      → IsFrag content L p F m
      → (buffer x ≡ content x)
        ⊎ ((m.frag_seqnum * 2 ^ p ≤ x) × (x < m.frag_seqnum * 2 ^ p + m.frag_length) × (x < xfer))
      → copy_to m.bytes (frag_offset m) (xfer_chunk m xfer) buffer x ≡ content x
  copied xfer x m buffer v w =
      let o : frag_offset m ≡ m.frag_seqnum * 2 ^ p =
        ap (λ (z : ℕ). m.frag_seqnum * 2 ^ z) v.pipeline in
      let z = m.frag_seqnum * 2 ^ p in
      let c = xfer_chunk m xfer in
      let small : c ≤ m.frag_length = ground arith in
      elim (Bool-cases (leb (frag_offset m) x && ltb x (frag_offset m + c))) [
        | inl inside ↦
            let from : z ≤ x = ground (arith, o, inside) in
            let upto : x < z + c = ground (arith, o, inside) in
            rw (inside, o)
              (v.payload (x - z) (omega (arith, from, upto, small))
                ∙ ap content (omega (arith, from)))
        | inr outside ↦ rw outside (elsewhere w outside o)
      ]
    where
      elsewhere :
          (buffer x ≡ content x)
            ⊎ ((m.frag_seqnum * 2 ^ p ≤ x)
                × (x < m.frag_seqnum * 2 ^ p + m.frag_length)
                × (x < xfer))
          → (leb (frag_offset m) x && ltb x (frag_offset m + xfer_chunk m xfer)) ≡ false
          → frag_offset m ≡ m.frag_seqnum * 2 ^ p
          → buffer x ≡ content x
      elsewhere (inl e) outside o = e
      elsewhere (inr (from, upto, within)) outside o =
          absurd (ground (arith, from, upto, within, outside, o))

  -- The bit of a fragment fits in the mask.
  mask_added :
      (r : RecvRequest) (m : Msg)
      → m.frag_seqnum < 32
      → r.frags_received_mask < 2 ^ 32
      → bit r.frags_received_mask m.frag_seqnum ≡ false
      → (add_frag r m r.xfer_length).frags_received_mask ≡ r.frags_received_mask + 2 ^ m.frag_seqnum
  unfolding add_frag
  mask_added r m lt small new =
      let fits = bit_within 32 r.frags_received_mask m.frag_seqnum small lt new in
      add32-small r.frags_received_mask (2 ^ m.frag_seqnum) fits
    where
      add32-small : (a b : ℕ) → a + b < 2 ^ 32 → add32 a b ≡ a + b
      add32-small a b lt = omega arith

  add_frag-IsPartial :
      (xfer : ℕ) (r : RecvRequest) (m : Msg)
      → F ≤ 32
      → IsFrag content L p F m
      → IsPartial xfer r
      → bit r.frags_received_mask m.frag_seqnum ≡ false
      → IsPartial xfer (add_frag r m r.xfer_length)
  unfolding add_frag
  add_frag-IsPartial xfer r m few v w new =
      let mask = r.frags_received_mask in
      let j = m.frag_seqnum in
      let here : ltb j F ≡ true = ground (arith, v.index) in
      let lt : j < 32 = omega (arith, v.index, few) in
      let added = mask_added r m lt w.bounded new in
      let after = (add_frag r m r.xfer_length).frags_received_mask in
      record {
        xfer_length = w.xfer_length;
        bounded = subst (λ (x : ℕ). x < 2 ^ 32) (sym added) (bit_within 32 mask j w.bounded lt new);
        count =
            ap (λ (x : ℕ). x + m.frag_length) w.count
            ∙ ap (λ (x : ℕ). received content L p F mask F + x) v.length
            ∙ ap
                (λ (b : Bool).
                  received content L p F mask F + (if b then chunk content L p F j else 0))
                (sym here)
            ∙ sym (received-add content L p F mask j F new)
            ∙ ap (λ (x : ℕ). received content L p F x F) (sym added);
        right = λ (i k : ℕ) lt b small within.
            copied r.xfer_length (i * 2 ^ p + k) m r.buffer v (elim (Bool-cases (i == j)) [
              | inl same ↦ let s = ==→eq i j same in inr (own i k s small within)
              | inr other ↦
                  let ne = ==→ne i j other in
                  inl (
                    w.right i k lt
                      (sym (bit_other mask j i ne new) ∙ ap (λ (x : ℕ). bit x i) (sym added) ∙ b)
                      small within)
            ]);
      }
    where
      own :
          (i k : ℕ)
          → i ≡ m.frag_seqnum
          → k < chunk content L p F i
          → i * 2 ^ p + k < xfer
          → (m.frag_seqnum * 2 ^ p ≤ i * 2 ^ p + k)
            × (i * 2 ^ p + k < m.frag_seqnum * 2 ^ p + m.frag_length)
            × (i * 2 ^ p + k < r.xfer_length)
      own i k s small within =
          let z : i * 2 ^ p ≡ m.frag_seqnum * 2 ^ p = ap (λ (x : ℕ). x * 2 ^ p) s in
          let l : chunk content L p F i ≡ m.frag_length =
            ap (chunk content L p F) s ∙ sym v.length in
          (omega (arith, z), omega (arith, z, l, small), omega (arith, within, w.xfer_length))

  -- What some fragments leave.
  record Assembled (xfer : ℕ) (r : RecvRequest) (ms : List Msg) (r' : RecvRequest) : Type 0 where
    partial : IsPartial xfer r'
    kept : (i : ℕ) → bit r.frags_received_mask i ≡ true → bit r'.frags_received_mask i ≡ true
    came : (i : ℕ) → Comes i ms → bit r'.frags_received_mask i ≡ true

  reassembled-Assembled :
      (xfer : ℕ) (r : RecvRequest) (ms : List Msg)
      → F ≤ 32
      → All (IsFrag content L p F) ms
      → IsPartial xfer r
      → Assembled xfer r ms (reassembled r ms)
  unfolding reassembled
  reassembled-Assembled xfer r [] few v w = record {
    partial = w;
    kept = λ (i : ℕ) b. b;
    came = λ (i : ℕ) c. absurd c;
  }
  reassembled-Assembled xfer r (m ∷ ms) few v w =
      elim (Bool-cases (bit r.frags_received_mask m.frag_seqnum)) [
        | inl again ↦
            let x = reassembled-Assembled xfer r ms few v.1 w in
            rw again (record {
              partial = x.partial;
              kept = x.kept;
              came = λ (i : ℕ) c. elim c [
                | inl e ↦ x.kept i (ap (bit r.frags_received_mask) (sym e) ∙ again)
                | inr later ↦ x.came i later
              ];
            })
        | inr new ↦
            let x =
              reassembled-Assembled xfer (add_frag r m r.xfer_length) ms few v.1
                (add_frag-IsPartial xfer r m few v.0 w new) in
            rw new (record {
              partial = x.partial;
              kept = λ (i : ℕ) b. x.kept i (marked i new (inr b));
              came = λ (i : ℕ) c. elim c [
                | inl e ↦ x.kept i (marked i new (inl e))
                | inr later ↦ x.came i later
              ];
            })
      ]
    where
      summed :
          (i : ℕ)
          → bit r.frags_received_mask m.frag_seqnum ≡ false
          → (m.frag_seqnum ≡ i) ⊎ (bit r.frags_received_mask i ≡ true)
          → bit (r.frags_received_mask + 2 ^ m.frag_seqnum) i ≡ true
      summed i new c = elim (Bool-cases (i == m.frag_seqnum)) [
        | inl same ↦
            subst (λ (x : ℕ). bit (r.frags_received_mask + 2 ^ m.frag_seqnum) x ≡ true)
              (sym (==→eq i m.frag_seqnum same)) (bit_set r.frags_received_mask m.frag_seqnum new)
        | inr other ↦
            let ne = ==→ne i m.frag_seqnum other in
            bit_other r.frags_received_mask m.frag_seqnum i ne new ∙ was ne c
      ]
        where
          was :
              i ≢ m.frag_seqnum
              → (m.frag_seqnum ≡ i) ⊎ (bit r.frags_received_mask i ≡ true)
              → bit r.frags_received_mask i ≡ true
          was ne (inl e) = absurd (ne (sym e))
          was ne (inr b) = b

      marked :
          (i : ℕ)
          → bit r.frags_received_mask m.frag_seqnum ≡ false
          → (m.frag_seqnum ≡ i) ⊎ (bit r.frags_received_mask i ≡ true)
          → bit (add_frag r m r.xfer_length).frags_received_mask i ≡ true
      marked i new c =
          let lt : m.frag_seqnum < 32 = omega (arith, v.0.index, few) in
          ap (λ (x : ℕ). bit x i) (mask_added r m lt w.bounded new) ∙ summed i new c

  -- A message is whole when its length has come, and then all its bytes are in place.
  pub record IsWhole (xfer : ℕ) (ms : List Msg) (r : RecvRequest) : Type 0 where
    pub at_most : r.accumulated_length ≤ L
    pub all_came : ((i : ℕ) → i < F → Comes i ms) → r.accumulated_length ≡ L
    pub in_place :
        r.accumulated_length ≡ L
        → (i k : ℕ) → i < F
        → k < chunk content L p F i
        → i * 2 ^ p + k < xfer
        → r.buffer (i * 2 ^ p + k) ≡ content (i * 2 ^ p + k)

  -- For a message cut into F fragments that are not empty, at most 32, and a request that has none of them:
  -- after any fragments in any order, also repeated, the accumulated length is at most that of the
  -- message, it is that of the message once all fragments came, and when it is, every byte that the
  -- receive has room for is in its place.
  pub reassembled-IsWhole :
      (r : RecvRequest) (ms : List Msg)
      → F ≤ 32
      → IsCut content L p F
      → r.frags_received_mask ≡ 0
      → r.accumulated_length ≡ 0
      → All (IsFrag content L p F) ms
      → IsWhole r.xfer_length ms (reassembled r ms)
  reassembled-IsWhole r ms few cut mask zero_length v =
      let start : IsPartial r.xfer_length r = record {
        xfer_length = refl;
        count =
            zero_length
            ∙ sym (received-none content L p F F)
            ∙ ap (λ (x : ℕ). received content L p F x F) (sym mask);
        bounded = omega (arith, mask);
        right = λ (i k : ℕ) lt b small within.
            absurd (unset b (ap (λ (x : ℕ). bit x i) mask ∙ bit_zero i));
      } in
      let x = reassembled-Assembled r.xfer_length r ms few v start in
      let r' = reassembled r ms in
      let all : min L (F * 2 ^ p) ≡ L = ground (arith, cut.enough) in
      record {
        at_most =
            omega (arith, x.partial.count, received-le content L p F r'.frags_received_mask F, all);
        all_came = λ c.
            x.partial.count
            ∙ received-all content L p F r'.frags_received_mask F (λ (i : ℕ) lt. x.came i (c i lt))
            ∙ all;
        in_place = λ whole (i k : ℕ) lt. x.partial.right i k lt (
            received-full content L p F r'.frags_received_mask F cut.none_empty
              (sym x.partial.count ∙ whole ∙ sym all) i lt);
      }
    where
      unset : {b : Bool} → b ≡ true → b ≡ false → ⊥
      unset t f = cc
