-- ===== src/Send/Medium.antt =====
-- omx__post_isend_mediumsq (libopen-mx/omx_send.c): a medium message goes out fragment by fragment,
-- from a buffer of one segment.
use open_mx.Common.{
  ℕ, zero, suc, ◌+◌, ◌-◌, Bool, true, List, [], ◌∷◌, Option, none, some, ltb, ◌==◌, if◌then◌else◌,
  add32,
}

-- OMX_MEDIUM_FRAG_LENGTH_MAX, with the MX wire
abbrev pub frag_max : ℕ
frag_max = 4096

-- A fragment that was passed to the driver: its number, its length, and where its data is.
pub record Frag : Type 0 where
  pub frag_seqnum : ℕ
  pub frag_length : ℕ
  pub offset : ℕ

-- The loop at a fragment that the driver refused.
pub record Refused : Type 0 where
  pub at : ℕ
  pub remaining : ℕ
  pub offset : ℕ

abbrev pub chunk_of : ℕ → ℕ
chunk_of remaining = if ltb frag_max remaining then frag_max else remaining

-- The loop on the fragments, from the `i`-th on, when `count` are left: those that went out, and the
-- one that did not. `driver` says whether the driver takes a fragment.
unfoldable pub post_frags : (ℕ → Bool) → ℕ → ℕ → ℕ → ℕ → List Frag × Option Refused
post_frags driver zero i remaining offset = ([], none)
post_frags driver (suc count) i remaining offset =
    let chunk = chunk_of remaining in
    let rest = post_frags driver count (i + 1) (remaining - chunk) (offset + chunk) in
    if driver i
    then (record { frag_seqnum = i; frag_length = chunk; offset = offset } ∷ rest.0, rest.1)
    else ([], some (record { at = i; remaining = remaining; offset = offset }))

-- The loop that copies the other fragments into the send queue after an error, up to some number of
-- rounds: it ends with the value of `i`, and `none` is for a loop that has not ended. The loop counts
-- `i`, and tests `j`.
unfoldable pub finish_copy : ℕ → ℕ → ℕ → ℕ → ℕ → ℕ → Option ℕ
finish_copy zero frags_nr j i remaining offset = if ltb j frags_nr then none else some i
finish_copy (suc rounds) frags_nr j i remaining offset =
    let chunk = chunk_of remaining in
    let next = finish_copy rounds frags_nr j (add32 i 1) (remaining - chunk) (add32 offset chunk) in
    if ltb j frags_nr then next else some i

-- What the function leaves: the fragments that went out, frags_pending_nr, the events that are given
-- back, and whether the request is with the driver.
pub record Posted : Type 0 where
  pub frags : List Frag
  pub frags_pending_nr : ℕ
  pub events_back : ℕ
  pub driver_mediumsq_sending : Bool

-- The end, and the error path: the copies are made if the request was never sent before.
abbrev pub if_finished : ℕ → List Frag → Option ℕ → Option Posted
if_finished frags_nr frags none = none
if_finished frags_nr frags (some i) = some (record {
  frags = frags;
  frags_pending_nr = i;
  events_back = frags_nr - i;
  driver_mediumsq_sending = ltb 0 i;
})

abbrev pub if_refused : ℕ → ℕ → ℕ → List Frag → Option Refused → Option Posted
if_refused rounds resends frags_nr frags none = some (record {
  frags = frags;
  frags_pending_nr = frags_nr;
  events_back = 0;
  driver_mediumsq_sending = true;
})
if_refused rounds resends frags_nr frags (some e) = if_finished frags_nr frags (
    if resends == 0
    then finish_copy rounds frags_nr (e.at + 1) e.at e.remaining e.offset
    else some e.at)

-- omx__post_isend_mediumsq
unfoldable pub post_isend_mediumsq : ℕ → (ℕ → Bool) → ℕ → ℕ → ℕ → Option Posted
unfolding post_frags finish_copy
post_isend_mediumsq rounds driver resends frags_nr length =
    let x = post_frags driver frags_nr 0 length 0 in if_refused rounds resends frags_nr x.0 x.1
