-- ===== src/Large.antt =====
-- Large messages in the library: the resources that a send and a pull take one after the other, and
-- what gives them back (libopen-mx/omx_large.c and omx_send.c).
pub mod Move
pub mod Account
pub mod Acquire
pub mod Pulling
pub mod Give
pub mod Step
pub mod Steps
mod Tests
use open_mx.Common.{
  ℕ, ◌+◌, ◌-◌, ◌%◌, Bool, true, false, List, [], ◌∷◌, ◌++◌, Option, none, some, ltb, ◌==◌, ◌||◌,
  ◌&&◌, not, if◌then◌else◌, remove,
}
use open_mx.Segments.Defs.{ReqSegs}
use open_mx.Regions.{Region, RegionMap, Globals, update, get_region, put_region}

-- The types of the requests for large messages.
pub data TransferType : Type 0 where
  send_large recv_large : TransferType

-- union omx_request of a large message: the missing resources are the flags of a set, `region` is
-- that of a send or the local_region of a receive, and `partial` is the flag of its state.
pub record Transfer : Type 0 where
  pub id : ℕ
  pub type : TransferType
  pub segs : ReqSegs
  pub missing_exp_event : Bool
  pub missing_send_large_region : Bool
  pub missing_large_region : Bool
  pub missing_pull_handle : Bool
  pub region : ℕ
  pub region_seqnum : ℕ
  pub need_reply : Bool
  pub need_ack : Bool
  pub partial : Bool
  pub xfer_length : ℕ

-- What a large message takes of struct omx_endpoint, the pulls that the driver runs, with the request
-- and the window of each, the sends that were acked and wait for a notify, and in `done` the sends that
-- were completed, in order.
pub record Resources : Type 0 where
  pub regions : RegionMap
  pub avail_exp_events : ℕ
  pub driver_pulling_req_q : List (ℕ × ℕ)
  pub large_send_need_reply_req_q : List ℕ
  pub done : List ℕ

pub data Outcome : Type 0 where
  success missing_resources : Outcome

-- The first resource of a send: one of the slots that the map keeps for sends.
abbrev pub take_send_slot : Resources → Transfer → Outcome × Resources × Transfer
take_send_slot s t =
    if t.missing_send_large_region
    then (if s.regions.large_sends_avail_nr == 0 then (missing_resources, s, t) else (
      success,
      record s {
        regions = record s.regions { large_sends_avail_nr = s.regions.large_sends_avail_nr - 1 };
      },
      record t { missing_send_large_region = false },
    ))
    else (success, s, t)

-- The second one: a region that the request reserves, with its next sequence number of 8 bits.
abbrev pub send_with : Resources → Transfer → RegionMap × Option ℕ → Outcome × Resources × Transfer
send_with s t (c, none) = (missing_resources, record s { regions = c }, t)
send_with s t (c, some id) =
    let r = c.region id in
    (
      success,
      record s {
        regions = record c {
          region = update c.region id (record r { last_seqnum = (r.last_seqnum + 1) % 256 });
        };
      },
      record t { missing_large_region = false; region = id; region_seqnum = r.last_seqnum },
    )

unfoldable pub take_send_region :
    Globals → Bool → Resources → Transfer → Outcome × Resources × Transfer
take_send_region g accepts s t = send_with s t (get_region g accepts t.segs (some t.id) s.regions)

abbrev pub then_take :
    (Resources → Transfer → Outcome × Resources × Transfer)
    → Outcome × Resources × Transfer
    → Outcome × Resources × Transfer
then_take f (success, s, t) = f s t
then_take f (missing_resources, s, t) = (missing_resources, s, t)

-- omx__alloc_setup_isend_large, up to the sending of the request, which has all of its resources then,
-- for a request that misses some; the abort for another one is left out.
-- `accepts` says whether the driver pins the segments.
unfoldable pub alloc_setup_isend_large :
    Globals → Bool → Resources → Transfer → Outcome × Resources × Transfer
unfolding take_send_region
alloc_setup_isend_large g accepts s t = then_take (take_send_region g accepts) (take_send_slot s t)

-- The first resource of a pull: a slot for its event.
abbrev pub take_exp_event : Resources → Transfer → Outcome × Resources × Transfer
take_exp_event s t =
    if t.missing_exp_event
    then (if s.avail_exp_events == 0 then (missing_resources, s, t) else (
      success,
      record s { avail_exp_events = s.avail_exp_events - 1 },
      record t { missing_exp_event = false },
    ))
    else (success, s, t)

-- The last one: the driver starts the pull into the region `id`, or refuses.
abbrev pub start_pull : Bool → ℕ → Resources → Transfer → Outcome × Resources × Transfer
start_pull pulls id s t =
    if pulls
    then (
      success,
      record s { driver_pulling_req_q = s.driver_pulling_req_q ++ (t.id, id) ∷ [] },
      record t { missing_pull_handle = false; region = id },
    )
    else (missing_resources, s, t)

abbrev pub pull_with :
    Bool → Resources → Transfer → RegionMap × Option ℕ → Outcome × Resources × Transfer
pull_with pulls s t (c, none) = (missing_resources, record s { regions = c }, t)
pull_with pulls s t (c, some id) =
    start_pull pulls id (record s { regions = c }) (record t { missing_large_region = false })

unfoldable pub pull_into_region :
    Globals → Bool → Bool → Resources → Transfer → Outcome × Resources × Transfer
pull_into_region g accepts pulls s t =
    pull_with pulls s t (get_region g accepts t.segs none s.regions)

-- omx__alloc_setup_pull, for a request that misses a resource: `accepts` and `pulls` say whether the driver pins the segments and starts the
-- pull. The local variable `region` holds `uninitialized` until a region is got.
unfoldable pub alloc_setup_pull :
    Globals → Bool → Bool → ℕ → Resources → Transfer → Outcome × Resources × Transfer
unfolding pull_into_region
alloc_setup_pull g accepts pulls uninitialized s t =
    if t.missing_exp_event || t.missing_large_region
    then then_take (pull_into_region g accepts pulls) (take_exp_event s t)
    else start_pull pulls uninitialized s t

-- Taking a pull out of the queue of those that the driver runs.
abbrev pub dequeue_pull : ℕ → List (ℕ × ℕ) → List (ℕ × ℕ)
dequeue_pull id [] = []
dequeue_pull id ((q, r) ∷ ps) = if q == id then ps else (q, r) ∷ dequeue_pull id ps

-- omx__process_pull_done for the request `t`, with the event that it used, up to the sending of its
-- notify: `ok` says whether the status is a success, and `region_id` is the window of the event.
unfoldable pub process_pull_done : Globals → Bool → ℕ → Resources → Transfer → Resources × Transfer
unfolding put_region
process_pull_done g ok region_id s t = (
  record s {
    avail_exp_events = s.avail_exp_events + 1;
    regions = put_region g s.regions region_id none;
    driver_pulling_req_q = dequeue_pull t.id s.driver_pulling_req_q;
  },
  record t { partial = false; xfer_length = if ok then t.xfer_length else 0 },
)

-- The slot of a send that ended, and its region.
abbrev pub put_send : Globals → Resources → Transfer → Resources
put_send g s t =
    let c = put_region g s.regions t.region (some t.id) in
    record s { regions = record c { large_sends_avail_nr = c.large_sends_avail_nr + 1 } }

-- Whether a notify with this sequence number is for the request that has its region reserved.
unfoldable pub is_for : Region → ℕ → Transfer → Bool
is_for r seqnum t = elim r.reserver [
  | none ↦ false
  | some q ↦ (q == t.id) && (seqnum == t.region_seqnum)
]

-- A send that needs no ack any more is completed by its notify; another one stays with those that are
-- not acked.
abbrev pub finish_send : Resources → Transfer → Resources
finish_send s t = record s {
  large_send_need_reply_req_q =
      if t.need_ack
      then s.large_send_need_reply_req_q
      else remove t.id s.large_send_need_reply_req_q;
  done = if t.need_ack then s.done else s.done ++ t.id ∷ [];
}

-- omx__process_recv_notify, where `t` is the request that the region has for its reserver, if any. The
-- immediate ack that older versions of MX want is left out.
unfoldable pub process_recv_notify :
    Globals → ℕ → ℕ → ℕ → Resources → Transfer → Resources × Transfer
unfolding is_for put_region
process_recv_notify g region_id seqnum xfer_length s t =
    if is_for (s.regions.region region_id) seqnum t
    then (
      finish_send (put_send g s t) t,
      record t { xfer_length = xfer_length; need_reply = false },
    )
    else (s, t)

-- omx__mark_request_acked for a large send that failed, so that no notify comes.
unfoldable pub fail_send : Globals → Resources → Transfer → Resources
unfolding put_region
fail_send g s t = let s' = put_send g s t in record s' { done = s'.done ++ t.id ∷ [] }

-- A large send that was acked and waits for a notify, when omx__partner_cleanup drops the partner: it is
-- completed, and its region and its slot are not given back.
unfoldable pub drop_need_reply : Resources → Transfer → Resources
drop_need_reply s t = record s {
  large_send_need_reply_req_q = remove t.id s.large_send_need_reply_req_q;
  done = s.done ++ t.id ∷ [];
}

-- omx__release_unsent_send_resources, for large messages
abbrev pub release_send_slot : Transfer → RegionMap → RegionMap
release_send_slot t c =
    if t.missing_send_large_region
    then c
    else record c { large_sends_avail_nr = c.large_sends_avail_nr + 1 }

unfoldable pub release_unsent : Globals → Resources → Transfer → Resources
unfolding put_region
release_unsent g s t = elim t.type [
  | send_large ↦
      let c = release_send_slot t s.regions in
      if t.missing_large_region
      then record s { regions = c }
      else record s { regions = put_region g c t.region (some t.id) }
  | recv_large ↦
      if t.partial
      then record s {
        avail_exp_events =
            if t.missing_exp_event then s.avail_exp_events else s.avail_exp_events + 1;
        regions =
            if t.missing_large_region then s.regions else put_region g s.regions t.region none;
      }
      else s
]

-- omx__complete_unsent_send_request, for large messages: what it gives back before the request is
-- completed.
unfoldable pub complete_unsent : Globals → Resources → Transfer → Resources
unfolding release_unsent
complete_unsent g s t = elim t.type [
  | send_large ↦ release_unsent g s t
  | recv_large ↦ if t.partial then s else release_unsent g s t
]
