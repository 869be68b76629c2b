-- ===== src/Eventq/Defs.antt =====
-- The state of the event queues: common/omx_io.h (sizes, slots), driver/linux/omx_endpoint.h (the
-- indexes), and their initialisation and release calls in driver/linux/omx_event.c. Both sizes are
-- those of the default build, where OMX_SHARED_RING_ENTRY_NR is not defined.
use Prim.Native.Nat.{bit_or}
use open_mx.Common.{
  ℕ, ◌+◌, ◌/◌, ◌%◌, Bool, List, [], ◌∷◌, add32, sub32, ltb, replicate, if◌then◌else◌, set,
}

-- Event slots of each queue, receive slots, and the batch in which slots are released.
abbrev pub entry_nr : ℕ
entry_nr = 1024

abbrev pub batch_nr : ℕ
batch_nr = entry_nr / 4

abbrev pub event_id_max : ℕ
event_id_max = 255

abbrev pub evt_ignore : ℕ
evt_ignore = 1

-- A slot of 64 bytes: its last two bytes, and the 62 before them. Every event structure fills a
-- slot, and the callers pass its size, so `memcpy` to a slot replaces all of it.
pub record Event : Type 0 where
  pub body : List ℕ
  pub type : ℕ
  pub id : ℕ

-- Errors of the kernel calls.
pub data Errno : Type 0 where
  success ebusy einval efault enomem : Errno

-- A thread asleep in the wait call, with the status it will find; `awake` is set by
-- `wake_up_process`.
pub record Waiter : Type 0 where
  pub status : ℕ
  pub awake : Bool

pub record Endpoint : Type 0 where
  pub exp_eventq : List Event
  pub nextfree_exp : ℕ
  pub nextreleased_exp : ℕ
  pub unexp_eventq : List Event
  pub nextfree_unexp : ℕ
  pub nextreserved_unexp : ℕ
  pub nextreleased_unexp : ℕ
  pub next_recvq : ℕ
  pub waiters : List Waiter
  -- The status word of the descriptor shared with the library.
  pub desc_status : ℕ

abbrev pub unused_event : Event
unused_event = record { body = replicate 62 0; type = 0; id = 0 }

-- omx_endpoint_queues_init, on the two areas of slots and the descriptor: only ids are reset.
abbrev pub unused : Event → Event
unused e = record e { id = 0 }

unfoldable pub reset : List Event → List Event
reset [] = []
reset (e ∷ es) = unused e ∷ reset es

unfoldable pub queues_init : List Event → List Event → ℕ → Endpoint
queues_init exp unexp desc = record {
  exp_eventq = reset exp;
  nextfree_exp = 0;
  nextreleased_exp = 0;
  unexp_eventq = reset unexp;
  nextfree_unexp = 0;
  nextreserved_unexp = 0;
  nextreleased_unexp = 0;
  next_recvq = 0;
  waiters = [];
  desc_status = desc;
}

-- The id that tells the library that the slot of this index is filled.
abbrev pub event_id : ℕ → ℕ
event_id index = 1 + index % event_id_max

-- Fill the slot of an index: the body first, its id last.
unfoldable pub fill_slot : List Event → ℕ → Event → List Event
fill_slot slots index e = set slots (index % entry_nr) (record e { id = event_id index })

-- omx_ioctl_release_exp_slots
unfoldable pub release_exp_slots : Endpoint → Endpoint × Errno
release_exp_slots ep =
    if ltb (sub32 ep.nextfree_exp ep.nextreleased_exp) batch_nr
    then (ep, einval)
    else (record ep { nextreleased_exp = add32 ep.nextreleased_exp batch_nr }, success)

-- omx_ioctl_release_unexp_slots
unfoldable pub release_unexp_slots : Endpoint → Endpoint × Errno
release_unexp_slots ep =
    if ltb (sub32 ep.nextreserved_unexp ep.nextreleased_unexp) batch_nr
    then (ep, einval)
    else (record ep { nextreleased_unexp = add32 ep.nextreleased_unexp batch_nr }, success)

-- The status bit that reports a full queue.
abbrev pub exp_eventq_full : ℕ
exp_eventq_full = 1

abbrev pub unexp_eventq_full : ℕ
unexp_eventq_full = 2

unfoldable pub report : ℕ → Endpoint → Endpoint
report bit ep = record ep { desc_status = bit_or ep.desc_status bit }
