-- ===== src/Lib.antt =====
-- Open-MX: message passing over Ethernet, with a driver in the Linux kernel and a library in user
-- space. These parts of it are modelled.
--
-- In the driver:
-- - Eventq: the two rings of event slots that the driver fills and the library reads
--   (driver/linux/omx_event.c, the sizes in common/omx_io.h, the loops of omx__progress in
--   libopen-mx/omx_lib.c). Eventq/Defs has the state of an endpoint, its initialisation and the
--   release of slots; Eventq/Notify the driver's notifications, with slots prepared, committed or
--   cancelled; Eventq/Progress the library's loops; Eventq/Wait the call in which a thread sleeps.
--   Eventq/Ring is the invariant of a ring, Eventq/View a bounded FIFO, Eventq/Refine and
--   Eventq/Expected relate the queues to it, Eventq/Drain is about the loops, and
--   Eventq/Runs about sequences of calls.
-- - PullSlots: the table of pull handles of driver/linux/omx_pull.c, with ids made of an index and a
--   generation.
-- - Pull: the pull of a large message in driver/linux/omx_pull.c: Pull/Defs the handle and its block
--   descriptors, Pull/Requests the requests, Pull/Replies what a frame does, Pull/Timeout the timer.
--   A reply looks its handle up in the table of PullSlots, and a completed pull is reported by an
--   event of the expected queue of Eventq.
--
-- In the library:
-- - Segments: scattered buffers, libopen-mx/omx_segments.h.
-- - Seqnum: the sequence numbers of libopen-mx/omx_types.h; `wire` is the number that the n-th message
--   of a session carries.
-- - Send: the send side of a partner. Send/Ops gives requests their numbers and throttles them
--   (libopen-mx/omx_send.c), Send/Ack is what acks and nacks do (libopen-mx/omx_ack.c), Send/Medium the
--   posting of a medium message. Send/Window is the invariant; Send/Throttle, Send/Release,
--   Send/Acked, Send/Nacked and Send/Posting are about these operations.
-- - Regions: the map of memory regions of an endpoint and the cache of their registrations
--   (libopen-mx/omx_large.c), with its functions for memory that is freed in Regions/Invalidate and for a
--   closing endpoint in Regions/Init. Regions/Ledger says what a map with given uses looks like;
--   Regions/Slots and Regions/Alloc are about slots, Regions/Add and Regions/Get about getting a
--   region, Regions/Uses and Regions/Put about putting it back.
-- - Large: what a large send and a pull take of an endpoint (libopen-mx/omx_large.c and omx_send.c),
--   regions of Regions among it. Large/Account says what requests hold; Large/Move, Large/Acquire,
--   Large/Pulling and Large/Give are about the operations, Large/Step about one step of a run, and
--   Large/Steps about runs.
-- - Partners: how two endpoints connect (libopen-mx/omx_partner.c). Partners/Handshake is about one
--   connection, Partners/Half and Partners/Sessions about any number of them over a network that loses,
--   repeats and reorders requests and replies. What both agree on is where a channel of Channel starts.
-- - Acks: the acks that go out, and the time of the next wake-up (libopen-mx/omx_ack.c): Acks/Laws and
--   Acks/Wakeup are about them.
-- - Recv: the receive side, libopen-mx/omx_recv.c. Recv/Order decides what a packet is good for, and
--   passes messages on to an interface, Matching of Recv/Defs; Recv/Match and Recv/Take implement it,
--   with the requests of an endpoint, and Recv/Partial shows that they do. Recv/Window is the
--   invariant, Recv/Turn, Recv/Early, Recv/Delivery, Recv/Session, Recv/Kept and Recv/Progress are
--   about the order, Recv/Reassembly and Recv/Fragments about medium messages. Recv/Irecv posts a
--   receive, and Recv/Apart, Recv/Received and Recv/Meet are about receives and messages that wait.
-- - Channel: both sides with a network between them. Channel/Net has the steps, Channel/Invariant and
--   Channel/Steps what they keep, and Channel/Fifo what it means. Channel/Partner is a partner with
--   both directions, omx__process_recv for any packet.
--
-- Indexes and lengths of 32 bits are natural numbers with their wrap-around written out (Common/Words),
-- masks and shifts of sequence numbers are arithmetic. The sizes are those of the default build for
-- the event queues, and those of the build compatible with MX on the wire for pulls and fragments.
-- Operations run one after the other, as their locks make them; where a lock is released inside a
-- function (a reply copies its frame without it), the function is two steps. Loops are recursions on
-- the list or the number that bounds them, or on fuel: 1025 rounds for the library's loop over 1024
-- slots, 4 for the loop over the 4 block descriptors of a pull. Fuel that is used up is a result of
-- its own in the library's loops. The loop that copies between two scattered buffers needs at most one
-- round for each segment of both; it gives `none` when its fuel is used up. The loop that copies
-- fragments after an error has any number of rounds. All other loops are recursions on a list.
--
-- A request of the library is found by its identity in the queues of the endpoint, and stands with its
-- fields in those of the partner; what its state says is in flags. Lists of partners (those to ack,
-- and the throttled ones) are those with such a need. An error handler returns the code it was given.
-- The unexpected handler of a program posts receives, if any, and says whether it took care of the
-- message; the notify that is then sent for a rendezvous is left out.
--
-- Not modelled: socket buffers and the sending of packets, DMA engines, user regions, the checks on
-- packet headers, reference counts and RCU, and of the library the resources of medium sends,
-- resends, the queue of delayed requests, the lookup of partners and their disconnection, messages to
-- oneself, and contexts of matching but one. Whether memory can be allocated, whether the driver
-- pins the segments of a region, and whether it starts a pull are arguments. Runs of large messages
-- are those in which it starts each pull that it is asked for: after a refusal the library reads a
-- variable that is not initialised. In them a pull may be completed before the driver has it, and a
-- partner may be dropped whose large send was acked and not notified; the library then never gives back
-- what these hold, and they are listed apart. A mask of fragments has 32 bits, and messages have at
-- most 32 fragments there.
pub mod Common
pub mod Eventq
pub mod PullSlots
pub mod Regions
pub mod Large
pub mod Pull
pub mod Segments
pub mod Seqnum
pub mod Recv
pub mod Partners
pub mod Send
pub mod Acks
pub mod Channel
