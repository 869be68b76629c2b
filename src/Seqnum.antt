-- ===== src/Seqnum.antt =====
-- The sequence numbers of libopen-mx/omx_types.h: 14 bits that count messages, below 2 bits that
-- count the sessions of two endpoints.
pub mod Laws
use open_mx.Common.{ℕ, ◌+◌, ◌-◌, ◌*◌, ◌/◌, ◌%◌, ◌^◌, Bool, ◌==◌}

-- OMX__SEQNUM, and OMX__SESNUM_SHIFTED of an `omx__seqnum_t`: masks as arithmetic.
abbrev pub seqnum : ℕ → ℕ
seqnum x = x % 2 ^ 14

abbrev pub sesnum : ℕ → ℕ
sesnum x = x / 2 ^ 14 % 4

-- OMX__SEQNUM_INCREASE_BY and OMX__SEQNUM_RESET
abbrev pub increase_by : ℕ → ℕ → ℕ
increase_by x n = sesnum x * 2 ^ 14 + seqnum (x + n)

abbrev pub reset : ℕ → ℕ
reset x = sesnum x * 2 ^ 14 + seqnum 1

-- OMX__SEQNUM (a - b), in C's arithmetic, of two numbers of 16 bits.
abbrev pub diff : ℕ → ℕ → ℕ
diff a b = (a + (2 ^ 16 - b)) % 2 ^ 14

-- OMX__SESNUM (a ^ b) == 0
abbrev pub same_session : ℕ → ℕ → Bool
same_session a b = sesnum a == sesnum b

-- The bounds of omx_types.h on what may be ahead.
abbrev pub early_packet_offset_max : ℕ
early_packet_offset_max = 0xff

abbrev pub throttling_offset_max : ℕ
throttling_offset_max = (2 ^ 14 - 1) / 2

-- What the `n`-th message of a session carries.
abbrev pub wire : ℕ → ℕ → ℕ
wire session n = session * 2 ^ 14 + n % 2 ^ 14
