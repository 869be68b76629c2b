-- ===== src/Seqnum/Laws.antt =====
-- Wire numbers against the numbers that count all messages of a session.
use open_mx.Common.{ℕ, ◌+◌, ◌-◌, ◌^◌, ◌<◌, ◌≤◌, ◌≡◌, true, arith, eq→==}
use open_mx.Seqnum.{diff, increase_by, same_session, sesnum, wire}

-- The difference of two numbers that are less than 2^14 apart.
pub diff-ge :
    (ses a b : ℕ) → ses < 4 → b ≤ a → a < b + 2 ^ 14 → diff (wire ses a) (wire ses b) ≡ a - b
diff-ge ses a b s le lt = omega arith

pub diff-lt :
    (ses a b : ℕ)
    → ses < 4
    → a < b
    → b ≤ a + 2 ^ 14
    → diff (wire ses a) (wire ses b) ≡ 2 ^ 14 + a - b
diff-lt ses a b s lt le = omega arith

pub increase_by-wire : (ses n k : ℕ) → ses < 4 → increase_by (wire ses n) k ≡ wire ses (n + k)
increase_by-wire ses n k s = omega arith

pub same_session-wire : (ses a b : ℕ) → ses < 4 → same_session (wire ses a) (wire ses b) ≡ true
same_session-wire ses a b s = eq→== (sesnum (wire ses a)) (sesnum (wire ses b)) (omega arith)
