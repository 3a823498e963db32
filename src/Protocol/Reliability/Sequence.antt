-- ===== src/Protocol/Reliability/Sequence.antt =====
-- `IsSequenceMoreRecent` as serial-number arithmetic.
use rift_net.Base.{ℕ, ◌+◌, ◌%◌, ◌<◌, ◌≡◌, ◌↔◌, ◌≢◌, ◌⊎◌, true, false, arith}
use rift_net.Protocol.Reliability.{sub16, is_sequence_more_recent}

-- One sequence number is more recent than another exactly when it is 1 to 32767 steps ahead of it
-- on the circle of the 65536 numbers.
pub is_sequence_more_recent_iff :
    (s1 s2 : ℕ)
    → s1 < 65536
    → s2 < 65536
    → (is_sequence_more_recent s1 s2 ≡ true) ↔ ((0 < sub16 s1 s2) × (sub16 s1 s2 < 32768))
unfolding is_sequence_more_recent
is_sequence_more_recent_iff s1 s2 h1 h2 = ground arith

-- Two different sequence numbers are ordered one way and never both, except that numbers exactly
-- 32768 apart are ordered neither way.
pub is_sequence_more_recent_trichotomy :
    (s1 s2 : ℕ)
    → s1 < 65536
    → s2 < 65536
    → s1 ≢ s2
    → ((is_sequence_more_recent s1 s2 ≡ true) × (is_sequence_more_recent s2 s1 ≡ false))
      ⊎ ((is_sequence_more_recent s1 s2 ≡ false) × (is_sequence_more_recent s2 s1 ≡ true))
      ⊎ ((is_sequence_more_recent s1 s2 ≡ false)
          × (is_sequence_more_recent s2 s1 ≡ false)
          × (sub16 s1 s2 ≡ 32768))
unfolding is_sequence_more_recent
is_sequence_more_recent_trichotomy s1 s2 h1 h2 ne = ground arith

-- For packet numbers that have not been cut to 16 bits: as long as two of them are less than 32768
-- apart, the test on their low 16 bits tells which is greater.
pub is_sequence_more_recent-unwrapped :
    (m n : ℕ)
    → m < n + 32768
    → n < m + 32768
    → (is_sequence_more_recent (m % 65536) (n % 65536) ≡ true) ↔ (n < m)
unfolding is_sequence_more_recent
is_sequence_more_recent-unwrapped m n h1 h2 = ground arith
