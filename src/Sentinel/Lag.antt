-- ===== src/Sentinel/Lag.antt =====
-- The lag that a sample shows.
use pgcopydb_operator.Prelude.{ℕ, ◌+◌, ◌<◌, ◌≡◌, ◌↔◌, some, arith}
use pgcopydb_operator.Platform.Types.{SentinelState}
use pgcopydb_operator.Sentinel.{parse_lsn, lag, to_status}

-- With positions of 64 bits, the status of a sample shows a lag exactly when it is the distance from
-- the replayed position to the source's head, both known, the head not behind, and less than 2 ^ 63.
to_status-lag :
    (s : SentinelState) (head replay n : ℕ)
    → parse_lsn s.source_head ≡ some head
    → parse_lsn s.replay_lsn ≡ some replay
    → head < 18446744073709551616
    → (to_status s).lag_bytes ≡ some n ↔ ((replay + n ≡ head) × (n < 9223372036854775808))
unfolding to_status lag
to_status-lag s head replay n p q b = (λ h. ground arith, λ h. ground arith)
