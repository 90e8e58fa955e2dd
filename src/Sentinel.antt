-- ===== src/Sentinel.antt =====
-- Replication samples (internal/sentinel/sentinel.go): positions, the lag and the status they give.
pub mod Lag
pub mod Parse
use pgcopydb_operator.Prelude.{ℕ, Bool, true, false, ◌||◌, Option, none, some, if◌then◌else◌, ltb}
use pgcopydb_operator.Prelude.Word.{sub64, i64_half, i64_mod}
use pgcopydb_operator.Migration.{Lsn, no_lsn, null_lsn, lsn, ReplicationStatus}
use pgcopydb_operator.Platform.Types.{SentinelState, SlotSample}

-- EndposSet and lsnSet: non-empty and not the null LSN
abbrev pub endpos_set : Lsn → Bool
endpos_set no_lsn = false
endpos_set null_lsn = false
endpos_set (lsn n) = true

-- ParseLSN: the empty text is an error.
abbrev pub parse_lsn : Lsn → Option ℕ
parse_lsn no_lsn = none
parse_lsn null_lsn = some 0
parse_lsn (lsn n) = some n

-- -1 as an int64
abbrev minus_one : ℕ
minus_one = 18446744073709551615

abbrev distance : Option ℕ → Option ℕ → ℕ
distance none replay = minus_one
distance (some head) none = minus_one
distance (some head) (some replay) = if ltb head replay then minus_one else sub64 head replay

-- State.Lag, an int64 as its bit pattern
unfoldable pub lag : SentinelState → ℕ
lag s = distance (parse_lsn s.source_head) (parse_lsn s.replay_lsn)

-- A position that is unset is absent.
abbrev pub shown : Lsn → Lsn
shown no_lsn = no_lsn
shown null_lsn = no_lsn
shown (lsn n) = lsn n

-- The State that parseSample returns: it never has an endpos.
abbrev pub state_of : SlotSample → SentinelState
state_of x = record {
  write_lsn = x.write_lsn;
  replay_lsn = x.replay_lsn;
  endpos = no_lsn;
  source_head = x.source_head;
}

-- State.ToStatus; the lag is shown where it is not negative
unfoldable pub to_status : SentinelState → ReplicationStatus
unfolding lag
to_status s = record {
  write_lsn = shown s.write_lsn;
  replay_lsn = shown s.replay_lsn;
  endpos = shown s.endpos;
  lag_bytes = if ltb (lag s) i64_half then some (lag s) else none;
}
