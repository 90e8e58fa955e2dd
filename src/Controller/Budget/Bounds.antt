-- ===== src/Controller/Budget/Bounds.antt =====
-- The retry budget on Go's int32.
use pgcopydb_operator.Prelude.{◌+◌, ◌-◌, ◌≤◌, ◌<◌, ◌≡◌, true, leb, arith}
use pgcopydb_operator.Prelude.Word.{add32}
use pgcopydb_operator.Migration.{Migration}
use pgcopydb_operator.Controller.Budget.{budget_spent}

-- With attempts below 2 ^ 31, no more exempt ones than attempts and a limit below 2 ^ 31 - 1, the
-- budget is spent exactly when the attempts that are not exempt exceed the limit.
pub budget_spent-counts :
    (m : Migration)
    → m.status.attempts < 2147483648
    → m.status.exempt_attempts ≤ m.status.attempts
    → m.spec.backoff_limit < 2147483647
    → budget_spent m ≡ leb (m.spec.backoff_limit + 1) (m.status.attempts - m.status.exempt_attempts)
unfolding budget_spent
budget_spent-counts m a e b = ground arith

-- With a limit of 2 ^ 31 - 1, the largest int32, `BackoffLimit + 1` wraps to the smallest one, and
-- the budget is spent whatever the attempts are, before the first one too.
pub budget_spent-wraps :
    (m : Migration)
    → m.status.attempts < 2147483648
    → m.status.exempt_attempts ≤ m.status.attempts
    → m.spec.backoff_limit ≡ 2147483647
    → budget_spent m ≡ true
unfolding budget_spent
budget_spent-wraps m a e b = ground arith

-- An attempt that is lost and then exempt costs nothing: one more attempt and one more exempt
-- attempt leave the budget as it was, on every pair of int32 counters.
exempt_attempt-free :
    (m : Migration)
    → m.status.attempts < 4294967296
    → m.status.exempt_attempts < 4294967296
    → budget_spent (record m {
      status = record m.status {
        attempts = add32 m.status.attempts 1;
        exempt_attempts = add32 m.status.exempt_attempts 1;
      };
    })
      ≡ budget_spent m
unfolding budget_spent
exempt_attempt-free m a e = ground arith
