-- ===== src/Migration/Name.antt =====
-- The names of a Migration's child Jobs (internal/controller/resources.go), by their parts: the
-- source joins the Migration's name, the kind and the run by dashes.
use pgcopydb_operator.Prelude.{ℕ, ◌+◌, ◌*◌, Bool, true, false, ◌==◌}

pub data JobName : Type 0 where
  -- <name>-run-<attempt>, <name>-gate-<attempt>, <name>-rehearsal-<run>
  worker gate rehearsal : ℕ → JobName
  preflight verify cleanup reown catalog compare_schema compare_data : JobName

-- strings.HasPrefix(name, m.Name+"-gate-")
abbrev pub is_gate_name : JobName → Bool
is_gate_name (gate n) = true
is_gate_name _ = false

-- strings.HasPrefix(name, m.Name+"-rehearsal-")
abbrev pub is_rehearsal_name : JobName → Bool
is_rehearsal_name (rehearsal n) = true
is_rehearsal_name _ = false

abbrev name_code : JobName → ℕ
name_code (worker n) = n * 10
name_code (gate n) = n * 10 + 1
name_code (rehearsal n) = n * 10 + 2
name_code preflight = 3
name_code verify = 4
name_code cleanup = 5
name_code reown = 6
name_code catalog = 7
name_code compare_schema = 8
name_code compare_data = 9

-- Two names are the same text: the codes differ where the texts do.
abbrev pub same_name : JobName → JobName → Bool
same_name a b = name_code a == name_code b
