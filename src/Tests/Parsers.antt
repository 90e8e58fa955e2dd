-- ===== src/Tests/Parsers.antt =====
-- The theorems on the parsers of samples, applied to concrete outputs.
use pgcopydb_operator.Prelude.{
  ℕ, ◌==◌, ◌<◌, ◌≡◌, ◌↔◌, ◌⊎◌, refl, arith, true, [], ◌∷◌, ◌++◌, none, some,
}
use pgcopydb_operator.Prelude.Word.{sub64}
use pgcopydb_operator.Text.{Text, codes, trim_space, same, has_prefix, cut, cut_prefix}
use pgcopydb_operator.Text.Lines.{split_lines}
use pgcopydb_operator.Text.Laws.{free-Free}
use pgcopydb_operator.Sentinel
use pgcopydb_operator.Sentinel.Parse.{parse_lsn_text}
use pgcopydb_operator.Sentinel.Parse
use pgcopydb_operator.Sentinel.Parse.Report.{
  print_lsn, slot_report, parse_lsn_text-print, parse_sample-slot_report,
}
use pgcopydb_operator.Progress
use pgcopydb_operator.Progress.{parse_stage, parse_fields, withheld_reason, server_reason}
use pgcopydb_operator.Progress.Report.{output, parse_sample-output}
use pgcopydb_operator.Progress.Stages.{stage_line, parse_stage-stage_line}
use pgcopydb_operator.Progress.Withheld.{IsShowable, parse_sample-IsShowable}

parse_lsn_text-print_example : parse_lsn_text (print_lsn 97500059720) ≡ some 97500059720
parse_lsn_text-print_example = parse_lsn_text-print 97500059720 (omega arith)

parse_sample-slot_report_example :
    (Sentinel.Parse.parse_sample (slot_report 97500059720 97500059000 0)
      ≡ some (record {
        write_lsn = print_lsn 97500059000;
        replay_lsn = print_lsn 0;
        endpos = [];
        source_head = print_lsn 97500059720;
      }))
    × (parse_lsn_text (print_lsn 97500059000) ≡ some 97500059000)
    × (parse_lsn_text (print_lsn 0) ≡ some 0)
    × (parse_lsn_text (print_lsn 97500059720) ≡ some 97500059720)
parse_sample-slot_report_example =
    parse_sample-slot_report 97500059720 97500059000 0 (omega arith) (omega arith) (omega arith)

parse_stage-stage_line_example :
    let s = parse_stage (stage_line 0 2 1) in
    ((s.copying ≡ true) ↔ (0 < 0))
    × ((s.finalizing ≡ true) ↔ (◌≡◌ {A = ℕ} 0 0 × (0 < 2)))
    × ((s.started ≡ true) ↔ ((0 < 0) ⊎ (0 < 1)))
parse_stage-stage_line_example =
    parse_stage-stage_line 0 2 1 (omega arith) (omega arith) (omega arith)

parse_sample-output_example :
    let s = Progress.parse_sample (
      output
        (codes "0 2 1")
        (codes "public.a")
        (900 ∷ 3 ∷ 3 ∷ 4 ∷ 800 ∷ 1 ∷ [])
        (700 ∷ 3 ∷ 2 ∷ 4 ∷ 600 ∷ [])
        (0 ∷ 0 ∷ 0 ∷ [])) in
    (s.source_size ≡ some 900)
    × (s.target_size ≡ some 700)
    × (s.counts
        ≡ some (record {
          tables_total = 3;
          tables_done = sub64 3 1;
          indexes_total = 4;
          indexes_done = 4;
          bytes_total = 800;
          bytes_done = 600;
          empty_on_target = trim_space (codes "public.a");
        }))
    × (s.sync_rep ≡ some (record { waiting = 0; oldest_seconds = 0; pgcopydb_named = 0 }))
    × (s.copying ≡ (parse_stage (codes "0 2 1")).copying)
    × (s.finalizing ≡ (parse_stage (codes "0 2 1")).finalizing)
    × (s.lost (codes "source") ≡ none)
    × (s.lost (codes "target") ≡ none)
    × (s.lost (codes "syncrep") ≡ none)
parse_sample-output_example =
    parse_sample-output (codes "0 2 1") (codes "public.a") 900 3 3 4 800 1 700 3 2 4 600 0 0 0
      (free-Free (λ c. c == 10) (codes "0 2 1") refl)
      (free-Free (λ c. c == 10) (codes "public.a") refl) (omega arith) (omega arith) (omega arith)
      (omega arith) (omega arith)

abbrev lost_output : Text
lost_output = codes "source_error=psql: error: invalid URI: postgres://me:secret@db" ++ 10 ∷ []

lost_source : (Progress.parse_sample lost_output).lost (codes "source") ≡ some withheld_reason
unfolding Progress.parse_sample Progress.sample_of same Progress.read_lines split_lines
    Progress.read_line cut_prefix cut server_reason trim_space has_prefix
lost_source = refl

parse_sample-IsShowable_example : IsShowable withheld_reason
parse_sample-IsShowable_example =
    parse_sample-IsShowable lost_output (codes "source") withheld_reason lost_source
