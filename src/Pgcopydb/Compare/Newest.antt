-- ===== src/Pgcopydb/Compare/Newest.antt =====
-- The compare progress is that of the newest line that parses.
use mathlib.Core.List.{reverse, reverse-cons, reverse-reverse, append_assoc}
use pgcopydb_operator.Prelude.{
  ◌≡◌, refl, sym, ◌∙◌, ap, subst, Option, none, some, List, [], ◌∷◌, ◌++◌,
}
use pgcopydb_operator.Text.{Text}
use pgcopydb_operator.Text.Lines.{split_lines}
use pgcopydb_operator.Pgcopydb.Logs.{LogEntry}
use pgcopydb_operator.Pgcopydb.Compare.{
  CompareProgress, read_progress, newest, last_compare_progress,
}

module _ (decode : Text → Option LogEntry) (unmarshal : Text → Option CompareProgress) where
  -- No line has a progress that parses.
  abbrev pub Unread : List Text → Type 0
  Unread [] = Unit
  Unread (l ∷ ls) = (read_progress decode unmarshal l ≡ none) × Unread ls

  -- `some p` stands in a line with none behind it that parses; `none` where no line does.
  abbrev pub Newest : List Text → Option CompareProgress → Type 0
  Newest ls none = Unread ls
  Newest ls (some p) =
      (older : List Text) × (line : Text) × (newer : List Text) × (ls ≡ older ++ line ∷ newer)
      × (read_progress decode unmarshal line ≡ some p)
      × Unread newer

  Unread-append :
      (ls : List Text) (l : Text)
      → Unread ls
      → read_progress decode unmarshal l ≡ none
      → Unread (ls ++ l ∷ [])
  Unread-append [] l u e = (e, tt)
  Unread-append (k ∷ ls) l (d, u) e = (d, Unread-append ls l u e)

  Newest-append :
      (ls : List Text) (l : Text) (o : Option CompareProgress)
      → read_progress decode unmarshal l ≡ none
      → Newest ls o
      → Newest (ls ++ l ∷ []) o
  Newest-append ls l none e u = Unread-append ls l u e
  Newest-append ls l (some p) e (older, line, newer, q, r, u) = (
    older,
    line,
    newer ++ l ∷ [],
    ap (λ xs. xs ++ l ∷ []) q ∙ append_assoc older (line ∷ newer) (l ∷ []),
    r,
    Unread-append newer l u e,
  )

  newest-cons :
      (l : Text) (ls rs : List Text) (o : Option CompareProgress)
      → read_progress decode unmarshal l ≡ o
      → Newest ls (newest decode unmarshal rs)
      → Newest (ls ++ l ∷ []) (newest decode unmarshal (l ∷ rs))
  unfolding newest
  newest-cons l ls rs none e h =
      rw (e, newest) (Newest-append ls l (newest decode unmarshal rs) e h)
  newest-cons l ls rs (some p) e h = rw (e, newest) (ls, l, [], refl, e, tt)

  newest-Newest : (rs : List Text) → Newest (reverse rs) (newest decode unmarshal rs)
  unfolding newest
  newest-Newest [] = tt
  newest-Newest (r ∷ rs) =
      subst (λ xs. Newest xs (newest decode unmarshal (r ∷ rs))) (sym (reverse-cons r rs))
        (newest-cons r (reverse rs) rs (read_progress decode unmarshal r) refl (newest-Newest rs))

  -- The progress read from a log tail is that of its newest line that parses: a line cut short, or of
  -- anything else, does not hide the one before it, and none is read only where no line parses.
  pub last_compare_progress-Newest :
      (tail : Text) → Newest (split_lines tail) (last_compare_progress decode unmarshal tail)
  unfolding last_compare_progress
  last_compare_progress-Newest tail =
      subst (λ xs. Newest xs (last_compare_progress decode unmarshal tail))
        (reverse-reverse (split_lines tail)) (newest-Newest (reverse (split_lines tail)))
