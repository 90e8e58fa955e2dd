-- ===== src/Pgcopydb/Args/Flags.antt =====
-- Which flags the argv of CloneArgs holds.
use pgcopydb_operator.Prelude.{
  ℕ, ◌-◌, ◌≡◌, refl, ◌∙◌, ap, arith, Bool, true, false, ltb, ◌==◌, ◌&&◌, ◌||◌, if◌then◌else◌,
  Bool-cases, inl, inr, Option, none, some, List, [], ◌∷◌, ◌++◌,
}
use pgcopydb_operator.Prelude.Word.{lt32}
use pgcopydb_operator.Text.Laws.{same_sound}
use pgcopydb_operator.Migration.{MigrationSpec, CloneOptions, FollowOptions, Filters}
use pgcopydb_operator.Text.{Text, codes, same}
use pgcopydb_operator.Text.Numbers.{decimal, format_int64}
use pgcopydb_operator.Text.RoundTrip.{AllDigits, decimal-AllDigits}
use pgcopydb_operator.Pgcopydb.Slot.{slot_name}
use pgcopydb_operator.Pgcopydb.Filters.{is_empty_filters}
use pgcopydb_operator.Pgcopydb.Args.{
  itoa, flag, jobs, lookup, skip_flag, skip_flags, sort, add_flag, filters_args, sized_args,
  option_args, start_args, clone_args, named, or_default, follow_args, table_jobs_for,
  split_tables_larger_than, split_max_parts,
}

-- Some argument is this text.
unfoldable pub has : Text → List Text → Bool
has x [] = false
has x (a ∷ args) = same x a || has x args

or_false : (b : Bool) → (b || false) ≡ b
or_false true = refl
or_false false = refl

has-append : (x : Text) (args more : List Text) → has x (args ++ more) ≡ (has x args || has x more)
unfolding has
has-append x [] more = refl
has-append x (a ∷ args) more = ground (arith, has-append x args more)

-- A text that starts as a long flag.
abbrev pub is_flag : Text → Bool
is_flag [] = false
is_flag (c ∷ []) = false
is_flag (c ∷ d ∷ s) = c == b'-' && d == b'-'

differ : (x a : Text) → is_flag x ≡ true → is_flag a ≡ false → same x a ≡ false
unfolding same
differ [] a f g = absurd (cc)
differ (c ∷ []) a f g = absurd (cc)
differ (c ∷ d ∷ s) [] f g = refl
differ (c ∷ d ∷ s) (e ∷ []) f g = ground arith
differ (c ∷ d ∷ s) (e ∷ h ∷ t) f g = ground arith

digits-not_flag : (s : Text) → AllDigits s → is_flag s ≡ false
digits-not_flag [] a = refl
digits-not_flag (c ∷ []) a = refl
digits-not_flag (c ∷ d ∷ s) a = ground (arith, a)

negative-not_flag : (s : Text) → AllDigits s → is_flag (b'-' ∷ s) ≡ false
negative-not_flag [] a = refl
negative-not_flag (c ∷ s) a = ground (arith, a)

itoa-not_flag : (n : ℕ) → is_flag (itoa n) ≡ false
unfolding itoa
itoa-not_flag n = elim (Bool-cases (ltb n 2147483648)) [
  | inl q ↦ rw q (digits-not_flag (decimal n) (decimal-AllDigits n))
  | inr q ↦ rw q (negative-not_flag _ (decimal-AllDigits (4294967296 - n)))
]

format_int64-not_flag : (n : ℕ) → is_flag (format_int64 n) ≡ false
unfolding format_int64
format_int64-not_flag n = elim (Bool-cases (ltb n 9223372036854775808)) [
  | inl q ↦ rw q (digits-not_flag (decimal n) (decimal-AllDigits n))
  | inr q ↦ rw q (negative-not_flag _ (decimal-AllDigits (18446744073709551616 - n)))
]

-- One of the flags that say how the run starts.
abbrev pub is_start : Text → Bool
is_start a =
    same (codes "--restart") a || same (codes "--resume") a || same (codes "--not-consistent") a

abbrev NoStart : List Text → Type 0
NoStart [] = Unit {0}
NoStart (a ∷ args) = (is_start a ≡ false) × NoStart args

not_start : (a : Text) → is_flag a ≡ false → is_start a ≡ false
not_start a h = rw (
  differ (codes "--restart") a refl h,
  differ (codes "--resume") a refl h,
  differ (codes "--not-consistent") a refl h,
)

NoStart-append : (args more : List Text) → NoStart args → NoStart more → NoStart (args ++ more)
NoStart-append [] more n m = m
NoStart-append (a ∷ args) more (e, n) m = (e, NoStart-append args more n m)

flag-NoStart : (b : Bool) (f : Text) → is_start f ≡ false → NoStart (flag b f)
flag-NoStart true f e = (e, tt)
flag-NoStart false f e = tt

flag-NoStart-append :
    (b : Bool) (f : Text) (more : List Text)
    → is_start f ≡ false
    → NoStart more
    → NoStart (flag b f ++ more)
flag-NoStart-append b f more e n = NoStart-append (flag b f) more (flag-NoStart b f e) n

jobs-NoStart-append :
    (f : Text) (n : ℕ) (more : List Text)
    → is_start f ≡ false
    → NoStart more
    → NoStart (jobs f n ++ more)
jobs-NoStart-append f n more e m = elim (Bool-cases (lt32 0 n)) [
  | inl q ↦ rw q (e, (not_start (itoa n) (itoa-not_flag n), m))
  | inr q ↦ rw q m
]

table_jobs-not_start : (b : Bool) (m n : ℕ) → is_start (if b then itoa m else itoa n) ≡ false
table_jobs-not_start true m n = not_start (itoa m) (itoa-not_flag m)
table_jobs-not_start false m n = not_start (itoa n) (itoa-not_flag n)

sized_args-NoStart : (spec : MigrationSpec) → NoStart (sized_args spec)
unfolding sized_args same
sized_args-NoStart spec = (
  refl,
  (
    refl,
    (
      refl,
      (
        refl,
        (
          table_jobs-not_start (lt32 0 spec.clone.table_jobs) spec.clone.table_jobs
              (table_jobs_for spec.runner),
          jobs-NoStart-append (codes "--index-jobs") spec.clone.index_jobs _ refl (
              jobs-NoStart-append (codes "--restore-jobs") spec.clone.restore_jobs _ refl (
                jobs-NoStart-append (codes "--large-objects-jobs") spec.clone.large_objects_jobs _
                  refl
                  (
                    refl,
                    (
                      not_start (format_int64 (split_tables_larger_than spec.clone))
                          (format_int64-not_flag (split_tables_larger_than spec.clone)),
                      (
                        refl,
                        (
                          not_start (itoa (split_max_parts spec.clone))
                              (itoa-not_flag (split_max_parts spec.clone)),
                          tt,
                        ),
                      ),
                    ),
                  ))),
        ),
      ),
    ),
  ),
)

option_args-NoStart : (c : CloneOptions) → NoStart (option_args c)
unfolding option_args same
option_args-NoStart c = flag-NoStart-append c.estimate_table_sizes _ _ refl (
    flag-NoStart-append c.drop_if_exists _ _ refl (
      flag-NoStart-append c.roles _ _ refl (
        flag-NoStart-append c.no_role_passwords _ _ refl (
          flag-NoStart-append c.no_owner _ _ refl (
            flag-NoStart-append c.no_acl _ _ refl (
              flag-NoStart-append c.no_comments _ _ refl (
                flag-NoStart-append c.no_tablespaces _ _ refl (
                  flag-NoStart-append _ _ _ refl (
                    flag-NoStart-append c.fail_fast _ _ refl
                      (flag-NoStart c.defer_indexes _ refl))))))))))

abbrev NoStartFlag : Option Text → Type 0
NoStartFlag none = Unit {0}
NoStartFlag (some f) = is_start f ≡ false

-- No value of the map is a start flag.
abbrev NoStartValues : List (Text × Text) → Type 0
NoStartValues [] = Unit {0}
NoStartValues ((k, v) ∷ m) = (is_start v ≡ false) × NoStartValues m

lookup-NoStart : (k : Text) (m : List (Text × Text)) → NoStartValues m → NoStartFlag (lookup k m)
unfolding lookup
lookup-NoStart k [] n = tt
lookup-NoStart k ((j, v) ∷ m) (e, n) = elim (Bool-cases (same k j)) [
  | inl q ↦ rw q e
  | inr q ↦ rw q (lookup-NoStart k m n)
]

skip_flag-NoStart : NoStartValues skip_flag
unfolding same
skip_flag-NoStart = (refl, (refl, (refl, (refl, (refl, (refl, (refl, (refl, tt))))))))

add_flag-NoStart :
    (o : Option Text) (flags : List Text)
    → NoStartFlag o
    → NoStart flags
    → NoStart (add_flag o flags)
add_flag-NoStart none flags e n = n
add_flag-NoStart (some f) flags e n = (e, n)

skip_flags-NoStart : (ss : List Text) → NoStart (skip_flags ss)
unfolding skip_flags
skip_flags-NoStart [] = tt
skip_flags-NoStart (s ∷ ss) =
    add_flag-NoStart (lookup s skip_flag) (skip_flags ss)
      (lookup-NoStart s skip_flag skip_flag-NoStart) (skip_flags-NoStart ss)

filters_args-NoStart : (f : Option Filters) → NoStart (filters_args f)
unfolding filters_args same
filters_args-NoStart none = tt
filters_args-NoStart (some f) = elim (Bool-cases (is_empty_filters f)) [
  | inl q ↦ rw q tt
  | inr q ↦ rw q (refl, (refl, tt))
]

has-NoStart : (x : Text) (args : List Text) → is_start x ≡ true → NoStart args → has x args ≡ false
unfolding has
has-NoStart x [] s n = refl
has-NoStart x (a ∷ args) s (e, n) = elim (Bool-cases (same x a)) [
  | inl q ↦ absurd (cc (same_sound x a q))
  | inr q ↦ rw (q, has-NoStart x args s n)
]

has-behind :
    (x : Text) (args more : List Text)
    → is_start x ≡ true
    → NoStart args
    → has x (args ++ more) ≡ has x more
has-behind x args more s n =
    has-append x args more ∙ ap (λ b. b || has x more) (has-NoStart x args s n)

-- A start flag is in the argv exactly when it is among the last arguments.
clone_args-start :
    (x : Text) (spec : MigrationSpec) (r s n : Bool)
    → is_start x ≡ true
    → has x (clone_args spec r s n) ≡ has x (start_args r s n)
unfolding clone_args
clone_args-start x spec r s n h =
    has-behind x (sized_args spec) _ h (sized_args-NoStart spec)
    ∙ has-behind x (option_args spec.clone) _ h (option_args-NoStart spec.clone)
    ∙ has-behind x (skip_flags (sort spec.clone.skip)) _ h
        (skip_flags-NoStart (sort spec.clone.skip))
    ∙ has-behind x (filters_args spec.clone.filters) _ h (filters_args-NoStart spec.clone.filters)
    ∙ has-behind x (flag spec.clone.all_databases (codes "--all-databases")) _ h
        (flag-NoStart spec.clone.all_databases (codes "--all-databases") (unfold same in refl))

start_args-flags :
    (r s n : Bool)
    → (has (codes "--restart") (start_args r s n) ≡ r)
      × (has (codes "--resume") (start_args r s n) ≡ s)
      × (has (codes "--not-consistent") (start_args r s n) ≡ n)
unfolding has same start_args
start_args-flags true true true = (refl, refl, refl)
start_args-flags true true false = (refl, refl, refl)
start_args-flags true false true = (refl, refl, refl)
start_args-flags true false false = (refl, refl, refl)
start_args-flags false true true = (refl, refl, refl)
start_args-flags false true false = (refl, refl, refl)
start_args-flags false false true = (refl, refl, refl)
start_args-flags false false false = (refl, refl, refl)

-- CloneArgs holds each of --restart, --resume and --not-consistent exactly when it is told to,
-- whatever the spec.
pub clone_args-flags :
    (spec : MigrationSpec) (r s n : Bool)
    → (has (codes "--restart") (clone_args spec r s n) ≡ r)
      × (has (codes "--resume") (clone_args spec r s n) ≡ s)
      × (has (codes "--not-consistent") (clone_args spec r s n) ≡ n)
unfolding same
clone_args-flags spec r s n = (
  clone_args-start (codes "--restart") spec r s n refl ∙ (start_args-flags r s n).0,
  clone_args-start (codes "--resume") spec r s n refl ∙ (start_args-flags r s n).1,
  clone_args-start (codes "--not-consistent") spec r s n refl ∙ (start_args-flags r s n).2,
)

-- The names of a live migration that the spec gives are no start flags.
abbrev pub PlainNames : Option FollowOptions → Type 0
PlainNames none = Unit {0}
PlainNames (some f) =
    (is_start f.slot_name ≡ false) × (is_start f.plugin ≡ false) × (is_start f.publication ≡ false)

or_default-not_start :
    (s default : Text)
    → is_start s ≡ false
    → is_start default ≡ false
    → is_start (or_default s default) ≡ false
or_default-not_start [] default e d = d
or_default-not_start (c ∷ s) default e d = e

slot_name-not_start : (namespace name : Text) → is_start (slot_name namespace name) ≡ false
unfolding slot_name same
slot_name-not_start namespace name = refl

named-NoStart-append :
    (f s : Text) (more : List Text)
    → is_start f ≡ false
    → is_start s ≡ false
    → NoStart more
    → NoStart (named f s ++ more)
named-NoStart-append f [] more e n m = m
named-NoStart-append f (c ∷ s) more e n m = (e, (n, m))

follow_args-NoStart :
    (f : Option FollowOptions) (namespace name : Text)
    → PlainNames f
    → NoStart (follow_args f namespace name)
unfolding follow_args same
follow_args-NoStart none namespace name p = tt
follow_args-NoStart (some f) namespace name p = elim (Bool-cases f.enabled) [
  | inl q ↦
      let slot : is_start (or_default f.slot_name (slot_name namespace name)) ≡ false =
        or_default-not_start f.slot_name (slot_name namespace name) p.0
          (slot_name-not_start namespace name) in
      rw q (
        refl,
        (
          refl,
          (
            slot,
            (
              refl,
              (
                slot,
                named-NoStart-append (codes "--plugin") f.plugin _ refl p.1 (
                    named-NoStart-append (codes "--publication") f.publication _ refl p.2 (
                      flag-NoStart-append f.wal2json_numeric_as_string _ _ refl
                        (flag-NoStart f.replay_no_op_updates _ refl))),
              ),
            ),
          ),
        ),
      )
  | inr q ↦ rw q tt
]

-- The arguments of a live migration leave the start flags as they are.
pub has-follow_args :
    (x : Text) (args : List Text) (f : Option FollowOptions) (namespace name : Text)
    → is_start x ≡ true
    → PlainNames f
    → has x (args ++ follow_args f namespace name) ≡ has x args
has-follow_args x args f namespace name s p =
    has-append x args (follow_args f namespace name)
    ∙ ap (λ b. has x args || b)
        (has-NoStart x (follow_args f namespace name) s (follow_args-NoStart f namespace name p))
    ∙ or_false (has x args)
