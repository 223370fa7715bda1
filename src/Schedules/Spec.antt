-- ===== src/Schedules/Spec.antt =====
-- apps/api/src/temporal.rs: what a client may give as the times of a schedule, and the requests to the
-- bridge. Whether the `cron` crate and `humantime` parse a text are arguments.
pub mod Laws
use migration_platform.Prelude.{
  ℕ, ◌+◌, ◌++◌, Bool, true, false, ◌&&◌, ◌||◌, Option, none, some, is_some, List, [], ◌∷◌, Result,
  ok, err, ◌>>=◌, ◌>>◌, ensure, ok_or, leb, ◌==◌, if◌then◌else◌,
}
use migration_platform.Int.{ℤ, pos, negsuc}
use migration_platform.Text.{Str, lit, str_eq, trim, decimal, is_whitespace}
use migration_platform.Json.{
  Value, null, bool, number, pos_int, string, array, object, Fields, end, field, get, as_str,
}

-- `split_whitespace().count()`: the words are counted where they begin; the flag says whether the
-- character before is part of a word.
abbrev words_from : Bool → Str → ℕ
words_from inside [] = 0
words_from inside (c ∷ s) =
    let behind = words_from false s in
    let within = words_from true s in
    if is_whitespace c then behind else if inside then within else within + 1

unfoldable pub word_count : Str → ℕ
word_count s = words_from false s

unfoldable pub cron_for_validation : Str → Result Str Str
unfolding word_count
cron_for_validation expr =
    let trimmed = trim expr in
    let fields = word_count trimmed in
    if fields == 5
    then ok (lit "0 " ++ trimmed)
    else if (fields == 6) || (fields == 7)
    then ok trimmed
    else err (
        lit "invalid cron: expected 5-field POSIX (m h dom mon dow) or 6/7-field with seconds, got "
        ++ (decimal fields ++ lit " fields"))

abbrev pub text_at : Str → Value → Option Str
text_at k v = elim (get k v) [ none ↦ none | some w ↦ as_str w ]

module _ (cron_parses duration_parses : Str → Bool) where
  unfoldable pub normalise_cron : Value → Result Str Value
  unfolding cron_for_validation
  normalise_cron raw = do
    cron ← ok_or (text_at (lit "cron") raw) (lit "cron missing")
    for_parse ← cron_for_validation (trim cron)
    ensure (cron_parses for_parse) (lit "invalid cron")
    ok (object (field (lit "cron") (string (trim cron)) end))

  unfoldable pub normalise_every : Option Str → Result Str Value
  normalise_every none = err (lit "spec must contain 'cron' or 'every'")
  normalise_every (some interval) = do
    ensure (duration_parses interval) (lit "invalid interval")
    ok (object (field (lit "every") (string interval) end))

  unfoldable pub normalise_spec : Value → Result Str Value
  unfolding normalise_cron normalise_every
  normalise_spec raw =
      if is_some (get (lit "cron") raw)
      then normalise_cron raw
      else normalise_every (text_at (lit "every") raw)

-- `body[k] = v`
unfoldable pub set_field : Str → Value → Fields → Fields
set_field k v end = field k v end
set_field k v (field j w fs) =
    let rest = set_field k v fs in if str_eq j k then field j v fs else field j w rest

abbrev pub set_text : Str → Option Str → Fields → Fields
set_text k none fs = fs
set_text k (some s) fs = set_field k (string s) fs

unfoldable pub merge_spec : Fields → Value → Fields
unfolding set_field
merge_spec body spec =
    set_text (lit "every") (text_at (lit "every") spec)
      (set_text (lit "cron") (text_at (lit "cron") spec) body)

unfoldable pub create_body : Str → Value → Value → Str → ℕ → Str → Fields
unfolding merge_spec
create_body id spec input overlap catchup timezone =
    merge_spec
      (field (lit "scheduleId") (string id) (
        field (lit "timezone") (string timezone) (
          field (lit "overlapPolicy") (string overlap) (
            field (lit "catchupWindowSeconds") (number (pos_int catchup)) (
              field (lit "workflowType") (string (lit "WatchPrefixWorkflow")) (
                field (lit "taskQueue") (string (lit "migration"))
                  (field (lit "input") input end)))))))
      spec

unfoldable pub update_body : Str → Value → Value → Fields
unfolding merge_spec
update_body id spec input =
    merge_spec (field (lit "scheduleId") (string id) (field (lit "input") input end)) spec

-- The body of the requests that only name the schedule.
unfoldable pub name_body : Str → Fields
name_body id = field (lit "scheduleId") (string id) end
