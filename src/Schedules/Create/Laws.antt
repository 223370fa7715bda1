-- ===== src/Schedules/Create/Laws.antt =====
-- A schedule is created in the table and in Temporal, or in neither, up to what a failed call leaves.
use migration_platform.Prelude.{
  ℕ, ◌<◌, ◌≡◌, ◌⊎◌, refl, inl, inr, Bool, false, ◌++◌, some, is_some, List, [], ◌∷◌, any, All, ok,
  err, arith, Result-cases, Bool-cases, ensure, ok_or, ◌==◌, if◌then◌else◌,
}
use migration_platform.Text.{Str, lit}
use migration_platform.Api.{ApiError, ApiResult, conflict, bad_request, unauthorized}
use migration_platform.Jobs.Types.{require_role}
use migration_platform.Sources.Registry.{require_connector}
use migration_platform.Templates.Rows.{find_row}
use migration_platform.Templates.Table.{writers}
use migration_platform.Schedules.Handler.{lift-cases}
use migration_platform.Schedules.World.{
  Schedule, BridgeCall, create_call, pause_call, World, CreateSchedule, Caller, call_bridge,
  record_audit, delete_rows, is_taken, MayBeLost,
}
use migration_platform.Schedules.Steps.{temporal_failed, checked_spec, check_overlap, or_default}
use migration_platform.Schedules.Create.{
  workflow_input, new_schedule, insert_schedule, or_roll_back, pause_if_disabled, store_schedule,
  new_sid, create_schedule,
}

-- The ids of the table come from its sequence.
abbrev pub Below : ℕ → List Schedule → Type 0
Below n = All (λ s. s.id < n)

-- The call that makes the schedule of a row, and the one that stops it if the row is disabled.
abbrev pub calls_for : Caller → CreateSchedule → Schedule → Str → List BridgeCall → List BridgeCall
calls_for c req row sid done =
    let made =
      create_call sid row.spec_json (workflow_input c req row.id) row.overlap_policy
        row.catchup_window_seconds row.timezone
      ∷ done in
    if row.enabled then made else pause_call sid ∷ made

abbrev pub Created : Caller → CreateSchedule → World → ApiResult Schedule × World → Type 0
Created c req w r =
    (row : Schedule) × (sid : Str) × (r.0 ≡ ok row)
    × (row.temporal_schedule_id ≡ some sid)
    × (r.1.schedules ≡ row ∷ w.schedules)
    × (r.1.done ≡ calls_for c req row sid w.done)

-- The table is as before, if the row can be taken back.
abbrev pub NotCreated : Caller → World → ApiResult Schedule × World → Type 0
NotCreated c w r =
    (why : ApiError) × (r.0 ≡ err why)
    × (((r.1.schedules ≡ w.schedules) ⊎ (c.takes_back ≡ false)) × MayBeLost c w.done r.1.done)

abbrev Outcome : Caller → CreateSchedule → World → ApiResult Schedule × World → Type 0
Outcome c req w r = Created c req w r ⊎ NotCreated c w r

delete-new :
    (n : ℕ) (rows : List Schedule) → Below n rows → delete_rows (λ s. s.id == n) rows ≡ rows
unfolding delete_rows
delete-new n [] h = refl
delete-new n (s ∷ rows) h = ground (arith, delete-new n rows h.1)

store-Outcome :
    (c : Caller) (req : CreateSchedule) (sid : Str) (row : Schedule) (w : World)
    → row.id ≡ w.next_id
    → row.temporal_schedule_id ≡ some sid
    → c.audit_answer ≡ ok tt
    → c.bridge (pause_call sid) ≡ ok tt
    → Below w.next_id w.schedules
    → Outcome c req w (store_schedule c req row.spec_json sid row w)
unfolding store_schedule insert_schedule or_roll_back pause_if_disabled call_bridge record_audit
store-Outcome c req sid row w i n a p b =
    let made =
      create_call sid row.spec_json (workflow_input c req row.id) row.overlap_policy
        row.catchup_window_seconds row.timezone in
    let back : delete_rows (λ s. s.id == row.id) w.schedules ≡ w.schedules =
      rw i (delete-new w.next_id w.schedules b) in
    elim (Bool-cases (any (is_taken row.org_id row.name sid) w.schedules)) [
      | inl taken ↦ inr (
        conflict (lit "schedule " ++ (row.name ++ lit " already exists")),
        ground arith,
        (inl (ground arith), inl (ground arith)),
      )
      | inr free ↦ elim (Result-cases (c.bridge made)) [
        | inl (u, done) ↦ elim (Bool-cases row.enabled) [
          | inl on ↦ inl (row, sid, ground arith, n, ground arith, ground arith)
          | inr off ↦ inl (row, sid, ground arith, n, ground arith, ground arith)
        ]
        | inr (why, failed) ↦ inr (
          temporal_failed why,
          ground arith,
          (
            elim (Bool-cases c.takes_back) [
              | inl can ↦ inl (ground arith)
              | inr cannot ↦ inr cannot
            ],
            elim (Bool-cases (c.lost made)) [
              | inl lost ↦ inr (made, lost, ground arith)
              | inr unsent ↦ inl (ground arith)
            ],
          ),
        )
      ]
    ]

module _ (cron_parses duration_parses : Str → Bool) where
  -- If the audit log takes its entry, the bridge pauses schedules, and ids come from the sequence: a
  -- request to create either is answered with the row, which then stands in the table, with a
  -- schedule in Temporal that was made from it and paused if it is disabled, or it is refused. Then
  -- the table is as before, unless the row could not be taken back, and Temporal has carried out no
  -- call, or one that was reported as failed.
  pub create_schedule-atomic :
      (c : Caller) (req : CreateSchedule) (w : World)
      → c.audit_answer ≡ ok tt
      → c.bridge (pause_call (new_sid c)) ≡ ok tt
      → Below w.next_id w.schedules
      → Created c req w (create_schedule cron_parses duration_parses c req w)
        ⊎ NotCreated c w (create_schedule cron_parses duration_parses c req w)
  unfolding create_schedule
  create_schedule-atomic c req w a p b =
      let P = Outcome c req w in
      let stop : (e : ApiError) → P (err e, w) = λ e. inr (e, refl, (inl refl, inl refl)) in
      lift-cases P (require_role c.role writers) _ w stop (λ u e.
        lift-cases P c.gate _ w stop (λ u e.
          lift-cases P (checked_spec cron_parses duration_parses req.spec) _ w stop (λ spec e.
            lift-cases P (check_overlap (or_default (lit "skip") req.overlap_policy)) _ w stop
              (λ u e.
                lift-cases P (require_connector c.org req.connector_id w.registry) _ w stop
                  (λ kind e.
                    lift-cases P
                      (ensure (is_some (find_row c.org req.rule_template_id w.templates))
                        (bad_request (lit "template not found")))
                      _ w stop
                      (λ u e. lift-cases P (ok_or c.user unauthorized) _ w stop (λ user e.
                        unfold new_schedule in
                        store-Outcome c req (new_sid c)
                          (new_schedule c req spec (new_sid c) user w.next_id) w refl refl a p
                          b)))))))
