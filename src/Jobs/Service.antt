-- ===== src/Jobs/Service.antt =====
-- apps/api/src/routes/jobs.rs: the operations on jobs in any order, each on the tables that the ones
-- before it left.
use migration_platform.Prelude.{ℕ, Option, List, [], ◌∷◌}
use migration_platform.Text.{Str}
use migration_platform.Sources.Types.{Registry}
use migration_platform.Templates.Rows.{TemplateRow}
use migration_platform.Jobs.Types.{Db, Call}
use migration_platform.Jobs.Actions.{pause_job, resume_job, cancel_job, start_job}
use migration_platform.Jobs.Create.{JobCreate, create_job}

-- A job is created for a user, with an id and the text of a UUID, and with what the templates and the
-- sources are at the time.
pub data Operation : Type 0 where
  create : Option ℕ → ℕ → Str → JobCreate → List TemplateRow → Registry → Operation
  pause resume cancel : ℕ → Operation
  launch : ℕ → Str → Operation

module _ (debug_text : Str → Str) where
  unfoldable pub operate : Call → Operation → Db → Db
  operate call (create user id uuid req templates registry) db =
      (create_job debug_text call user id uuid req templates registry db).0.1
  operate call (pause id) db = (pause_job call id db).1
  operate call (resume id) db = (resume_job call id db).1
  operate call (cancel id) db = (cancel_job call id db).1
  operate call (launch id workflow_id) db = (start_job call id workflow_id db).1

  unfoldable pub operate_all : List (Call × Operation) → Db → Db
  operate_all [] db = db
  operate_all ((call, op) ∷ rest) db = operate_all rest (operate call op db)
