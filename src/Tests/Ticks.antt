-- ===== src/Tests/Ticks.antt =====
-- The ticks of the license at a concrete input: a trial whose heartbeat is wanted.
use migration_platform.Prelude.{◌+◌, some}
use migration_platform.Time.{days}
use migration_platform.License.Client.{World}
use migration_platform.Tests.Server.{fresh}
use migration_platform.Tests.Heartbeats.{stored, connected}
use migration_platform.License.Types.{LicenseState}
use migration_platform.Tests.Licenses.{noon, trial_file, trial_state}

-- The server is there, and the store file is as the process has left it.
abbrev later_on : World
later_on = connected (noon + days 2) fresh

abbrev holding : LicenseState
holding = record trial_state { raw = some trial_file; store_stamp = some stored }
