-- ===== src/Vendor/Service.antt =====
-- apps/api/src/license_server.rs: the service over time. `build_router` gives the two handlers to
-- any client, and the operator revokes and restores with the command-line tool; the requests may
-- come in any order, and each runs on the state that the ones before it left.
pub mod Laws
pub mod Revoked
use migration_platform.Prelude.{ℕ, List, [], ◌∷◌, Option, Result}
use migration_platform.Text.{Str}
use migration_platform.Time.{Instant}
use migration_platform.License.Signing.{Codec}
use migration_platform.Vendor.Types.{
  ServerConfig, ServerState, Arrival, TrialStart, HeartbeatRequest,
}
use migration_platform.Vendor.Store.{revoke, unrevoke}
use migration_platform.Vendor.Trial.{trial_start}
use migration_platform.Vendor.Heartbeat.{heartbeat}

pub data Event : Type 0 where
  start : Arrival → TrialStart → Event
  beat : Arrival → HeartbeatRequest → Event
  withdraw : Instant → Str → Str → Str → Event
  restore : Str → Option Str → Event

module _ (c : Codec) (cfg : ServerConfig) where
  unfoldable pub step : Event → ServerState → ServerState
  step (start a req) s = (trial_start c cfg a req s).1
  step (beat a req) s = (heartbeat c cfg a req s).1
  step (withdraw now fp licensee reason) s = (revoke c now fp licensee reason s).1
  step (restore fp licensee) s = (unrevoke fp licensee s).1

  unfoldable pub serve : List Event → ServerState → ServerState
  serve [] s = s
  serve (e ∷ es) s = serve es (step e s)
