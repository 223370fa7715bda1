-- ===== src/Vendor/Service/Laws.antt =====
-- A trial, once it is recorded, keeps its start and its end for ever.
use migration_platform.Prelude.{◌≡◌, ◌<◌, true, ap, List, [], ◌∷◌, ok, arith}
use migration_platform.Text.{Str}
use migration_platform.License.Signing.{Codec}
use migration_platform.License.Signing.Laws.{CodecLaws}
use migration_platform.Vendor.Types.{ServerConfig, ServerState, Arrival, TrialStart, TrialResponse}
use migration_platform.Vendor.Store.{parse_stored_ts}
use migration_platform.Vendor.Store.Laws.{
  Keeps, Keeps-refl, Keeps-trans, revoke-Keeps, unrevoke-Keeps,
}
use migration_platform.Vendor.Guards.{normalize_fingerprint}
use migration_platform.Vendor.Trial.{trial_start}
use migration_platform.Vendor.Trial.Terms.{trial_start-row, trial_start-reused}
use migration_platform.Vendor.Trial.Laws.{trial_start-Keeps}
use migration_platform.Vendor.Heartbeat.Laws.{heartbeat-Keeps}
use migration_platform.Vendor.Service.{Event, start, beat, withdraw, restore, step, serve}

module _ (c : Codec) (cfg : ServerConfig) where
  step-Keeps : (e : Event) (s : ServerState) → Keeps s.trials (step c cfg e s).trials
  unfolding step
  step-Keeps (start a req) s = trial_start-Keeps c cfg a req s
  step-Keeps (beat a req) s = heartbeat-Keeps c cfg a req s
  step-Keeps (withdraw now fp licensee reason) s = revoke-Keeps c now fp licensee reason s
  step-Keeps (restore fp licensee) s = unrevoke-Keeps fp licensee s

  -- Whatever requests and revocations come, in whatever order, a recorded trial stays recorded for
  -- its install, with the start and the expiry that it was given, and its heartbeats only grow.
  pub serve-Keeps : (es : List Event) (s : ServerState) → Keeps s.trials (serve c cfg es s).trials
  unfolding serve
  serve-Keeps [] s = Keeps-refl s.trials
  serve-Keeps (e ∷ es) s =
      Keeps-trans s.trials (step c cfg e s).trials (serve c cfg es (step c cfg e s)).trials
        (step-Keeps e s) (serve-Keeps es (step c cfg e s))

  -- An install has one trial: after a successful trial start, and any requests and revocations in
  -- any order, another successful start from the same install answers with the first one's expiry,
  -- says that the trial is reused, and comes before that expiry.
  pub trial_never_restarts :
      CodecLaws c
      → (a a' : Arrival) (req req' : TrialStart) (s : ServerState) (es : List Event)
        (r r' : TrialResponse) (fp : Str)
      → normalize_fingerprint req.fingerprint ≡ ok fp
      → normalize_fingerprint req'.fingerprint ≡ ok fp
      → (trial_start c cfg a req s).0 ≡ ok r
      → (trial_start c cfg a' req' (serve c cfg es (trial_start c cfg a req s).1)).0 ≡ ok r'
      → (r'.expires_at ≡ r.expires_at) × (r'.reused ≡ true) × (a'.now < r.expires_at)
  trial_never_restarts laws a a' req req' s es r r' fp named named' h h' =
      let s₁ = (trial_start c cfg a req s).1 in
      let (row, found, expiry) = trial_start-row c laws cfg a req s r fp named h in
      let (row', found', continues) = serve-Keeps es s₁ fp row found in
      let (expiry', reused, ahead, free) =
        trial_start-reused c cfg a' req' (serve c cfg es s₁) r' fp row' named' found' h' in
      let same = continues.same_expiry in ground (arith, ap (parse_stored_ts c) same)
