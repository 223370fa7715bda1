-- ===== src/Exchange/Renewal.antt =====
-- A heartbeat that the server grants, as it comes out at the client.
use mathlib.Core.Path.{subst}
use migration_platform.Prelude.{
  none, ℕ, ◌+◌, ◌≤◌, ◌<◌, ◌≡◌, ◌↔◌, refl, ◌∙◌, ap, true, some, ok, is_ok, arith,
}
use migration_platform.Text.{Str, str_eq_refl}
use migration_platform.Time.{Instant}
use migration_platform.Json.{Value}
use migration_platform.License.Types.{LicenseDoc, LicenseState}
use migration_platform.License.Signing.{Codec}
use migration_platform.License.Signing.Laws.{CodecLaws}
use migration_platform.License.Validity.{validity, check_binding, check_grace, heartbeat_grace}
use migration_platform.License.Heartbeat.{require_licensed}
use migration_platform.License.Heartbeat.Laws.{require_licensed-is_licensed}
use migration_platform.License.Client.{
  heartbeat_once, refreshed, World, LicenseServer, from_env, load_public_key,
}
use migration_platform.License.Tick.{attempt}
use migration_platform.License.Tick.Outcome.{attempt-verdict}
use migration_platform.Vendor.Types.{ServerConfig, ServerState, Arrival, HeartbeatResponse}
use migration_platform.Vendor.Guards.{normalize_fingerprint}
use migration_platform.Vendor.Heartbeat.{heartbeat, reattest}
use migration_platform.Vendor.Heartbeat.Verdict.{heartbeat_granted}
use migration_platform.Exchange.Laws.{JsonLaws, judge-refreshed}
use migration_platform.Exchange.Delivery.{Delivered, sent_request, heartbeat_once-respond}

-- When a license that was attested at an instant is usable.
reattest-validity :
    (c : Codec) (fp : Str) (at t : Instant) (doc : LicenseDoc)
    → doc.fingerprint ≡ some fp
    → (is_ok (validity (reattest c at doc) fp t) ≡ true)
      ↔ ((t < doc.expires_at) × (t ≤ at + heartbeat_grace))
unfolding validity check_binding check_grace
reattest-validity c fp at t doc bound =
    ground (arith, bound, ap (λ b. is_ok (check_binding b fp)) bound, str_eq_refl fp)

module _ (c : Codec) (instant_value : Instant → Value) (rejection : ℕ → Str)
    (cfg : ServerConfig) where
  -- What the client has of a granted heartbeat: the license that the server has verified, issued now
  -- and with the expiry of the answer.
  pub granted-refreshed :
      (codec : CodecLaws c) (json : JsonLaws c instant_value) (w : World) (server : LicenseServer)
      (fp raw : Str) (file : Value) (a : Arrival) (s : ServerState) (k : c.PrivateKey)
      (r : HeartbeatResponse)
      → Delivered c instant_value rejection cfg w server fp file a s
      → c.private_of_pem cfg.signing_key_pem ≡ some k
      → normalize_fingerprint fp ≡ ok fp
      → c.value_of_text raw ≡ some file
      → (heartbeat c cfg a (sent_request fp file w.version) s).0 ≡ ok r
      → w.now < r.expires_at
      → (doc : LicenseDoc) × (renewed : Str) × (doc.fingerprint ≡ some fp)
        × (doc.expires_at ≡ r.expires_at)
        × (heartbeat_once c w server fp raw (c.public_of k)
            ≡ refreshed (record { doc = reattest c a.now doc; raw = renewed; store_stamp = none }))
  granted-refreshed codec json w server fp raw file a s k r sent ek named stored granted ahead =
      let (fp', raw', k', doc, n', e₁, e₂, verified, bound, free, signed, issued, later, own) =
        heartbeat_granted c cfg a (sent_request fp file w.version) s r granted in
      let here : doc.fingerprint ≡ some fp = ground arith in
      let fresh : LicenseDoc = record doc { expires_at = r.expires_at } in
      let (renewed, judged) =
        judge-refreshed c instant_value w _ fp (c.public_of k) codec json cfg k
          (reattest c a.now fresh) r ek refl signed here ahead in
      let outcome =
        heartbeat_once-respond c instant_value rejection cfg w server fp raw file a s sent
          (c.public_of k) (ok r) stored granted in
      (fresh, renewed, here, refl, outcome ∙ judged)

  -- A heartbeat that gets to the server and is granted opens the client's gate: afterwards it
  -- passes exactly at the instants before the expiry in the answer that come at most 72 hours after
  -- the server's clock at the heartbeat. The client's clock stands before that expiry, it trusts the
  -- public half of the server's key, its fingerprint is in the form that the server keeps, and the
  -- libraries read what they have written.
  pub heartbeat_renews :
      (codec : CodecLaws c) (json : JsonLaws c instant_value) (w : World) (server : LicenseServer)
      (fp raw : Str) (file : Value) (a : Arrival) (s : ServerState) (k : c.PrivateKey)
      (held : LicenseState) (r : HeartbeatResponse)
      → Delivered c instant_value rejection cfg w server fp file a s
      → from_env w ≡ some server
      → c.private_of_pem cfg.signing_key_pem ≡ some k
      → load_public_key c w ≡ ok (c.public_of k)
      → normalize_fingerprint fp ≡ ok fp
      → c.value_of_text raw ≡ some file
      → (heartbeat c cfg a (sent_request fp file w.version) s).0 ≡ ok r
      → w.now < r.expires_at
      → (t : Instant)
      → (is_ok (require_licensed true (attempt c w fp raw held) fp t) ≡ true)
        ↔ ((t < r.expires_at) × (t ≤ a.now + heartbeat_grace))
  heartbeat_renews codec json w server fp raw file a s k held r sent es ek el named stored granted
        ahead t =
      let (doc, renewed, here, expiry, outcome) =
        granted-refreshed codec json w server fp raw file a s k r sent ek named stored granted
          ahead in
      rw
        (
          require_licensed-is_licensed,
          attempt-verdict c w server (c.public_of k) fp raw held es el t,
          outcome,
        )
        (subst
          (λ end.
            (is_ok (validity (reattest c a.now doc) fp t) ≡ true)
            ↔ ((t < end) × (t ≤ a.now + heartbeat_grace)))
          expiry (reattest-validity c fp a.now t doc here))
