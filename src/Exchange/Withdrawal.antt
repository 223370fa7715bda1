-- ===== src/Exchange/Withdrawal.antt =====
-- A license that the vendor has revoked, as its next heartbeats come out at the client.
use mathlib.Core.Path.{subst}
use migration_platform.Prelude.{
  is_ok, Bool-cases, ◌==◌, ℕ, ◌≡◌, ◌≢◌, ◌⊎◌, refl, sym, ◌∙◌, ap, true, false, List, none, some, ok,
  err, is_some, arith, Result-cases, Option-cases, inl, inr, All,
}
use migration_platform.Text.{Str, lit}
use migration_platform.Time.{Instant}
use migration_platform.Json.{Value}
use migration_platform.License.Types.{LicenseDoc, LicenseState}
use migration_platform.License.Signing.{Codec, verify_license}
use migration_platform.License.Validity.{is_licensed}
use migration_platform.License.Heartbeat.{require_licensed}
use migration_platform.License.Heartbeat.Laws.{require_licensed-is_licensed}
use migration_platform.License.Client.{World, LicenseServer, from_env, load_public_key}
use migration_platform.License.Tick.{attempt}
use migration_platform.License.Tick.Outcome.{verdict, attempt-verdict}
use migration_platform.Vendor.Types.{
  ServerConfig, ServerState, ServerError, Arrival, HeartbeatRequest,
}
use migration_platform.Vendor.Guards.{normalize_fingerprint, authorize, rate_limit}
use migration_platform.Vendor.Guards.Limiter.{rate_limit-tables}
use migration_platform.Vendor.Guards.Laws.{normalize_fingerprint_idem}
use migration_platform.Vendor.Store.{revoke, find_revocation}
use migration_platform.Vendor.Revocation.{IsRevoked, revoke-IsRevoked}
use migration_platform.Vendor.Heartbeat.{
  heartbeat, check_heartbeat, check_presented, limited_heartbeat, attest, revoked_error,
}
use migration_platform.Vendor.Heartbeat.Statuses.{NotSuccess, heartbeat-NotSuccess}
use migration_platform.Vendor.Heartbeat.Verdict.{heartbeat_granted, check_presented-ok}
use migration_platform.Vendor.Service.{Event, serve}
use migration_platform.Vendor.Service.Revoked.{Leaves, serve-IsRevoked}
use migration_platform.Exchange.Laws.{JsonLaws, judge-refused, judge-unavailable}
use migration_platform.Exchange.Delivery.{Delivered, sent_request, heartbeat_once-respond}

module _ (c : Codec) (cfg : ServerConfig) where
  -- A server that has revoked the license that is presented does not grant the heartbeat.
  revoked-refused :
      (a : Arrival) (req : HeartbeatRequest) (s : ServerState) (fp raw : Str) (k : c.PrivateKey)
      → normalize_fingerprint req.fingerprint ≡ ok fp
      → c.text_of_value req.license_file ≡ some raw
      → c.private_of_pem cfg.signing_key_pem ≡ some k
      → ((doc : LicenseDoc)
          → verify_license c raw (c.public_of k) a.now ≡ ok doc
          → IsRevoked fp doc.licensee s.revocations)
      → (e : ServerError) × ((heartbeat c cfg a req s).0 ≡ err e) × (e.status ≢ 200)
  revoked-refused a req s fp raw k named written pk revoked =
      elim (Result-cases (heartbeat c cfg a req s).0) [
        | inl (r, granted) ↦
            let (fp', raw', k', doc, n, w, q, verified, bound, free, signed, issued, later, own) =
              heartbeat_granted c cfg a req s r granted in
            let shown : verify_license c raw (c.public_of k) a.now ≡ ok doc = cc in
            let stopped : is_some (find_revocation fp doc.licensee s.revocations) ≡ true =
              revoked doc shown in
            let here : find_revocation fp doc.licensee s.revocations ≡ none = cc in
            absurd (ground (arith, stopped, here))
        | inr (e, refused) ↦
            (e, refused, subst NotSuccess refused (heartbeat-NotSuccess c cfg a req s))
      ]

  -- A license that a revocation names, presented through the guards, is refused as revoked.
  revoked-denied :
      (a : Arrival) (req : HeartbeatRequest) (s : ServerState) (fp : Str) (doc : LicenseDoc)
      → normalize_fingerprint req.fingerprint ≡ ok fp
      → authorize cfg a.authorization ≡ ok tt
      → (rate_limit a.mono fp s).0 ≡ ok tt
      → check_presented c cfg a.now fp req ≡ ok doc
      → IsRevoked fp doc.licensee s.revocations
      → (e : ServerError) × ((heartbeat c cfg a req s).0 ≡ err e) × (e.status ≡ 403)
  revoked-denied a req s fp doc named token passed presented revoked =
      let listed = (rate_limit-tables a.mono fp s).1 in
      elim (Option-cases (find_revocation fp doc.licensee s.revocations)) [
        | inl e ↦ absurd (ground (arith, revoked, e))
        | inr (v, e) ↦ (
          revoked_error c v,
          unfold heartbeat check_heartbeat limited_heartbeat attest in
              ground (arith, token, named, passed, presented, e, listed),
          unfold revoked_error in refl,
        )
      ]

is_refusal : (n : ℕ) → ((n ≡ 402) ⊎ (n ≡ 403)) ⊎ ((n ≢ 402) × (n ≢ 403))
is_refusal n = elim (Bool-cases (n == 402)) [
  | inl y ↦ inl (inl (ground arith))
  | inr x ↦ elim (Bool-cases (n == 403)) [
    | inl y ↦ inl (inr (ground arith))
    | inr y ↦ inr (λ e. ground arith, λ e. ground arith)
  ]
]

module _ (c : Codec) (instant_value : Instant → Value) (rejection : ℕ → Str)
    (cfg : ServerConfig) where
  -- An error of the server does not make the client's license usable, and it ends its use if it
  -- has one of the statuses that the client obeys.
  attempt-refused :
      (json : JsonLaws c instant_value) (w : World) (server : LicenseServer) (key : c.PublicKey)
      (fp raw : Str) (file : Value) (a : Arrival) (s : ServerState) (held : LicenseState)
      (e : ServerError)
      → Delivered c instant_value rejection cfg w server fp file a s
      → from_env w ≡ some server
      → load_public_key c w ≡ ok key
      → c.value_of_text raw ≡ some file
      → (heartbeat c cfg a (sent_request fp file w.version) s).0 ≡ err e
      → e.status ≢ 200
      → (t : Instant)
      → (is_licensed (attempt c w fp raw held) fp t ≡ true → is_licensed held fp t ≡ true)
        × (e.status ≡ 403 → is_licensed (attempt c w fp raw held) fp t ≡ false)
  attempt-refused json w server key fp raw file a s held e sent es el stored refused bad t =
      let outcome =
        heartbeat_once-respond c instant_value rejection cfg w server fp raw file a s sent key
          (err e) stored refused in
      let after = attempt-verdict c w server key fp raw held es el t in
      elim (is_refusal e.status) [
        | inl refusal ↦
            let judged = outcome ∙ judge-refused c instant_value w _ fp key json e refusal in
            let over = after ∙ ap (λ o. verdict o (is_licensed held fp t) fp t) judged in
            (λ h. cc, λ h. over)
        | inr (n₁, n₂) ↦
            let (why, p) = judge-unavailable c instant_value w _ fp key json e bad n₁ n₂ in
            let same = after ∙ ap (λ o. verdict o (is_licensed held fp t) fp t) (outcome ∙ p) in
            (λ h. sym same ∙ h, λ h. absurd (n₂ h))
      ]

  -- Once the vendor has revoked the license that an install presents, by its licensee or for the
  -- whole install, and as long as no event at the server restores that install, no heartbeat that
  -- gets to the server opens the client's gate: it passes afterwards only at instants at which it
  -- passed before. If the request passes the token, the limiter and the check of the presented
  -- file, the gate is closed at every instant. The client reads the errors that the server writes.
  pub revoked_never_renews :
      (json : JsonLaws c instant_value) (w : World) (server : LicenseServer) (key : c.PublicKey)
      (k : c.PrivateKey) (fp raw shown install licensee reason : Str) (file : Value) (a : Arrival)
      (withdrawn : Instant) (s : ServerState) (es : List Event) (held : LicenseState)
      → let s' = serve c cfg es (revoke c withdrawn install licensee reason s).1 in
        normalize_fingerprint install ≡ ok fp
        → All (Leaves fp) es
        → Delivered c instant_value rejection cfg w server fp file a s'
        → from_env w ≡ some server
        → load_public_key c w ≡ ok key
        → c.private_of_pem cfg.signing_key_pem ≡ some k
        → c.value_of_text raw ≡ some file
        → c.text_of_value file ≡ some shown
        → ((doc : LicenseDoc)
            → verify_license c shown (c.public_of k) a.now ≡ ok doc
            → (licensee ≡ doc.licensee) ⊎ (licensee ≡ lit "*"))
        → (t : Instant)
        → (is_ok (require_licensed true (attempt c w fp raw held) fp t) ≡ true
            → is_ok (require_licensed true held fp t) ≡ true)
          × ((doc : LicenseDoc)
              → authorize cfg a.authorization ≡ ok tt
              → (rate_limit a.mono fp s').0 ≡ ok tt
              → check_presented c cfg a.now fp (sent_request fp file w.version) ≡ ok doc
              → is_ok (require_licensed true (attempt c w fp raw held) fp t) ≡ false)
  revoked_never_renews json w server key k fp raw shown install licensee reason file a withdrawn s
        es held named lasting sent env el pk stored written names t =
      let s₁ = (revoke c withdrawn install licensee reason s).1 in
      let req = sent_request fp file w.version in
      let fixed = normalize_fingerprint_idem install fp named in
      let stands = λ (doc : LicenseDoc) (v : verify_license c shown (c.public_of k) a.now ≡ ok doc).
        serve-IsRevoked c cfg fp doc.licensee es s₁ lasting (
          revoke-IsRevoked c withdrawn install fp licensee doc.licensee reason s named
            (names doc v)) in
      let (e, refused, bad) =
        revoked-refused c cfg a req (serve c cfg es s₁) fp shown k fixed written pk stands in
      let end =
        attempt-refused json w server key fp raw file a (serve c cfg es s₁) held e sent env el
          stored refused bad t in
      rw (require_licensed-is_licensed held fp t, require_licensed-is_licensed)
        (
          end.0,
          λ doc token passed presented.
              let (raw', k', w', q, verified, bound) =
                check_presented-ok c cfg a.now fp req doc presented in
              let v : verify_license c shown (c.public_of k) a.now ≡ ok doc = cc in
              let (e', refused', denied) =
                revoked-denied c cfg a req (serve c cfg es s₁) fp doc fixed token passed presented
                  (stands doc v) in
              end.1 (ground (arith, refused, refused', denied)),
        )
