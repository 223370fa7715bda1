-- ===== src/License/Startup.antt =====
-- apps/api/src/security/license.rs: the license at the start of the process, and starting a trial. A
-- store path that is no file cannot be read, so that it is rejected as a candidate either way. Log
-- lines are left out.
use mathlib.Core.Path.{subst}
use migration_platform.Prelude.{
  ◌≡◌, ◌<◌, ◌++◌, Bool, true, false, ◌&&◌, Option, none, some, Result, ok, err, ◌>>=◌, ◌>>◌, ensure,
  ok_or, map_err, leb, ltb, if◌then◌else◌, arith, >>=-eq-ok, ensure-eq-ok, map_err-eq-ok,
}
use migration_platform.Text.{Str, lit, str_eq, str_eq_iff, filter_opt, nonempty, nonblank}
use migration_platform.Json.{Value, string, object, field, end}
use migration_platform.License.Types.{
  LicenseDoc, LicenseKind, trial, LicenseState, LoadedLicense, kind_eq, opt_eq,
}
use migration_platform.License.Signing.{Codec, verify_license, signing_error_text}
use migration_platform.License.Signing.Laws.{verify_license_sound}
use migration_platform.License.Email.{validate_trial_email}
use migration_platform.License.Client.{
  World, HttpReply, build_failed, send_failed, body_failed, answered, from_env, store_path,
  load_public_key, load_and_verify_path, unwrap_license_response,
}
use migration_platform.License.Tick.{activate}

abbrev trial_body : Str → Str → Str → Value
trial_body fp email version = object (
    field (lit "fingerprint") (string fp) (
      field (lit "email") (string email) (
        field (lit "product") (string (lit "migration-platform"))
          (field (lit "version") (string version) end))))

module _ (c : Codec) where
  -- A candidate that does not load leaves the choice to the next one.
  unfoldable pub first_loaded :
      Result Str LoadedLicense → Option LoadedLicense → Option LoadedLicense
  first_loaded (ok loaded) rest = some loaded
  first_loaded (err e) rest = rest

  unfoldable pub load_candidate :
      World → c.PublicKey → Str → Option Str → Option LoadedLicense → Option LoadedLicense
  unfolding first_loaded
  load_candidate w key fp none rest = rest
  load_candidate w key fp (some path) rest =
      first_loaded (load_and_verify_path c w path key fp) rest

  unfoldable pub try_load_local : World → Str → Result Str (Option LoadedLicense)
  unfolding load_candidate
  try_load_local w fp = do
    key ← load_public_key c w
    ok (
        load_candidate w key fp (filter_opt nonempty (w.var (lit "LICENSE_FILE")))
          (load_candidate w key fp (some (store_path w)) none))

  -- The text of a response that succeeded.
  unfoldable pub trial_text : Str → HttpReply → Result Str Str
  trial_text url (build_failed e) = err e
  trial_text url (send_failed e) = err (lit "calling license server " ++ url)
  trial_text url (body_failed e) = err (lit "reading license server response")
  trial_text url (answered status raw) =
      if leb 200 status && ltb status 300
      then ok raw
      else err (lit "license server returned " ++ (c.status_text status ++ (lit ": " ++ raw)))

  unfoldable pub activate_trial_phone_home : World → Str → Str → Result Str LoadedLicense
  unfolding trial_text
  activate_trial_phone_home w fp raw_email = do
    email ← validate_trial_email raw_email
    server ←
        ok_or (from_env w)
          (lit "LICENSE_SERVER_URL and LICENSE_SERVER_TOKEN are required to start a trial")
    let url = server.base_url ++ lit "/v1/trial/start"
    raw ← trial_text url (w.http url server.token (trial_body fp email w.version))
    raw_file ← unwrap_license_response c raw
    key ← load_public_key c w
    doc ← map_err (signing_error_text c) (verify_license c raw_file key w.now)
    ensure (kind_eq doc.kind trial) (lit "license server returned a non-trial license")
    ensure (opt_eq str_eq doc.fingerprint (some fp))
        (lit "trial license fingerprint does not match this install")
    store_stamp ← w.persist raw_file
    ok (record { doc = doc; raw = raw_file; store_stamp = store_stamp })

  unfoldable pub start_trial :
      World → Str → Str → LicenseState → Result Str LicenseDoc × LicenseState
  start_trial w fp email s =
      if str_eq fp (lit "unavailable")
      then (err (lit "install fingerprint unavailable; license subsystem not initialised"), s)
      else elim (activate_trial_phone_home w fp email) [
        | err e ↦ (err e, s)
        | ok loaded ↦ (ok loaded.doc, activate loaded s)
      ]

  -- `enforce_at_startup` with no local license.
  unfoldable pub start_without : World → Bool → Str → Option Str → LicenseState → LicenseState
  start_without w false fp email s = s
  start_without w true fp none s = s
  start_without w true fp (some email) s = elim (activate_trial_phone_home w fp email) [
    | ok loaded ↦ activate loaded s
    | err e ↦ s
  ]

  -- `enforce_at_startup`, with the flag and the fingerprint that it keeps for the process.
  unfoldable pub enforce_at_startup : World → Bool → Str → LicenseState → Result Str LicenseState
  unfolding start_without
  enforce_at_startup w enforce fp s = do
    local ← try_load_local w fp
    ok (elim local [
      | some loaded ↦ activate loaded s
      | none ↦
          start_without w enforce fp (filter_opt nonblank (w.var (lit "LICENSE_TRIAL_EMAIL"))) s
    ])

  kind_eq-trial : (k : LicenseKind) → kind_eq k trial ≡ true → k ≡ trial
  unfolding kind_eq
  kind_eq-trial k h = ground arith

  opt_eq-some : (o : Option Str) (fp : Str) → opt_eq str_eq o (some fp) ≡ true → o ≡ some fp
  unfolding opt_eq
  opt_eq-some none fp h = cc h
  opt_eq-some (some b) fp h = ground (arith, str_eq_iff b fp)

  -- A trial that the process takes from the license server is a verified license that has not
  -- expired, is of kind trial, and is bound to this install.
  pub activate_trial_phone_home-ok :
      (w : World) (fp raw_email : Str) (loaded : LoadedLicense)
      → activate_trial_phone_home w fp raw_email ≡ ok loaded
      → (key : c.PublicKey) × (load_public_key c w ≡ ok key)
        × (verify_license c loaded.raw key w.now ≡ ok loaded.doc)
        × (w.now < loaded.doc.expires_at)
        × (loaded.doc.kind ≡ trial)
        × (loaded.doc.fingerprint ≡ some fp)
  unfolding activate_trial_phone_home
  activate_trial_phone_home-ok w fp raw_email loaded h =
      let (email, e₁, h₁) = >>=-eq-ok (validate_trial_email raw_email) _ h in
      let (server, e₂, h₂) = >>=-eq-ok (ok_or (from_env w) _) _ h₁ in
      let url = server.base_url ++ lit "/v1/trial/start" in
      let (raw, e₃, h₃) =
        >>=-eq-ok (trial_text url (w.http url server.token (trial_body fp email w.version))) _ h₂ in
      let (raw_file, e₄, h₄) = >>=-eq-ok (unwrap_license_response c raw) _ h₃ in
      let (key, e₅, h₅) = >>=-eq-ok (load_public_key c w) _ h₄ in
      let (doc, e₆, h₆) =
        >>=-eq-ok (map_err (signing_error_text c) (verify_license c raw_file key w.now)) _ h₅ in
      let (u₁, e₇, h₇) =
        >>=-eq-ok
          (ensure (kind_eq doc.kind trial) (lit "license server returned a non-trial license")) _
          h₆ in
      let (u₂, e₈, h₈) =
        >>=-eq-ok
          (ensure (opt_eq str_eq doc.fingerprint (some fp))
            (lit "trial license fingerprint does not match this install"))
          _ h₇ in
      let (stamp, e₉, h₉) = >>=-eq-ok (w.persist raw_file) _ h₈ in
      let verified =
        map_err-eq-ok (signing_error_text c) (verify_license c raw_file key w.now) e₆ in
      let (file, payload, signature, s₁, s₂, s₃, s₄, ahead) =
        verify_license_sound c raw_file key w.now doc verified in
      let kind = kind_eq-trial doc.kind (ensure-eq-ok _ _ e₇) in
      let bound = opt_eq-some doc.fingerprint fp (ensure-eq-ok _ _ e₈) in
      let got : LoadedLicense = record { doc = doc; raw = raw_file; store_stamp = stamp } in
      let same : got ≡ loaded = ground (arith, h₉) in
      (
        key,
        e₅,
        subst (λ l. verify_license c l.raw key w.now ≡ ok l.doc) same verified,
        subst (λ l. w.now < l.doc.expires_at) same ahead,
        subst (λ l. l.doc.kind ≡ trial) same kind,
        subst (λ l. l.doc.fingerprint ≡ some fp) same bound,
      )
