-- ===== src/Secrets.antt =====
-- apps/api/src/routes/secrets.rs: the secrets of the destinations. The cipher (security/secrets.rs, on
-- the aes-gcm crate) and the text that `Debug` prints are arguments.
pub mod Laws
use migration_platform.Prelude.{
  ℕ, ◌++◌, ◌*◌, Bool, true, false, not, ◌&&◌, ◌||◌, Option, none, some, List, [], ◌∷◌, all,
  is_empty, length, Result, ok, err, ◌>>=◌, ◌>>◌, ensure, ok_or, is_none, is_some, ◌==◌, leb, ltb,
  if◌then◌else◌,
}
use migration_platform.Text.{Str, lit, str_eq, len, as_bytes, is_ascii_alphanumeric}
use migration_platform.Time.{Instant}
use migration_platform.Api.{ApiResult, bad_request, conflict, not_found, internal, database}
use migration_platform.Jobs.Types.{require_role}
use migration_platform.Templates.Table.{AuditEntry}

-- A row of `secrets`
pub record Secret : Type 0 where
  pub org_id : ℕ
  pub name : Str
  pub ciphertext : List ℕ
  pub nonce : List ℕ
  pub kind : Str
  pub created_at : Instant
  pub updated_at : Instant
  pub revoked_at : Option Instant

-- The table, and the audit log, its last entry first.
pub record World : Type 0 where
  pub secrets : List Secret
  pub audit : List AuditEntry

-- What a handler is called with: the claims, the clock, the cipher, what others do to the table
-- between the two statements that store a secret, and whether the audit log takes an entry.
pub record Caller : Type 0 where
  pub org : ℕ
  pub role : Str
  pub sub : Str
  pub now : Instant
  pub encrypt : List ℕ → Result Str (List ℕ × List ℕ)
  pub others : List Secret → List Secret
  pub audit_answer : ApiResult (Unit {0})

abbrev pub destination : Str
destination = lit "destination"

abbrev pub max_secret_bytes : ℕ
max_secret_bytes = 8 * 1024

unfoldable pub is_name_char : ℕ → Bool
is_name_char c = is_ascii_alphanumeric c || ((c == b'_') || ((c == b'.') || (c == b'-')))

unfoldable pub validate_name : Str → ApiResult (Unit {0})
unfolding is_name_char
validate_name name =
    ensure ((leb 1 (len name) && leb (len name) 128) && all is_name_char name)
      (bad_request (lit "secret name must be 1-128 characters of A-Z, a-z, 0-9, '_', '.', '-'"))

-- WHERE org_id = ? AND name = ?
unfoldable pub is_secret : ℕ → Str → Secret → Bool
is_secret org name s = (s.org_id == org) && str_eq s.name name

abbrev pub is_destination : Secret → Bool
is_destination s = str_eq s.kind destination

unfoldable pub find_secret : (Secret → Bool) → List Secret → Option Secret
find_secret p [] = none
find_secret p (s ∷ ss) = let rest = find_secret p ss in if p s then some s else rest

unfoldable pub renewed : Caller → List ℕ × List ℕ → Secret → Secret
renewed c sealed s = record s {
  ciphertext = sealed.0;
  nonce = sealed.1;
  revoked_at = none;
  updated_at = c.now;
}

unfoldable pub new_secret : Caller → Str → List ℕ × List ℕ → Secret
new_secret c name sealed = record {
  org_id = c.org;
  name = name;
  ciphertext = sealed.0;
  nonce = sealed.1;
  kind = destination;
  created_at = c.now;
  updated_at = c.now;
  revoked_at = none;
}

-- INSERT … ON CONFLICT (org_id, name) DO UPDATE: the key is unique, so that one row at most is renewed.
unfoldable pub upsert : Caller → Str → List ℕ × List ℕ → List Secret → List Secret
unfolding is_secret renewed new_secret
upsert c name sealed [] = new_secret c name sealed ∷ []
upsert c name sealed (s ∷ ss) =
    let rest = upsert c name sealed ss in
    if is_secret c.org name s then renewed c sealed s ∷ ss else s ∷ rest

unfoldable pub revoked : Caller → Secret → Secret
revoked c s = record s { revoked_at = some c.now; updated_at = c.now; ciphertext = []; nonce = [] }

-- WHERE … AND kind = 'destination' AND revoked_at IS NULL
unfoldable pub is_active : ℕ → Str → Secret → Bool
unfolding is_secret
is_active org name s = is_secret org name s && (is_destination s && is_none s.revoked_at)

unfoldable pub revoke_rows : Caller → Str → List Secret → List Secret
unfolding is_active revoked
revoke_rows c name [] = []
revoke_rows c name (s ∷ ss) =
    (if is_active c.org name s then revoked c s else s) ∷ revoke_rows c name ss

-- The answer is given once the audit log has taken the entry.
unfoldable pub record_audit :
    Caller → Str → Str → ApiResult Secret → World → ApiResult Secret × World
record_audit c name action answer w = elim c.audit_answer [
  | err e ↦ (err e, w)
  | ok u ↦ (
    answer,
    record w {
      audit =
          record {
            org_id = c.org;
            actor = c.sub;
            entity = lit "destination_secret";
            entity_id = name;
            action = action;
          }
          ∷ w.audit;
    },
  )
]

abbrev action_for : Option Secret → Str
action_for none = lit "create"
action_for (some s) = if is_some s.revoked_at then lit "reactivate" else lit "rotate"

abbrev is_internal_opt : Option Secret → Bool
is_internal_opt none = false
is_internal_opt (some s) = not (is_destination s)

unfoldable pub get_secret : Caller → Str → World → ApiResult Secret
unfolding find_secret is_secret
get_secret c name w = do
  require_role c.role (lit "admin" ∷ lit "editor" ∷ [])
  validate_name name
  ok_or (find_secret (λ s. is_secret c.org name s && is_destination s) w.secrets) not_found

module _ (debug_text : Str → Str) where
  -- What is stored: the sealed value, and the action that the audit log names.
  unfoldable pub check_put : Caller → Str → Str → World → ApiResult ((List ℕ × List ℕ) × Str)
  check_put c name value w = do
    require_role c.role (lit "admin" ∷ [])
    validate_name name
    ensure (not (is_empty value || ltb max_secret_bytes (len value)))
        (bad_request (lit "secret value must be 1-8192 bytes"))
    sealed ← elim (c.encrypt (as_bytes value)) [ ok s ↦ ok s | err e ↦ err (internal e) ]
    let previous = find_secret (is_secret c.org name) w.secrets
    ensure (not (is_internal_opt previous)) (
        conflict (
          lit "secret name "
          ++ (debug_text name
              ++ lit " is used by a connector or LLM credential; choose another name")))
    ok (sealed, action_for previous)

  unfoldable pub put_secret : Caller → Str → Str → World → ApiResult Secret × World
  unfolding upsert
  put_secret c name value w = elim (check_put c name value w) [
    | err e ↦ (err e, w)
    | ok (sealed, action) ↦
        let stored = upsert c name sealed (c.others w.secrets) in
        record_audit c name action
          (ok_or (find_secret (is_secret c.org name) stored) (database (lit "no row")))
          (record w { secrets = stored })
  ]

unfoldable pub revoke_secret : Caller → Str → World → ApiResult Secret × World
unfolding revoke_rows
revoke_secret c name w = elim (require_role c.role (lit "admin" ∷ []) >> validate_name name) [
  | err e ↦ (err e, w)
  | ok u ↦ elim (find_secret (is_active c.org name) w.secrets) [
    | none ↦ (err not_found, w)
    | some s ↦
        record_audit c name (lit "revoke") (ok (revoked c s))
          (record w { secrets = revoke_rows c name w.secrets })
  ]
]
