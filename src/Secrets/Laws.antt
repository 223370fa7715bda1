-- ===== src/Secrets/Laws.antt =====
-- apps/api/src/routes/secrets.rs: what any requests leave of the table.
use migration_platform.Prelude.{
  ℕ, ◌≡◌, refl, ◌∙◌, Bool, true, false, not, List, [], ◌∷◌, ok, arith, All, Result-cases,
  Option-cases, Bool-cases, inl, inr, is_some, ◌>>◌,
}
use migration_platform.Text.{Str, lit, str_eq}
use migration_platform.Api.{ApiResult}
use migration_platform.Jobs.Types.{require_role}
use migration_platform.Paging.{select}
use migration_platform.Secrets.{
  Secret, World, Caller, is_secret, is_destination, find_secret, renewed, new_secret, upsert,
  revoked, is_active, revoke_rows, record_audit, is_internal_opt, validate_name, check_put,
  put_secret, revoke_secret,
}

-- The requests that change the table.
pub data Request : Type 0 where
  put : Str → Str → Request
  withdraw : Str → Request

abbrev is_internal : Secret → Bool
is_internal s = not (is_destination s)

-- Nothing is left of the value of a secret that is revoked.
abbrev pub IsErased : Secret → Type 0
IsErased s = is_some s.revoked_at ≡ true → (s.ciphertext ≡ []) × (s.nonce ≡ [])

upsert-internal :
    (c : Caller) (name : Str) (sealed : List ℕ × List ℕ) (ss : List Secret)
    → is_internal_opt (find_secret (is_secret c.org name) ss) ≡ false
    → select is_internal (upsert c name sealed ss) ≡ select is_internal ss
unfolding upsert select find_secret renewed new_secret str_eq
upsert-internal c name sealed [] h = refl
upsert-internal c name sealed (s ∷ ss) h = elim (Bool-cases (is_secret c.org name s)) [
  | inl hit ↦ ground arith
  | inr miss ↦ ground (arith, upsert-internal c name sealed ss)
]

upsert-IsErased :
    (c : Caller) (name : Str) (sealed : List ℕ × List ℕ) (ss : List Secret)
    → All IsErased ss
    → All IsErased (upsert c name sealed ss)
unfolding upsert renewed new_secret
upsert-IsErased c name sealed [] h = (λ r. absurd (ground arith), tt)
upsert-IsErased c name sealed (s ∷ ss) h = elim (Bool-cases (is_secret c.org name s)) [
  | inl hit ↦ rw hit (λ r. absurd (ground arith), h.1)
  | inr miss ↦ rw miss (h.0, upsert-IsErased c name sealed ss h.1)
]

revoke_rows-internal :
    (c : Caller) (name : Str) (ss : List Secret)
    → select is_internal (revoke_rows c name ss) ≡ select is_internal ss
unfolding revoke_rows select revoked
revoke_rows-internal c name [] = refl
revoke_rows-internal c name (s ∷ ss) = ground (arith, revoke_rows-internal c name ss)

revoke_rows-IsErased :
    (c : Caller) (name : Str) (ss : List Secret)
    → All IsErased ss
    → All IsErased (revoke_rows c name ss)
unfolding revoke_rows revoked
revoke_rows-IsErased c name [] h = tt
revoke_rows-IsErased c name (s ∷ ss) h = elim (Bool-cases (is_active c.org name s)) [
  | inl hit ↦ rw hit (λ r. (refl, refl), revoke_rows-IsErased c name ss h.1)
  | inr miss ↦ rw miss (h.0, revoke_rows-IsErased c name ss h.1)
]

record_audit-secrets :
    (c : Caller) (name action : Str) (answer : ApiResult Secret) (w : World)
    → (record_audit c name action answer w).1.secrets ≡ w.secrets
unfolding record_audit
record_audit-secrets c name action answer w = ground arith

module _ (debug_text : Str → Str) where
  check_put-external :
      (c : Caller) (name value : Str) (w : World) (sealed : List ℕ × List ℕ) (action : Str)
      → check_put debug_text c name value w ≡ ok (sealed, action)
      → is_internal_opt (find_secret (is_secret c.org name) w.secrets) ≡ false
  unfolding check_put
  check_put-external c name value w sealed action h =
      elim (Bool-cases (is_internal_opt (find_secret (is_secret c.org name) w.secrets))) [
        | inr external ↦ external
        | inl inside ↦ absurd (ground arith)
      ]

  -- The request, on the tables.
  unfoldable pub serve : Caller → Request → World → World
  serve c (put name value) w = (put_secret debug_text c name value w).1
  serve c (withdraw name) w = (revoke_secret c name w).1

  unfoldable pub serve_all : List (Caller × Request) → World → World
  unfolding serve
  serve_all [] w = w
  serve_all ((c, r) ∷ rest) w = serve_all rest (serve c r w)

  -- Nobody else writes between the two statements of a request.
  abbrev pub IsAlone : Caller × Request → Type 0
  IsAlone (c, r) = (ss : List Secret) → c.others ss ≡ ss

  -- What requests leave of the table.
  pub record Keeps (before after : List Secret) : Type 0 where
    pub internals : select is_internal after ≡ select is_internal before
    pub erased : All IsErased before → All IsErased after

  put_secret-Keeps :
      (c : Caller) (name value : Str) (w : World)
      → ((ss : List Secret) → c.others ss ≡ ss)
      → Keeps w.secrets (put_secret debug_text c name value w).1.secrets
  unfolding put_secret
  put_secret-Keeps c name value w alone =
      elim (Result-cases (check_put debug_text c name value w)) [
        | inr (why, e) ↦ rw (put_secret, e) (record { internals = refl; erased = λ h. h })
        | inl ((sealed, action), e) ↦
            rw (put_secret, e, record_audit-secrets, alone w.secrets)
              (record {
                internals =
                    upsert-internal c name sealed w.secrets
                      (check_put-external c name value w sealed action e);
                erased = upsert-IsErased c name sealed w.secrets;
              })
      ]

  revoke_secret-Keeps :
      (c : Caller) (name : Str) (w : World) → Keeps w.secrets (revoke_secret c name w).1.secrets
  unfolding revoke_secret
  revoke_secret-Keeps c name w =
      elim (Result-cases (require_role c.role (lit "admin" ∷ []) >> validate_name name)) [
        | inr (why, e) ↦ rw (revoke_secret, e) (record { internals = refl; erased = λ h. h })
        | inl (u, e) ↦ elim (Option-cases (find_secret (is_active c.org name) w.secrets)) [
          | inl n ↦ rw (revoke_secret, e, n) (record { internals = refl; erased = λ h. h })
          | inr (s, at) ↦
              rw (revoke_secret, e, at, record_audit-secrets)
                (record {
                  internals = revoke_rows-internal c name w.secrets;
                  erased = revoke_rows-IsErased c name w.secrets;
                })
        ]
      ]

  serve-Keeps :
      (c : Caller) (r : Request) (w : World)
      → ((ss : List Secret) → c.others ss ≡ ss)
      → Keeps w.secrets (serve c r w).secrets
  unfolding serve
  serve-Keeps c (put name value) w alone = put_secret-Keeps c name value w alone
  serve-Keeps c (withdraw name) w alone = revoke_secret-Keeps c name w

  -- Any requests to store and to revoke secrets, one after the other, leave the secrets of connectors
  -- and of the LLM as they are, and nothing of the value of a secret that is revoked.
  pub serve_all-Keeps :
      (requests : List (Caller × Request)) (w : World)
      → All IsAlone requests
      → Keeps w.secrets (serve_all requests w).secrets
  unfolding serve_all
  serve_all-Keeps [] w alone = record { internals = refl; erased = λ h. h }
  serve_all-Keeps ((c, r) ∷ rest) w alone =
      let first = serve-Keeps c r w alone.0 in
      let later = serve_all-Keeps rest (serve c r w) alone.1 in
      record {
        internals = later.internals ∙ first.internals;
        erased = λ h. later.erased (first.erased h);
      }
