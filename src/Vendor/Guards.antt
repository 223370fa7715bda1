-- ===== src/Vendor/Guards.antt =====
-- apps/api/src/license_server.rs: the guards that both handlers share: the bearer token, the form of
-- a fingerprint, and the rate limiter.
pub mod Laws
pub mod Limiter
use Prim.Native.Nat.{bit_or, bit_xor}
use migration_platform.Prelude.{
  ℕ, ◌+◌, Bool, true, false, not, ◌&&◌, ◌||◌, List, [], ◌∷◌, Option, none, some, Result, ok, err,
  ◌>>=◌, ◌>>◌, ensure, length, all, ltb, leb, ◌==◌, if◌then◌else◌,
}
use migration_platform.Text.{
  Str, lit, str_eq, trim, to_ascii_lowercase, len, is_ascii_hexdigit, strip_prefix, as_bytes,
}
use migration_platform.Time.{Instant, seconds, diff_ge, diff_lt}
use migration_platform.Vendor.Types.{ServerConfig, ServerState, ServerError, server_error, Arrival}

-- The fold of `constant_time_eq` over the pairs of bytes.
unfoldable pub fold_diff : ℕ → List ℕ → List ℕ → ℕ
fold_diff acc [] b = acc
fold_diff acc (x ∷ a) [] = acc
fold_diff acc (x ∷ a) (y ∷ b) = fold_diff (bit_or acc (bit_xor x y)) a b

unfoldable pub constant_time_eq : List ℕ → List ℕ → Bool
constant_time_eq a b = if not (length a == length b) then false else fold_diff 0 a b == 0

abbrev bearer : Option Str → Option Str
bearer none = none
bearer (some v) = strip_prefix (lit "Bearer ") v

abbrev or_empty : Option Str → Str
or_empty none = []
or_empty (some s) = s

unfoldable pub authorize : ServerConfig → Option Str → Result ServerError (Unit {0})
authorize cfg authorization =
    let token = or_empty (bearer authorization) in
    if not (constant_time_eq (as_bytes token) (as_bytes cfg.activation_token))
    then err (server_error 401 (lit "unauthorized") (lit "unauthorized"))
    else ok tt

unfoldable pub normalize_fingerprint : Str → Result Str Str
normalize_fingerprint raw =
    let fp = to_ascii_lowercase (trim raw) in
    if ltb (len fp) 16 || ltb 128 (len fp) || not (all is_ascii_hexdigit fp)
    then err (lit "fingerprint must be 16–128 hex chars")
    else ok fp

abbrev pub slow_down : ServerError
slow_down = server_error 429 (lit "rate_limited") (lit "slow down")

-- The map of the limiter.
unfoldable pub last_seen : Str → List (Str × Instant) → Option Instant
last_seen fp [] = none
last_seen fp ((k, t) ∷ m) = if str_eq k fp then some t else last_seen fp m

unfoldable pub mark_seen : Str → Instant → List (Str × Instant) → List (Str × Instant)
mark_seen fp now [] = (fp, now) ∷ []
mark_seen fp now ((k, t) ∷ m) = if str_eq k fp then (k, now) ∷ m else (k, t) ∷ mark_seen fp now m

unfoldable pub retain_recent : Instant → List (Str × Instant) → List (Str × Instant)
retain_recent now [] = []
retain_recent now ((k, t) ∷ m) =
    let rest = retain_recent now m in if diff_lt now t (seconds 300) then (k, t) ∷ rest else rest

abbrev prune : Instant → List (Str × Instant) → List (Str × Instant)
prune now m = if ltb 10_000 (length m) then retain_recent now m else m

-- The window of one second that is open at `now`.
unfoldable pub open_window : Instant → ServerState → ServerState
open_window now s =
    if diff_ge now s.window_start (seconds 1)
    then record s { window_start = now; window_count = 0 }
    else s

abbrev is_too_soon : Instant → Option Instant → Bool
is_too_soon now none = false
is_too_soon now (some prev) = diff_lt now prev (seconds 5)

-- The limiter counts a request against the window before it looks at the fingerprint.
unfoldable pub limit_fingerprint :
    Instant → Str → ServerState → Result ServerError (Unit {0}) × ServerState
limit_fingerprint now fp s =
    if is_too_soon now (last_seen fp s.per_fingerprint)
    then (err slow_down, s)
    else (ok tt, record s { per_fingerprint = prune now (mark_seen fp now s.per_fingerprint) })

unfoldable pub rate_limit :
    Instant → Str → ServerState → Result ServerError (Unit {0}) × ServerState
unfolding open_window limit_fingerprint
rate_limit now fp s =
    let s₁ = open_window now s in
    if leb 20 s₁.window_count
    then (err slow_down, s₁)
    else limit_fingerprint now fp (record s₁ { window_count = s₁.window_count + 1 })
