-- ===== src/Vendor/Guards/Laws.antt =====
-- The token test and the form of a fingerprint.
use migration_platform.Text.{as_bytes, utf8, lit}
use migration_platform.Prelude.{Option, none, length-append}
use Prim.Native.Nat.{bit_or, bit_xor}
use migration_platform.Prelude.{
  ℕ, zero, suc, ◌<◌, ◌≡◌, ◌↔◌, refl, ap, Bool, true, false, not, ◌&&◌, List, [], ◌∷◌, ok, err,
  arith, length, all, any, ◌==◌, ltb, ==_iff, Bool-cases, inl, inr,
}
use migration_platform.Text.{
  Str, trim, to_ascii_lowercase, len, is_ascii_hexdigit, is_whitespace, is_control,
}
use migration_platform.Text.Laws.{
  is_blank, to_ascii_lowercase_idem, trim-solid, IsText, IsBytes, as_bytes-IsBytes,
}
use migration_platform.License.Signing.{Codec}
use migration_platform.Vendor.Types.{ServerConfig, validate_config, server_error}
use migration_platform.Vendor.Guards.{
  bearer, or_empty, authorize, fold_diff, constant_time_eq, normalize_fingerprint,
}

-- Whether a test of two numbers passes along a row, and in a square, of a table.
row_passes : (ℕ → ℕ → Bool) → ℕ → ℕ → Bool
row_passes test y zero = true
row_passes test y (suc n) = row_passes test y n && test n y

square_passes : (ℕ → ℕ → Bool) → ℕ → ℕ → Bool
square_passes test width zero = true
square_passes test width (suc n) = square_passes test width n && row_passes test n width

row_passes-at :
    (test : ℕ → ℕ → Bool) (y n x : ℕ) → row_passes test y n ≡ true → x < n → test x y ≡ true
unfolding row_passes
row_passes-at test y zero x passes lt = absurd (omega arith)
row_passes-at test y (suc n) x passes lt = ground (arith, row_passes-at test y n x)

square_passes-at :
    (test : ℕ → ℕ → Bool) (width n x y : ℕ)
    → square_passes test width n ≡ true
    → x < width
    → y < n
    → test x y ≡ true
unfolding square_passes
square_passes-at test width zero x y passes hx hy = absurd (omega arith)
square_passes-at test width (suc n) x y passes hx hy =
    ground (arith, square_passes-at test width n x y, row_passes-at test n width x)

abbrev iff_bool : Bool → Bool → Bool
iff_bool true b = b
iff_bool false b = not b

abbrev xor_test : ℕ → ℕ → Bool
xor_test x y = iff_bool (bit_xor x y == 0) (x == y) && ltb (bit_xor x y) 256

abbrev or_test : ℕ → ℕ → Bool
or_test x y = iff_bool (bit_or x y == 0) ((x == 0) && (y == 0)) && ltb (bit_or x y) 256

xor_table : square_passes xor_test 256 256 ≡ true
unfolding row_passes square_passes
xor_table = refl

or_table : square_passes or_test 256 256 ≡ true
unfolding row_passes square_passes
or_table = refl

xor_byte : (x y : ℕ) → x < 256 → y < 256 → ((bit_xor x y ≡ 0) ↔ (x ≡ y)) × (bit_xor x y < 256)
xor_byte x y hx hy = ground (arith, square_passes-at xor_test 256 256 x y xor_table hx hy)

or_byte :
    (x y : ℕ) → x < 256 → y < 256 → ((bit_or x y ≡ 0) ↔ ((x ≡ 0) × (y ≡ 0))) × (bit_or x y < 256)
or_byte x y hx hy = ground (arith, square_passes-at or_test 256 256 x y or_table hx hy)

fold_diff_iff :
    (acc : ℕ) (a b : List ℕ)
    → acc < 256
    → IsBytes a
    → IsBytes b
    → length a ≡ length b
    → (fold_diff acc a b ≡ 0) ↔ ((acc ≡ 0) × (a ≡ b))
unfolding fold_diff
fold_diff_iff acc [] [] ha hx hy l = ground arith
fold_diff_iff acc [] (y ∷ b) ha hx hy l = absurd (omega arith)
fold_diff_iff acc (x ∷ a) [] ha hx hy l = absurd (omega arith)
fold_diff_iff acc (x ∷ a) (y ∷ b) ha hx hy l =
    let xor = xor_byte x y hx.0 hy.0 in
    let or = or_byte acc (bit_xor x y) ha xor.1 in
    ground (arith, fold_diff_iff (bit_or acc (bit_xor x y)) a b or.1 hx.1 hy.1 (omega arith))

-- The comparison that runs in constant time is equality, on lists of bytes.
pub constant_time_eq_iff :
    (a b : List ℕ) → IsBytes a → IsBytes b → (constant_time_eq a b ≡ true) ↔ (a ≡ b)
unfolding constant_time_eq
constant_time_eq_iff a b ha hb = elim (Bool-cases (length a == length b)) [
  | inl e ↦
      ground (arith, fold_diff_iff 0 a b (omega arith) ha hb ((==_iff (length a) (length b)).0 e))
  | inr e ↦ ground (arith, λ (p : a ≡ b). ap (length {0}) p)
]

-- A request is authorised exactly when the bytes behind `Bearer ` in its header (none, if there is
-- no such header) are those of the activation token.
pub authorize_iff :
    (cfg : ServerConfig) (authorization : Option Str)
    → IsText (or_empty (bearer authorization))
    → IsText cfg.activation_token
    → (authorize cfg authorization ≡ ok tt)
      ↔ (as_bytes (or_empty (bearer authorization)) ≡ as_bytes cfg.activation_token)
unfolding authorize
authorize_iff cfg authorization sent kept = ground (
  arith,
  constant_time_eq_iff (as_bytes (or_empty (bearer authorization))) (as_bytes cfg.activation_token)
      (as_bytes-IsBytes (or_empty (bearer authorization)) sent)
      (as_bytes-IsBytes cfg.activation_token kept),
)

utf8-length : (c : ℕ) → 0 < length (utf8 c)
utf8-length c = ground arith

as_bytes-nonempty : (s : Str) → 0 < len s → 0 < length (as_bytes s)
unfolding as_bytes len
as_bytes-nonempty [] h = omega arith
as_bytes-nonempty (c ∷ s) h = omega (arith, utf8-length c, length-append (utf8 c) (as_bytes s))

constant_time_eq-nil : (b : List ℕ) → 0 < length b → constant_time_eq (as_bytes []) b ≡ false
unfolding constant_time_eq as_bytes
constant_time_eq-nil [] h = absurd (omega arith)
constant_time_eq-nil (x ∷ b) h = ground arith

long_token :
    (c : Codec) (cfg : ServerConfig) → validate_config c cfg ≡ ok tt → 0 < len cfg.activation_token
unfolding validate_config
long_token c cfg h = ground arith

-- Under a configuration that starts the server, a request without a bearer token is refused.
pub authorize-no_token :
    (c : Codec) (cfg : ServerConfig) (authorization : Option Str)
    → validate_config c cfg ≡ ok tt
    → bearer authorization ≡ none
    → authorize cfg authorization ≡ err (server_error 401 (lit "unauthorized") (lit "unauthorized"))
unfolding authorize
authorize-no_token c cfg authorization valid none_sent =
    let long = as_bytes-nonempty cfg.activation_token (long_token c cfg valid) in
    rw (none_sent, constant_time_eq-nil (as_bytes cfg.activation_token) long)

hexdigit-solid : (s : Str) → all is_ascii_hexdigit s ≡ true → any is_blank s ≡ false
unfolding is_ascii_hexdigit is_whitespace is_control
hexdigit-solid [] h = refl
hexdigit-solid (c ∷ s) h = ground (arith, hexdigit-solid s)

-- An accepted fingerprint is normalised: it is accepted again, unchanged.
pub normalize_fingerprint_idem :
    (raw fp : Str) → normalize_fingerprint raw ≡ ok fp → normalize_fingerprint fp ≡ ok fp
unfolding normalize_fingerprint
normalize_fingerprint_idem raw fp h =
    let lower = to_ascii_lowercase_idem (trim raw) in
    let e : to_ascii_lowercase (trim raw) ≡ fp = ground arith in
    let digits : all is_ascii_hexdigit fp ≡ true = ground arith in
    cc (trim-solid fp (hexdigit-solid fp digits), lower, e, h)
