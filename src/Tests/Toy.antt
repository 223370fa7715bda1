-- ===== src/Tests/Toy.antt =====
-- A toy of the libraries that signing uses: a signature is the key before the text, base64 and the
-- PEM formats are the text itself, and a document is written as a list of numbers.
use migration_platform.Prelude.{
  ℕ, zero, suc, ◌≡◌, ◌++◌, refl, ap, Bool, true, false, List, [], ◌∷◌, Option, none, some, take,
  length, arith,
}
use migration_platform.Text.{Str, lit, str_eq, str_eq_refl, decimal}
use migration_platform.Json.{Value, string}
use migration_platform.License.Types.{LicenseDoc, LicenseKind, trial, commercial}
use migration_platform.License.Signing.{Codec, LicenseFile}
use migration_platform.License.Signing.Laws.{CodecLaws}

unfoldable pub drop : ℕ → Str → Str
drop zero s = s
drop (suc n) [] = []
drop (suc n) (x ∷ s) = drop n s

pub take-append : (a b : Str) → take (length a) (a ++ b) ≡ a
take-append [] b = refl
take-append (x ∷ a) b = ap (λ t. x ∷ t) (take-append a b)

pub drop-append : (a b : Str) → drop (length a) (a ++ b) ≡ b
unfolding drop
drop-append [] b = refl
drop-append (x ∷ a) b = drop-append a b

abbrev nat_code : Option ℕ → ℕ
nat_code none = 0
nat_code (some n) = suc n

abbrev nat_of_code : ℕ → Option ℕ
nat_of_code zero = none
nat_of_code (suc n) = some n

abbrev kind_code : LicenseKind → ℕ
kind_code trial = 0
kind_code commercial = 1

abbrev kind_of_code : ℕ → LicenseKind
kind_of_code zero = trial
kind_of_code (suc n) = commercial

abbrev bool_code : Bool → ℕ
bool_code false = 0
bool_code true = 1

abbrev bool_of_code : ℕ → Bool
bool_of_code zero = false
bool_of_code (suc n) = true

abbrev tail_code : Option Str → Str
tail_code none = []
tail_code (some s) = 1 ∷ s

abbrev tail_of_code : Str → Option Str
tail_of_code [] = none
tail_of_code (x ∷ s) = some s

-- Only documents with one feature are written.
unfoldable pub write_doc : LicenseDoc → List Str → Option Value
write_doc d [] = none
write_doc d (f ∷ g ∷ fs) = none
write_doc d (f ∷ []) = some (
    string (
      d.expires_at
      ∷ nat_code d.max_seats
      ∷ nat_code d.issued_at
      ∷ kind_code d.kind
      ∷ bool_code d.requires_heartbeat
      ∷ length d.licensee
      ∷ (d.licensee ++ (length f ∷ (f ++ tail_code d.fingerprint)))))

abbrev rest_of_doc : ℕ → ℕ → ℕ → ℕ → ℕ → Str → Str → Option LicenseDoc
rest_of_doc e s i k h l [] = none
rest_of_doc e s i k h l (n ∷ t) = some (record {
  licensee = l;
  expires_at = e;
  features = take n t ∷ [];
  max_seats = nat_of_code s;
  issued_at = nat_of_code i;
  kind = kind_of_code k;
  fingerprint = tail_of_code (drop n t);
  requires_heartbeat = bool_of_code h;
})

unfoldable pub read_doc : Str → Option LicenseDoc
read_doc (e ∷ s ∷ i ∷ k ∷ h ∷ n ∷ t) = rest_of_doc e s i k h (take n t) (drop n t)
read_doc s = none

unfoldable pub string_of : Value → Option Str
string_of (string s) = some s
string_of v = none

unfoldable pub doc_of : Value → Option LicenseDoc
doc_of (string s) = read_doc s
doc_of v = none

unfoldable pub write_file : Value → Str → Option Str
write_file (string s) signature = some (length s ∷ (s ++ signature))
write_file v signature = none

unfoldable pub file_of : Str → Option LicenseFile
file_of [] = none
file_of (n ∷ t) = some (record { license = string (take n t); signature = drop n t })

abbrev one : Str → Option ℕ
one (t ∷ []) = some t
one s = none

abbrev pub toy : Codec
toy = record {
  PublicKey = Str;
  PrivateKey = Str;
  Signature = Str;
  public_of_pem = λ s. some s;
  private_of_pem = λ s. some s;
  public_of = λ k. k;
  rsa_sign = λ k m. k ++ m;
  rsa_verify = λ k m s. str_eq s (k ++ m);
  signature_of_bytes = λ b. some b;
  signature_to_bytes = λ s. s;
  base64_encode = λ b. b;
  base64_decode = λ b. some b;
  value_of_text = λ t. some (string t);
  text_of_value = string_of;
  file_of_text = file_of;
  pretty_of_file = λ f. write_file f.license f.signature;
  doc_of_value = doc_of;
  value_of_doc = λ d. write_doc d d.features;
  show_instant = decimal;
  debug_text = λ s. s;
  parse_error_text = λ s. lit "not JSON";
  write_error_text = lit "not written";
  status_text = decimal;
  to_rfc3339 = λ t. t ∷ [];
  parse_rfc3339 = one;
  parse_naive = λ s. none;
}

kind_reads : (k : LicenseKind) → kind_of_code (kind_code k) ≡ k
kind_reads trial = refl
kind_reads commercial = refl

bool_reads : (b : Bool) → bool_of_code (bool_code b) ≡ b
bool_reads true = refl
bool_reads false = refl

nat_reads : (o : Option ℕ) → nat_of_code (nat_code o) ≡ o
nat_reads none = refl
nat_reads (some n) = refl

tail_reads : (o : Option Str) → tail_of_code (tail_code o) ≡ o
tail_reads none = refl
tail_reads (some s) = refl

doc_reads :
    (d : LicenseDoc) (fs : List Str) (v : Value)
    → d.features ≡ fs
    → write_doc d fs ≡ some v
    → doc_of v ≡ some d
unfolding write_doc doc_of read_doc
doc_reads d [] v e h = cc
doc_reads d (f ∷ g ∷ fs) v e h = cc
doc_reads d (f ∷ []) v e h = ground (
  arith,
  take-append d.licensee (length f ∷ (f ++ tail_code d.fingerprint)),
  drop-append d.licensee (length f ∷ (f ++ tail_code d.fingerprint)),
  take-append f (tail_code d.fingerprint),
  drop-append f (tail_code d.fingerprint),
  kind_reads d.kind,
  bool_reads d.requires_heartbeat,
  nat_reads d.max_seats,
  nat_reads d.issued_at,
  tail_reads d.fingerprint,
)

file_reads :
    (v : Value) (g t : Str)
    → write_file v g ≡ some t
    → file_of t ≡ some (record { license = v; signature = g })
unfolding write_file file_of
file_reads (string s) g t h = ground (arith, take-append s g, drop-append s g)
file_reads v g t h = cc

pub toy_laws : CodecLaws toy
toy_laws = record {
  rsa_verifies = λ k m. str_eq_refl (k ++ m);
  signature_reads = λ s. refl;
  base64_reads = λ b. refl;
  file_reads = λ f t h. file_reads f.license f.signature t h;
  doc_reads = λ d v h. doc_reads d d.features v refl h;
  instant_reads = λ t. refl;
}
