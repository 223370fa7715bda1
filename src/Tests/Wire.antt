-- ===== src/Tests/Wire.antt =====
-- Heartbeats from the client to the server and back at concrete inputs. JSON is a toy: each body
-- of an exchange is written as a tag and its texts, and a license file as itself.
use migration_platform.Prelude.{
  zero, suc, ◌≡◌, refl, List, [], ◌∷◌, ◌++◌, Option, none, some, take, length, arith,
}
use migration_platform.Text.{Str, lit}
use migration_platform.Time.{Instant}
use migration_platform.Json.{Value, string, object, field, end}
use migration_platform.License.Types.{LicenseDoc}
use migration_platform.License.Signing.{Codec, LicenseFile}
use migration_platform.License.Signing.Laws.{CodecLaws}
use migration_platform.Exchange.{error_body}
use migration_platform.Exchange.Laws.{JsonLaws}
use migration_platform.Tests.Toy.{
  toy, toy_laws, drop, take-append, drop-append, write_doc, write_file,
}

-- A text with its length before it.
abbrev pub counted : Str → Str → Str
counted a rest = length a ∷ (a ++ rest)

unfoldable pub write_body : Value → Option Str
write_body (string s) = some s
write_body (object (field e (object (field k (string a) (field l (string b) end))) end)) =
    some (0 ∷ counted a b)
write_body (object (field k (string a) (field l (string b) (field m (string f) end)))) =
    some (1 ∷ counted a (counted b f))
write_body
      (object
        (field k (string a) (field l (string f) (field m (string p) (field n (string v) end))))) =
    some (2 ∷ counted a (counted f (counted p v)))
write_body v = none

unfoldable pub cut : Str → Str × Str
unfolding drop
cut [] = ([], [])
cut (n ∷ t) = (take n t, drop n t)

cut-counted : (a rest : Str) → cut (counted a rest) ≡ (a, rest)
unfolding cut
cut-counted a rest = ground (arith, take-append a rest, drop-append a rest)

abbrev answer_body : Str → Str → Value → Value
answer_body a b file = object (
    field (lit "expires_at") (string a)
      (field (lit "issued_at") (string b) (field (lit "license_file") file end)))

unfoldable pub read_body : Str → Option Value
unfolding cut
read_body [] = some (string [])
read_body (zero ∷ t) = let (code, message) = cut t in some (error_body code message)
read_body (suc zero ∷ t) =
    let (a, t₁) = cut t in let (b, f) = cut t₁ in some (answer_body a b (string f))
read_body (suc (suc zero) ∷ t) =
    let (fp, t₁) = cut t in
    let (file, t₂) = cut t₁ in
    let (product, version) = cut t₂ in
    some (
      object (
        field (lit "fingerprint") (string fp) (
          field (lit "license_file") (string file)
            (field (lit "product") (string product) (field (lit "version") (string version) end)))))
read_body (suc (suc (suc n)) ∷ t) = some (string (suc (suc (suc n)) ∷ t))

abbrev pub wire : Codec
wire = record toy { value_of_text = read_body; text_of_value = write_body }

pub wire_laws : CodecLaws wire
wire_laws = record {
  rsa_verifies = toy_laws.rsa_verifies;
  signature_reads = toy_laws.signature_reads;
  base64_reads = toy_laws.base64_reads;
  file_reads = toy_laws.file_reads;
  doc_reads = toy_laws.doc_reads;
  instant_reads = toy_laws.instant_reads;
}

-- The text of a signed file reads as itself.
signed_reads :
    (doc : LicenseDoc) (fs : List Str) (v : Value) (signature signed : Str)
    → write_doc doc fs ≡ some v
    → write_file v signature ≡ some signed
    → read_body signed ≡ some (string signed)
unfolding write_doc write_file read_body
signed_reads doc [] v g t h k = cc
signed_reads doc (f ∷ g' ∷ fs) v g t h k = cc
signed_reads doc (f ∷ []) v g t h k = ground (arith, h, k)

unfoldable pub wire_value : Instant → Value
wire_value t = string (t ∷ [])

held_as :
    (doc : LicenseDoc) (file : LicenseFile) (signed : Str) (v : Value)
    → wire.value_of_doc doc ≡ some file.license
    → wire.pretty_of_file file ≡ some signed
    → wire.value_of_text signed ≡ some v
    → v ≡ string signed
held_as doc file signed v h p e =
    let reads = signed_reads doc doc.features file.license file.signature signed h p in cc

answer_reads :
    (a b f : Str)
    → (text : Str) × (write_body (answer_body a b (string f)) ≡ some text)
      × (read_body text ≡ some (answer_body a b (string f)))
unfolding read_body write_body
answer_reads a b f = (
  1 ∷ counted a (counted b f),
  refl,
  ground (arith, cut-counted a (counted b f), cut-counted b f),
)

pub wire_json : JsonLaws wire wire_value
unfolding wire_value
wire_json = record {
  error_reads = λ code message. (
    0 ∷ counted code message,
    unfold write_body in refl,
    unfold read_body in ground (arith, cut-counted code message),
  );
  response_reads = λ r doc file signed v p e.
      rw (held_as doc file signed r.license_file v p e)
        (answer_reads (r.expires_at ∷ []) (r.issued_at ∷ []) signed);
  file_reads_again = λ doc file signed v h p e.
      rw (held_as doc file signed v h p e)
        (signed, unfold write_body in refl, wire_laws.file_reads file signed p);
}
