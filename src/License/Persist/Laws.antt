-- ===== src/License/Persist/Laws.antt =====
-- What the store file holds after a call that may have failed, and what loading its path gives then.
use migration_platform.Prelude.{
  ℕ, ◌≡◌, refl, ◌∙◌, Option, none, some, Result, ok, err, arith, Result-cases, inl, inr,
}
use migration_platform.Text.{Str, str_eq_refl}
use migration_platform.Time.{Instant}
use migration_platform.License.Types.{LicenseDoc, Stamp}
use migration_platform.License.Signing.{Codec, verify_license}
use migration_platform.License.Client.{World, store_path, load_and_verify_path}
use migration_platform.License.Persist.{
  Disk, DiskLaws, or_context, create_parent, temporary, replace_file, persist_license,
}

or_context-ok :
    {S A : Type 0} (context : Str) (r : Result Str (Unit {0}) × S) (next : S → Result Str A × S)
    → r.0 ≡ ok tt
    → or_context context r next ≡ next r.1
unfolding or_context
or_context-ok context (ok u, s) next h = refl
or_context-ok context (err e, s) next h = cc h

or_context-err :
    {S A : Type 0} (context e : Str) (r : Result Str (Unit {0}) × S) (next : S → Result Str A × S)
    → r.0 ≡ err e
    → or_context context r next ≡ (err context, r.1)
unfolding or_context
or_context-err context e (ok u, s) next h = cc h
or_context-err context e (err e', s) next h = refl

module _ (d : Disk) where
  -- The store file is the text that is given if the call succeeds, and as before if it fails.
  abbrev pub Whole : Str → Str → d.Files → Result Str (Option Stamp) × d.Files → Type 0
  Whole path raw s (ok stamp, s') = d.read s' path ≡ some raw
  Whole path raw s (err e, s') = d.read s' path ≡ d.read s path

  module _ (laws : DiskLaws d) where
    replace_file-Whole :
        (tmp path raw : Str) (s : d.Files)
        → d.AreApart path tmp
        → Whole path raw s (replace_file d tmp path raw s)
    replace_file-Whole tmp path raw s apart =
        let s₁ = (d.write tmp raw s).1 in
        let kept = laws.read-write_other tmp raw path s apart in
        elim (Result-cases (d.write tmp raw s).0) [
          | inr (e, w) ↦ unfold replace_file in rw (or_context-err _ e (d.write tmp raw s) _ w) kept
          | inl (u, w) ↦ elim (Result-cases (d.rename tmp path s₁).0) [
            | inr (e, r) ↦
                unfold replace_file in
                rw (or_context-ok _ (d.write tmp raw s) _ w) (
                  rw (or_context-err _ e (d.rename tmp path s₁) _ r)
                    (laws.read-rename_failed tmp path path e s₁ r ∙ kept))
            | inl (v, r) ↦
                unfold replace_file in
                rw (or_context-ok _ (d.write tmp raw s) _ w) (
                  rw (or_context-ok _ (d.rename tmp path s₁) _ r)
                    (laws.read-rename tmp path s₁ r ∙ laws.read-write tmp raw s w))
          ]
        ]

    -- What is whole against files that read the same is whole.
    Whole-same :
        (path raw : Str) (s s' : d.Files) (r : Result Str (Option Stamp) × d.Files)
        → d.read s' path ≡ d.read s path
        → Whole path raw s' r
        → Whole path raw s r
    Whole-same path raw s s' (ok stamp, t) same h = h
    Whole-same path raw s s' (err e, t) same h = h ∙ same

    create_parent-Whole :
        (dir : Option Str) (tmp path raw : Str) (s : d.Files)
        → d.AreApart path tmp
        → Whole path raw s (create_parent d dir s (replace_file d tmp path raw))
    create_parent-Whole none tmp path raw s apart =
        unfold create_parent in replace_file-Whole tmp path raw s apart
    create_parent-Whole (some dir) tmp path raw s apart =
        let s₁ = (d.create_dir_all dir s).1 in
        let same = laws.read-create_dir_all dir path s in
        elim (Result-cases (d.create_dir_all dir s).0) [
          | inr (e, m) ↦
              unfold create_parent in rw (or_context-err _ e (d.create_dir_all dir s) _ m) same
          | inl (u, m) ↦
              unfold create_parent in
              rw (or_context-ok _ (d.create_dir_all dir s) _ m) (
                Whole-same path raw s s₁ (replace_file d tmp path raw s₁) same
                  (replace_file-Whole tmp path raw s₁ apart))
        ]

    -- Whichever of its calls fails, the store file is never torn: it is the new text if
    -- `persist_license` succeeds, and as it was if not, where the temporary file is another one.
    pub persist_license-Whole :
        (pid : ℕ) (w : World) (raw : Str) (s : d.Files)
        → d.AreApart (store_path w) (temporary d pid (store_path w))
        → Whole (store_path w) raw s (persist_license d pid w raw s)
    unfolding persist_license
    persist_license-Whole pid w raw s apart =
        create_parent-Whole (d.parent (store_path w)) (temporary d pid (store_path w))
          (store_path w) raw s apart

  -- The process at a later instant, with the files that it finds.
  abbrev pub restarted : World → Instant → d.Files → World
  restarted w at s = record w { now = at; read_file = d.read s }

  -- Loading the path of the store gives the license that was written, if the call succeeded and it is
  -- valid then, and what it would have given before if the call failed.
  abbrev pub Reloads :
      (c : Codec)
      → World
      → Instant
      → c.PublicKey
      → Str
      → Str
      → d.Files
      → Result Str (Option Stamp) × d.Files
      → Type 0
  Reloads c w at key fp raw s (ok stamp, s') =
      (doc : LicenseDoc)
      → verify_license c raw key at ≡ ok doc
      → doc.fingerprint ≡ some fp
      → load_and_verify_path c (restarted w at s') (store_path w) key fp
        ≡ ok (record { doc = doc; raw = raw; store_stamp = w.file_stamp (store_path w) })
  Reloads c w at key fp raw s (err e, s') =
      load_and_verify_path c (restarted w at s') (store_path w) key fp
      ≡ load_and_verify_path c (restarted w at s) (store_path w) key fp

  Whole-Reloads :
      (c : Codec) (w : World) (at : Instant) (key : c.PublicKey) (fp raw : Str) (s : d.Files)
      (r : Result Str (Option Stamp) × d.Files)
      → Whole (store_path w) raw s r
      → Reloads c w at key fp raw s r
  unfolding load_and_verify_path store_path
  Whole-Reloads c w at key fp raw s (ok stamp, s') h = λ doc verified bound.
      rw h (ground (arith, verified, bound, str_eq_refl fp, str_eq_refl (store_path w)))
  Whole-Reloads c w at key fp raw s (err e, s') h = rw h

  -- Whichever of its calls fails, `persist_license` leaves no torn store file: loading the path of
  -- the store afterwards, with the files that are left, gives the new license if the call succeeded,
  -- as long as that is valid then and bound to the install, and if it failed, whatever loading that
  -- path would have given before. The temporary file is another one than the store file, and the
  -- calls of the file system do what they promise.
  pub persist_license-Reloads :
      (c : Codec)
      → DiskLaws d
      → (pid : ℕ) (w : World) (raw : Str) (s : d.Files) (at : Instant) (key : c.PublicKey)
        (fp : Str)
      → d.AreApart (store_path w) (temporary d pid (store_path w))
      → Reloads c w at key fp raw s (persist_license d pid w raw s)
  persist_license-Reloads c laws pid w raw s at key fp apart =
      Whole-Reloads c w at key fp raw s (persist_license d pid w raw s)
        (persist_license-Whole laws pid w raw s apart)
