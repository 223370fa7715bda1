-- ===== src/License/Persist.antt =====
-- apps/api/src/security/license.rs: persist_license, which writes the store file. The file system is
-- an interface: what its calls do to the files, also where they fail, is assumed as documented.
pub mod Laws
use migration_platform.Prelude.{
  ℕ, ◌++◌, ◌≡◌, ◌≢◌, refl, sym, ◌∙◌, ap, Option, none, some, Result, ok, err, map_err, arith,
  Result-cases, Option-cases, inl, inr,
}
use migration_platform.Text.{Str, lit, decimal, str_eq_refl}
use migration_platform.Time.{Instant}
use migration_platform.License.Types.{LicenseDoc, Stamp}
use migration_platform.License.Signing.{Codec, verify_license}
use migration_platform.License.Client.{World, store_path, load_and_verify_path}

-- `std::fs` and `std::path`: a call gives its result and the files as it leaves them. Two paths are
-- apart if they name different files, also through links.
pub record Disk : Type 1 where
  pub Files : Type 0
  pub AreApart : Str → Str → Type 0
  pub read : Files → Str → Option Str
  pub stamp : Files → Str → Option Stamp
  pub create_dir_all : Str → Files → Result Str (Unit {0}) × Files
  pub write : Str → Str → Files → Result Str (Unit {0}) × Files
  pub rename : Str → Str → Files → Result Str (Unit {0}) × Files
  pub parent : Str → Option Str
  pub with_extension : Str → Str → Str

-- A new directory changes no file; a write changes its file only, and may leave a part of it if it
-- fails; a rename takes the content of its source to its target, or does nothing.
pub record DiskLaws (d : Disk) : Type 0 where
  pub read-create_dir_all :
      (dir path : Str) (s : d.Files) → d.read (d.create_dir_all dir s).1 path ≡ d.read s path
  pub read-write_other :
      (path raw other : Str) (s : d.Files)
      → d.AreApart other path
      → d.read (d.write path raw s).1 other ≡ d.read s other
  pub read-write :
      (path raw : Str) (s : d.Files)
      → (d.write path raw s).0 ≡ ok tt
      → d.read (d.write path raw s).1 path ≡ some raw
  pub read-rename :
      (from to : Str) (s : d.Files)
      → (d.rename from to s).0 ≡ ok tt
      → d.read (d.rename from to s).1 to ≡ d.read s from
  pub read-rename_failed :
      (from to path e : Str) (s : d.Files)
      → (d.rename from to s).0 ≡ err e
      → d.read (d.rename from to s).1 path ≡ d.read s path

-- `.with_context(…)?`: an error gets the text and ends the call, with the files as they are then.
unfoldable pub or_context :
    {S : Type 0} {A : Type 0}
    → Str
    → Result Str (Unit {0}) × S
    → (S → Result Str A × S)
    → Result Str A × S
or_context context (ok u, s) next = next s
or_context context (err e, s) next = (err context, s)

module _ (d : Disk) where
  -- `if let Some(parent) = path.parent()`
  unfoldable pub create_parent :
      Option Str
      → d.Files
      → (d.Files → Result Str (Option Stamp) × d.Files)
      → Result Str (Option Stamp) × d.Files
  unfolding or_context
  create_parent none s next = next s
  create_parent (some dir) s next =
      or_context (lit "creating license store dir " ++ dir) (d.create_dir_all dir s) next

  -- The name of the temporary file has the id of the process.
  abbrev pub temporary : ℕ → Str → Str
  temporary pid path = d.with_extension path (lit "json." ++ (decimal pid ++ lit ".tmp"))

  -- The write and the rename.
  unfoldable pub replace_file : Str → Str → Str → d.Files → Result Str (Option Stamp) × d.Files
  unfolding or_context
  replace_file tmp path raw s = or_context (lit "writing " ++ tmp) (d.write tmp raw s) λ s₁.
      or_context (lit "persisting license to " ++ path) (d.rename tmp path s₁)
        λ s₂. (ok (d.stamp s₂ path), s₂)

  unfoldable pub persist_license : ℕ → World → Str → d.Files → Result Str (Option Stamp) × d.Files
  unfolding create_parent replace_file
  persist_license pid w raw s =
      let path = store_path w in
      create_parent (d.parent path) s (replace_file (temporary pid path) path raw)
