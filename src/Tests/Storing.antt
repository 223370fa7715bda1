-- ===== src/Tests/Storing.antt =====
-- Writing the store file at a concrete input, on a toy of the file system.
use migration_platform.Prelude.{
  ℕ, ◌≡◌, ◌≢◌, refl, ap, inl, inr, false, Option, none, some, ok, err, is_ok, length, take, ltb,
  Bool-cases, arith, ◌++◌, if◌then◌else◌,
}
use migration_platform.Text.{Str, lit, str_eq, str_eq_iff, str_eq_refl, decimal}
use migration_platform.License.Client.{World, store_path}
use migration_platform.License.Persist.{
  Disk, DiskLaws, temporary, persist_license, create_parent, replace_file, or_context,
}
use migration_platform.License.Persist.Laws.{Reloads, persist_license-Reloads}
use migration_platform.Tests.Toy.{toy}
use migration_platform.Tests.Licenses.{noon, install, pem, trial_file}
use migration_platform.Tests.Server.{fresh}
use migration_platform.Tests.Heartbeats.{connected}

abbrev put : Str → Option Str → (Str → Option Str) → Str → Option Str
put path raw files p = if str_eq p path then raw else files p

-- A file system with room for so many bytes in a file: a longer text is cut off there, and its write
-- fails. A file that is not there cannot be renamed.
abbrev disk : ℕ → Disk
disk room = record {
  Files = Str → Option Str;
  AreApart = λ a b. a ≢ b;
  read = λ files path. files path;
  stamp = λ files path. none;
  create_dir_all = λ dir files. (ok tt, files);
  write = λ path raw files.
      if ltb room (length raw)
      then (err (lit "no space left"), put path (some (take room raw)) files)
      else (ok tt, put path (some raw) files);
  rename = λ from to files. elim (files from) [
    | none ↦ (err (lit "not found"), files)
    | some raw ↦ (ok tt, put to (some raw) files)
  ];
  parent = λ path. some (lit "/var/lib/migration");
  with_extension = λ path extension. path ++ extension;
}

put_other :
    (path other : Str) (raw : Option Str) (files : Str → Option Str)
    → other ≢ path
    → put path raw files other ≡ files other
put_other path other raw files apart = ground (arith, str_eq_iff other path)

write_other :
    (room : ℕ) (path raw other : Str) (files : Str → Option Str)
    → other ≢ path
    → ((disk room).write path raw files).1 other ≡ files other
write_other room path raw other files apart = elim (Bool-cases (ltb room (length raw))) [
  | inl full ↦ rw full (put_other path other (some (take room raw)) files apart)
  | inr fits ↦ rw fits (put_other path other (some raw) files apart)
]

write_path :
    (room : ℕ) (path raw : Str) (files : Str → Option Str)
    → ((disk room).write path raw files).0 ≡ ok tt
    → ((disk room).write path raw files).1 path ≡ some raw
write_path room path raw files h = ground (arith, str_eq_refl path)

rename_to :
    (room : ℕ) (from to : Str) (files : Str → Option Str)
    → ((disk room).rename from to files).0 ≡ ok tt
    → ((disk room).rename from to files).1 to ≡ files from
rename_to room from to files h = ground (arith, str_eq_refl to)

rename_failed :
    (room : ℕ) (from to path e : Str) (files : Str → Option Str)
    → ((disk room).rename from to files).0 ≡ err e
    → ((disk room).rename from to files).1 path ≡ files path
rename_failed room from to path e files h = ground arith

disk_laws : (room : ℕ) → DiskLaws (disk room)
disk_laws room = record {
  read-create_dir_all = λ dir path s. refl;
  read-write_other = λ path raw other s apart. write_other room path raw other s apart;
  read-write = λ path raw s h. write_path room path raw s h;
  read-rename = λ from to s h. rename_to room from to s h;
  read-rename_failed = λ from to path e s h. rename_failed room from to path e s h;
}

abbrev machine : World
machine = connected noon fresh

apart : (disk 9).AreApart (store_path machine) (temporary (disk 9) 7 (store_path machine))
unfolding store_path decimal str_eq
apart = λ e. omega (arith, ap length e)

-- The license is longer than nine bytes: its write fails.
persist_license-Reloads_example :
    Reloads
      (disk 9)
      toy
      machine
      noon
      pem
      install
      trial_file
      (λ path. none)
      (persist_license (disk 9) 7 machine trial_file (λ path. none))
persist_license-Reloads_example =
    persist_license-Reloads (disk 9) toy (disk_laws 9) 7 machine trial_file (λ path. none) noon pem
      install apart

write_fails : is_ok (persist_license (disk 9) 7 machine trial_file (λ path. none)).0 ≡ false
unfolding persist_license create_parent replace_file or_context
write_fails = refl

write_succeeds : (persist_license (disk 1000) 7 machine trial_file (λ path. none)).0 ≡ ok none
unfolding persist_license create_parent replace_file or_context str_eq decimal store_path
write_succeeds = refl
