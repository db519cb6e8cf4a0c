-- ===== src/Progs/Restore/Archive.antt =====
-- A backup is restored only behind a test of its archive.
use ipcop_alpine.Prelude.{ℕ, ◌≡◌, refl, Bool, true, false, not, [], ◌∷◌, Option, ◌==◌, arith}
use ipcop_alpine.Cstring.{Bytes, codes, concat, starts_with}
use ipcop_alpine.Kv.{Kv}
use ipcop_alpine.Kv.File.{read_kv_from_file}
use ipcop_alpine.Os.{Os, History, history_of}
use ipcop_alpine.Os.Footprint.{Makes, makes, Makes-mono, Makes-call, Makes-when, Makes-exit}
use ipcop_alpine.Os.Guard.{Lock, IsGuarded, NotLocked, AnyCall, Guards, Guards-bind, Guards-key}
use ipcop_alpine.Setuid.Footprint.{read_kv_from_file-Makes}
use ipcop_alpine.Progs.Backup.{testbackupversion, getbackupversion, getipcopversion}
use ipcop_alpine.Progs.Restore.{RestoreFlags, command_line, test_command, decrypt_command}
use ipcop_alpine.Progs.Restore.Steps.{
  leave, writetagfile, find_date, read_date, import_backup, restore_port, restore_ports,
  restore_backup, use_archive, open_archive,
}

-- The commands that write the files of a backup over those of the system.
unfoldable pub overwrites : Bytes → Bool
overwrites command = starts_with (codes "/bin/tar -X ") command

-- They wait for the archive to have been unpacked into a directory of its own, with status 0.
abbrev pub archive_lock : Bytes → Bytes → Lock
archive_lock dir name = record {
  key = test_command dir name;
  good = λ rc. rc == 0;
  locked = overwrites;
}

remove_plain : (tmp : Bytes) → overwrites (command_line (codes "/bin/rm -rf " ∷ tmp ∷ [])) ≡ false
unfolding overwrites command_line concat codes starts_with
remove_plain tmp = refl

decrypt_plain : (file name : Bytes) → overwrites (decrypt_command file name) ≡ false
unfolding overwrites decrypt_command command_line concat codes starts_with
decrypt_plain file name = refl

test_plain : (dir name : Bytes) → overwrites (test_command dir name) ≡ false
unfolding overwrites test_command command_line concat codes starts_with
test_plain dir name = refl

tested_lem : (rc : ℕ) → not (rc == 0) ≡ false → (rc == 0) ≡ true
tested_lem rc e = ground arith

module _ (os : Os) (dir date_file name : Bytes) where
  abbrev lock : Lock
  lock = archive_lock dir name

  leave-Makes :
      {A : Type 0} (tmp date : Bytes) (n : ℕ)
      → Makes (NotLocked lock) (leave os dir date_file name {A = A} tmp date n)
  unfolding leave
  leave-Makes tmp date n = search (makes, remove_plain) depth 20

  leave-Any :
      {A : Type 0} (tmp date : Bytes) (n : ℕ)
      → Makes AnyCall (leave os dir date_file name {A = A} tmp date n)
  unfolding leave
  leave-Any tmp date n = search makes depth 20

  read_kv-Any : (kv : Kv) (file : Bytes) → Makes AnyCall (read_kv_from_file os kv file)
  read_kv-Any kv file = Makes-mono (λ c s. tt) (read_kv_from_file-Makes os kv file)

  writetagfile-Any :
      (file : Bytes) (t : Option Bytes) → Makes AnyCall (writetagfile os dir date_file name file t)
  unfolding writetagfile
  writetagfile-Any file t = search (makes, leave-Any) depth 20

  find_date-Any : Makes AnyCall (find_date os dir date_file name)
  unfolding find_date
  find_date-Any = search (makes, leave-Any, writetagfile-Any) depth 30

  read_date-Any : (tag : Bytes) → Makes AnyCall (read_date os dir date_file name tag)
  unfolding read_date
  read_date-Any tag = search (makes, leave-Any) depth 30

  import_backup-Any : Makes AnyCall (import_backup os dir date_file name)
  unfolding import_backup
  import_backup-Any = search (makes, leave-Any, find_date-Any, read_date-Any) depth 20

  restore_ports-Any :
      (gui ssh : Bytes) → Makes AnyCall (restore_ports os dir date_file name gui ssh)
  unfolding restore_ports restore_port
  restore_ports-Any gui ssh = search (makes, read_kv-Any) depth 20

  restore_backup-Any :
      (flag_hardware : Bool) → Makes AnyCall (restore_backup os dir date_file name flag_hardware)
  unfolding restore_backup
  restore_backup-Any flag_hardware =
      search (makes, leave-Any, read_kv-Any, restore_ports-Any) depth 30

  testbackupversion-Any : Makes AnyCall (testbackupversion os dir)
  unfolding testbackupversion getbackupversion getipcopversion
  testbackupversion-Any = search makes depth 30

  use_archive-Any : (f : RestoreFlags) → Makes AnyCall (use_archive os dir date_file name f)
  unfolding use_archive
  use_archive-Any f =
      search (makes, leave-Any, testbackupversion-Any, import_backup-Any, restore_backup-Any) depth
        20

  open_archive-Guards :
      (f : RestoreFlags) (file : Bytes) → Guards os lock (open_archive os dir date_file name f file)
  unfolding open_archive
  open_archive-Guards f file = Guards-bind os lock (Makes-call os _ tt) λ key.
      Guards-bind os lock (Makes-when _ (Makes-exit 6)) λ _.
        Guards-bind os lock (Makes-call os _ (decrypt_plain file name)) λ decrypted.
          Guards-bind os lock (Makes-when _ (leave-Makes [] [] 6)) λ _.
            Guards-bind os lock (Makes-call os _ tt) λ made.
              Guards-bind os lock (Makes-when _ (leave-Makes _ [] 1)) λ _.
                Guards-key os lock (λ rc. not (rc == 0)) (test_plain dir name) tested_lem
                  (λ rc. leave-Makes dir [] 7) (use_archive-Any f)

  -- Whatever the system answers: from the decryption on, ipcoprestore runs a command that writes the
  -- files of the backup over those of the system only after the same archive has been unpacked into
  -- the temporary directory with status 0.
  pub open_archive-IsGuarded :
      (f : RestoreFlags) (file : Bytes) (h : History)
      → IsGuarded os lock h
      → IsGuarded os lock (history_of (open_archive os dir date_file name f file h))
  open_archive-IsGuarded f file = (open_archive-Guards f file).guards
