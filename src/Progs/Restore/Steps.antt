-- ===== src/Progs/Restore/Steps.antt =====
-- source/core/progs/ipcoprestore.c: `main` and its steps. `host` is what `gethostname` gives, `dir` what
-- `mkdtemp` makes of "/tmp/cfg_XXXXXX", and `date_file` what `mkstemp` makes of "/tmp/date.XXXXXX".
use ipcop_alpine.Prelude.{
  ℕ, Bool, true, false, not, ◌||◌, List, [], ◌∷◌, ◌++◌, Option, none, some, ◌==◌, ◌-◌,
  if◌then◌else◌,
}
use ipcop_alpine.Cstring.{Bytes, codes, string_size, snprintf, has_text, text_of, is_nil}
use ipcop_alpine.Kv.{Kv, success, test_kv, find_kv_default}
use ipcop_alpine.Kv.File.{read_kv_from_file}
use ipcop_alpine.Setuid.{initsetuid}
use ipcop_alpine.Progs.Backup.{testbackupversion}
use ipcop_alpine.Os.{
  Os, M, pure, ◌>>=◌, ◌>>◌, choose, when, exit, call, act, contents, system, access, unlink,
  mkdtemp, mkstemp, chown, fopen_read, fopen_write, flock_exclusive, flock_unlock, fprintf, fclose,
  minus_one,
}
use ipcop_alpine.Progs.Restore.{
  RestoreOption, RestoreFlags, no_flags, read_options, backup_key, command_line, decrypt_command,
  test_command, find_command, restore_command, backup_file, dated_file, move_command, date_of,
  port_command, is_backup_name, mountpoint,
}

module _ (os : Os) (dir date_file name : Bytes) where
  -- `exithandler`, and the exit: `tmp` and `date` are `tmpdir` and `tmpdatefile`.
  unfoldable pub leave : {A : Type 0} → Bytes → Bytes → ℕ → M A
  leave tmp date n = do
    act os (unlink (command_line (codes "/tmp/" ∷ name ∷ codes ".tar.gz" ∷ [])))
    when (not (is_nil tmp)) (act os (system (command_line (codes "/bin/rm -rf " ∷ tmp ∷ []))))
    when (not (is_nil date)) (act os (unlink date))
    act os (unlink (backup_file name (codes ".dat")))
    act os (unlink (command_line (codes "/tmp/" ∷ name ∷ codes ".tar" ∷ [])))
    exit n

  unfoldable pub writetagfile : Bytes → Option Bytes → M (Unit {0})
  writetagfile file timestamp = do
    opened ← call os (fopen_write file)
    when (not (opened == 0)) (leave dir date_file 1)
    act os (flock_exclusive file)
    act os (fprintf file (text_of timestamp ++ codes " \n"))
    act os (flock_unlock file)
    act os (fclose file)

  -- Without a tag file in the archive: the date of its newest file. The test of `mkstemp` is
  -- `!(fd) > 0`, which is met by 0 alone.
  unfoldable pub find_date : M (Option Bytes)
  find_date = do
    fd ← call os (mkstemp date_file)
    when (fd == 0) (leave dir date_file 1)
    rc ← call os (system (find_command dir date_file))
    when (not (rc == 0)) (leave dir date_file 1)
    opened ← call os (fopen_read date_file)
    when (not (opened == 0)) (leave dir date_file 1)
    text ← contents os date_file
    act os (fclose date_file)
    let timestamp = date_of true text
    writetagfile (snprintf (string_size - 1) (dated_file name timestamp (codes ".dat.time")))
        timestamp
    pure timestamp

  unfoldable pub read_date : Bytes → M (Option Bytes)
  read_date tag = do
    opened ← call os (fopen_read tag)
    when (not (opened == 0)) (leave dir [] 1)
    text ← contents os tag
    act os (fclose tag)
    let timestamp = date_of false text
    owned ← call os (chown tag 99 99)
    when (not (owned == 0)) (leave dir [] 1)
    moved ← call os (system (move_command tag (dated_file name timestamp (codes ".dat.time"))))
    when (not (moved == 0)) (leave dir [] 1)
    pure timestamp

  unfoldable pub import_backup : M (Unit {0})
  import_backup = do
    let tag = command_line (dir ∷ codes "/var/ipcop/backup.dat.time" ∷ [])
    there ← call os (access tag)
    let date = if there == minus_one then date_file else []
    timestamp ← choose (there == minus_one) find_date (read_date tag)
    moved ← call os (
        system (
          move_command (backup_file name (codes ".dat"))
            (dated_file name timestamp (codes ".dat"))))
    when (not (moved == 0)) (leave dir date 1)
    leave dir date 0

  -- A port that the restored settings change, or that they lack.
  unfoldable pub restore_port : Kv → Bytes → Bytes → Bytes → M (Unit {0})
  restore_port kv key flag port =
      when (not (test_kv kv key port == success))
        (act os (system (port_command flag (find_kv_default kv key port).1)))

  unfoldable pub restore_ports : Bytes → Bytes → M (Unit {0})
  restore_ports port_gui port_ssh = do
    (rc, kv) ← read_kv_from_file os [] (codes "/var/ipcop/main/settings")
    when (rc == success) do
      restore_port kv (codes "GUIPORT") (codes "gui") port_gui
      restore_port kv (codes "SSHPORT") (codes "ssh") port_ssh

  -- Where the old settings cannot be read, the two buffers were never set; they are taken to be empty.
  unfoldable pub old_port : ℕ → Kv → Bytes → Bytes → Bytes
  old_port rc kv key port = if rc == success then (find_kv_default kv key port).1 else []

  unfoldable pub restore_backup : Bool → M (Unit {0})
  restore_backup flag_hardware = do
    act os (system (command_line (codes "/bin/gunzip -d -f /tmp/" ∷ name ∷ codes ".tar.gz" ∷ [])))
    (rc, kv) ← read_kv_from_file os [] (codes "/var/ipcop/main/settings")
    restored ← call os (system (restore_command flag_hardware name))
    when (not (restored == 0)) (leave dir [] 8)
    restore_ports (old_port rc kv (codes "GUIPORT") (codes "8443"))
        (old_port rc kv (codes "SSHPORT") (codes "8022"))
    upgraded ← call os (system (codes "/usr/bin/upgrade.sh"))
    when (not (upgraded == 0)) (leave dir [] 1)
    leave dir [] 0

  -- From the unpacked archive on.
  unfoldable pub use_archive : RestoreFlags → M (Unit {0})
  use_archive f = do
    rc ← testbackupversion os dir
    when (not (rc == success)) (leave dir [] 11)
    when f.flag_import import_backup
    restore_backup f.flag_hardware

  unfoldable pub open_archive : RestoreFlags → Bytes → M (Unit {0})
  open_archive f file = do
    key ← call os (access backup_key)
    when (key == minus_one) (exit 6)
    decrypted ← call os (system (decrypt_command file name))
    when (not (decrypted == 0)) (leave [] [] 6)
    made ← call os (mkdtemp dir)
    when (made == 0) (leave (codes "/tmp/cfg_XXXXXX") [] 1)
    tested ← call os (system (test_command dir name))
    choose (not (tested == 0)) (leave dir [] 7) (use_archive f)

  -- The archive: the named file, or the one that was just uploaded.
  unfoldable pub find_archive : Option Bytes → M Bytes
  find_archive none = pure (backup_file name (codes ".dat"))
  find_archive (some file) = do
    when (not (is_backup_name name file)) (exit 23)
    when (not (has_text mountpoint file)) (exit 24)
    there ← call os (access file)
    when (there == minus_one) (exit 9)
    pure file

  unfoldable pub restore_or_import : RestoreFlags → M (Unit {0})
  restore_or_import f = do file ← find_archive f.opt_filename; open_archive f file

unfoldable pub is_restore : Option Bytes → Bool
is_restore none = false
is_restore (some file) = true

unfoldable pub main : Os → Bytes → Bytes → Bytes → List RestoreOption → M (Unit {0})
main os dir date_file host options = do
  f ← read_options options no_flags
  when (not (f.flag_import || is_restore f.opt_filename)) (exit 1)
  ok ← initsetuid os
  when (ok == 0) (exit 20)
  restore_or_import os dir date_file (elim f.opt_hostname [ none ↦ host | some s ↦ s ]) f
