-- ===== src/Progs/Bkcfg/Steps.antt =====
-- source/core/progs/ipcopbkcfg.c: `--write` and its steps. `Suffixes` holds what `mkstemp` puts for the
-- six letters X in its four templates, `host` and `timestamp` what `gethostname` and `strftime` give, and
-- `listing` the sorted names in /var/ipcop/backup.
use ipcop_alpine.Prelude.{ℕ, Bool, true, false, not, List, [], ◌∷◌, ◌++◌, ◌==◌, ltb, reverse}
use ipcop_alpine.Cstring.{Bytes, codes, is_nil, string_size, fgets_lines}
use ipcop_alpine.Number.{is_negative}
use ipcop_alpine.Progs.Restore.{command_line, backup_key}
use ipcop_alpine.Os.{
  Os, M, pure, ◌>>=◌, ◌>>◌, choose, when, for_each, exit, call, act, contents, system, stat,
  stat_mode, glob, glob_pathc, scandir, write, chown, chdir, unlink, mkstemp, close, fopen_read,
  fopen_write, flock_exclusive, flock_unlock, fprintf, fclose,
}
use ipcop_alpine.Progs.Bkcfg.{
  trim_line, is_regular, is_listed, tar_command, gzip_command, archive_name, encrypt_command,
}

-- The names of the temporary files that exist so far, empty for the others.
pub record Temps : Type 0 where
  pub tempincfilename : Bytes
  pub tempexcfilename : Bytes
  pub temptarfile : Bytes
  pub temptgzfile : Bytes

abbrev pub no_temps : Temps
no_temps = record { tempincfilename = []; tempexcfilename = []; temptarfile = []; temptgzfile = [] }

abbrev pub inclusion : Bytes
inclusion = codes "/tmp/backup-inclusion."

abbrev pub exclusion : Bytes
exclusion = codes "/tmp/backup-exclusion."

abbrev pub tar_name : Bytes
tar_name = codes "/tmp/backup.tar."

abbrev pub tgz_name : Bytes
tgz_name = codes "/tmp/backup.tgz."

-- What each call of `mkstemp` puts for the letters X.
pub record Suffixes : Type 0 where
  pub for_inc : Bytes
  pub for_exc : Bytes
  pub for_tar : Bytes
  pub for_tgz : Bytes

abbrev pub inc_file : Suffixes → Bytes
inc_file x = inclusion ++ x.for_inc

abbrev pub exc_file : Suffixes → Bytes
exc_file x = exclusion ++ x.for_exc

abbrev pub tar_file : Suffixes → Bytes
tar_file x = tar_name ++ x.for_tar

abbrev pub tgz_file : Suffixes → Bytes
tgz_file x = tgz_name ++ x.for_tgz

-- The sets of names as the program goes on.
abbrev pub with_inc : Suffixes → Temps
with_inc x = record no_temps { tempincfilename = inc_file x }

abbrev pub with_exc : Suffixes → Temps
with_exc x = record (with_inc x) { tempexcfilename = exc_file x }

abbrev pub with_tar : Suffixes → Temps
with_tar x = record (with_exc x) { temptarfile = tar_file x }

abbrev pub with_tgz : Suffixes → Temps
with_tgz x = record (with_tar x) { temptgzfile = tgz_file x }

abbrev pub tag_file : Bytes
tag_file = codes "/var/ipcop/backup.dat.time"

module _ (os : Os) where
  -- Where `stat` fails the source looks at a structure that was not set.
  unfoldable pub file_exists : Bytes → M Bool
  unfolding is_regular
  file_exists fname = do
    act os (stat fname)
    mode ← call os (stat_mode fname)
    choose (is_regular mode) (pure true) do
      rc ← call os (glob fname)
      choose (rc == 0) (do count ← call os (glob_pathc fname); pure (ltb 0 count)) (pure false)

  unlink_set : Bytes → M (Unit {0})
  unlink_set file = when (not (is_nil file)) (act os (unlink file))

  -- `exithandler`, and the exit.
  unfoldable pub leave : {A : Type 0} → Temps → ℕ → M A
  unfolding unlink_set
  leave t n = do
    unlink_set t.temptarfile
    unlink_set t.temptgzfile
    unlink_set t.tempincfilename
    unlink_set t.tempexcfilename
    act os (unlink tag_file)
    exit n

  unfoldable pub add_line : Temps → Bytes → Bytes → M (Unit {0})
  unfolding trim_line
  add_line t outfile line = do
    let fbuff = trim_line line
    rc ← call os (chdir (codes "/"))
    when (not (rc == 0)) (leave t 1)
    when (not (is_nil fbuff))
        do there ← file_exists fbuff; when there (act os (write outfile (fbuff ++ codes "\n")))

  unfoldable pub add_file : Temps → Bytes → Bytes → M (Unit {0})
  add_file t outfile fname = do
    opened ← call os (fopen_read fname)
    when (opened == 0) do
      text ← contents os fname
      for_each (fgets_lines string_size text) (add_line t outfile)
      act os (fclose fname)

  -- `t` names the temporary files from the time on at which `outfilename` is set. The test of
  -- `mkstemp` is `!(fd) > 0`, which is met by 0 alone.
  unfoldable pub cmb_files : List Bytes → Temps → Temps → Bytes → Bytes → M (Unit {0})
  unfolding is_listed
  cmb_files listing before t outfilename fnamebase = do
    namecount ← call os (scandir (codes "/var/ipcop/backup"))
    when (is_negative namecount) (leave before 1)
    fd ← call os (mkstemp outfilename)
    when (fd == 0) (leave t 1)
    for_each (reverse listing) (λ name.
        when (is_listed fnamebase name)
          (add_file t outfilename (codes "/var/ipcop/backup/" ++ name)))
    act os (close fd)

  unfoldable pub writetagfile : Temps → Bytes → Bytes → Bytes → M (Unit {0})
  writetagfile t file timestamp comment = do
    opened ← call os (fopen_write file)
    when (not (opened == 0)) (leave t 1)
    act os (flock_exclusive file)
    act os (fprintf file (timestamp ++ (codes " " ++ (comment ++ codes "\n"))))
    act os (flock_unlock file)
    act os (fclose file)

  -- An empty temporary file.
  unfoldable pub make_temp : Temps → Bytes → M (Unit {0})
  make_temp t file = do fd ← call os (mkstemp file); when (fd == 0) (leave t 1); act os (close fd)

  unfoldable pub write_version : Temps → M (Unit {0})
  write_version t = do
    opened ← call os (fopen_write (codes "/var/ipcop/backup/version"))
    when (not (opened == 0)) (leave t 1)
    act os (fprintf (codes "/var/ipcop/backup/version") (codes "2.2.0\n"))
    act os (fclose (codes "/var/ipcop/backup/version"))

  -- A command that ends the program with `n` where it fails.
  unfoldable pub run : Temps → ℕ → Bytes → M (Unit {0})
  run t n command = do rc ← call os (system command); when (not (rc == 0)) (leave t n)

  unfoldable pub give_web : Temps → Bytes → M (Unit {0})
  give_web t file = do rc ← call os (chown file 99 99); when (not (rc == 0)) (leave t 1)

  -- From the complete set of temporary files on.
  unfoldable pub write_archive : Temps → Bool → Bytes → Bytes → Bytes → M (Unit {0})
  write_archive t verbose host timestamp comment = do
    write_version t
    run t 3 (tar_command t.tempincfilename t.tempexcfilename t.temptarfile)
    run t 4 (gzip_command t.temptarfile t.temptgzfile)
    act os (unlink t.temptarfile)
    when verbose (run t 4 (command_line (codes "/bin/tar -ztf " ∷ t.temptgzfile ∷ [])))
    run t 5 (encrypt_command t.temptgzfile host timestamp)
    writetagfile t (archive_name host timestamp (codes ".dat.time")) timestamp comment
    give_web t (archive_name host timestamp (codes ".dat"))
    give_web t (archive_name host timestamp (codes ".dat.time"))
    leave t 0

  -- `--write`, from the registration of `exithandler` on.
  unfoldable pub write_backup : Suffixes → List Bytes → Bytes → Bytes → Bool → Bytes → M (Unit {0})
  write_backup x listing host timestamp verbose comment = do
    key ← file_exists backup_key
    when (not key) (leave no_temps 2)
    cmb_files listing no_temps (with_inc x) (inc_file x) (codes "include.")
    cmb_files listing (with_inc x) (with_exc x) (exc_file x) (codes "exclude.")
    writetagfile (with_exc x) tag_file timestamp comment
    make_temp (with_tar x) (tar_file x)
    make_temp (with_tgz x) (tgz_file x)
    write_archive (with_tgz x) verbose host timestamp comment
