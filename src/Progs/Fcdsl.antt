-- ===== src/Progs/Fcdsl.antt =====
-- source/core/progs/installfcdsl.c. `suffix` is what `mkdtemp` puts for the six letters X of its template.
pub mod Archive
use ipcop_alpine.Prelude.{ℕ, Bool, not, List, [], ◌∷◌, ◌++◌, ◌==◌}
use ipcop_alpine.Cstring.{Bytes, codes, strcmp_eq}
use ipcop_alpine.Setuid.{require_setuid}
use ipcop_alpine.Progs.Restore.{command_line}
use ipcop_alpine.Os.{
  Os, M, ◌>>=◌, ◌>>◌, choose, when, exit, call, act, system, close, dup, chdir, mkdtemp, open_read,
  unlink,
}

abbrev pub fcdsl_tgz_path : Bytes
fcdsl_tgz_path = codes "/var/patches/fcdsl-x.tgz"

abbrev pub tmpdir_template : Bytes
tmpdir_template = codes "/tmp/fcdsl_XXXXXX"

abbrev pub tmpdir : Bytes → Bytes
tmpdir suffix = codes "/tmp/fcdsl_" ++ suffix

-- The patterns of the files in the archive.
abbrev pub wildcards : Bytes
wildcards =
    codes
      " lib/modules/*/extra/fcdsl*.ko.gz usr/lib/isdn/fds?base.bin etc/fcdsl/fcdsl*.conf etc/drdsl/drdsl* "

unfoldable pub test_command : Bytes → Bytes
unfolding command_line
test_command dir = command_line (
    codes "/bin/tar -C "
    ∷ dir
    ∷ codes " --wildcards -xzf "
    ∷ fcdsl_tgz_path
    ∷ wildcards
    ∷ codes " > /dev/null 2> /dev/null"
    ∷ [])

unfoldable pub install_command : Bytes
unfolding command_line
install_command =
    command_line (codes "/bin/tar -C / --wildcards -xzvf " ∷ fcdsl_tgz_path ∷ wildcards ∷ [])

-- The standard streams, as installfcdsl and ipcopbackup set them: `fail` is what they do on an error.
unfoldable pub reopen_streams : Os → M (Unit {0}) → M (Unit {0})
reopen_streams os fail = do
  in_closed ← call os (close 0)
  when (not (in_closed == 0)) fail
  fd ← call os (open_read (codes "/dev/zero"))
  when (not (fd == 0)) fail
  err_closed ← call os (close 2)
  when (not (err_closed == 0)) fail
  copy ← call os (dup 1)
  when (copy == 0) fail

module _ (os : Os) where
  -- `exithandler`, and the exit.
  unfoldable pub leave : {A : Type 0} → Bytes → ℕ → M A
  unfolding command_line
  leave dir n = do
    when (not (strcmp_eq dir tmpdir_template)) do
      act os (chdir (codes "/tmp"))
      act os (system (command_line (codes "/bin/rm -rf " ∷ dir ∷ [])))
    act os (unlink fcdsl_tgz_path)
    exit n

  unfoldable pub install_modules : Bytes → M (Unit {0})
  install_modules dir = do
    rc ← call os (system install_command)
    when (not (rc == 0)) (leave dir 1)
    depmod ← call os (system (codes "/sbin/depmod -a"))
    when (not (depmod == 0)) (leave dir 1)
    leave dir 0

  -- The archive is unpacked into a directory of its own, and only then over the system.
  unfoldable pub install : Bytes → M (Unit {0})
  install suffix = do
    reopen_streams os (leave tmpdir_template 1)
    made ← call os (mkdtemp (tmpdir suffix))
    when (made == 0) (leave tmpdir_template 1)
    rc ← call os (system (test_command (tmpdir suffix)))
    choose (not (rc == 0)) (leave (tmpdir suffix) 1) (install_modules (tmpdir suffix))

  unfoldable pub main : Bytes → M (Unit {0})
  main suffix = do require_setuid os; install suffix
