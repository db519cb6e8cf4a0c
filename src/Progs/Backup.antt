-- ===== src/Progs/Backup.antt =====
-- source/core/progs/helper_backup.c, with `getipcopversion` of helper.c as it reads its file.
pub mod Versions
use ipcop_alpine.Prelude.{
  ℕ, Bool, true, false, not, ◌&&◌, ◌||◌, ◌++◌, ◌==◌, ltb, leb, ◌/◌, ◌%◌, ◌*◌, ◌^◌, ◌-◌,
}
use ipcop_alpine.Cstring.{Bytes, codes, string_size, snprintf, fgets_first}
use ipcop_alpine.Valid.{ipcop_version, scan_version, packed}
use ipcop_alpine.Kv.{success, failure}
use ipcop_alpine.Os.{Os, M, pure, ◌>>=◌, ◌>>◌, choose, call, act, contents, fopen_read, fclose}

-- `version & 0xFFFF00`
unfoldable pub without_revision : ℕ → ℕ
without_revision version = version / 2 ^ 8 % 2 ^ 16 * 2 ^ 8

-- The tests of `testbackupversion`, in their order, on the version of the backup and of IPCop.
unfoldable pub accepts : ℕ → ℕ → Bool
unfolding without_revision
accepts backup ipcop =
    not (backup == 0)
    && (not (ipcop == 0)
        && (not (ltb backup 67849)
            && (leb backup ipcop || without_revision ipcop == without_revision backup)))

module _ (os : Os) where
  unfoldable pub getipcopversion : M ℕ
  getipcopversion = do
    opened ← call os (fopen_read (codes "/etc/issue"))
    choose (not (opened == 0)) (pure 0) do
      text ← contents os (codes "/etc/issue")
      act os (fclose (codes "/etc/issue"))
      pure (ipcop_version (fgets_first string_size text))

  -- The file is not closed.
  unfoldable pub getbackupversion : Bytes → M ℕ
  getbackupversion path = do
    let filename = snprintf string_size (path ++ codes "/var/ipcop/backup/version")
    opened ← call os (fopen_read filename)
    choose (not (opened == 0)) (pure 0)
        do text ← contents os filename; pure (packed (scan_version text))

  -- The version of IPCop is asked for only where the backup has one.
  unfoldable pub testbackupversion : Bytes → M ℕ
  testbackupversion path = do
    backup ← getbackupversion path
    choose (backup == 0) (pure failure)
        do ipcop ← getipcopversion; choose (accepts backup ipcop) (pure success) (pure failure)
