-- ===== src/Progs/Floppy.antt =====
-- source/core/progs/ipcopbackup.c: a backup on a floppy disk. `Suffixes` holds what the two calls of
-- `mkstemp` and that of `mkdtemp` put for the six letters X of their templates.
pub mod Erase
use ipcop_alpine.Prelude.{
  ℕ, zero, suc, ◌-◌, ◌/◌, ◌%◌, ◌^◌, Bool, not, List, [], ◌∷◌, ◌++◌, ◌==◌, ltb, leb, if◌then◌else◌,
}
use ipcop_alpine.Cstring.{Bytes, codes, is_nil, string_size}
use ipcop_alpine.Number.{is_negative}
use ipcop_alpine.Setuid.{require_setuid}
use ipcop_alpine.Progs.Restore.{command_line}
use ipcop_alpine.Progs.Fcdsl.{reopen_streams}
use ipcop_alpine.Os.{
  Os, M, pure, ◌>>=◌, ◌>>◌, choose, when, for_each, exit, call, act, contents, system, close, lstat,
  lstat_mode, lstat_size, statvfs, statvfs_size, mkstemp, mkdtemp, open_read, write, sleep, unlink,
  minus_one,
}

abbrev pub max_floppy_size : ℕ
max_floppy_size = 1474560

-- The names of the temporary files and of the directory, empty where they are not set.
pub record Names : Type 0 where
  pub tempincfilename : Bytes
  pub temptestfilename : Bytes
  pub tmpdir : Bytes

abbrev pub no_names : Names
no_names = record { tempincfilename = []; temptestfilename = []; tmpdir = [] }

pub record Suffixes : Type 0 where
  pub for_inc : Bytes
  pub for_test : Bytes
  pub for_dir : Bytes

abbrev pub inc_name : Suffixes → Bytes
inc_name x = codes "/tmp/backup-inclusion." ++ x.for_inc

abbrev pub test_name : Suffixes → Bytes
test_name x = codes "/tmp/test." ++ x.for_test

-- `S_ISBLK`
unfoldable pub is_block : ℕ → Bool
is_block mode = mode / 2 ^ 12 % 2 ^ 4 == 6

-- What the rounds of `read(fd, buffer, suc room)` give of a file: `got` is the round so far.
unfoldable pub read_blocks : ℕ → ℕ → Bytes → Bytes → List Bytes
read_blocks room left got [] = if is_nil got then [] else got ∷ []
read_blocks room left got (c ∷ s) =
    let full = left == 0 in
    let rest =
      read_blocks room (if full then room else left - 1) (if full then [] else got ++ c ∷ []) s in
    if full then (got ++ c ∷ []) ∷ rest else rest

unfoldable pub tar_command : Bytes → Bytes → Bytes
unfolding command_line
tar_command include target = command_line (
    codes "/bin/tar -T "
    ∷ include
    ∷ codes " -X /var/ipcop/backup/exclude.system -X /var/ipcop/backup/exclude.user -C / -czf "
    ∷ target
    ∷ codes " &>/dev/null"
    ∷ [])

unfoldable pub dd_command : Bytes → Bytes
unfolding command_line
dd_command floppydev =
    command_line (codes "/bin/dd if=/dev/zero of=" ∷ floppydev ∷ codes " bs=1k 2> /dev/null" ∷ [])

abbrev pub version_command : Bytes
version_command =
    codes
      "echo `grep -m 1 '::version' /usr/lib/ipcop/general-functions.pl | cut -f 2 -d \"'\"` > /var/ipcop/backup/version"

module _ (os : Os) where
  -- `exithandler`, and the exit.
  unfoldable pub leave : {A : Type 0} → Names → ℕ → M A
  unfolding command_line
  leave t n = do
    when (not (is_nil t.tempincfilename)) (act os (unlink t.tempincfilename))
    when (not (is_nil t.temptestfilename)) (act os (unlink t.temptestfilename))
    when (not (is_nil t.tmpdir)) (
        act os (
          system (
            command_line
              (codes "/bin/rm -rf " ∷ t.tmpdir ∷ codes " > /dev/null 2> /dev/null" ∷ []))))
    exit n

  unfoldable pub testfloppywrite : Bytes → M ℕ
  unfolding is_block command_line
  testfloppywrite device = do
    act os (lstat device)
    mode ← call os (lstat_mode device)
    choose (is_block mode)
        (call os (system (command_line (codes "/bin/echo 'test' 2>/dev/null >" ∷ device ∷ []))))
        (pure 1)

  -- `!(fd)` is met by 0 alone. On the descriptor -1 `read` gives -1, which is taken for a count, and the
  -- `write` of so many bytes fails.
  unfoldable pub copy_include : Names → Bytes → M (Unit {0})
  unfolding read_blocks
  copy_include t file = do
    fd ← call os (open_read file)
    when (fd == 0) (leave t 1)
    when (fd == minus_one) (leave t 1)
    text ← contents os file
    for_each (read_blocks (string_size - 1) (string_size - 1) [] text) (λ block. do
      rc ← call os (write t.tempincfilename block)
      when (is_negative rc) (leave t 1))
    act os (close fd)

  -- The drive with a floppy that can be written.
  unfoldable pub find_floppy : Names → M Bytes
  find_floppy t = do
    act os (system (codes "/sbin/modprobe floppy"))
    act os (sleep 1)
    first ← testfloppywrite (codes "/dev/fd0")
    choose (first == 0) (pure (codes "/dev/fd0")) do
      second ← testfloppywrite (codes "/dev/fd1")
      choose (second == 0) (pure (codes "/dev/fd1")) (leave t 1)

  -- From the archive on the hard disk on: its size, and the floppy.
  unfoldable pub check_size : Names → M (Unit {0})
  check_size t = do
    rc ← call os (lstat t.temptestfilename)
    when (not (rc == 0)) (leave t 1)
    size ← call os (lstat_size t.temptestfilename)
    when (ltb max_floppy_size size) (leave t 1)
    act os (unlink t.temptestfilename)

  unfoldable pub write_floppy : Names → Bytes → Bytes → M (Unit {0})
  unfolding command_line
  write_floppy t dir floppydev = do
    check_size t
    act os (system (dd_command floppydev))
    marked ← call os (system version_command)
    when (not (marked == 0)) (leave t 1)
    act os (system (tar_command t.tempincfilename floppydev))
    act os (unlink t.tempincfilename)
    made ← call os (mkdtemp dir)
    when (made == 0) (leave (record t { tmpdir = codes "/tmp/cfg_XXXXXX" }) 1)
    let all = record t { tmpdir = dir }
    rc ←
        call os
          (system (command_line (codes "/bin/tar -C " ∷ dir ∷ codes " -xzvf " ∷ floppydev ∷ [])))
    when (not (rc == 0)) (leave all 1)
    leave all 0

  unfoldable pub test_archive : Suffixes → Names → Bytes → M (Unit {0})
  test_archive x t floppydev = do
    let t' = record t { temptestfilename = test_name x }
    fd ← call os (mkstemp (test_name x))
    when (fd == 0) (leave t' 1)
    rc ← call os (system (tar_command (inc_name x) (test_name x)))
    choose (not (rc == 0)) (leave t' 1) (write_floppy t' (codes "/tmp/cfg_" ++ x.for_dir) floppydev)

  unfoldable pub backup : Suffixes → M (Unit {0})
  backup x = do
    space ← call os (statvfs (codes "/"))
    when (not (space == 0)) (leave no_names 1)
    available ← call os (statvfs_size (codes "/"))
    when (ltb available max_floppy_size) (leave no_names 1)
    let t = record no_names { tempincfilename = inc_name x }
    fd ← call os (mkstemp (inc_name x))
    when (fd == 0) (leave t 1)
    copy_include t (codes "/var/ipcop/backup/include.system")
    copy_include t (codes "/var/ipcop/backup/include.user")
    act os (close fd)
    floppydev ← find_floppy t
    test_archive x t floppydev

  unfoldable pub main : Suffixes → M (Unit {0})
  main x = do require_setuid os; reopen_streams os (exit 1); backup x
