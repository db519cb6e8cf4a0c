-- ===== src/Progs/Bkcfg/Control.antt =====
-- source/core/progs/ipcopbkcfg.c: `main` and its other operations. `args` is `argv` without the name of
-- the program.
use ipcop_alpine.Prelude.{
  ◌%◌, ◌^◌, true, false, not, ◌&&◌, ◌||◌, List, [], ◌∷◌, none, some, ◌==◌, if◌then◌else◌,
}
use ipcop_alpine.Cstring.{Bytes, codes, strcmp_eq, is_nil}
use ipcop_alpine.Number.{is_negative}
use ipcop_alpine.Setuid.{require_setuid}
use ipcop_alpine.Progs.Restore.{command_line, mountpoint, backup_key}
use ipcop_alpine.Os.{
  Os, M, pure, ◌>>=◌, ◌>>◌, choose, when, exit, crash, call, act, contents, system, readlink, chmod,
  chown,
}
use ipcop_alpine.Progs.Bkcfg.{
  Account, checkbackuppass, is_logfile, is_device, is_root_disk, is_comment, keycat_command,
  mount_command,
}
use ipcop_alpine.Progs.Bkcfg.Steps.{Suffixes, no_temps, leave, file_exists, write_backup}

module _ (os : Os) where
  unfoldable pub keygen : M (Unit {0})
  keygen = do
    key ← file_exists os backup_key
    when key (exit 1)
    act os (system (codes "/bin/mkdir -p /var/ipcop/backup"))
    rc ←
        call os
          (system (command_line (codes "/usr/bin/openssl rand -base64 32 > " ∷ backup_key ∷ [])))
    when (not (rc == 0)) (exit 1)
    act os (chmod backup_key 256)
    act os (chown backup_key 0 0)
    exit 0

  unfoldable pub keycat : Account → Bytes → Bytes → M (Unit {0})
  keycat account passwd file = do
    wrong ← elim (checkbackuppass account passwd) [ none ↦ crash | some rc ↦ pure rc ]
    when (not (wrong == 0)) (exit 10)
    key ← file_exists os backup_key
    when (not key) (exit 2)
    when (not (is_logfile file)) (exit 1)
    there ← file_exists os file
    when (not there) (exit 1)
    rc ← call os (system (keycat_command passwd file))
    when (not (rc == 0)) (exit 5)
    exit 0

  -- `exit` hands on the lowest byte of its argument.
  unfoldable pub mount : Bytes → M (Unit {0})
  unfolding is_root_disk
  mount name = do
    len ← call os (readlink (codes "/dev/disk/by-label/root"))
    link ← contents os (codes "/dev/disk/by-label/root")
    when (is_negative len || len == 0) (exit 1)
    when (is_root_disk len link name) (exit 1)
    rc ← call os (system (mount_command name))
    exit (rc % 2 ^ 8)

  unfoldable pub umount : M (Unit {0})
  umount = do
    act os (system (command_line (codes "/bin/umount " ∷ mountpoint ∷ codes " &>/dev/null" ∷ [])))
    exit 0

  keycat_args : Account → List Bytes → M (Unit {0})
  keycat_args account (passwd ∷ file ∷ []) = keycat account passwd file
  keycat_args account _ = exit 1

  -- More than one further argument is not looked at.
  write_args : Suffixes → List Bytes → Bytes → Bytes → Bytes → List Bytes → M (Unit {0})
  write_args x listing host timestamp comment (option ∷ []) =
      choose (strcmp_eq option (codes "--verbose"))
        (write_backup os x listing host timestamp true comment) (leave os no_temps 1)
  write_args x listing host timestamp comment _ =
      write_backup os x listing host timestamp false comment

  unfoldable pub operate :
      Account → Suffixes → List Bytes → Bytes → Bytes → List Bytes → M (Unit {0})
  unfolding keycat_args write_args
  operate account x listing host timestamp [] = exit 22
  operate account x listing host timestamp (op ∷ []) =
      choose (strcmp_eq op (codes "--keycat")) (exit 1) (
        choose (strcmp_eq op (codes "--keyexist"))
          (do key ← file_exists os backup_key; exit (if key then 0 else 1))
          (choose (strcmp_eq op (codes "--keygen")) keygen
            (choose (strcmp_eq op (codes "--umount")) umount (exit 22))))
  operate account x listing host timestamp (op ∷ arg ∷ more) =
      choose (strcmp_eq op (codes "--keycat")) (keycat_args account (arg ∷ more)) (
        choose (is_nil more && (strcmp_eq op (codes "--mount") && is_device arg)) (mount arg) (
          choose (not (strcmp_eq op (codes "--write"))) (exit 22) (
            choose (not (is_comment arg)) (exit 1) (write_args x listing host timestamp arg more))))

  unfoldable pub main : Account → Suffixes → List Bytes → Bytes → Bytes → List Bytes → M (Unit {0})
  main account x listing host timestamp args = do
    require_setuid os
    operate account x listing host timestamp args
