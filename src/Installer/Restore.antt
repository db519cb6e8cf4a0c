-- ===== src/Installer/Restore.antt =====
-- source/core/installer/restore.c, without its selection screen: the restore of a backup from a floppy, a
-- USB key or the network. `listing` is the sorted list of the names on the mounted key.
pub mod Names
use ipcop_alpine.Prelude.{
  ℕ, ◌+◌, Bool, true, false, not, ◌&&◌, List, [], ◌∷◌, ◌++◌, Option, none, some, ◌==◌, length, map,
}
use ipcop_alpine.Cstring.{Bytes, codes, concat, snprintf, string_size, starts_with}
use ipcop_alpine.Number.{is_negative, print_decimal}
use ipcop_alpine.Setuid.{count_from}
use ipcop_alpine.Kv.{success, failure}
use ipcop_alpine.Progs.Backup.{testbackupversion}
use ipcop_alpine.Progs.Floppy.{is_block}
use ipcop_alpine.Os.{
  Os, M, pure, ◌>>=◌, ◌>>◌, choose, when, call, act, access, lstat, lstat_mode, scandir, sleep,
  unlink,
}
use ipcop_alpine.Installer.{mysystem, run_all}

abbrev pub tmp_restore_path_full : Bytes
tmp_restore_path_full = codes "/harddisk/tmp/restore"

abbrev pub mount_backup_full : Bytes
mount_backup_full = codes "/harddisk/mnt/usb"

abbrev pub datfile_chroot : Bytes
datfile_chroot = codes "/var/www/ipcop/html/backup/ipcop-xxxx-xx-xx_xx-xx-xx.dat"

abbrev pub datfile_full : Bytes
datfile_full = codes "/harddisk" ++ datfile_chroot

-- The filter of the names on a key: the host's name, and the length of "-YYYY-MM-DD_HH-MM-SS.dat".
unfoldable pub filter_dat : Bytes → Bytes → Bool
filter_dat hostname_filter name =
    length name == 24 + length hostname_filter && starts_with hostname_filter name

-- The last of the names that pass.
unfoldable pub newest : Bytes → List Bytes → Option Bytes
unfolding filter_dat
newest hostname [] = none
newest hostname (name ∷ names) = elim (newest hostname names) [
  | some found ↦ some found
  | none ↦ elim (filter_dat hostname name) [ true ↦ some name | false ↦ none ]
]

abbrev pub command_line : List Bytes → Bytes
command_line pieces = snprintf string_size (concat pieces)

-- "/dev/sda", "/dev/sda1" and so on up to "/dev/sdz4".
unfoldable pub source_devices : List (ℕ × ℕ) → List Bytes
source_devices [] = []
source_devices ((letter, number) ∷ rest) =
    (codes "/dev/sd" ++ (letter ∷ elim (number == 0) [ true ↦ [] | false ↦ print_decimal number ]))
    ∷ source_devices rest

-- The two loops over the letters and the numbers.
unfoldable pub all_numbers : List ℕ → List (ℕ × ℕ)
unfolding count_from
all_numbers [] = []
all_numbers (letter ∷ letters) =
    map (λ (j : ℕ). (letter, j)) (count_from 0 5) ++ all_numbers letters

unfoldable pub restore_line : Bytes
restore_line = command_line (
    codes "chroot /harddisk /usr/bin/ipcoprestore --restore="
    ∷ datfile_chroot
    ∷ codes " --hostname=ipcop --hardware"
    ∷ [])

module _ (os : Os) where
  unfoldable pub copy_change_files : M ℕ
  copy_change_files = do
    there ← call os (access (tmp_restore_path_full ++ codes "/var/ipcop/main/settings"))
    choose (not (there == 0)) (pure failure) do
      rc ← testbackupversion os tmp_restore_path_full
      choose (not (rc == success)) (pure failure) do
        copied ← mysystem os (codes "chroot /harddisk /bin/cp -af /tmp/restore/. /")
        upgraded ← mysystem os (codes "chroot /harddisk /usr/bin/upgrade.sh")
        pure success

  unfoldable pub copy_dat : Bytes → M ℕ
  copy_dat name = do
    rc ← mysystem os (
        command_line
          (codes "cp -f " ∷ mount_backup_full ∷ codes "/" ∷ name ∷ codes " " ∷ datfile_full ∷ []))
    pure success

  unfoldable pub test_backup_key : List Bytes → Bytes → Bytes → M ℕ
  unfolding newest
  test_backup_key listing dev hostname = do
    there ← call os (access dev)
    choose (not (there == 0)) (pure failure) do
      gone ← mysystem os (codes "/bin/umount /harddisk/mnt/usb 2>/dev/null")
      mounted ← mysystem os (
          command_line
            (codes "/bin/mount -t vfat -o ro " ∷ dev ∷ codes " " ∷ mount_backup_full ∷ []))
      choose (not (mounted == 0)) (pure failure) do
        key ← call os (
            access
              (command_line (mount_backup_full ∷ codes "/backup." ∷ hostname ∷ codes ".key" ∷ [])))
        choose (not (key == 0)) (pure failure) do
          dat ←
              call os (
                access
                  (command_line (mount_backup_full ∷ codes "/" ∷ hostname ∷ codes ".dat" ∷ [])))
          choose (dat == 0) (copy_dat (hostname ++ codes ".dat")) do
            n ← call os (scandir mount_backup_full)
            choose (is_negative n) (pure failure)
                (elim (newest hostname listing) [ some name ↦ copy_dat name | none ↦ pure failure ])

  -- The first device with a key and a backup stays mounted.
  unfoldable pub try_devices : List Bytes → Bytes → List Bytes → M ℕ
  try_devices listing hostname [] = pure failure
  try_devices listing hostname (dev ∷ devs) = do
    rc ← test_backup_key listing dev hostname
    choose (rc == success) (pure success) (try_devices listing hostname devs)

  unfoldable pub mountusb : List Bytes → Bytes → M ℕ
  unfolding source_devices all_numbers
  mountusb listing hostname =
      try_devices listing hostname (source_devices (all_numbers (count_from b'a' 26)))

  unfoldable pub restorefromfloppy : M ℕ
  unfolding is_block
  restorefromfloppy = do
    loaded ← mysystem os (codes "chroot /harddisk /sbin/modprobe floppy")
    act os (sleep 1)
    act os (lstat (codes "/dev/fd0"))
    mode ← call os (lstat_mode (codes "/dev/fd0"))
    choose (not (is_block mode)) (pure failure) do
      rc ← mysystem os (
          codes
            "chroot /harddisk /bin/tar -X /var/ipcop/backup/exclude.system -C /tmp/restore -xvzf /dev/fd0")
      choose (rc == 0) copy_change_files (pure failure)

  unfoldable pub restorefromusb : List Bytes → Bytes → Bytes → M ℕ
  unfolding restore_line
  restorefromusb listing hostname password = do
    mounted ← mountusb listing hostname
    choose (mounted == failure) (pure failure) do
      opened ← mysystem os (
          command_line (
            codes "chroot /harddisk /usr/bin/openssl enc -a -d -aes256 -salt -pass pass:\""
            ∷ password
            ∷ codes "\" -in /mnt/usb/backup."
            ∷ hostname
            ∷ codes ".key -out /var/ipcop/backup/backup.key"
            ∷ []))
      choose (not (opened == 0)) (pure failure) do
        mode ← mysystem os (codes "chroot /harddisk /bin/chmod 400 /var/ipcop/backup/backup.key")
        rc ← mysystem os restore_line
        choose (not (rc == 0)) (pure failure) (pure success)

  unfoldable pub restorefromnetwork : Bytes → Bytes → Bytes → M ℕ
  unfolding restore_line
  restorefromnetwork url hostname password = do
    key ← mysystem os (
        command_line (
          codes "wget -O /harddisk/tmp/backup.key "
          ∷ url
          ∷ codes "/backup."
          ∷ hostname
          ∷ codes ".key"
          ∷ []))
    choose (not (key == 0)) (pure failure) do
      opened ← mysystem os (
          command_line (
            codes "chroot /harddisk /usr/bin/openssl enc -a -d -aes256 -salt -pass pass:"
            ∷ password
            ∷ codes " -in /tmp/backup.key -out /var/ipcop/backup/backup.key"
            ∷ []))
      choose (not (opened == 0)) (pure failure) do
        mode ← mysystem os (codes "chroot /harddisk /bin/chmod 400 /var/ipcop/backup/backup.key")
        dat ← mysystem os (
            command_line (
              codes "wget -O "
              ∷ datfile_full
              ∷ codes " "
              ∷ url
              ∷ codes "/"
              ∷ hostname
              ∷ codes ".dat"
              ∷ []))
        choose (not (dat == 0)) (pure failure) do
          rc ← mysystem os restore_line
          choose (not (rc == 0)) (do act os (unlink datfile_full); pure failure) (pure success)
