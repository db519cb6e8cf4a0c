-- ===== src/Installer/Boot.antt =====
-- source/core/installer/partition.c: `create_initramfs`, `make_bootable` for i386, and `make_ipcop_disk`.
-- `release` is what `uname` gives.
pub mod Guarded
use ipcop_alpine.Prelude.{
  ℕ, Bool, true, false, not, ◌&&◌, List, [], ◌∷◌, ◌++◌, Option, none, some, ◌==◌, if◌then◌else◌,
}
use ipcop_alpine.Prelude.Int.{ℤ}
use ipcop_alpine.Cstring.{Bytes, codes, concat, snprintf, string_size, is_nil}
use ipcop_alpine.Number.{print_decimal}
use ipcop_alpine.Kv.{success, failure}
use ipcop_alpine.Os.{
  Os, M, pure, ◌>>=◌, ◌>>◌, choose, when, for_each, call, act, fopen_write, fprintf, fclose, system,
  mkdir,
}
use ipcop_alpine.Installer.{Media, specialmodule, mysystem, run_all}
use ipcop_alpine.Installer.Hardware.{Hardware}
use ipcop_alpine.Installer.Partition.{PartOptions, make_partitions}
use ipcop_alpine.Installer.Disk.{make_disk}

abbrev pub modules_list : Bytes
modules_list = codes "/harddisk/etc/modules.initramfs"

unfoldable pub is_special : Hardware → Bool
is_special x = elim x.type [ specialmodule ↦ not (is_nil x.module_name) | _ ↦ false ]

unfoldable pub module_lines : List Hardware → List Bytes
unfolding is_special
module_lines [] = []
module_lines (x ∷ xs) =
    let rest = module_lines xs in
    if is_special x then (x.module_name ++ codes "\n") ∷ rest else rest

unfoldable pub initramfs_command : Bytes → Bytes
initramfs_command release =
    codes
      "chroot /harddisk /sbin/mkinitramfs --with-firmware --many-modules --with-list=/etc/modules.initramfs"
    ++ (codes " --with-kernel=" ++ release)

-- The serial console, where the installation has one.
pub record Serial : Type 0 where
  pub console : ℕ
  pub bitrate : ℕ
  pub commandline : Bytes

unfoldable pub serial_settings : Option Serial → Bytes
serial_settings none = codes "-i -e 's+SERIAL_CONSOLE++' -i -e 's+serial_settings++' "
serial_settings (some s) =
    snprintf string_size (
      concat (
        codes "-i -e 's+SERIAL_CONSOLE+SERIAL "
        ∷ print_decimal s.console
        ∷ codes " "
        ∷ print_decimal s.bitrate
        ∷ codes "\\nCONSOLE 0+' "
        ∷ []))
    ++ snprintf string_size
        (concat (codes "-i -e 's+serial_settings+console=" ∷ s.commandline ∷ codes "+' " ∷ []))

-- The settings of the boot loader; the label of the root partition is set.
unfoldable pub settings_command : Bool → Bool → Bytes → Option Serial → Bytes
unfolding serial_settings
settings_command raid no_dma release serial = concat (
    codes "/bin/sed -i -e 's+KVER+"
    ∷ release
    ∷ codes "+g' "
    ∷ (if raid
        then codes "-i -e 's+ROOT_DEV+/dev/md0+g' "
        else codes "-i -e 's+ROOT_DEV+/dev/disk/by-label/root+g' ")
    ∷ serial_settings serial
    ∷ (if no_dma
        then codes "-i -e 's+flashdisk_settings+nodma+' "
        else codes "-i -e 's+flashdisk_settings++' ")
    ∷ codes "/harddisk/boot/extlinux.conf"
    ∷ [])

abbrev pub extlinux_command : Bytes
extlinux_command = codes "chroot /harddisk /sbin/extlinux --install /boot"

unfoldable pub mbr_command : Bytes → Bytes
mbr_command dev = snprintf string_size (codes "/bin/cat /harddisk/boot/mbr.bin > /dev/" ++ dev)

module _ (os : Os) (release : Bytes) where
  unfoldable pub create_initramfs : Bool → List Hardware → M ℕ
  unfolding module_lines initramfs_command
  create_initramfs raid hardwares = do
    depmod ←
        mysystem os (snprintf string_size (codes "chroot /harddisk /sbin/depmod -a " ++ release))
    choose (not (depmod == 0)) (pure failure) do
      act os (mkdir (codes "/harddisk/initrd"))
      opened ← call os (fopen_write modules_list)
      choose (not (opened == 0)) (pure failure) do
        act os (fprintf modules_list (codes "ext3\njbd\n"))
        act os (fprintf modules_list (codes "ehci-hcd\nohci-hcd\nuhci-hcd\nhid\nusbhid\n"))
        for_each (module_lines hardwares) (λ line. act os (fprintf modules_list line))
        act os (fprintf modules_list (codes "pcspkr\n"))
        when raid (act os (fprintf modules_list (codes "md-mod\nraid1\n")))
        act os (fclose modules_list)
        run_all os (initramfs_command release ∷ [])

  -- The master boot record of the disk, and of the second one of a RAID.
  unfoldable pub write_mbr : Bool → Bytes → Bytes → M ℕ
  unfolding mbr_command
  write_mbr raid dev dev2 = do
    first ← call os (system (mbr_command dev))
    choose (not (first == 0)) (pure failure) (
        choose (not raid) (pure success) do
          second ← call os (system (mbr_command dev2))
          choose (not (second == 0)) (pure failure) (pure success))

  unfoldable pub make_bootable : PartOptions → Option Serial → Bool → Bytes → Bytes → M ℕ
  unfolding settings_command mysystem
  make_bootable options serial raid dev dev2 = do
    settings ← mysystem os (settings_command raid options.no_dma release serial)
    choose (not (settings == 0)) (pure failure) do
      synced ← mysystem os (codes "/bin/sync")
      rc ← mysystem os extlinux_command
      choose (not (rc == 0)) (pure failure)
          (choose options.no_mbr (pure success) (write_mbr raid dev dev2))

  -- `raid` is set where there is a second disk.
  unfoldable pub make_ipcop_disk :
      (ℕ → ℕ)
      → PartOptions
      → Option Serial
      → Media
      → Bool
      → List Hardware
      → Bytes
      → Bytes
      → ℤ
      → ℤ
      → M ℕ
  make_ipcop_disk rounds options serial sources flash hardwares dev dev2 disk_size swap = do
    let raid = not (is_nil dev2)
    (parted, swap_file) ← make_partitions os rounds options flash dev dev2 disk_size swap
    choose (not (parted == success)) (pure failure) do
      made ← make_disk os sources raid flash dev swap_file
      choose (not (made == success)) (pure failure) do
        sys ← mysystem os (codes "/bin/mount -n -t sysfs none /harddisk/sys")
        tmp ← mysystem os (codes "/bin/mount -n -t tmpfs none /harddisk/tmp")
        proc ← mysystem os (codes "/bin/mount -n -t proc  none /harddisk/proc")
        dev_mount ← mysystem os (codes "/bin/mount -n -o bind /dev /harddisk/dev")
        initramfs ← create_initramfs raid hardwares
        choose (not (initramfs == success)) (pure failure) do
          bootable ← make_bootable options serial raid dev dev2
          choose (not (bootable == success)) (pure failure) (pure success)
