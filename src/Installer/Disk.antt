-- ===== src/Installer/Disk.antt =====
-- source/core/installer/partition.c: `make_disk`, on the architectures x86, without UUIDs.
pub mod Repositories
use ipcop_alpine.Prelude.{
  ℕ, zero, suc, ◌+◌, ◌-◌, Bool, true, false, not, List, [], ◌∷◌, ◌++◌, ◌==◌, if◌then◌else◌, length,
}
use ipcop_alpine.Prelude.Int.{ℤ, pos}
use ipcop_alpine.Cstring.{Bytes, codes, concat, snprintf, string_size}
use ipcop_alpine.Number.{print_decimal}
use ipcop_alpine.Kv.{success, failure}
use ipcop_alpine.Os.{
  Os, M, pure, ◌>>=◌, ◌>>◌, choose, when, for_each, call, act, fopen_write, fprintf, fclose, system,
}
use ipcop_alpine.Installer.{Media, cdrom, mysystem, run_all}
use ipcop_alpine.Installer.Apk.{
  apk_init_db, apk_mount_bundled_repo, apk_check_network, apk_configure_repos, apk_update_indexes,
  apk_install_from_list, apk_install_package, apk_install_ipcop_packages,
}
use ipcop_alpine.Installer.Openrc.{openrc_configure_services, openrc_cleanup_sysvinit}
use ipcop_alpine.Installer.Partition.{print_long}

abbrev pub harddisk_root : Bytes
harddisk_root = codes "/harddisk"

abbrev pub fstab : Bytes
fstab = codes "/etc/fstab"

abbrev pub tmpfstab : Bytes
tmpfstab = codes "/tmp/tmpfstab"

unfoldable pub spaces : ℕ → Bytes
spaces zero = []
spaces (suc n) = b' ' ∷ spaces n

-- `%-14s` and the like
unfoldable pub pad : ℕ → Bytes → Bytes
unfolding spaces
pad width s = s ++ spaces (width - length s)

-- FORMAT_FSTAB
pub record FstabLine : Type 0 where
  pub device : Bytes
  pub mount_point : Bytes
  pub type : Bytes
  pub options : Bytes
  pub dump : Bytes
  pub fsck : Bytes

unfoldable pub format_fstab : FstabLine → Bytes
unfolding pad
format_fstab l = concat (
    pad 14 l.device
    ∷ codes " "
    ∷ pad 14 l.mount_point
    ∷ codes " "
    ∷ pad 10 l.type
    ∷ codes " "
    ∷ pad 20 l.options
    ∷ codes " "
    ∷ pad 5 l.dump
    ∷ codes " "
    ∷ pad 5 l.fsck
    ∷ codes "\n"
    ∷ [])

abbrev fstab_line : Bytes → Bytes → Bytes → Bytes → Bytes
fstab_line device mount_point type options = format_fstab (record {
  device = device;
  mount_point = mount_point;
  type = type;
  options = options;
  dump = codes "0";
  fsck = codes "0";
})

unfoldable pub fixed_lines : List Bytes
unfolding format_fstab
fixed_lines =
    fstab_line (codes "tmpfs") (codes "/tmp") (codes "tmpfs") (codes "defaults")
    ∷ fstab_line (codes "proc") (codes "/proc") (codes "proc") (codes "defaults")
    ∷ fstab_line (codes "sysfs") (codes "/sys") (codes "sysfs") (codes "defaults")
    ∷ fstab_line (codes "devpts") (codes "/dev/pts") (codes "devpts") (codes "gid=5,mode=620")
    ∷ fstab_line (codes "shm") (codes "/dev/shm") (codes "tmpfs")
        (codes "defaults,nosuid,nodev,noexec")
    ∷ []

unfoldable pub header_lines : List Bytes
unfolding format_fstab
header_lines =
    format_fstab (record {
      device = codes "# device";
      mount_point = codes "mount-point";
      type = codes "type";
      options = codes "options";
      dump = codes "dump";
      fsck = codes "fsck";
    })
    ∷ format_fstab (record {
      device = codes "#";
      mount_point = [];
      type = [];
      options = [];
      dump = [];
      fsck = codes "order";
    })
    ∷ []

-- A partition: its index, label and mount point.
pub record Partition : Type 0 where
  pub index : ℕ
  pub label : Bytes
  pub mount : Bytes

unfoldable pub partitions : Bool → List Partition
partitions flash =
    record { index = 0; label = codes "root"; mount = codes "/" }
    ∷ record {
      index = 1;
      label = if flash then codes "varlog_comp" else codes "varlog";
      mount = if flash then codes "/var/log_compressed" else codes "/var/log";
    }
    ∷ []

unfoldable pub device_of : Bool → Bytes → Partition → Bytes
device_of raid dev p =
    if raid
    then codes "/dev/md" ++ print_decimal p.index
    else codes "/dev/" ++ (dev ++ print_decimal (p.index + 1))

module _ (os : Os) where
  -- The file systems, and their lines in the two files.
  unfoldable pub make_filesystems : Bool → Bytes → List Partition → M ℕ
  unfolding device_of format_fstab
  make_filesystems raid dev [] = pure success
  make_filesystems raid dev (p ∷ ps) = do
    let devname = device_of raid dev p
    rc ← mysystem os (
        snprintf string_size
          (concat (codes "/usr/bin/mke2fs -F -F -L " ∷ p.label ∷ codes " -q -j " ∷ devname ∷ [])))
    choose (not (rc == 0)) (pure failure) do
      act os
          (fprintf fstab (concat (devname ∷ codes "\t/harddisk" ∷ p.mount ∷ codes "\text3\n" ∷ [])))
      act os (
          fprintf tmpfstab (
            format_fstab (record {
              device = codes "LABEL=" ++ p.label;
              mount_point = p.mount;
              type = codes "ext3";
              options = codes "noatime";
              dump = codes "1";
              fsck = codes "1";
            })))
      make_filesystems raid dev ps

  -- The table of file systems, in its two forms.
  unfoldable pub write_fstab : Bool → Bool → Bytes → M ℕ
  unfolding header_lines fixed_lines partitions
  write_fstab raid flash dev = do
    local ← call os (fopen_write fstab)
    choose (not (local == 0)) (pure failure) do
      target ← call os (fopen_write tmpfstab)
      choose (not (target == 0)) (pure failure) do
        for_each header_lines (λ line. act os (fprintf tmpfstab line))
        made ← make_filesystems raid dev (partitions flash)
        choose (not (made == success)) (pure failure) do
          for_each fixed_lines (λ line. act os (fprintf tmpfstab line))
          act os (fclose fstab)
          act os (fclose tmpfstab)
          pure success

  unfoldable pub mount_log : Bool → M ℕ
  mount_log flash = do
    let mount = if flash then codes "/var/log_compressed" else codes "/var/log"
    made ← mysystem os (snprintf string_size (codes "/bin/mkdir -p /harddisk" ++ mount))
    run_all os (snprintf string_size (codes "/bin/mount /harddisk" ++ mount) ∷ [])

  -- Steps 2 and 3 of the installation of packages: the result, and whether the network is there, as
  -- `apk_check_network` says it.
  unfoldable pub set_up_repos : Media → M (ℕ × ℕ)
  set_up_repos sources = do
    mounted ← (elim sources [ cdrom ↦ apk_mount_bundled_repo os | _ ↦ pure success ])
    choose (not (mounted == success)) (pure (failure, failure)) do
      network_available ← apk_check_network os
      configured ← apk_configure_repos os harddisk_root network_available
      pure (configured, network_available)

  unfoldable pub install_packages : Media → M ℕ
  install_packages sources = do
    db ← apk_init_db os harddisk_root
    choose (not (db == success)) (pure failure) do
      (repos, network_available) ← set_up_repos sources
      choose (not (repos == success)) (pure failure) do
        indexes ← apk_update_indexes os harddisk_root
        choose (not (indexes == success)) (pure failure) do
          alpine ←
              (choose (network_available == success)
                (apk_install_from_list os harddisk_root (codes "/cdrom/ipcop/packages.txt"))
                (apk_install_package os harddisk_root (codes "alpine-base busybox")))
          apk_install_ipcop_packages os harddisk_root

  is_zero : ℤ → Bool
  is_zero (pos n) = n == 0
  is_zero (ℤ.negsuc n) = false

  unfoldable pub make_swap : ℤ → M ℕ
  unfolding is_zero print_long
  make_swap swap_file = choose (is_zero swap_file) (pure success) (
      run_all os (
        snprintf string_size (
          codes "/bin/dd if=/dev/zero of=/harddisk/swapfile bs=1024k count="
          ++ print_long swap_file)
        ∷ codes "mkswap /harddisk/swapfile"
        ∷ codes "swapon /harddisk/swapfile"
        ∷ []))

  -- `system` without the wrapper
  unfoldable pub write_mdadm : M ℕ
  write_mdadm = do
    made ← mysystem os (codes "mkdir -p /harddisk/etc/mdadm")
    devices ← call os (system (codes "echo DEVICE partitions > /harddisk/etc/mdadm/mdadm.conf"))
    choose (not (devices == 0)) (pure failure) do
      arrays ←
          call os (system (codes "/sbin/mdadm --examine --scan >> /harddisk/etc/mdadm/mdadm.conf"))
      choose (not (arrays == 0)) (pure failure) (pure success)

  unfoldable pub make_disk : Media → Bool → Bool → Bytes → ℤ → M ℕ
  make_disk sources raid flash dev swap_file = do
    table ← write_fstab raid flash dev
    choose (not (table == success)) (pure failure) do
      root ← run_all os (codes "/sbin/modprobe ext3" ∷ codes "/bin/mount /harddisk/" ∷ [])
      choose (not (root == success)) (pure failure) do
        log ← mount_log flash
        choose (not (log == success)) (pure failure) do
          packages ← install_packages sources
          choose (not (packages == success)) (pure failure) do
            services ← openrc_configure_services os harddisk_root
            cleaned ← openrc_cleanup_sysvinit os harddisk_root
            swap ← make_swap swap_file
            choose (not (swap == success)) (pure failure) do
              moved ← mysystem os (codes "mv /tmp/tmpfstab /harddisk/etc/fstab")
              choose raid write_mdadm (pure success)
