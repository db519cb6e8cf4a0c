-- ===== src/Installer/Boot/Guarded.antt =====
-- The master boot record is written only behind the boot loader.
use ipcop_alpine.Prelude.{
  ℕ, ◌≡◌, refl, Bool, false, true, not, List, [], ◌∷◌, ◌++◌, ◌==◌, Option, arith,
}
use ipcop_alpine.Prelude.Int.{ℤ}
use ipcop_alpine.Cstring.{Bytes, codes, starts_with}
use ipcop_alpine.Os.{Os, History, history_of, M, pure}
use ipcop_alpine.Os.Footprint.{
  Makes, makes, Makes-call, Makes-bind, Makes-act, Makes-choose, Makes-pure,
}
use ipcop_alpine.Os.Guard.{
  Lock, IsGuarded, NotLocked, AnyCall, Guards, Guards-bind, Guards-key, Guards-then, Guards-choose,
  Guards-of_Makes,
}
use ipcop_alpine.Kv.{success}
use ipcop_alpine.Installer.{Media, mysystem, run_all, wrapped}
use ipcop_alpine.Installer.Apk.{
  apk_init_db, apk_mount_bundled_repo, apk_configure_repos, apk_update_indexes, apk_install_package,
  install_lines, apk_install_from_list, apk_install_ipcop_packages, apk_check_network,
}
use ipcop_alpine.Installer.Openrc.{
  openrc_enable_service, openrc_configure_services, openrc_cleanup_sysvinit,
}
use ipcop_alpine.Installer.Partition.{PartOptions, make_partitions}
use ipcop_alpine.Installer.Raid.{progress_command, wait_resync, create_arrays, create_raid}
use ipcop_alpine.Installer.Disk.{
  Partition, make_filesystems, write_fstab, mount_log, set_up_repos, install_packages, make_swap,
  write_mdadm, make_disk,
}
use ipcop_alpine.Installer.Hardware.{Hardware}
use ipcop_alpine.Installer.Boot.{
  Serial, create_initramfs, write_mbr, make_bootable, make_ipcop_disk, extlinux_command,
}

-- What copies the master boot record.
unfoldable pub writes_mbr : Bytes → Bool
writes_mbr command = starts_with (codes "/bin/cat /harddisk/boot/mbr.bin ") command

abbrev pub mbr_lock : Lock
mbr_lock = record { key = wrapped extlinux_command; good = λ rc. rc == 0; locked = writes_mbr }

wrapped-plain : (command : Bytes) → writes_mbr (wrapped command) ≡ false
unfolding writes_mbr codes starts_with
wrapped-plain command = refl

-- The commands without the wrapper.
resync-plain : writes_mbr (progress_command ++ codes " > /dev/null") ≡ false
unfolding writes_mbr codes starts_with
resync-plain = refl

echo-plain : writes_mbr (codes "echo y > /tmp/yes") ≡ false
unfolding writes_mbr codes starts_with
echo-plain = refl

devices-plain : writes_mbr (codes "echo DEVICE partitions > /harddisk/etc/mdadm/mdadm.conf") ≡ false
unfolding writes_mbr codes starts_with
devices-plain = refl

arrays-plain :
    writes_mbr (codes "/sbin/mdadm --examine --scan >> /harddisk/etc/mdadm/mdadm.conf") ≡ false
unfolding writes_mbr codes starts_with
arrays-plain = refl

succeeded_lem : (rc : ℕ) → not (rc == 0) ≡ false → (rc == 0) ≡ true
succeeded_lem rc e = ground arith

abbrev Plain : {A : Type 0} → M A → Type 1
Plain m = Makes (NotLocked mbr_lock) m

module _ (os : Os) where
  mysystem-Plain : (command : Bytes) → Plain (mysystem os command)
  unfolding mysystem
  mysystem-Plain command = Makes-call os _ (wrapped-plain command)

  run_all-Plain : (commands : List Bytes) → Plain (run_all os commands)
  unfolding run_all
  run_all-Plain [] = search makes depth 4
  run_all-Plain (c ∷ cs) =
      let rest = run_all-Plain cs in
      Makes-bind (mysystem-Plain c) (λ rc. Makes-choose _ (Makes-pure _) rest)

  ruleset plain = (makes, mysystem-Plain, run_all-Plain)

  wait_resync-Plain : (rounds : ℕ) → Plain (wait_resync os rounds)
  unfolding wait_resync
  wait_resync-Plain ℕ.zero = Makes-act os _ resync-plain
  wait_resync-Plain (ℕ.suc n) =
      let rest = wait_resync-Plain n in
      Makes-bind (Makes-act os _ resync-plain)
        λ _. Makes-bind (Makes-call os _ tt) λ opened. Makes-bind (search makes depth 12) λ _. rest

  create_arrays-Plain :
      (rounds : ℕ → ℕ) (dev dev2 : Bytes) (is : List ℕ)
      → Plain (create_arrays os rounds dev dev2 is)
  unfolding create_arrays
  create_arrays-Plain rounds dev dev2 [] = search makes depth 4
  create_arrays-Plain rounds dev dev2 (i ∷ is) = Makes-bind (mysystem-Plain _) λ rc.
      Makes-choose _ (Makes-pure _) (
        Makes-bind (Makes-act os _ tt) λ _.
          Makes-bind (wait_resync-Plain (rounds i)) λ _. create_arrays-Plain rounds dev dev2 is)

  create_raid-Plain : (rounds : ℕ → ℕ) (dev dev2 : Bytes) → Plain (create_raid os rounds dev dev2)
  unfolding create_raid
  create_raid-Plain rounds dev dev2 = search (plain, echo-plain, create_arrays-Plain) depth 20

  make_partitions-Plain :
      (rounds : ℕ → ℕ) (options : PartOptions) (flash : Bool) (dev dev2 : Bytes) (size swap : ℤ)
      → Plain (make_partitions os rounds options flash dev dev2 size swap)
  unfolding make_partitions
  make_partitions-Plain rounds options flash dev dev2 size swap =
      search (plain, create_raid-Plain) depth 20

  make_filesystems-Plain :
      (raid : Bool) (dev : Bytes) (ps : List Partition) → Plain (make_filesystems os raid dev ps)
  unfolding make_filesystems
  make_filesystems-Plain raid dev [] = search makes depth 4
  make_filesystems-Plain raid dev (p ∷ ps) = Makes-bind (mysystem-Plain _) λ rc.
      Makes-choose _ (Makes-pure _) (
        Makes-bind (Makes-act os _ tt)
          λ _. Makes-bind (Makes-act os _ tt) λ _. make_filesystems-Plain raid dev ps)

  write_fstab-Plain : (raid flash : Bool) (dev : Bytes) → Plain (write_fstab os raid flash dev)
  unfolding write_fstab
  write_fstab-Plain raid flash dev = search (plain, make_filesystems-Plain) depth 30

  install_lines-Plain :
      (root_path : Bytes) (lines : List Bytes) (package_name : Bytes) (installed failed : ℕ)
      → Plain (install_lines os root_path lines package_name installed failed)
  unfolding install_lines apk_install_package
  install_lines-Plain root_path [] package_name installed failed = search makes depth 4
  install_lines-Plain root_path (line ∷ lines) package_name installed failed =
      search (plain, install_lines-Plain root_path lines) depth 20

  apk_install_from_list-Plain :
      (root_path list_file : Bytes) → Plain (apk_install_from_list os root_path list_file)
  unfolding apk_install_from_list
  apk_install_from_list-Plain root_path list_file = search (plain, install_lines-Plain) depth 30

  apk_configure_repos-Plain :
      (root_path : Bytes) (include_online : ℕ)
      → Plain (apk_configure_repos os root_path include_online)
  unfolding apk_configure_repos
  apk_configure_repos-Plain root_path include_online = search plain depth 30

  apk_mount_bundled_repo-Plain : Plain (apk_mount_bundled_repo os)
  unfolding apk_mount_bundled_repo
  apk_mount_bundled_repo-Plain = search plain depth 20

  mounted-Plain :
      (sources : Media)
      → Plain (elim sources [ Media.cdrom ↦ apk_mount_bundled_repo os | _ ↦ pure success ])
  mounted-Plain Media.cdrom = apk_mount_bundled_repo-Plain
  mounted-Plain _ = search makes depth 4

  set_up_repos-Plain : (sources : Media) → Plain (set_up_repos os sources)
  unfolding set_up_repos apk_check_network
  set_up_repos-Plain sources =
      Makes-bind (mounted-Plain sources)
        λ mounted. search (plain, apk_configure_repos-Plain) depth 20

  install_packages-Plain : (sources : Media) → Plain (install_packages os sources)
  unfolding install_packages apk_init_db apk_update_indexes apk_install_package
      apk_install_ipcop_packages
  install_packages-Plain sources =
      search (plain, set_up_repos-Plain, apk_install_from_list-Plain) depth 30

  make_disk-Plain :
      (sources : Media) (raid flash : Bool) (dev : Bytes) (swap : ℤ)
      → Plain (make_disk os sources raid flash dev swap)
  unfolding make_disk mount_log openrc_enable_service openrc_configure_services
      openrc_cleanup_sysvinit make_swap write_mdadm
  make_disk-Plain sources raid flash dev swap =
      search (plain, write_fstab-Plain, install_packages-Plain, devices-plain, arrays-plain) depth
        40

  create_initramfs-Plain :
      (release : Bytes) (raid : Bool) (hardwares : List Hardware)
      → Plain (create_initramfs os release raid hardwares)
  unfolding create_initramfs
  create_initramfs-Plain release raid hardwares = search plain depth 30

  write_mbr-Any :
      (release : Bytes) (raid : Bool) (dev dev2 : Bytes)
      → Makes AnyCall (write_mbr os release raid dev dev2)
  unfolding write_mbr
  write_mbr-Any release raid dev dev2 = search makes depth 20

  make_bootable-Guards :
      (release : Bytes) (options : PartOptions) (serial : Option Serial) (raid : Bool)
      (dev dev2 : Bytes)
      → Guards os mbr_lock (make_bootable os release options serial raid dev dev2)
  unfolding make_bootable mysystem
  make_bootable-Guards release options serial raid dev dev2 =
      Guards-bind os mbr_lock (mysystem-Plain _) λ settings.
        Guards-choose os mbr_lock _ (Guards-of_Makes os mbr_lock (search makes depth 4)) (
          Guards-bind os mbr_lock (mysystem-Plain _) λ synced.
            Guards-key os mbr_lock (λ rc. not (rc == 0)) (wrapped-plain extlinux_command)
              succeeded_lem (λ rc. search makes depth 4) (search (makes, write_mbr-Any) depth 6))

  -- Whatever the system answers: the installer copies a master boot record to a disk only after
  -- extlinux has been installed with status 0.
  pub make_ipcop_disk-IsGuarded :
      (release : Bytes) (rounds : ℕ → ℕ) (options : PartOptions) (serial : Option Serial)
      (sources : Media) (flash : Bool) (hardwares : List Hardware) (dev dev2 : Bytes)
      (disk_size swap : ℤ) (h : History)
      → IsGuarded os mbr_lock h
      → IsGuarded os mbr_lock (
          history_of (
            make_ipcop_disk os release rounds options serial sources flash hardwares dev dev2
              disk_size swap h))
  unfolding make_ipcop_disk
  make_ipcop_disk-IsGuarded release rounds options serial sources flash hardwares dev dev2 disk_size
        swap =
      Guards.guards (
        Guards-bind os mbr_lock (make_partitions-Plain rounds options flash dev dev2 disk_size swap)
          λ p. Guards-choose os mbr_lock _ (fails _) (
            Guards-bind os mbr_lock (make_disk-Plain sources _ flash dev p.1) λ made.
              Guards-choose os mbr_lock _ (fails _) (
                Guards-bind os mbr_lock (mysystem-Plain _) λ _.
                  Guards-bind os mbr_lock (mysystem-Plain _) λ _.
                    Guards-bind os mbr_lock (mysystem-Plain _) λ _.
                      Guards-bind os mbr_lock (mysystem-Plain _) λ _.
                        Guards-bind os mbr_lock (create_initramfs-Plain release _ hardwares) λ _.
                          Guards-choose os mbr_lock _ (fails _) (
                            Guards-then os mbr_lock
                              (make_bootable-Guards release options serial _ dev dev2)
                              λ rc. Guards-of_Makes os mbr_lock (search makes depth 6)))))
    where
      fails : (n : ℕ) → Guards os mbr_lock (pure n)
      fails n = Guards-of_Makes os mbr_lock (search makes depth 4)
