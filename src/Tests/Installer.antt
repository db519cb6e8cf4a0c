-- ===== src/Tests/Installer.antt =====
-- The installer, on small inputs.
use ipcop_alpine.Prelude.{
  ℕ, ◌≡◌, ◌/◌, refl, ◌↔◌, false, true, not, [], ◌∷◌, ◌++◌, none, some, ◌==◌, arith, inr, length,
}
use ipcop_alpine.Prelude.Int.{pos, negsuc}
use ipcop_alpine.Cstring.{Bytes, codes, before, from, stripnl, is_newline}
use ipcop_alpine.Valid.{not_white}
use ipcop_alpine.Number.{print_decimal}
use ipcop_alpine.Os.{Os, Call, History, history_of, system}
use ipcop_alpine.Installer.{Media, harddisk, cdrom}
use ipcop_alpine.Installer.Apk.{online_main, count_packages, package_of, is_skipped, is_space_byte}
use ipcop_alpine.Installer.Disk.{set_up_repos}
use ipcop_alpine.Installer.Disk.Repositories.{set_up_repos_online, is_printed, ping_call}
use ipcop_alpine.Installer.Hardware.{Hardware, Hardwares, drive_size, size_text, has_device}
use ipcop_alpine.Installer.Hardware.DriveSize.{drive_size-print_decimal}
use ipcop_alpine.Installer.Hardware.Ide.{scanprocdrives}
use ipcop_alpine.Installer.Hardware.Listed.{IsListed}
use ipcop_alpine.Installer.Hardware.Scan.{scanprocdrives-IsListed}
use ipcop_alpine.Installer.Kernel.{module_of, after_last}
use ipcop_alpine.Installer.Boot.{make_ipcop_disk}
use ipcop_alpine.Installer.Boot.Guarded.{mbr_lock, make_ipcop_disk-IsGuarded}
use ipcop_alpine.Os.Guard.{IsGuarded}
use ipcop_alpine.Os.Yields.{Ends}
use ipcop_alpine.Installer.Partition.{partition_sizes, usable_size, PartOptions}
use ipcop_alpine.Installer.Partition.Sizes.{IsSized, partition_sizes-IsSized}
use ipcop_alpine.Installer.Restore.{filter_dat}
use ipcop_alpine.Installer.Restore.Names.{filter_dat_iff}

partition_sizes-IsSized_example :
    IsSized 475 (partition_sizes false (usable_size false (pos 480)) (negsuc 0))
partition_sizes-IsSized_example = partition_sizes-IsSized false 480 (negsuc 0) (omega arith) refl

-- The server does not answer the ping.
abbrev offline : Os
offline = record { status = status_of; text = λ h file. [] }
  where
    status_of : History → Call → ℕ
    status_of h (system command) = 256
    status_of h _ = 0

nothing_written : is_printed online_main [] ≡ false
unfolding is_printed
nothing_written = refl

set_up_repos_online_example :
    is_printed online_main (history_of (set_up_repos offline Media.network []))
    ≡ not (offline.status [] ping_call == 0)
set_up_repos_online_example = set_up_repos_online offline [] nothing_written refl

abbrev quiet : Os
quiet = record { status = λ h c. 0; text = λ h file. codes "cdrom\n" }

abbrev backup_name : Bytes
backup_name = codes "fw-2024-01-01_10-00-00.dat"

filter_dat_iff_example :
    (filter_dat (codes "fw") backup_name ≡ true)
    ↔ ((t : Bytes) × (backup_name ≡ codes "fw" ++ t) × (length t ≡ 24))
filter_dat_iff_example = filter_dat_iff (codes "fw") backup_name

abbrev disk : Hardware
disk = record {
  module_name = [];
  device = codes "sda";
  description = codes "DISK";
  type = harddisk;
  vendorid = [];
  modelid = [];
}

abbrev one_disk : Hardwares
one_disk = record {
  list = disk ∷ [];
  numnetwork = 0;
  numharddisk = 1;
  numcdrom = 0;
  have_idecd = false;
}

one_disk-IsListed : IsListed one_disk
unfolding has_device
one_disk-IsListed = record {
  networks = refl;
  harddisks = refl;
  cdroms = refl;
  unique = (inr refl, tt);
}

scanprocdrives-IsListed_example :
    Ends IsListed (scanprocdrives quiet true (codes "0.0" ∷ []) one_disk [])
scanprocdrives-IsListed_example =
    scanprocdrives-IsListed quiet true (codes "0.0" ∷ []) one_disk [] one_disk-IsListed

abbrev options : PartOptions
options = record {
  manual = false;
  parted = false;
  user_size = false;
  no_mbr = false;
  no_dma = false;
}

boot_start : IsGuarded quiet mbr_lock []
unfolding IsGuarded
boot_start = tt

make_ipcop_disk-IsGuarded_example : IsGuarded quiet mbr_lock (
    history_of (
      make_ipcop_disk quiet
        (codes "3.4-3")
        (λ i. 2)
        options
        none
        cdrom
        false
        (disk ∷ [])
        (codes "sda")
        (codes "sdb")
        (pos 8000)
        (negsuc 0)
        []))
make_ipcop_disk-IsGuarded_example =
    make_ipcop_disk-IsGuarded quiet (codes "3.4-3") (λ i. 2) options none cdrom false (disk ∷ [])
      (codes "sda") (codes "sdb") (pos 8000) (negsuc 0) [] boot_start

drive_size-print_decimal_example :
    drive_size (some (print_decimal 16777216 ++ b'\n' ∷ []))
    ≡ (16777216 / 2048, size_text (16777216 / 2))
drive_size-print_decimal_example = drive_size-print_decimal 16777216 (omega arith)

-- A line of blanks counts as a package; a comment and an empty line do not.
counted_packages :
    count_packages (codes "# base\n" ∷ codes "busybox\n" ∷ codes "  \n" ∷ codes "\n" ∷ []) ≡ 2
unfolding count_packages is_skipped codes
counted_packages = refl

-- The line of blanks names the package of the line before.
package_again : package_of (codes "  \n") (codes "busybox") ≡ codes "busybox"
unfolding package_of is_space_byte codes before from not_white
package_again = refl

abbrev alias_line : Bytes
alias_line = codes "alias pci:v00008086d00001229sv*sd*bc02sc00i* e100\n"

found_module : module_of (some alias_line) ≡ some (codes "e100")
unfolding module_of codes after_last stripnl before is_newline
found_module = refl
