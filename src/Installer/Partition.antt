-- ===== src/Installer/Partition.antt =====
-- source/core/installer/partition.c: `make_partitions`, for the architectures x86.
pub mod Sizes
use ipcop_alpine.Prelude.{
  ℕ, suc, ◌-◌, Bool, true, false, not, ◌&&◌, List, [], ◌∷◌, ◌++◌, ◌==◌, if◌then◌else◌,
}
use ipcop_alpine.Prelude.Int.{ℤ, pos, negsuc, ◌+ℤ◌, ◌-ℤ◌, ltb_ℤ, quarter}
use ipcop_alpine.Cstring.{Bytes, codes, concat, snprintf, string_size, is_nil}
use ipcop_alpine.Number.{print_decimal}
use ipcop_alpine.Kv.{success, failure}
use ipcop_alpine.Os.{Os, M, pure, ◌>>=◌, choose}
use ipcop_alpine.Installer.{run_all}
use ipcop_alpine.Installer.Raid.{create_raid}

-- arch_defs.h, in MiB
abbrev pub disk_minimum : ℕ
disk_minimum = 480

abbrev pub root_minimum : ℕ
root_minimum = 256

abbrev pub root_maximum : ℕ
root_maximum = 512

abbrev pub swap_minimum : ℕ
swap_minimum = 32

abbrev pub swap_maximum : ℕ
swap_maximum = 64

abbrev pub logcompressed : ℕ
logcompressed = 64

pub record PartitionSizes : Type 0 where
  pub root_partition : ℤ
  pub log_partition : ℤ
  pub swap_file : ℤ

-- `if (size > maximum) size = maximum;`
unfoldable pub at_most : ℕ → ℤ → ℤ
at_most maximum size = if ltb_ℤ (pos maximum) size then pos maximum else size

unfoldable pub is_minus_one : ℤ → Bool
is_minus_one (pos n) = false
is_minus_one (negsuc n) = n == 0

-- A swap file that does not fit is left to the installer, by -1.
unfoldable pub fitting_swap : ℤ → ℤ → ℤ
unfolding is_minus_one
fitting_swap disk_size swap =
    if not (is_minus_one swap) && not (ltb_ℤ (pos root_minimum +ℤ swap) disk_size)
    then negsuc 0
    else swap

-- `current_free`
unfoldable pub free_space : ℤ → ℤ → ℤ → ℤ
free_space disk_size log_partition swap = disk_size -ℤ pos root_minimum -ℤ log_partition -ℤ swap

-- The swap file and the free space of a disk that is no flash.
unfoldable pub swap_and_free : ℤ → ℤ → ℤ × ℤ
unfolding is_minus_one free_space at_most
swap_and_free disk_size swap =
    let auto =
      free_space disk_size (pos (disk_minimum - root_minimum - swap_minimum)) (pos swap_minimum) in
    if is_minus_one swap
    then (at_most swap_maximum (pos swap_minimum +ℤ quarter auto), auto)
    else (swap, free_space disk_size (pos (disk_minimum - root_minimum) -ℤ swap) swap)

-- The log partition is what the root partition, which holds the swap file, leaves.
unfoldable pub sizes_of : ℤ → ℤ × ℤ → PartitionSizes
unfolding at_most
sizes_of disk_size (swap, current_free) =
    let root = at_most root_maximum (pos root_minimum +ℤ quarter current_free) +ℤ swap in
    record { root_partition = root; log_partition = disk_size -ℤ root; swap_file = swap }

-- `disk_size` is that of `usable_size`.
unfoldable pub partition_sizes : Bool → ℤ → ℤ → PartitionSizes
unfolding swap_and_free sizes_of fitting_swap
partition_sizes flash disk_size swap =
    let root = disk_size -ℤ pos logcompressed in
    if flash
    then record { root_partition = root; log_partition = disk_size -ℤ root; swap_file = pos 0 }
    else sizes_of disk_size (swap_and_free disk_size (fitting_swap disk_size swap))

-- 5 MiB are left out of a size that the user has not given.
unfoldable pub usable_size : Bool → ℤ → ℤ
usable_size user_size size = if user_size then size else size -ℤ pos 5

-- The options of `part_options`.
pub record PartOptions : Type 0 where
  pub manual : Bool
  pub parted : Bool
  pub user_size : Bool
  pub no_mbr : Bool
  pub no_dma : Bool

-- `%ld`
unfoldable pub print_long : ℤ → Bytes
print_long (pos n) = print_decimal n
print_long (negsuc n) = b'-' ∷ print_decimal (suc n)

unfoldable pub install_type : Bool → Bool → Bytes
install_type flash raid =
    if flash
    then if raid then codes "flashraid" else codes "flash"
    else if raid
    then codes "raid"
    else codes "onedisk"

unfoldable pub partition_command : PartOptions → Bytes → PartitionSizes → ℤ → Bytes → Bytes
unfolding print_long
partition_command options dev sizes disk_size type = snprintf string_size (
    concat (
      codes "/usr/bin/disk-partition.sh "
      ∷ (if options.parted then codes "x86_parted" else codes "x86")
      ∷ codes " "
      ∷ dev
      ∷ codes " "
      ∷ print_long sizes.root_partition
      ∷ codes " "
      ∷ print_long disk_size
      ∷ codes " "
      ∷ type
      ∷ []))

-- The result, and the size of the swap file that the caller goes on with; `rounds` is how often the
-- synchronisation of each array of a RAID is waited for.
unfoldable pub make_partitions :
    Os → (ℕ → ℕ) → PartOptions → Bool → Bytes → Bytes → ℤ → ℤ → M (ℕ × ℤ)
unfolding usable_size partition_sizes install_type partition_command
make_partitions os rounds options flash dev dev2 size swap = do
  let raid = not (is_nil dev2)
  let disk_size = usable_size options.user_size size
  let sizes = partition_sizes flash disk_size swap
  let type = install_type flash raid
  let command = λ (d : Bytes). partition_command options d sizes disk_size type
  choose options.manual (pure (success, sizes.swap_file)) do
    rc ← run_all os (command dev ∷ (if raid then command dev2 ∷ [] else []))
    choose (not (rc == success)) (pure (failure, sizes.swap_file)) (
        choose (not raid) (pure (success, sizes.swap_file))
          (do created ← create_raid os rounds dev dev2; pure (created, sizes.swap_file)))
