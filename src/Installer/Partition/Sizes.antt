-- ===== src/Installer/Partition/Sizes.antt =====
-- The sizes of the partitions of a hard disk, for disks of at least the minimum.
use ipcop_alpine.Prelude.{
  ℕ, ◌+◌, ◌-◌, ◌/◌, ◌≡◌, ◌≤◌, ◌<◌, Bool-cases, inl, inr, Bool, true, false, refl, arith, ltb, subst,
  sym, ap, ◌∙◌, if◌then◌else◌,
}
use ipcop_alpine.Prelude.Int.{ℤ, pos, negsuc, ◌+ℤ◌, ◌-ℤ◌, ◌≤ℤ◌, quarter, int_laws, eq_of_parts}
use ipcop_alpine.Installer.Partition.{
  PartitionSizes, partition_sizes, sizes_of, swap_and_free, fitting_swap, free_space, at_most,
  is_minus_one, usable_size, swap_maximum, swap_minimum, disk_minimum, root_minimum, root_maximum,
}

-- What the boot options let through: -1, or a size up to the maximum.
abbrev pub IsRequested : ℤ → Type 0
IsRequested (pos n) = n ≤ swap_maximum
IsRequested (negsuc n) = n ≡ 0

-- The bounds below are lower where the size that is used is less than the minimum.
abbrev pub least_root : ℕ → ℕ
least_root d = if ltb d disk_minimum then root_minimum - 1 else root_minimum

abbrev pub least_log : ℕ → ℕ
least_log d = if ltb d disk_minimum then 156 else 160

pub record IsSized (d : ℕ) (s : PartitionSizes) : Type 0 where
  pub whole : s.root_partition +ℤ s.log_partition ≡ pos d
  pub root_least : (pos (least_root d) +ℤ s.swap_file) ≤ℤ s.root_partition
  pub root_most : s.root_partition ≤ℤ (pos root_maximum +ℤ s.swap_file)
  pub swap_least : pos 0 ≤ℤ s.swap_file
  pub swap_most : s.swap_file ≤ℤ pos swap_maximum
  pub log_least : pos (least_log d) ≤ℤ s.log_partition

-- `current_free`, which is negative below the minimum.
abbrev free_of : ℕ → ℤ
free_of d = if ltb d disk_minimum then negsuc (disk_minimum - 1 - d) else pos (d - disk_minimum)

sizes_of-IsSized :
    (d w : ℕ)
    → disk_minimum ≤ d + 5
    → w ≤ swap_maximum
    → IsSized d (sizes_of (pos d) (pos w, free_of d))
unfolding sizes_of ◌+ℤ◌ ◌-ℤ◌ quarter at_most
sizes_of-IsSized d w h k = ground arith

free_space_lem :
    (d log swap : ℕ)
    → root_minimum + (log + swap) ≡ disk_minimum
    → free_space (pos d) (pos log) (pos swap) ≡ free_of d
unfolding free_space
free_space_lem d log swap e = elim (Bool-cases (ltb d disk_minimum)) [
  | inl below ↦
      let l : d < disk_minimum = ground (arith, below) in
      rw below (eq_of_parts _ _ (omega int_laws))
  | inr above ↦
      let l : disk_minimum ≤ d = ground (arith, above) in
      rw above (eq_of_parts _ _ (omega int_laws))
]

-- The swap file that the installer chooses.
abbrev auto_swap : ℕ → ℕ
auto_swap d =
    if ltb d disk_minimum
    then swap_minimum - (disk_minimum - d) / 4
    else if ltb swap_maximum (swap_minimum + (d - disk_minimum) / 4)
    then swap_maximum
    else swap_minimum + (d - disk_minimum) / 4

auto_lem :
    (d : ℕ)
    → disk_minimum ≤ d + 5
    → swap_and_free (pos d) (fitting_swap (pos d) (negsuc 0)) ≡ (pos (auto_swap d), free_of d)
unfolding swap_and_free fitting_swap is_minus_one quarter at_most ◌+ℤ◌
auto_lem d h = rw (free_space_lem d 192 32 (omega arith)) (ground arith)

fitting_lem :
    (d w : ℕ) → disk_minimum ≤ d + 5 → w ≤ swap_maximum → fitting_swap (pos d) (pos w) ≡ pos w
unfolding fitting_swap is_minus_one ◌+ℤ◌
fitting_lem d w h k = ground arith

given_lem : (d w : ℕ) → w ≤ swap_maximum → swap_and_free (pos d) (pos w) ≡ (pos w, free_of d)
unfolding swap_and_free is_minus_one
given_lem d w k =
    let log : pos (disk_minimum - root_minimum) -ℤ pos w ≡ pos (disk_minimum - root_minimum - w) =
      eq_of_parts _ _ (omega int_laws) in
    ap (λ l. (pos w, free_space (pos d) l (pos w))) log
    ∙ ap (λ f. (pos w, f)) (free_space_lem d (disk_minimum - root_minimum - w) w (omega arith))

used-IsSized :
    (d : ℕ) (swap : ℤ)
    → disk_minimum ≤ d + 5
    → IsRequested swap
    → IsSized d (partition_sizes false (pos d) swap)
unfolding partition_sizes
used-IsSized d (pos w) h k =
    subst (λ p. IsSized d (sizes_of (pos d) p))
      (sym (ap (swap_and_free (pos d)) (fitting_lem d w h k) ∙ given_lem d w k))
      (sizes_of-IsSized d w h k)
used-IsSized d (negsuc n) h k =
    subst
      (λ m. IsSized d (sizes_of (pos d) (swap_and_free (pos d) (fitting_swap (pos d) (negsuc m)))))
      (sym k)
      (subst (λ p. IsSized d (sizes_of (pos d) p)) (sym (auto_lem d h))
        (sizes_of-IsSized d (auto_swap d) h (ground arith)))

-- The size that is used, in MiB.
abbrev pub used : Bool → ℕ → ℕ
used user_size size = if user_size then size else size - 5

usable_lem :
    (user_size : Bool) (size : ℕ)
    → disk_minimum ≤ size
    → usable_size user_size (pos size) ≡ pos (used user_size size)
unfolding usable_size ◌-ℤ◌
usable_lem true size h = refl
usable_lem false size h = ground arith

-- For a hard disk that is no flash, of at least the 480 MiB that the installer accepts, and a swap file
-- of the boot options or none given: of the size that is used, which is 5 MiB less where the user has not
-- given it, the two partitions are the whole; the root partition holds the swap file and at most
-- 512 MiB beside it; the swap file is at most 64 MiB. Where the size that is used is at least 480 MiB,
-- the root partition has at least 256 MiB beside the swap file and the log partition at least 160;
-- where it is less, at least 255 and 156.
pub partition_sizes-IsSized :
    (user_size : Bool) (size : ℕ) (swap : ℤ)
    → disk_minimum ≤ size
    → IsRequested swap
    → IsSized (used user_size size) (partition_sizes false (usable_size user_size (pos size)) swap)
partition_sizes-IsSized user_size size swap h k =
    subst (λ n. IsSized (used user_size size) (partition_sizes false n swap))
      (sym (usable_lem user_size size h)) (used-IsSized (used user_size size) swap (ground arith) k)
