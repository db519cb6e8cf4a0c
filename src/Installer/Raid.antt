-- ===== src/Installer/Raid.antt =====
-- source/core/installer/partition.c: the creation of a RAID, at the end of `make_partitions`. The progress
-- on the screen is left out.
use ipcop_alpine.Prelude.{
  ℕ, zero, suc, ◌+◌, Bool, false, not, List, [], ◌∷◌, ◌++◌, Option, none, some, ◌==◌,
}
use ipcop_alpine.Cstring.{Bytes, codes, concat, snprintf, string_size, has_text, fgets_first}
use ipcop_alpine.Number.{print_decimal}
use ipcop_alpine.Kv.{success, failure}
use ipcop_alpine.Os.{
  Os, M, pure, ◌>>=◌, ◌>>◌, choose, when, call, act, contents, system, sleep, popen_read, pclose,
}
use ipcop_alpine.Installer.{mysystem}

abbrev pub progress_command : Bytes
progress_command = codes "cat /proc/mdstat | grep resync"

-- The partition `i` of both disks has the number `i + 1`.
unfoldable pub raid_command : Bytes → Bytes → ℕ → Bytes
raid_command dev dev2 i = snprintf string_size (
    concat (
      codes "/sbin/mdadm --create /dev/md"
      ∷ print_decimal i
      ∷ codes " --homehost=ipcop --metadata=0.9 --level=1 --raid-devices=2 /dev/"
      ∷ dev
      ∷ print_decimal (i + 1)
      ∷ codes " /dev/"
      ∷ dev2
      ∷ print_decimal (i + 1)
      ∷ codes " < /tmp/yes"
      ∷ []))

unfoldable pub has_progress : Option Bytes → Bool
has_progress none = false
has_progress (some line) = has_text (codes "resync = ") line

module _ (os : Os) where
  -- `rounds` is the number of rounds in which the first command gives 0.
  unfoldable pub wait_resync : ℕ → M (Unit {0})
  unfolding has_progress
  wait_resync zero = act os (system (progress_command ++ codes " > /dev/null"))
  wait_resync (suc rounds) = do
    act os (system (progress_command ++ codes " > /dev/null"))
    opened ← call os (popen_read progress_command)
    when (opened == 0) do
      text ← contents os progress_command
      act os (pclose progress_command)
      when (has_progress (fgets_first string_size text)) (act os (sleep 1))
    wait_resync rounds

  unfoldable pub create_arrays : (ℕ → ℕ) → Bytes → Bytes → List ℕ → M ℕ
  unfolding raid_command
  create_arrays rounds dev dev2 [] = pure success
  create_arrays rounds dev dev2 (i ∷ is) = do
    rc ← mysystem os (raid_command dev dev2 i)
    choose (not (rc == 0)) (pure failure)
        do act os (sleep 1); wait_resync (rounds i); create_arrays rounds dev dev2 is

  unfoldable pub create_raid : (ℕ → ℕ) → Bytes → Bytes → M ℕ
  create_raid rounds dev dev2 = do
    md ← mysystem os (codes "/sbin/modprobe md-mod")
    raid1 ← mysystem os (codes "/sbin/modprobe raid1")
    echoed ← call os (system (codes "echo y > /tmp/yes"))
    choose (not (echoed == 0)) (pure failure) (create_arrays rounds dev dev2 (0 ∷ 1 ∷ []))
