-- ===== src/Installer.antt =====
-- The installer, source/core/installer: the parts behind its dialogs. Messages, to the screen or to the
-- log, are left out.
pub mod Apk
pub mod Openrc
pub mod Disk
pub mod Partition
pub mod Restore
pub mod Hardware
pub mod Raid
pub mod Boot
pub mod Kernel
pub mod Hostname
use ipcop_alpine.Prelude.{ℕ, ◌+◌, Bool, not, List, [], ◌∷◌, ◌++◌, ◌==◌}
use ipcop_alpine.Cstring.{Bytes, codes, snprintf, string_size_large}
use ipcop_alpine.Kv.{success, failure}
use ipcop_alpine.Os.{Os, M, pure, ◌>>=◌, choose, call, system}

-- arch_defs.h
pub data Media : Type 0 where
  none floppy cdrom usb harddisk flash network console serial specialmodule unknown : Media

-- helper.c of the installer: the command line that `mysystem` makes.
abbrev pub wrapped : Bytes → Bytes
wrapped command =
    snprintf (string_size_large + 64) (codes "( " ++ (command ++ codes " ) > /dev/null 2>&1"))

module _ (os : Os) where
  unfoldable pub mysystem : Bytes → M ℕ
  mysystem command = call os (system (wrapped command))

  -- `if (mysystem(command)) return FAILURE`, for one command after the other.
  unfoldable pub run_all : List Bytes → M ℕ
  unfolding mysystem
  run_all [] = pure success
  run_all (command ∷ commands) = do
    rc ← mysystem command
    choose (not (rc == 0)) (pure failure) (run_all commands)
