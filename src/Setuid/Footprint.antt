-- ===== src/Setuid/Footprint.antt =====
-- Which calls the shared parts of the helper programs make: `initsetuid`, and reading settings files.
use ipcop_alpine.Prelude.{ℕ, Bool, Option, none, some}
use ipcop_alpine.Cstring.{Bytes}
use ipcop_alpine.Os.{
  Os, Call, access, fopen_read, flock_shared, flock_unlock, fclose, signal_ignore, close, fstat,
  setgid, setuid, getdtablesize, get_errno, open_null, setrlimit_core, setgroups_none,
}
use ipcop_alpine.Os.Footprint.{Makes, makes, Makes-act, Makes-when, Makes-for_each}
use ipcop_alpine.Os.Tidy.{NoCreate}
use ipcop_alpine.Setuid.{
  initsetuid, require_setuid, ignore_signals, close_descriptors, descriptor_open, drop_privileges,
}
use ipcop_alpine.Kv.{Kv}
use ipcop_alpine.Kv.File.{read_kv_from_file}
use ipcop_alpine.Ethernet.{
  Ethernet, read_ethernet_settings, give_up, red_file, finish_settings, finish_red,
}

abbrev pub Setup : Call → Type 0
Setup (access _) = Unit
Setup (fopen_read _) = Unit
Setup (flock_shared _) = Unit
Setup (flock_unlock _) = Unit
Setup (fclose _) = Unit
Setup (signal_ignore _) = Unit
Setup (close _) = Unit
Setup (fstat _) = Unit
Setup (setgid _) = Unit
Setup (setuid _) = Unit
Setup getdtablesize = Unit
Setup get_errno = Unit
Setup open_null = Unit
Setup setrlimit_core = Unit
Setup setgroups_none = Unit
Setup _ = ⊥

-- None of them creates a file.
pub Setup-NoCreate : (c : Call) → Setup c → NoCreate c
Setup-NoCreate (Call.open_exclusive _) s = elim s [ ]
Setup-NoCreate _ s = tt

module _ (os : Os) where
  ignore_signals-Makes : Makes Setup (ignore_signals os)
  unfolding ignore_signals
  ignore_signals-Makes = Makes-for_each _ (λ i. Makes-when _ (Makes-act os _ tt))

  close_descriptors-Makes : Makes Setup (close_descriptors os)
  unfolding close_descriptors
  close_descriptors-Makes = search makes depth 12

  descriptor_open-Makes : (i : ℕ) → Makes Setup (descriptor_open os i)
  unfolding descriptor_open
  descriptor_open-Makes i = search makes depth 12

  drop_privileges-Makes : Makes Setup (drop_privileges os)
  unfolding drop_privileges
  drop_privileges-Makes = search makes depth 20

  initsetuid-Makes : Makes Setup (initsetuid os)
  unfolding initsetuid
  initsetuid-Makes =
      search
        (
          makes, ignore_signals-Makes, close_descriptors-Makes, descriptor_open-Makes,
          drop_privileges-Makes,
        )
        depth 20

  pub require_setuid-Makes : Makes Setup (require_setuid os)
  unfolding require_setuid
  require_setuid-Makes = search (makes, initsetuid-Makes) depth 8

  pub read_kv_from_file-Makes :
      (kv : Kv) (file : Bytes) → Makes Setup (read_kv_from_file os kv file)
  unfolding read_kv_from_file
  read_kv_from_file-Makes kv file = search makes depth 20

  give_up-Makes : (b : Bool) (e : Ethernet) → Makes Setup (give_up os b e)
  unfolding give_up
  give_up-Makes b e = search makes depth 8

  red_file-Makes : (file value : Bytes) → Makes Setup (red_file os file value)
  unfolding red_file
  red_file-Makes file value = search makes depth 12

  finish_settings-Makes :
      (b : Bool) (kv : Kv) (e : Ethernet) → Makes Setup (finish_settings os b kv e)
  unfolding finish_settings
  finish_settings-Makes b kv e = search (makes, give_up-Makes) depth 8

  finish_red-Makes :
      (b : Bool) (kv : Kv) (e : Ethernet) (o : Option Bytes) → Makes Setup (finish_red os b kv e o)
  unfolding finish_red
  finish_red-Makes b kv e none = finish_settings-Makes b kv _
  finish_red-Makes b kv e (some iface) =
      search (makes, give_up-Makes, finish_settings-Makes) depth 8

  pub read_ethernet_settings-Makes : (b : Bool) → Makes Setup (read_ethernet_settings os b)
  unfolding read_ethernet_settings
  read_ethernet_settings-Makes b =
      search (makes, give_up-Makes, red_file-Makes, finish_red-Makes, read_kv_from_file-Makes) depth
        20
