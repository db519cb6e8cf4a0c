-- ===== src/Setuid/Behaviour.antt =====
-- The shared parts of the helper programs end with a value or by `exit`.
use ipcop_alpine.Prelude.{ℕ, Bool, Option, none, some}
use ipcop_alpine.Cstring.{Bytes}
use ipcop_alpine.Os.{Os}
use ipcop_alpine.Os.Exits.{Behaves, behaves}
use ipcop_alpine.Setuid.{
  initsetuid, require_setuid, ignore_signals, close_descriptors, descriptor_open, drop_privileges,
}
use ipcop_alpine.Kv.{Kv}
use ipcop_alpine.Kv.File.{read_kv_from_file}
use ipcop_alpine.Ethernet.{
  Ethernet, read_ethernet_settings, give_up, red_file, finish_settings, finish_red,
}

module _ (os : Os) where
  ignore_signals-Behaves : Behaves (ignore_signals os)
  unfolding ignore_signals
  ignore_signals-Behaves = search behaves depth 12

  close_descriptors-Behaves : Behaves (close_descriptors os)
  unfolding close_descriptors
  close_descriptors-Behaves = search behaves depth 12

  descriptor_open-Behaves : (i : ℕ) → Behaves (descriptor_open os i)
  unfolding descriptor_open
  descriptor_open-Behaves i = search behaves depth 12

  drop_privileges-Behaves : Behaves (drop_privileges os)
  unfolding drop_privileges
  drop_privileges-Behaves = search behaves depth 20

  initsetuid-Behaves : Behaves (initsetuid os)
  unfolding initsetuid
  initsetuid-Behaves =
      search
        (
          behaves, ignore_signals-Behaves, close_descriptors-Behaves, descriptor_open-Behaves,
          drop_privileges-Behaves,
        )
        depth 20

  pub require_setuid-Behaves : Behaves (require_setuid os)
  unfolding require_setuid
  require_setuid-Behaves = search (behaves, initsetuid-Behaves) depth 8

  pub read_kv_from_file-Behaves : (kv : Kv) (file : Bytes) → Behaves (read_kv_from_file os kv file)
  unfolding read_kv_from_file
  read_kv_from_file-Behaves kv file = search behaves depth 20

  give_up-Behaves : (b : Bool) (e : Ethernet) → Behaves (give_up os b e)
  unfolding give_up
  give_up-Behaves b e = search behaves depth 8

  red_file-Behaves : (file value : Bytes) → Behaves (red_file os file value)
  unfolding red_file
  red_file-Behaves file value = search behaves depth 12

  finish_settings-Behaves :
      (b : Bool) (kv : Kv) (e : Ethernet) → Behaves (finish_settings os b kv e)
  unfolding finish_settings
  finish_settings-Behaves b kv e = search (behaves, give_up-Behaves) depth 8

  finish_red-Behaves :
      (b : Bool) (kv : Kv) (e : Ethernet) (o : Option Bytes) → Behaves (finish_red os b kv e o)
  unfolding finish_red
  finish_red-Behaves b kv e none = finish_settings-Behaves b kv _
  finish_red-Behaves b kv e (some iface) =
      search (behaves, give_up-Behaves, finish_settings-Behaves) depth 8

  pub read_ethernet_settings-Behaves : (b : Bool) → Behaves (read_ethernet_settings os b)
  unfolding read_ethernet_settings
  read_ethernet_settings-Behaves b =
      search
        (behaves, give_up-Behaves, red_file-Behaves, finish_red-Behaves, read_kv_from_file-Behaves)
        depth 20
