-- ===== src/Setuid/Calls.antt =====
-- What the shared parts of the helper programs ask of the system: no command is run by
-- `initsetuid`, by reading the settings, or before either is done.
use ipcop_alpine.Prelude.{Bool}
use ipcop_alpine.Cstring.{Bytes}
use ipcop_alpine.Os.{Os, Call, system, unpriv_system}
use ipcop_alpine.Os.Trace.{Keeps}
use ipcop_alpine.Os.Footprint.{Keeps-of_Makes}
use ipcop_alpine.Setuid.{require_setuid}
use ipcop_alpine.Setuid.Footprint.{
  Setup, require_setuid-Makes, read_kv_from_file-Makes, read_ethernet_settings-Makes,
}
use ipcop_alpine.Kv.{Kv}
use ipcop_alpine.Kv.File.{read_kv_from_file}
use ipcop_alpine.Ethernet.{read_ethernet_settings}

-- A property of the commands alone: every other call is accepted.
abbrev pub OnCommands : (Bytes → Type 0) → Call → Type 0
OnCommands P (system command) = P command
OnCommands P (unpriv_system command uid gid) = P command
OnCommands P _ = Unit

module _ (P : Bytes → Type 0) where
  Setup-OnCommands : (c : Call) → Setup c → OnCommands P c
  Setup-OnCommands (Call.system _) s = elim s [ ]
  Setup-OnCommands (Call.unpriv_system _ _ _) s = elim s [ ]
  Setup-OnCommands _ s = tt

module _ (P : Bytes → Type 0) (os : Os) where
  pub require_setuid-Keeps : Keeps (OnCommands P) (require_setuid os)
  require_setuid-Keeps = Keeps-of_Makes _ (Setup-OnCommands P) (require_setuid-Makes os)

  pub read_kv_from_file-Keeps :
      (kv : Kv) (file : Bytes) → Keeps (OnCommands P) (read_kv_from_file os kv file)
  read_kv_from_file-Keeps kv file =
      Keeps-of_Makes _ (Setup-OnCommands P) (read_kv_from_file-Makes os kv file)

  pub read_ethernet_settings-Keeps : (b : Bool) → Keeps (OnCommands P) (read_ethernet_settings os b)
  read_ethernet_settings-Keeps b =
      Keeps-of_Makes _ (Setup-OnCommands P) (read_ethernet_settings-Makes os b)
