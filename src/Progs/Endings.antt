-- ===== src/Progs/Endings.antt =====
-- Every run of restartntpd, accountingctrl and restartshaping ends by `exit`.
use ipcop_alpine.Prelude.{ℕ, Bool, true, false, List, [], ◌∷◌, Option, none, some}
use ipcop_alpine.Cstring.{Bytes}
use ipcop_alpine.Kv.{Kv}
use ipcop_alpine.Ethernet.{Ethernet}
use ipcop_alpine.Os.{Os, M}
use ipcop_alpine.Os.Exits.{Behaves, Exits, behaves, exits, Behaves-pure, Behaves-exit}
use ipcop_alpine.Setuid.Behaviour.{
  require_setuid-Behaves, read_kv_from_file-Behaves, read_ethernet_settings-Behaves,
}
use ipcop_alpine.Progs.Signal.{mysignalpidfile}
use ipcop_alpine.Progs.Accounting
use ipcop_alpine.Progs.Accounting.{AccountOption, AccountFlags, Detail}
use ipcop_alpine.Progs.Ntp
use ipcop_alpine.Progs.Ntp.{NtpOption, NtpFlags}
use ipcop_alpine.Progs.Shaping
use ipcop_alpine.Progs.Shaping.{ShapingOption, ShapingRates, Rule}

module _ (os : Os) where
  mysignalpidfile-Behaves : (file : Bytes) (signal : ℕ) → Behaves (mysignalpidfile os file signal)
  unfolding mysignalpidfile
  mysignalpidfile-Behaves file signal = search behaves depth 20

  ntp_options-Behaves :
      (options : List NtpOption) (f : NtpFlags) → Behaves (Ntp.read_options options f)
  unfolding Ntp.read_options
  ntp_options-Behaves [] f = Behaves-pure f
  ntp_options-Behaves (NtpOption.after_red ∷ options) f = ntp_options-Behaves options _
  ntp_options-Behaves (NtpOption.force ∷ options) f = ntp_options-Behaves options _
  ntp_options-Behaves (NtpOption.verbose ∷ options) f = ntp_options-Behaves options _
  ntp_options-Behaves (NtpOption.help ∷ options) f = Behaves-exit 0
  ntp_options-Behaves (NtpOption.unknown ∷ options) f = Behaves-exit 1

  stop_ntpd-Behaves : (enabled : Bool) → Behaves (Ntp.stop_ntpd os enabled)
  unfolding Ntp.stop_ntpd
  stop_ntpd-Behaves enabled = search (behaves, mysignalpidfile-Behaves) depth 20

  start_ntpd-Exits :
      (f : NtpFlags) (kv : Kv) (e : Ethernet) (enabled redirect : Bool)
      → Exits (Ntp.start_ntpd os f kv e enabled redirect)
  unfolding Ntp.start_ntpd
  start_ntpd-Exits f kv e enabled redirect = search exits depth 20

  check_red-Behaves : (flag_red : Bool) → Behaves (Ntp.check_red os flag_red)
  unfolding Ntp.check_red
  check_red-Behaves flag_red = search behaves depth 12

  ntp_restart-Exits : (f : NtpFlags) → Exits (Ntp.restart os f)
  unfolding Ntp.restart
  ntp_restart-Exits f =
      search
        (
          exits, read_kv_from_file-Behaves, check_red-Behaves, read_ethernet_settings-Behaves,
          stop_ntpd-Behaves, start_ntpd-Exits,
        )
        depth 20

  -- Every run of restartntpd ends by `exit`.
  pub ntp-Exits : (options : List NtpOption) → Exits (Ntp.main os options)
  unfolding Ntp.main
  ntp-Exits options =
      search (exits, require_setuid-Behaves, ntp_options-Behaves, ntp_restart-Exits) depth 12

  account_options-Behaves :
      (options : List AccountOption) (f : AccountFlags)
      → Behaves (Accounting.read_options options f)
  unfolding Accounting.read_options
  account_options-Behaves [] f = Behaves-pure f
  account_options-Behaves (AccountOption.emptyall ∷ options) f = account_options-Behaves options _
  account_options-Behaves (AccountOption.emptyulogd ∷ options) f = account_options-Behaves options _
  account_options-Behaves (AccountOption.init ∷ options) f = account_options-Behaves options _
  account_options-Behaves (AccountOption.verbose ∷ options) f = account_options-Behaves options _
  account_options-Behaves (AccountOption.help ∷ options) f = Behaves-exit 0
  account_options-Behaves (AccountOption.unknown ∷ options) f = Behaves-exit 1

  add_vnstat_db-Behaves :
      (dev_id iface : Bytes) → Behaves (Accounting.add_vnstat_db os dev_id iface)
  unfolding Accounting.add_vnstat_db
  add_vnstat_db-Behaves dev_id iface = search (behaves, mysignalpidfile-Behaves) depth 20

  add_device_rules-Behaves :
      (dev_id iface : Bytes) → Behaves (Accounting.add_device_rules os dev_id iface)
  unfolding Accounting.add_device_rules
  add_device_rules-Behaves dev_id iface = search behaves depth 20

  add_interface-Behaves :
      (high : Bool) (p : Bytes × Bytes) → Behaves (Accounting.add_interface os high p)
  unfolding Accounting.add_interface
  add_interface-Behaves high p =
      search (behaves, add_vnstat_db-Behaves, add_device_rules-Behaves) depth 8

  start_daemon-Behaves : (high : Bool) → Behaves (Accounting.start_daemon os high)
  unfolding Accounting.start_daemon
  start_daemon-Behaves true = search behaves depth 8
  start_daemon-Behaves false = search behaves depth 8

  start_accounting-Behaves : (d : Detail) → Behaves (Accounting.start_accounting os d)
  unfolding Accounting.start_accounting
  start_accounting-Behaves d =
      search (behaves, read_ethernet_settings-Behaves, add_interface-Behaves, start_daemon-Behaves)
        depth 12

  stop_daemons-Behaves : (d : Detail) → Behaves (Accounting.stop_daemons os d)
  unfolding Accounting.stop_daemons
  stop_daemons-Behaves d = search (behaves, mysignalpidfile-Behaves) depth 20

  empty_databases-Behaves :
      (f : AccountFlags) (d : Detail) → Behaves (Accounting.empty_databases os f d)
  unfolding Accounting.empty_databases
  empty_databases-Behaves f d = search behaves depth 20

  flush_rules-Behaves : Behaves (Accounting.flush_rules os)
  unfolding Accounting.flush_rules
  flush_rules-Behaves = search behaves depth 12

  control-Exits : (f : AccountFlags) → Exits (Accounting.control os f)
  unfolding Accounting.control
  control-Exits f =
      search
        (
          exits, read_kv_from_file-Behaves, empty_databases-Behaves, flush_rules-Behaves,
          start_accounting-Behaves, stop_daemons-Behaves,
        )
        depth 20

  -- Every run of accountingctrl ends by `exit`.
  pub accounting-Exits : (options : List AccountOption) → Exits (Accounting.main os options)
  unfolding Accounting.main
  accounting-Exits options =
      search (exits, require_setuid-Behaves, account_options-Behaves, control-Exits) depth 12

  shaping_options-Behaves :
      (options : List ShapingOption) (n : ℕ) → Behaves (Shaping.read_options options n)
  unfolding Shaping.read_options
  shaping_options-Behaves [] n = Behaves-pure n
  shaping_options-Behaves (ShapingOption.verbose ∷ options) n = shaping_options-Behaves options _
  shaping_options-Behaves (ShapingOption.help ∷ options) n = Behaves-exit 0
  shaping_options-Behaves (ShapingOption.unknown ∷ options) n = Behaves-exit 1

  run_all-Behaves : (lines : List Bytes) → Behaves (Shaping.run_all os lines)
  unfolding Shaping.run_all
  run_all-Behaves lines = search behaves depth 8

  run_rule-Behaves :
      (r : Rule) (more : M Bool) → Behaves more → Behaves (Shaping.run_rule os r more)
  unfolding Shaping.run_rule
  run_rule-Behaves Rule.stop more b = Behaves-pure true
  run_rule-Behaves Rule.refuse more b = Behaves-pure false
  run_rule-Behaves (Rule.commands lines) more b = search (behaves, run_all-Behaves) depth 8

  run_rules-Behaves :
      (iface : Bytes) (lines : List Bytes) → Behaves (Shaping.run_rules os iface lines)
  unfolding Shaping.run_rules
  run_rules-Behaves iface [] = Behaves-pure true
  run_rules-Behaves iface (line ∷ lines) = run_rule-Behaves _ _ (run_rules-Behaves iface lines)

  read_rules-Behaves : (iface : Bytes) → Behaves (Shaping.read_rules os iface)
  unfolding Shaping.read_rules
  read_rules-Behaves iface = search (behaves, run_rules-Behaves) depth 12

  finish_shaping-Behaves :
      (iface : Bytes) (r : ShapingRates) → Behaves (Shaping.finish_shaping os iface r)
  unfolding Shaping.finish_shaping
  finish_shaping-Behaves iface r = search (behaves, run_all-Behaves) depth 8

  shape-Exits : (iface : Bytes) (r : ShapingRates) → Exits (Shaping.shape os iface r)
  unfolding Shaping.shape
  shape-Exits iface r =
      search (exits, run_all-Behaves, read_rules-Behaves, finish_shaping-Behaves) depth 16

  with_rates-Exits :
      (iface : Bytes) (o : Option ShapingRates) → Exits (Shaping.with_rates os iface o)
  unfolding Shaping.with_rates
  with_rates-Exits iface none = search exits
  with_rates-Exits iface (some r) = shape-Exits iface r

  shaping_restart-Exits : (n : ℕ) → Exits (Shaping.restart os n)
  unfolding Shaping.restart
  shaping_restart-Exits n =
      search (exits, read_kv_from_file-Behaves, read_ethernet_settings-Behaves, with_rates-Exits)
        depth 20

  -- Every run of restartshaping ends by `exit`.
  pub shaping-Exits : (options : List ShapingOption) → Exits (Shaping.main os options)
  unfolding Shaping.main
  shaping-Exits options =
      search (exits, require_setuid-Behaves, shaping_options-Behaves, shaping_restart-Exits) depth
        12
