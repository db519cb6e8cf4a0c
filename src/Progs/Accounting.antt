-- ===== src/Progs/Accounting.antt =====
-- source/core/progs/accountingctrl.c
pub mod Interfaces
use ipcop_alpine.Prelude.{
  Bool, true, false, not, ◌&&◌, ◌||◌, List, [], ◌∷◌, ◌++◌, ◌==◌, if◌then◌else◌,
}
use ipcop_alpine.Cstring.{
  Bytes, codes, string_size, string_size_large, snprintf, concat, text_of, is_nil,
}
use ipcop_alpine.Kv.{Kv, success, test_kv}
use ipcop_alpine.Kv.File.{read_kv_from_file}
use ipcop_alpine.Ethernet.{
  Colour, colour_text, is_red, Ethernet, card, all_colours, read_ethernet_settings,
}
use ipcop_alpine.Setuid.{require_setuid}
use ipcop_alpine.Progs.Signal.{mysignalpidfile, sigterm}
use ipcop_alpine.Os.{
  Os, M, pure, ◌>>=◌, ◌>>◌, choose, when, for_each, exit, call, act, system, syslog, access,
  minus_one,
}

pub data AccountOption : Type 0 where
  emptyall emptyulogd init verbose help unknown : AccountOption

pub record AccountFlags : Type 0 where
  pub flag_empty_all : Bool
  pub flag_empty_ulogd : Bool
  pub flag_init : Bool

unfoldable pub read_options : List AccountOption → AccountFlags → M AccountFlags
read_options [] f = pure f
read_options (emptyall ∷ options) f = read_options options (record f { flag_empty_all = true })
read_options (emptyulogd ∷ options) f = read_options options (record f { flag_empty_ulogd = true })
read_options (init ∷ options) f = read_options options (record f { flag_init = true })
read_options (verbose ∷ options) f = read_options options f
read_options (help ∷ options) f = exit 0
read_options (unknown ∷ options) f = exit 1

abbrev pub vnstat_pid : Bytes
vnstat_pid = codes "/var/run/vnstat.pid"

-- Whether accounting is on, and in high detail.
pub record Detail : Type 0 where
  pub enabled : Bool
  pub high : Bool

unfoldable pub detail_of : Kv → Detail
detail_of kv =
    let on = test_kv kv (codes "ENABLED") (codes "on") == success in
    record {
      enabled = on;
      high = on && (test_kv kv (codes "DETAIL_LEVEL") (codes "High") == success);
    }

abbrev pub nflog_options : Bytes
nflog_options = codes "-j NFLOG --nflog-group 1 --nflog-threshold 50 --nflog-range 48"

unfoldable pub rule_command : Bytes → Bytes → Bytes → Bytes → Bytes
rule_command chain direction dev_id iface = snprintf string_size_large (
    concat (
      codes "/usr/sbin/iptables -A ACCOUNT_"
      ∷ chain
      ∷ direction
      ∷ iface
      ∷ codes " "
      ∷ nflog_options
      ∷ codes " --nflog-prefix "
      ∷ dev_id
      ∷ codes "_"
      ∷ chain
      ∷ []))

unfoldable pub vnstat_command : Bytes → Bytes → Bytes
vnstat_command dev_id iface = snprintf string_size_large (
    concat (
      codes "/usr/bin/vnstat --update --iface "
      ∷ iface
      ∷ codes " --nick "
      ∷ dev_id
      ∷ codes " > /dev/null"
      ∷ []))

unfoldable pub flush_command : Bytes → Bytes
flush_command chain = concat (codes "/usr/sbin/iptables -F ACCOUNT_" ∷ chain ∷ [])

-- The interfaces that are accounted, with their names: those of all colours, and RED_1 for a modem.
unfoldable pub card_interfaces : Ethernet → List Colour → List (Bytes × Bytes)
card_interfaces e [] = []
card_interfaces e (colour ∷ colours) =
    let rest = card_interfaces e colours in
    let dev_id = snprintf string_size (colour_text colour ++ codes "_1") in
    if (card e colour).count == 0
    then rest
    else if is_red colour
    then if e.red_active then (dev_id, e.red_device) ∷ rest else rest
    else (dev_id, text_of (card e colour).device) ∷ rest

unfoldable pub modem_interface : Ethernet → List (Bytes × Bytes)
modem_interface e =
    if e.red_card.count == 0 && not (is_nil e.red_device)
    then (codes "RED_1", e.red_device) ∷ []
    else []

unfoldable pub interfaces : Ethernet → List (Bytes × Bytes)
interfaces e = card_interfaces e all_colours ++ modem_interface e

module _ (os : Os) where
  unfoldable pub add_device_rules : Bytes → Bytes → M (Unit {0})
  add_device_rules dev_id iface = do
    act os (system (rule_command (codes "INPUT") (codes " -i ") dev_id iface))
    act os (system (rule_command (codes "FORWARD_IN") (codes " -i ") dev_id iface))
    act os (system (rule_command (codes "FORWARD_OUT") (codes " -o ") dev_id iface))
    act os (system (rule_command (codes "OUTPUT") (codes " -o ") dev_id iface))

  unfoldable pub add_vnstat_db : Bytes → Bytes → M (Unit {0})
  add_vnstat_db dev_id iface = do
    rc ← call os (access (snprintf string_size (codes "/var/log/traffic/vnstat/" ++ iface)))
    when (rc == minus_one) do
      act os (
          syslog (
            snprintf string_size
              (concat (codes "Create vnstat DB for " ∷ iface ∷ codes " nick " ∷ dev_id ∷ []))))
      act os (system (vnstat_command dev_id iface))
      sent ← mysignalpidfile os vnstat_pid sigterm
      pure tt

  unfoldable pub empty_databases : AccountFlags → Detail → M (Unit {0})
  empty_databases f d = do
    when f.flag_empty_all do
      act os
          (system (codes "cp /var/ipcop/traffic/empty-aggregate.db /var/log/traffic/aggregate.db"))
      act os (syslog (codes "Traffic accounting DB emptied"))
    act os (system (codes "/usr/bin/killall ulogd"))
    act os (system (codes "cp /var/ipcop/traffic/empty-ulogd.db /var/log/traffic/ulogd.db"))
    when (d.enabled && d.high) (act os (system (codes "/usr/sbin/ulogd -d")))
    act os (syslog (codes "ulogd DB emptied"))
    exit 0

  unfoldable pub flush_rules : M (Unit {0})
  flush_rules = do
    act os (system (flush_command (codes "INPUT\n")))
    act os (system (flush_command (codes "FORWARD_IN\n")))
    act os (system (flush_command (codes "FORWARD_OUT\n")))
    act os (system (flush_command (codes "OUTPUT")))

  unfoldable pub add_interface : Bool → Bytes × Bytes → M (Unit {0})
  add_interface high (dev_id, iface) =
      choose high (add_device_rules dev_id iface) (add_vnstat_db dev_id iface)

  unfoldable pub start_daemon : Bool → M (Unit {0})
  start_daemon true = do
    missing ← call os (system (codes "/usr/bin/pgrep ulogd > /dev/null"))
    when (not (missing == 0)) (act os (system (codes "/usr/sbin/ulogd -d")))
  start_daemon false = do
    rc ← call os (access vnstat_pid)
    when (rc == minus_one) (act os (system (codes "/usr/sbin/vnstatd -d")))

  unfoldable pub start_accounting : Detail → M (Unit {0})
  start_accounting d = do
    (rc, e) ← read_ethernet_settings os true
    for_each (interfaces e) (add_interface d.high)
    start_daemon d.high

  unfoldable pub stop_daemons : Detail → M (Unit {0})
  stop_daemons d = do
    missing ← call os (system (codes "/usr/bin/pgrep ulogd > /dev/null"))
    when (missing == 0 && not (d.enabled && d.high))
        (act os (system (codes "/usr/bin/killall ulogd")))
    rc ← call os (access vnstat_pid)
    when (not (rc == minus_one) && not (d.enabled && not d.high))
        do sent ← mysignalpidfile os vnstat_pid sigterm; pure tt

  unfoldable pub control : AccountFlags → M (Unit {0})
  control f = do
    (rc, kv) ← read_kv_from_file os [] (codes "/var/ipcop/traffic/settings")
    choose (not (rc == success)) (exit 1) do
      let d = detail_of kv
      when (f.flag_empty_ulogd || f.flag_empty_all) (empty_databases f d)
      flush_rules
      when d.enabled (start_accounting d)
      stop_daemons d
      exit 0

  unfoldable pub main : List AccountOption → M (Unit {0})
  main options = do
    require_setuid os
    f ←
        read_options options
          (record { flag_empty_all = false; flag_empty_ulogd = false; flag_init = false })
    control f
