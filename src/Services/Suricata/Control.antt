-- ===== src/Services/Suricata/Control.antt =====
-- source/services/suricata/progs/restartsuricata.c: `main` and what it calls.
use ipcop_alpine.Prelude.{ℕ, Bool, true, false, not, ◌&&◌, List, [], ◌∷◌, ◌==◌, ◌+◌}
use ipcop_alpine.Cstring.{Bytes, codes, strcmp_eq}
use ipcop_alpine.Kv.{success}
use ipcop_alpine.Kv.File.{read_kv_from_file}
use ipcop_alpine.Ethernet.{Ethernet, read_ethernet_settings}
use ipcop_alpine.Setuid.{require_setuid}
use ipcop_alpine.Os.{
  Os, M, pure, ◌>>=◌, ◌>>◌, choose, when, for_each, exit, call, act, system, access, fopen_write,
  fprintf, fclose, minus_one,
}
use ipcop_alpine.Services.Suricata.{
  SuricataSettings, is_on, suricata_settings, config_lines, monitored, nfqueue_command,
}

pub data SuricataOption : Type 0 where
  test verbose help unknown : SuricataOption

unfoldable pub read_options : List SuricataOption → Bool → M Bool
read_options [] flag_test = pure flag_test
read_options (test ∷ options) flag_test = read_options options true
read_options (verbose ∷ options) flag_test = read_options options flag_test
read_options (help ∷ options) flag_test = exit 0
read_options (unknown ∷ options) flag_test = exit 1

abbrev pub suricata_yaml : Bytes
suricata_yaml = codes "/var/ipcop/suricata/suricata.yaml"

module _ (os : Os) where
  unfoldable pub generate_config : SuricataSettings → Ethernet → M (Unit {0})
  generate_config s e = do
    opened ← call os (fopen_write suricata_yaml)
    when (not (opened == 0)) (exit 1)
    for_each (config_lines s e) (λ line. act os (fprintf suricata_yaml line))
    act os (fclose suricata_yaml)

  -- A queue for each interface, numbered from `queue` on.
  unfoldable pub add_queues : ℕ → List Bytes → M (Unit {0})
  add_queues queue [] = pure tt
  add_queues queue (device ∷ devices) = do
    act os (system (nfqueue_command device queue))
    add_queues (queue + 1) devices

  unfoldable pub setup_iptables : SuricataSettings → Ethernet → M (Unit {0})
  setup_iptables s e =
      when (strcmp_eq s.mode (codes "ips"))
        do act os (system (codes "/usr/sbin/iptables -F SURICATA")); add_queues 0 (monitored s e)

  unfoldable pub disable : M (Unit {0})
  disable = do
    act os (system (codes "/sbin/rc-service suricata stop"))
    act os (system (codes "/sbin/rc-update del suricata default 2>/dev/null"))
    exit 0

  unfoldable pub restart_service : M (Unit {0})
  restart_service = do
    act os (system (codes "/usr/bin/setfwrules --ipcop"))
    act os (system (codes "/sbin/rc-update add suricata default 2>/dev/null"))
    rc ← call os (system (codes "/sbin/rc-service suricata restart"))
    when (not (rc == 0)) do
      act os (system (codes "/sbin/rc-service suricata zap > /dev/null 2>&1"))
      act os (system (codes "/sbin/rc-service suricata stop > /dev/null 2>&1"))
      act os (system (codes "/sbin/rc-service suricata start"))

  unfoldable pub restart : Bool → M (Unit {0})
  restart flag_test = do
    running ← call os (access (codes "/var/run/suricata.pid"))
    when ((running == minus_one) && flag_test) (exit 0)
    (rc, kv) ← read_kv_from_file os [] (codes "/var/ipcop/suricata/settings")
    when (not (rc == success)) (exit 1)
    choose (not (is_on kv (codes "ENABLED"))) disable do
      (erc, e) ← read_ethernet_settings os true
      generate_config (suricata_settings kv) e
      setup_iptables (suricata_settings kv) e
      restart_service
      exit 0

  unfoldable pub main : List SuricataOption → M (Unit {0})
  main options = do require_setuid os; flag_test ← read_options options false; restart flag_test
