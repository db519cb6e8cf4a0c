-- ===== src/Services/Suricata.antt =====
-- source/services/suricata/progs/restartsuricata.c: the configuration and the rules. The rest of the
-- program is in Control.
pub mod Control
use ipcop_alpine.Prelude.{
  ℕ, Bool, true, false, not, ◌&&◌, ◌||◌, List, [], ◌∷◌, ◌++◌, Option, none, some, ◌==◌, ◌+◌, ◌-◌,
  if◌then◌else◌,
}
use ipcop_alpine.Cstring.{Bytes, codes, concat, string_size, snprintf, strcmp_eq, text_of, is_nil}
use ipcop_alpine.Number.{print_decimal}
use ipcop_alpine.Kv.{Kv, success, test_kv, find_kv_default}
use ipcop_alpine.Kv.File.{read_kv_from_file}
use ipcop_alpine.Ethernet.{Ethernet, Card, read_ethernet_settings}
use ipcop_alpine.Setuid.{require_setuid}
use ipcop_alpine.Os.{
  Os, M, pure, ◌>>=◌, ◌>>◌, choose, when, for_each, exit, call, act, system, access, fopen_write,
  fprintf, fclose, minus_one,
}

-- The settings that both the configuration and the rules read.
pub record SuricataSettings : Type 0 where
  pub mode : Bytes
  pub home_net : Bytes
  pub monitor_green : Bool
  pub monitor_blue : Bool
  pub monitor_red : Bool

unfoldable pub is_on : Kv → Bytes → Bool
is_on kv key = test_kv kv key (codes "on") == success

unfoldable pub suricata_settings : Kv → SuricataSettings
unfolding is_on
suricata_settings kv = record {
  mode = (find_kv_default kv (codes "MODE") (codes "ids")).1;
  home_net = (find_kv_default kv (codes "HOME_NET") []).1;
  monitor_green = is_on kv (codes "MONITOR_GREEN");
  monitor_blue = is_on kv (codes "MONITOR_BLUE");
  monitor_red = is_on kv (codes "MONITOR_RED");
}

-- A card that counts for HOME_NET: there, and with an address.
unfoldable pub has_net : Card → Bool
has_net k = not (k.count == 0) && not (is_nil (text_of k.address))

unfoldable pub net_of : Card → Bytes
net_of k = concat (text_of k.address ∷ codes "/" ∷ text_of k.netmask ∷ [])

-- The networks of GREEN and BLUE, in brackets, as the buffer of 255 bytes takes them.
unfoldable pub auto_net : Ethernet → Bytes
unfolding has_net net_of
auto_net e =
    let green_net = if has_net e.green_card then net_of e.green_card else [] in
    let blue_net = if has_net e.blue_card then net_of e.blue_card else [] in
    let comma = if has_net e.green_card && has_net e.blue_card then codes "," else [] in
    snprintf string_size (concat (codes "[" ∷ green_net ∷ comma ∷ blue_net ∷ codes "]" ∷ []))

unfoldable pub home_net_of : SuricataSettings → Ethernet → Bytes
unfolding auto_net
home_net_of s e =
    if strcmp_eq s.home_net (codes "auto") || is_nil s.home_net then auto_net e else s.home_net

-- The device of RED: that of its card, or that of the connection where the card names none.
unfoldable pub red_dev : Ethernet → Bytes
red_dev e = elim e.red_card.device [
  | none ↦ e.red_device
  | some device ↦ if is_nil device then e.red_device else device
]

-- The interfaces that are watched, in the order GREEN, BLUE, RED.
unfoldable pub monitored : SuricataSettings → Ethernet → List Bytes
unfolding red_dev
monitored s e =
    (if s.monitor_green && not (e.green_card.count == 0)
      then text_of e.green_card.device ∷ []
      else [])
    ++ ((if s.monitor_blue && not (e.blue_card.count == 0)
          then text_of e.blue_card.device ∷ []
          else [])
        ++ (if s.monitor_red && (not (e.red_card.count == 0) && not (is_nil (red_dev e)))
            then red_dev e ∷ []
            else []))

-- What `generate_config` writes before HOME_NET.
unfoldable pub header_lines : List Bytes
header_lines =
    codes "%YAML 1.1\n"
    ∷ codes "---\n"
    ∷ codes "# IPCop-generated Suricata configuration\n"
    ∷ codes "# Do not edit manually - changes will be overwritten\n\n"
    ∷ codes "vars:\n"
    ∷ codes "  address-groups:\n"
    ∷ []

-- From HOME_NET to the interfaces.
unfoldable pub middle_lines : List Bytes
middle_lines =
    codes "    EXTERNAL_NET: \"!$HOME_NET\"\n"
    ∷ codes "    HTTP_SERVERS: \"$HOME_NET\"\n"
    ∷ codes "    SMTP_SERVERS: \"$HOME_NET\"\n"
    ∷ codes "    SQL_SERVERS: \"$HOME_NET\"\n"
    ∷ codes "    DNS_SERVERS: \"$HOME_NET\"\n"
    ∷ codes "    TELNET_SERVERS: \"$HOME_NET\"\n"
    ∷ codes "    AIM_SERVERS: \"$EXTERNAL_NET\"\n"
    ∷ codes "    DC_SERVERS: \"$HOME_NET\"\n"
    ∷ codes "    DNP3_SERVER: \"$HOME_NET\"\n"
    ∷ codes "    DNP3_CLIENT: \"$HOME_NET\"\n"
    ∷ codes "    MODBUS_CLIENT: \"$HOME_NET\"\n"
    ∷ codes "    MODBUS_SERVER: \"$HOME_NET\"\n"
    ∷ codes "    ENIP_CLIENT: \"$HOME_NET\"\n"
    ∷ codes "    ENIP_SERVER: \"$HOME_NET\"\n"
    ∷ codes "  port-groups:\n"
    ∷ codes "    HTTP_PORTS: \"80\"\n"
    ∷ codes "    SHELLCODE_PORTS: \"!80\"\n"
    ∷ codes "    ORACLE_PORTS: \"1521\"\n"
    ∷ codes "    SSH_PORTS: \"22\"\n"
    ∷ codes "    DNP3_PORTS: \"20000\"\n"
    ∷ codes "    MODBUS_PORTS: \"502\"\n"
    ∷ codes "    FILE_DATA_PORTS: \"[$HTTP_PORTS,110,143]\"\n"
    ∷ codes "    FTP_PORTS: \"21\"\n"
    ∷ codes "    GENEVE_PORTS: \"6081\"\n"
    ∷ codes "    VXLAN_PORTS: \"4789\"\n"
    ∷ codes "    TEREDO_PORTS: \"3544\"\n\n"
    ∷ codes "default-log-dir: /var/log/suricata\n\n"
    ∷ codes "logging:\n"
    ∷ codes "  default-log-level: info\n"
    ∷ codes "  outputs:\n"
    ∷ codes "  - console:\n"
    ∷ codes "      enabled: yes\n"
    ∷ codes "  - file:\n"
    ∷ codes "      enabled: yes\n"
    ∷ codes "      filename: /var/log/suricata/suricata.log\n\n"
    ∷ []

-- Behind the interfaces.
unfoldable pub footer_lines : List Bytes
footer_lines =
    codes "\noutputs:\n"
    ∷ codes "  - fast:\n"
    ∷ codes "      enabled: yes\n"
    ∷ codes "      filename: fast.log\n"
    ∷ codes "  - eve-log:\n"
    ∷ codes "      enabled: yes\n"
    ∷ codes "      filetype: regular\n"
    ∷ codes "      filename: eve.json\n"
    ∷ codes "      types:\n"
    ∷ codes "        - alert\n"
    ∷ codes "        - http\n"
    ∷ codes "        - dns\n"
    ∷ codes "        - tls\n\n"
    ∷ codes "rule-files:\n"
    ∷ codes "  - suricata.rules\n\n"
    ∷ codes "# Use emerging threats open ruleset\n"
    ∷ codes "default-rule-path: /var/lib/suricata/rules\n"
    ∷ []

-- The lines of one interface.
unfoldable pub nfq_lines : List Bytes → List Bytes
nfq_lines [] = []
nfq_lines (device ∷ devices) =
    codes "  - mode: accept\n" ∷ codes "    fail-open: yes\n" ∷ nfq_lines devices

unfoldable pub packet_lines : List Bytes → List Bytes
packet_lines [] = []
packet_lines (device ∷ devices) =
    concat (codes "  - interface: " ∷ device ∷ codes "\n" ∷ [])
    ∷ codes "    threads: auto\n"
    ∷ codes "    cluster-type: cluster_flow\n"
    ∷ codes "    defrag: yes\n"
    ∷ packet_lines devices

unfoldable pub interface_lines : SuricataSettings → Ethernet → List Bytes
unfolding nfq_lines packet_lines monitored
interface_lines s e =
    if strcmp_eq s.mode (codes "ips")
    then codes "# Inline IPS mode (nfqueue)\n" ∷ codes "nfq:\n" ∷ nfq_lines (monitored s e)
    else codes "# IDS mode (af-packet)\n" ∷ codes "af-packet:\n" ∷ packet_lines (monitored s e)

unfoldable pub config_lines : SuricataSettings → Ethernet → List Bytes
unfolding header_lines middle_lines footer_lines interface_lines home_net_of
config_lines s e =
    header_lines
    ++ (concat (codes "    HOME_NET: \"" ∷ home_net_of s e ∷ codes "\"\n" ∷ []) ∷ [])
    ++ middle_lines
    ++ interface_lines s e
    ++ footer_lines

unfoldable pub nfqueue_command : Bytes → ℕ → Bytes
nfqueue_command device queue = snprintf string_size (
    concat (
      codes "/usr/sbin/iptables -A SURICATA -i "
      ∷ device
      ∷ codes " -j NFQUEUE --queue-num "
      ∷ print_decimal queue
      ∷ []))
