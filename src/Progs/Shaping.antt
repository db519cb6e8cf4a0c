-- ===== src/Progs/Shaping.antt =====
-- source/core/progs/restartshaping.c: the settings and the rules, and the commands they come to.
pub mod Limits
use ipcop_alpine.Prelude.{
  ℕ, ◌+◌, ◌-◌, ◌*◌, ◌/◌, ◌^◌, ◌≤◌, Bool, true, false, not, ◌&&◌, ◌||◌, List, [], ◌∷◌, ◌++◌, Option,
  none, some, ◌==◌, ltb, if◌then◌else◌, map,
}
use ipcop_alpine.Cstring.{
  Bytes, codes, string_size, snprintf, concat, strcmp_eq, all_in, is_nil, fgets_lines, chop_newline,
  strtok_tokens,
}
use ipcop_alpine.Number.{atoi, is_negative, print_decimal}
use ipcop_alpine.Valid.{numbers}
use ipcop_alpine.Kv.{Kv, success, test_kv, find_kv}
use ipcop_alpine.Kv.File.{read_kv_from_file}
use ipcop_alpine.Ethernet.{Ethernet, read_ethernet_settings}
use ipcop_alpine.Setuid.{require_setuid}
use ipcop_alpine.Os.{
  Os, M, pure, ◌>>=◌, ◌>>◌, choose, when, for_each, exit, call, act, contents, system, fopen_read,
  fclose,
}

pub data ShapingOption : Type 0 where
  verbose help unknown : ShapingOption

unfoldable pub read_options : List ShapingOption → ℕ → M ℕ
read_options [] n = pure n
read_options (verbose ∷ options) n = read_options options (n + 1)
read_options (help ∷ options) n = exit 0
read_options (unknown ∷ options) n = exit 1

-- The buffer has STRING_SIZE bytes, and `snprintf` is told one less.
abbrev pub command_line : List Bytes → Bytes
command_line pieces = snprintf (string_size - 1) (concat pieces)

abbrev pub rules_file : Bytes
rules_file = codes "/var/ipcop/shaping/config"

-- The rates in kbit, from UPLINK and DOWNLINK.
pub record ShapingRates : Type 0 where
  pub r2q : ℕ
  pub uplink : ℕ
  pub downlink : ℕ

-- The value of a setting as it stands in the 256-byte buffer, read as an `int`.
unfoldable pub setting_number : Kv → Bytes → Option ℕ
setting_number kv key = elim (find_kv kv key) [
  | none ↦ none
  | some value ↦ some (atoi (snprintf string_size value))
]

-- `none` is `goto EXIT`. The products are those of `int` where `RatesFit` holds.
unfoldable pub rates_from : Option ℕ → Option ℕ → Option ShapingRates
rates_from none down = none
rates_from (some up) none = none
rates_from (some up) (some down) =
    if (up == 0 || is_negative up) || is_negative down
    then none
    else some
        (record { r2q = up * 1024 / 16384; uplink = up * 100 / 101; downlink = down * 200 / 201 })

unfoldable pub rates_of : Kv → Option ShapingRates
rates_of kv = rates_from (setting_number kv (codes "UPLINK")) (setting_number kv (codes "DOWNLINK"))

-- Below this the products stay within `int`.
abbrev pub RatesFit : ℕ → Type 0
RatesFit n = n * 1024 ≤ 2 ^ 31 - 1

unfoldable pub class_command : Bytes → Bytes → ℕ → ℕ → Bytes → Bytes
class_command iface class_id rate ceiling prio = command_line (
    codes "/sbin/tc class add dev "
    ∷ iface
    ∷ codes " parent 1:1 classid 1:"
    ∷ class_id
    ∷ codes " htb rate "
    ∷ print_decimal rate
    ∷ codes "kbit ceil "
    ∷ print_decimal ceiling
    ∷ codes "kbit prio "
    ∷ prio
    ∷ [])

-- The rate of a class, in tenths of the uplink.
unfoldable pub share : ℕ → ℕ → ℕ
share tenths uplink = tenths * uplink / 10

unfoldable pub queue_command : Bytes → Bytes → Bytes
queue_command iface class_id = command_line (
    codes "/sbin/tc qdisc add dev "
    ∷ iface
    ∷ codes " parent 1:"
    ∷ class_id
    ∷ codes " handle "
    ∷ class_id
    ∷ codes ": sfq perturb 10"
    ∷ [])

unfoldable pub uplink_commands : Bytes → ShapingRates → List Bytes
uplink_commands iface r =
    command_line (
      codes "/sbin/tc qdisc add dev "
      ∷ iface
      ∷ codes " root handle 1: htb default 20 r2q "
      ∷ print_decimal r.r2q
      ∷ [])
    ∷ command_line (
        codes "/sbin/tc class add dev "
        ∷ iface
        ∷ codes " parent 1: classid 1:1 htb rate "
        ∷ print_decimal r.uplink
        ∷ codes "kbit"
        ∷ [])
    ∷ class_command iface (codes "10") (share 8 r.uplink) r.uplink (codes "1")
    ∷ class_command iface (codes "20") (share 6 r.uplink) r.uplink (codes "2")
    ∷ class_command iface (codes "30") (share 4 r.uplink) r.uplink (codes "3")
    ∷ queue_command iface (codes "10")
    ∷ queue_command iface (codes "20")
    ∷ queue_command iface (codes "30")
    ∷ command_line (
        codes "/sbin/tc filter add dev "
        ∷ iface
        ∷ codes " parent 1:0 protocol ip prio 10 u32 match ip tos 0x10 0xff flowid 1:10"
        ∷ [])
    ∷ command_line (
        codes "/sbin/tc filter add dev "
        ∷ iface
        ∷ codes " parent 1:0 protocol ip prio 10 u32 match ip protocol 1 0xff flowid 1:10"
        ∷ [])
    ∷ command_line (
        codes "/sbin/tc filter add dev "
        ∷ iface
        ∷ codes
            " parent 1: protocol ip prio 10 u32 match ip protocol 6 0xff match u8 0x05 0x0f at 0 match u16 0x0000 0xffc0 at 2 match u8 0x10 0xff at 33 flowid 1:10"
        ∷ [])
    ∷ []

unfoldable pub port_numbers : Bytes
port_numbers = codes ":-" ++ numbers

-- A line of the rules: it ends the loop, it ends the program, or it gives commands.
pub data Rule : Type 0 where
  stop refuse : Rule
  commands : List Bytes → Rule

unfoldable pub rule_command : Bytes → Bytes → Bytes → Bytes → Bytes → Bytes → Bytes
rule_command iface filter_prio proto direction port prio = command_line (
    codes "/sbin/tc filter add dev "
    ∷ iface
    ∷ codes " parent 1: protocol ip prio "
    ∷ filter_prio
    ∷ codes " u32 match ip protocol "
    ∷ proto
    ∷ codes " 0xff match ip "
    ∷ direction
    ∷ codes " "
    ∷ port
    ∷ codes " 0xffff flowid 1:"
    ∷ prio
    ∷ [])

unfoldable pub proto_number : Bytes → Option Bytes
proto_number protocol =
    if strcmp_eq protocol (codes "tcp")
    then some (codes "6")
    else if strcmp_eq protocol (codes "udp")
    then some (codes "17")
    else none

unfoldable pub checked_rule : Bytes → Option Bytes → Bytes → Bytes → Bytes → Rule
checked_rule iface none port prio enabled = refuse
checked_rule iface (some proto) port prio enabled =
    if not (all_in port_numbers port)
    then refuse
    else if not (all_in numbers prio)
    then refuse
    else if strcmp_eq enabled (codes "on")
    then commands (
        rule_command iface (codes "14") proto (codes "dport") port prio
        ∷ rule_command iface (codes "15") proto (codes "sport") port prio
        ∷ [])
    else commands []

unfoldable pub rule_of : Bytes → List Bytes → Rule
rule_of iface (protocol ∷ port ∷ prio ∷ enabled ∷ _) =
    checked_rule iface (proto_number protocol) port prio enabled
rule_of iface _ = stop

unfoldable pub default_command : Bytes → Bytes
default_command iface = command_line (
    codes "/sbin/tc filter add dev "
    ∷ iface
    ∷ codes " parent 1: protocol ip prio 18 u32 match ip dst 0.0.0.0/0 flowid 1:20"
    ∷ [])

unfoldable pub downlink_commands : Bytes → ℕ → List Bytes
downlink_commands iface downlink =
    if ltb 0 downlink
    then command_line (codes "/sbin/tc qdisc add dev " ∷ iface ∷ codes " handle ffff: ingress" ∷ [])
      ∷ command_line (
          codes "/sbin/tc filter add dev "
          ∷ iface
          ∷ codes " parent ffff: protocol ip prio 50 u32 match ip src 0.0.0.0/0 police rate "
          ∷ print_decimal downlink
          ∷ codes "kbit burst 10k drop flowid :1"
          ∷ [])
      ∷ []
    else []

unfoldable pub delete_command : Bytes → Bytes → ℕ → Bytes
delete_command iface qdisc flag_verbose = command_line (
    codes "/sbin/tc qdisc del dev "
    ∷ iface
    ∷ codes " "
    ∷ qdisc
    ∷ codes " "
    ∷ (if flag_verbose == 0 then codes "2>/dev/null" else [])
    ∷ [])

module _ (os : Os) where
  unfoldable pub run_all : List Bytes → M (Unit {0})
  run_all lines = for_each lines (λ line. act os (system line))

  unfoldable pub run_rule : Rule → M Bool → M Bool
  run_rule stop more = pure true
  run_rule refuse more = pure false
  run_rule (commands lines) more = do run_all lines; more

  -- The loop over the rules; the result is whether the program goes on behind it.
  unfoldable pub run_rules : Bytes → List Bytes → M Bool
  run_rules iface [] = pure true
  run_rules iface (line ∷ lines) =
      run_rule (rule_of iface (strtok_tokens (chop_newline line))) (run_rules iface lines)

  -- The same, and whether the file is open.
  unfoldable pub read_rules : Bytes → M (Bool × Bool)
  read_rules iface = do
    opened ← call os (fopen_read rules_file)
    choose (not (opened == 0)) (pure (true, false)) do
      text ← contents os rules_file
      going ← run_rules iface (fgets_lines string_size text)
      pure (going, true)

  unfoldable pub finish_shaping : Bytes → ShapingRates → M (Unit {0})
  finish_shaping iface r = do
    act os (system (default_command iface))
    run_all (downlink_commands iface r.downlink)

  -- `EXIT:` closes the file.
  unfoldable pub shape : Bytes → ShapingRates → M (Unit {0})
  shape iface r = do
    run_all (uplink_commands iface r)
    (going, is_open) ← read_rules iface
    when going (finish_shaping iface r)
    when is_open (act os (fclose rules_file))
    exit 0

  unfoldable pub with_rates : Bytes → Option ShapingRates → M (Unit {0})
  with_rates iface none = exit 0
  with_rates iface (some r) = shape iface r

  unfoldable pub restart : ℕ → M (Unit {0})
  restart flag_verbose = do
    (rc, kv) ← read_kv_from_file os [] (codes "/var/ipcop/shaping/settings")
    choose (not (rc == success) || not (test_kv kv (codes "VALID") (codes "yes") == success))
        (exit 0)
        do
          (erc, e) ← read_ethernet_settings os true
          choose (is_nil e.red_device) (exit 1) do
            act os (system (delete_command e.red_device (codes "root") flag_verbose))
            act os (system (delete_command e.red_device (codes "ingress") flag_verbose))
            choose (not (test_kv kv (codes "ENABLE") (codes "on") == success)) (exit 0)
                (with_rates e.red_device (rates_of kv))

  unfoldable pub main : List ShapingOption → M (Unit {0})
  main options = do require_setuid os; flag_verbose ← read_options options 0; restart flag_verbose
