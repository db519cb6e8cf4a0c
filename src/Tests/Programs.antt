-- ===== src/Tests/Programs.antt =====
-- The programs on a system where every call succeeds and every file holds one line.
use ipcop_alpine.Prelude.{
  ◌+◌, ◌≡◌, ◌≤◌, ◌↔◌, refl, List, [], ◌∷◌, ◌++◌, true, some, arith, All, length, take, false,
}
use ipcop_alpine.Cstring.{Bytes, codes, c_string, all_in, strtok_tokens, strcmp_eq, from, concat}
use ipcop_alpine.Valid.{valid_ip, in_range, scan_ip}
use ipcop_alpine.Os.{
  for_each, when, act, pure, ◌>>=◌, choose, call, exit, Os, History, done, replaced, history_of,
  setgid, setuid, execve,
}
use ipcop_alpine.Number.{print_decimal}
use ipcop_alpine.Kv.{find_kv, Kv}
use ipcop_alpine.Ethernet.{Ethernet, zapped, read_ethernet_settings}
use ipcop_alpine.Ethernet.Laws.{Ends, read_ethernet_settings-Ends}
use ipcop_alpine.Progs.Red.{RedFlags}
use ipcop_alpine.Setuid.{
  require_setuid, initsetuid, ignore_signals, close_descriptors, descriptor_open, count_from,
  drop_privileges, run_child, Ready, timeout, error, ready, exec_shell,
}
use ipcop_alpine.Setuid.Calls.{OnCommands}
use ipcop_alpine.Setuid.Initial.{initsetuid-Dropped}
use ipcop_alpine.Setuid.Privileges.{Dropped, AsUser, run_child-AsUser}
use ipcop_alpine.Setuid.Strlcat.{strlcat}
use ipcop_alpine.Setuid.Strlcat.Text.{NotNul, room_of, strlcat-text}
use ipcop_alpine.Progs.Aliases
use ipcop_alpine.Progs.Aliases.{AliasOption}
use ipcop_alpine.Progs.Aliases.Commands.{AliasCommand, main-AliasCommand}
use ipcop_alpine.Progs.FwRules
use ipcop_alpine.Progs.FwRules.{FwOption}
use ipcop_alpine.Progs.FwRules.Commands.{FwCommand, main-FwCommand}
use ipcop_alpine.Progs.Signal.{mysignalpidfile, sigterm}
use ipcop_alpine.Progs.Signal.Safety.{KillsProcess, mysignalpidfile-KillsProcess}
use ipcop_alpine.Progs.Hosts.{
  fault, host_line, host_text, printed, chop_last, token_line, check_host, valid_host,
}
use ipcop_alpine.Progs.Hosts.Lines.{IsHost, host_line-IsHost, host_line-fault}
use ipcop_alpine.Progs.Shaping.{
  ShapingRates, rates_from, rule_of, commands, rule_command, proto_number, checked_rule,
  port_numbers,
}
use ipcop_alpine.Progs.Shaping.Limits.{IsSound, rates_from-IsSound}
use ipcop_alpine.Progs.Accounting.{interfaces, card_interfaces, modem_interface}
use ipcop_alpine.Progs.Accounting.Interfaces.{IsAccounted, interfaces-IsAccounted}

abbrev quiet : Os
quiet = record { status = λ h c. 0; text = λ h file. codes "10.0.0.1,on,office,24\n" }

main-AliasCommand_example :
    All (OnCommands AliasCommand) (history_of (Aliases.main quiet (AliasOption.verbose ∷ []) []))
main-AliasCommand_example = main-AliasCommand quiet (AliasOption.verbose ∷ [])

main-FwCommand_example :
    All
      (OnCommands FwCommand)
      (history_of (FwRules.main quiet (FwOption.cron ∷ FwOption.force (codes "INPUT") ∷ []) []))
main-FwCommand_example = main-FwCommand quiet (FwOption.cron ∷ FwOption.force (codes "INPUT") ∷ [])

read_ethernet_settings-Ends_example : Ends true (read_ethernet_settings quiet true [])
read_ethernet_settings-Ends_example = read_ethernet_settings-Ends quiet true []

abbrev after_setuid : History
after_setuid = history_of (initsetuid quiet [])

initsetuid_run : initsetuid quiet [] ≡ done 1 after_setuid
unfolding initsetuid ignore_signals close_descriptors descriptor_open drop_privileges count_from
    for_each when act call pure ◌>>=◌ choose
initsetuid_run = refl

initsetuid-Dropped_example : (before : History) × Dropped quiet before after_setuid
initsetuid-Dropped_example = initsetuid-Dropped quiet [] after_setuid initsetuid_run

abbrev child_calls : History
child_calls = execve (codes "ls") ∷ setuid 1001 ∷ setgid 1002 ∷ []

child_run : run_child quiet (codes "ls") 1001 1002 [] ≡ replaced child_calls
unfolding run_child exec_shell pure ◌>>=◌ choose call exit
child_run = refl

run_child-AsUser_example : AsUser quiet (codes "ls") 1001 1002 [] child_calls
run_child-AsUser_example = run_child-AsUser quiet (codes "ls") 1001 1002 [] child_calls child_run

setuid_run : require_setuid quiet [] ≡ done tt after_setuid
unfolding require_setuid initsetuid ignore_signals close_descriptors descriptor_open drop_privileges
    count_from for_each when act call pure ◌>>=◌ choose
setuid_run = refl

abbrev restart_flags : RedFlags
restart_flags = record { flag_start = true; flag_stop = true; flag_clear = false }

abbrev reports : List Ready
reports = ready true 5000 true 10 ∷ error ∷ ready true 7 true 0 ∷ timeout ∷ []

abbrev ab : Bytes
ab = 97 ∷ 98 ∷ []

ab-NotNul : All NotNul ab
ab-NotNul = (omega arith, (omega arith, tt))

strlcat-text_example :
    (c_string (strlcat (ab ++ 0 ∷ 0 ∷ 0 ∷ []) ab 4).1 ≡ ab ++ take (room_of ab 4) ab)
    × ((strlcat (ab ++ 0 ∷ 0 ∷ 0 ∷ []) ab 4).0 ≡ length ab + length ab)
    × (length (strlcat (ab ++ 0 ∷ 0 ∷ 0 ∷ []) ab 4).1 ≡ length (ab ++ 0 ∷ 0 ∷ 0 ∷ []))
strlcat-text_example =
    strlcat-text ab (0 ∷ 0 ∷ []) ab 4 ab-NotNul ab-NotNul (omega arith) (omega arith)

mysignalpidfile-KillsProcess_example :
    All KillsProcess (history_of (mysignalpidfile quiet (codes "/var/run/ntpd.pid") sigterm []))
mysignalpidfile-KillsProcess_example =
    mysignalpidfile-KillsProcess quiet (codes "/var/run/ntpd.pid") sigterm

abbrev dhcp_settings : Kv
dhcp_settings = record { key = codes "ENABLED_GREEN_1"; value = codes "on" } ∷ []

abbrev host_entry : Bytes
host_entry = codes "on,192.168.1.7,printer,lan\n"

abbrev host_result : Bytes
host_result = codes "192.168.1.7\tprinter.lan\tprinter\n"

host_line_printed : host_line host_entry ≡ printed host_result
unfolding host_line codes chop_last token_line strtok_tokens strcmp_eq check_host valid_ip all_in
    in_range scan_ip from valid_host host_text concat
host_line_printed = refl

host_line-IsHost_example : IsHost host_result
host_line-IsHost_example = host_line-IsHost host_entry host_line_printed

host_line-fault_example : (host_line (codes "\n") ≡ fault) ↔ (length (codes "\n") ≤ 1)
host_line-fault_example = host_line-fault (codes "\n")

abbrev some_rates : ShapingRates
some_rates = record { r2q = 64; uplink = 1013; downlink = 8151 }

some_rates_lem : rates_from (some 1024) (some 8192) ≡ some some_rates
unfolding rates_from
some_rates_lem = refl

rates_from-IsSound_example : IsSound 1024 8192 some_rates
rates_from-IsSound_example = rates_from-IsSound 1024 8192 (omega arith) (omega arith) some_rates_lem

abbrev shaping_settings : Kv
shaping_settings = record { key = codes "UPLINK"; value = codes "1024" } ∷ []

shaping_uplink : find_kv shaping_settings (codes "UPLINK") ≡ some (print_decimal 1024)
unfolding find_kv codes print_decimal strcmp_eq
shaping_uplink = refl

abbrev rule_fields : List Bytes
rule_fields = codes "tcp" ∷ codes "80" ∷ codes "10" ∷ codes "on" ∷ []

abbrev rule_lines : List Bytes
rule_lines =
    rule_command (codes "wan-1") (codes "14") (codes "6") (codes "dport") (codes "80") (codes "10")
    ∷ rule_command (codes "wan-1") (codes "15") (codes "6") (codes "sport") (codes "80")
        (codes "10")
    ∷ []

rule_of_tcp : rule_of (codes "wan-1") rule_fields ≡ commands rule_lines
unfolding rule_of codes checked_rule proto_number strcmp_eq all_in port_numbers
rule_of_tcp = refl

abbrev modem : Ethernet
modem = record zapped { red_device = codes "ppp0" }

interfaces-modem : interfaces modem ≡ (codes "RED_1", codes "ppp0") ∷ []
unfolding interfaces card_interfaces modem_interface codes
interfaces-modem = refl

interfaces-IsAccounted_example : All (IsAccounted modem) (interfaces modem)
interfaces-IsAccounted_example = interfaces-IsAccounted modem
