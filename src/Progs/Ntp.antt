-- ===== src/Progs/Ntp.antt =====
-- source/core/progs/restartntpd.c
use ipcop_alpine.Prelude.{
  ℕ, Bool, true, false, not, ◌&&◌, ◌||◌, List, [], ◌∷◌, ◌++◌, ◌==◌, ltb, ◌+◌, ◌-◌, if◌then◌else◌,
}
use ipcop_alpine.Cstring.{Bytes, codes, string_size, snprintf, concat, text_of}
use ipcop_alpine.Kv.{Kv, success, test_kv, find_kv_default}
use ipcop_alpine.Kv.File.{read_kv_from_file}
use ipcop_alpine.Ethernet.{Ethernet, Card, read_ethernet_settings}
use ipcop_alpine.Setuid.{require_setuid}
use ipcop_alpine.Progs.Signal.{mysignalpidfile, sigterm}
use ipcop_alpine.Os.{
  Os, M, pure, ◌>>=◌, ◌>>◌, choose, when, exit, call, act, system, access, unlink, sleep, minus_one,
}

pub data NtpOption : Type 0 where
  after_red force verbose help unknown : NtpOption

pub record NtpFlags : Type 0 where
  pub flag_red : Bool
  pub flag_quick : Bool
  pub flag_verbose : ℕ

unfoldable pub read_options : List NtpOption → NtpFlags → M NtpFlags
read_options [] f = pure f
read_options (after_red ∷ options) f = read_options options (record f { flag_red = true })
read_options (force ∷ options) f = read_options options (record f { flag_quick = true })
read_options (verbose ∷ options) f =
    read_options options (record f { flag_verbose = f.flag_verbose + 1 })
read_options (help ∷ options) f = exit 0
read_options (unknown ∷ options) f = exit 1

abbrev pub red_flagfile : Bytes
red_flagfile = codes "/var/run/ntpdate-red"

abbrev pub ntpd_pid : Bytes
ntpd_pid = codes "/var/run/ntpd.pid"

unfoldable pub ntp_server : Kv → Bytes → Bytes
ntp_server kv index = (find_kv_default kv (codes "NTP_ADDR_" ++ index) []).1

-- The servers stand on the command line as they are in the settings.
unfoldable pub sync_command : Kv → Bool → Bytes
sync_command kv chatty = concat (
    (if chatty then codes "/usr/bin/ntpdate -U ntp -u" else codes "/usr/bin/ntpdate -U ntp -su")
    ∷ codes " "
    ∷ ntp_server kv (codes "1")
    ∷ codes " "
    ∷ ntp_server kv (codes "2")
    ∷ codes " "
    ∷ ntp_server kv (codes "3")
    ∷ (if chatty then [] else codes " >/dev/null 2>/dev/null")
    ∷ [])

unfoldable pub redirect_command : Card → Bytes
redirect_command k = snprintf (string_size - 1) (
    concat (
      codes "/usr/sbin/iptables -t nat -A NTP -i "
      ∷ text_of k.device
      ∷ codes " -p udp --dport 123 ! -d "
      ∷ text_of k.address
      ∷ codes " -j DNAT --to "
      ∷ text_of k.address
      ∷ []))

module _ (os : Os) where
  unfoldable pub stop_ntpd : Bool → M (Unit {0})
  stop_ntpd enabled = do
    running ← call os (access ntpd_pid)
    when (not (running == minus_one)) do
      act os (system (codes "/usr/sbin/iptables -t nat -F NTP"))
      rc ← mysignalpidfile os ntpd_pid sigterm
      when (not (rc == success)) (exit 0)
      act os (unlink ntpd_pid)
      when enabled (act os (sleep 1))

  -- It returns the status of the last of the first two commands, of which the system keeps 8 bits.
  unfoldable pub start_ntpd : NtpFlags → Kv → Ethernet → Bool → Bool → M (Unit {0})
  start_ntpd f kv e enabled redirect = do
    sync_rc ←
        (choose (enabled && (f.flag_red || f.flag_quick))
          (call os (system (sync_command kv (ltb 0 f.flag_verbose)))) (pure 0))
    rc ←
        (choose enabled (call os (system (codes "/usr/bin/ntpd -p /var/run/ntpd.pid -u ntp:ntp")))
          (pure sync_rc))
    when (enabled && redirect) do
      when (not (e.green_card.count == 0)) (act os (system (redirect_command e.green_card)))
      when (not (e.blue_card.count == 0)) (act os (system (redirect_command e.blue_card)))
    exit rc

  -- After an update of RED there is work only where the flag file stands.
  unfoldable pub check_red : Bool → M (Unit {0})
  check_red flag_red = when flag_red do
    there ← call os (access red_flagfile)
    choose (there == minus_one) (exit 0) (act os (unlink red_flagfile))

  unfoldable pub restart : NtpFlags → M (Unit {0})
  restart f = do
    (rc, kv) ← read_kv_from_file os [] (codes "/var/ipcop/time/settings")
    choose (not (rc == success)) (exit 1) do
      let enabled = test_kv kv (codes "ENABLED_NTP") (codes "on") == success
      let redirect = enabled && (test_kv kv (codes "ENABLED_NTP_REDIRECT") (codes "on") == success)
      check_red f.flag_red
      (erc, e) ← read_ethernet_settings os true
      stop_ntpd enabled
      start_ntpd f kv e enabled redirect

  unfoldable pub main : List NtpOption → M (Unit {0})
  main options = do
    require_setuid os
    f ← read_options options (record { flag_red = false; flag_quick = false; flag_verbose = 0 })
    restart f
