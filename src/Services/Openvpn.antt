-- ===== src/Services/Openvpn.antt =====
-- source/services/openvpn/progs/restartopenvpn.c
use ipcop_alpine.Prelude.{
  ℕ, Bool, true, false, not, ◌&&◌, ◌||◌, List, [], ◌∷◌, ◌++◌, ◌==◌, ltb, ◌+◌,
}
use ipcop_alpine.Cstring.{Bytes, codes, string_size, snprintf}
use ipcop_alpine.Kv.{Kv, success, test_kv}
use ipcop_alpine.Kv.File.{read_kv_from_file}
use ipcop_alpine.Ethernet.{
  Ethernet, card, Colour, red, blue, orange, unassigned, is_red, colour_text,
  read_ethernet_settings,
}
use ipcop_alpine.Setuid.{require_setuid}
use ipcop_alpine.Progs.Signal.{mysignalpidfile, sigterm}
use ipcop_alpine.Os.{
  Os, M, pure, ◌>>=◌, ◌>>◌, choose, when, exit, call, act, system, access, sleep, minus_one,
}

pub data OpenvpnOption : Type 0 where
  start stop restart status config verbose help unknown : OpenvpnOption

pub record OpenvpnFlags : Type 0 where
  pub flag_start : Bool
  pub flag_stop : Bool
  pub flag_restart : Bool
  pub flag_status : Bool

abbrev pub no_flags : OpenvpnFlags
no_flags = record {
  flag_start = false;
  flag_stop = false;
  flag_restart = false;
  flag_status = false;
}

unfoldable pub config_command : Bytes
config_command = snprintf string_size (
    codes
      "/usr/bin/perl -e \"use NetAddr::IP; require '/usr/lib/ipcop/vpn-functions.pl'; &VPN::writeovpnserverconf();\"")

-- ENABLED_RED_1 and so on.
unfoldable pub enabled_key : Colour → Bytes
enabled_key colour = snprintf string_size (codes "ENABLED_" ++ (colour_text colour ++ codes "_1"))

-- The loop over all but GREEN, NONE included. An enabled card must be there, but RED may be a modem.
unfoldable pub count_enabled : Kv → Ethernet → List Colour → ℕ → M ℕ
count_enabled kv e [] n = pure n
count_enabled kv e (colour ∷ colours) n =
    choose (test_kv kv (enabled_key colour) (codes "on") == success)
      (choose (ltb (card e colour).count 1 && not (is_red colour)) (exit 1)
        (count_enabled kv e colours (n + 1)))
      (count_enabled kv e colours n)

abbrev pub openvpn_pid : Bytes
openvpn_pid = codes "/var/run/openvpn.pid"

module _ (os : Os) where
  -- The configuration is written while the options are read, before `initsetuid`.
  unfoldable pub read_options : List OpenvpnOption → OpenvpnFlags → M OpenvpnFlags
  read_options [] f = pure f
  read_options (start ∷ options) f = read_options options (record f { flag_start = true })
  read_options (stop ∷ options) f = read_options options (record f { flag_stop = true })
  read_options (restart ∷ options) f = read_options options (record f { flag_restart = true })
  read_options (status ∷ options) f = read_options options (record f { flag_status = true })
  read_options (config ∷ options) f = do act os (system config_command); exit 0
  read_options (verbose ∷ options) f = read_options options f
  read_options (help ∷ options) f = exit 0
  read_options (unknown ∷ options) f = exit 1

  unfoldable pub show_status : M (Unit {0})
  show_status = do
    there ← call os (access (codes "/var/log/openvpnserver.log"))
    when (not (there == minus_one)) (act os (system (codes "cat /var/log/openvpnserver.log")))
    exit 0

  unfoldable pub stop_server : OpenvpnFlags → M (Unit {0})
  stop_server f = do
    running ← call os (access openvpn_pid)
    when (not (running == minus_one)) do
      rc ← mysignalpidfile os openvpn_pid sigterm
      when (not (rc == success)) (exit 0)
      act os (system (codes "/bin/rm -f /var/run/openvpn.pid"))
      when (f.flag_start || f.flag_restart) (act os (sleep 1))

  unfoldable pub start_server : OpenvpnFlags → Ethernet → M (Unit {0})
  start_server f e = do
    (rc, kv) ← read_kv_from_file os [] (codes "/var/ipcop/openvpn/settings")
    choose (not (rc == success)) (exit 1) do
      n ← count_enabled kv e (red ∷ blue ∷ orange ∷ unassigned ∷ []) 0
      when (not (n == 0) && (f.flag_start || f.flag_restart)) do
        act os (system (codes "/sbin/modprobe tun"))
        act os (system (codes "/usr/sbin/openvpn --config /var/ipcop/openvpn/server.conf"))
      act os (system (codes "/usr/bin/setfwrules --ipcop"))
      exit 0

  unfoldable pub control : OpenvpnFlags → M (Unit {0})
  control f =
      choose (not (f.flag_start || (f.flag_stop || (f.flag_restart || f.flag_status)))) (exit 1) do
        require_setuid os
        when f.flag_status show_status
        stop_server f
        (erc, e) ← read_ethernet_settings os true
        start_server f e

  unfoldable pub main : List OpenvpnOption → M (Unit {0})
  main options = do f ← read_options options no_flags; control f
