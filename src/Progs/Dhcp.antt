-- ===== src/Progs/Dhcp.antt =====
-- source/core/progs/restartdhcp.c
pub mod Check
use ipcop_alpine.Prelude.{
  ℕ, ◌+◌, Bool, true, false, not, List, [], ◌∷◌, ◌++◌, ◌==◌, ltb, if◌then◌else◌,
}
use ipcop_alpine.Cstring.{Bytes, codes, string_size, snprintf}
use ipcop_alpine.Kv.{Kv, success, test_kv}
use ipcop_alpine.Kv.File.{read_kv_from_file}
use ipcop_alpine.Ethernet.{
  Colour, green, blue, orange, colour_text, Ethernet, Card, card, read_ethernet_settings,
}
use ipcop_alpine.Setuid.{require_setuid}
use ipcop_alpine.Os.{Os, M, pure, ◌>>=◌, ◌>>◌, choose, when, exit, act, system}

pub data DhcpOption : Type 0 where
  boot sighup verbose help unknown : DhcpOption

pub record DhcpFlags : Type 0 where
  pub flag_boot : Bool
  pub flag_sighup : Bool

unfoldable pub read_options : List DhcpOption → DhcpFlags → M DhcpFlags
read_options [] f = pure f
read_options (boot ∷ options) f = read_options options (record f { flag_boot = true })
read_options (sighup ∷ options) f = read_options options (record f { flag_sighup = true })
read_options (verbose ∷ options) f = read_options options f
read_options (help ∷ options) f = exit 0
read_options (unknown ∷ options) f = exit 1

-- ENABLED_GREEN_1 and so on; MAX_NETWORK_COLOUR is 1.
unfoldable pub enabled_key : Colour → Bytes
enabled_key colour = snprintf string_size (codes "ENABLED_" ++ (colour_text colour ++ codes "_1"))

unfoldable pub is_enabled : Kv → Colour → Bool
is_enabled kv colour = test_kv kv (enabled_key colour) (codes "on") == success

-- GREEN, BLUE and ORANGE, in the order of the loop.
abbrev pub dhcp_colours : List Colour
dhcp_colours = green ∷ blue ∷ orange ∷ []

-- The loop: the number of enabled cards. It exits at one that has no device.
unfoldable pub count_enabled : Kv → Ethernet → List Colour → ℕ → M ℕ
count_enabled kv e [] n = pure n
count_enabled kv e (colour ∷ colours) n =
    choose (is_enabled kv colour)
      (choose (ltb (card e colour).count 1) (exit 1) (count_enabled kv e colours (n + 1)))
      (count_enabled kv e colours n)

unfoldable pub hangup_command : Bytes
hangup_command = codes "/usr/bin/killall -HUP dnsmasq"

unfoldable pub restart_command : Bytes
restart_command = codes "/sbin/rc-service dnsmasq restart"

module _ (os : Os) where
  unfoldable pub restart : DhcpFlags → Ethernet → M (Unit {0})
  restart f e = do
    (rc, kv) ← read_kv_from_file os [] (codes "/var/ipcop/dhcp/settings")
    choose (not (rc == success)) (exit 1) do
      n ← count_enabled kv e dhcp_colours 0
      choose f.flag_sighup (act os (system hangup_command))
          (when (not f.flag_boot) (act os (system restart_command)))
      exit 0

  unfoldable pub main : List DhcpOption → M (Unit {0})
  main options = do
    require_setuid os
    f ← read_options options (record { flag_boot = false; flag_sighup = false })
    (rc, e) ← read_ethernet_settings os true
    restart f e
