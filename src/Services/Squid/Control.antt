-- ===== src/Services/Squid/Control.antt =====
-- source/services/squid/progs/restartsquid.c: `main`.
use ipcop_alpine.Prelude.{
  ℕ, zero, suc, Bool, true, false, not, ◌&&◌, ◌||◌, List, [], ◌∷◌, none, some, ◌==◌, if◌then◌else◌,
}
use ipcop_alpine.Cstring.{Bytes, codes, string_size, snprintf, strcmp_eq, text_of, is_nil, concat}
use ipcop_alpine.Valid.{valid_ip}
use ipcop_alpine.Kv.{Kv, success, test_kv, find_kv_default}
use ipcop_alpine.Kv.File.{read_kv_from_file}
use ipcop_alpine.Ethernet.{Ethernet, read_ethernet_settings}
use ipcop_alpine.Setuid.{require_setuid}
use ipcop_alpine.Services.Squid.{setdirectipsec, set_transparent}
use ipcop_alpine.Os.{
  Os, M, pure, ◌>>=◌, ◌>>◌, choose, when, exit, crash, call, act, system, unpriv_system, access,
  unlink, sleep, stat, getpwnam, pw_uid, pw_gid, minus_one,
}

pub data SquidOption : Type 0 where
  test flush repair config waitpid verbose help unknown : SquidOption

pub record SquidFlags : Type 0 where
  pub flag_test : Bool
  pub flag_flush : Bool
  pub flag_repair : Bool
  pub flag_waitpid : Bool

abbrev pub no_flags : SquidFlags
no_flags = record {
  flag_test = false;
  flag_flush = false;
  flag_repair = false;
  flag_waitpid = false;
}

abbrev pub squid_pid : Bytes
squid_pid = codes "/var/run/squid.pid"

abbrev pub swap_state : Bytes
swap_state = codes "/var/log/cache/swap.state"

-- The three networks: where the proxy is on, and where it is on and transparent.
pub record ProxySettings : Type 0 where
  pub enabled_green : Bool
  pub enabled_blue : Bool
  pub enabled_ovpn : Bool
  pub transparent_green : Bool
  pub transparent_blue : Bool
  pub transparent_ovpn : Bool

unfoldable pub is_on : Kv → Bytes → Bool
is_on kv key = test_kv kv key (codes "on") == success

-- `PROXY_PORT` is read, too, and not used.
unfoldable pub proxy_settings : Kv → ProxySettings
unfolding is_on
proxy_settings kv = record {
  enabled_green = is_on kv (codes "ENABLED_GREEN_1");
  enabled_blue = is_on kv (codes "ENABLED_BLUE_1");
  enabled_ovpn = is_on kv (codes "ENABLED_OVPN");
  transparent_green = is_on kv (codes "TRANSPARENT_GREEN_1");
  transparent_blue = is_on kv (codes "TRANSPARENT_BLUE_1");
  transparent_ovpn = is_on kv (codes "TRANSPARENT_OVPN");
}

-- `enabled_IPsec`: RED first, then BLUE over what is left in the buffer.
unfoldable pub ipsec_enabled : Kv → Bool
ipsec_enabled kv =
    let red_value = (find_kv_default kv (codes "ENABLED_RED_1") []).1 in
    let blue_value = (find_kv_default kv (codes "ENABLED_BLUE_1") red_value).1 in
    strcmp_eq (if strcmp_eq red_value (codes "on") then red_value else blue_value) (codes "on")

-- Where RED traffic goes: its network, its address, or unknown. `type` is `red_type`.
unfoldable pub destination_of : Ethernet → Bytes → Bytes
destination_of e type =
    if strcmp_eq type (codes "STATIC")
    then snprintf string_size
        (concat (text_of e.red_card.address ∷ codes "/" ∷ text_of e.red_card.netmask ∷ []))
    else if not (is_nil e.red_address) && valid_ip e.red_address
    then snprintf string_size e.red_address
    else []

module _ (os : Os) where
  unfoldable pub read_options : List SquidOption → SquidFlags → M SquidFlags
  read_options [] f = pure f
  read_options (test ∷ options) f = read_options options (record f { flag_test = true })
  read_options (flush ∷ options) f = read_options options (record f { flag_flush = true })
  read_options (repair ∷ options) f = read_options options (record f { flag_repair = true })
  read_options (waitpid ∷ options) f = read_options options (record f { flag_waitpid = true })
  read_options (verbose ∷ options) f = read_options options f
  read_options (config ∷ options) f = do
    act os (system (snprintf string_size (codes "/usr/bin/makesquidconf.pl")))
    exit 0
  read_options (help ∷ options) f = exit 0
  read_options (unknown ∷ options) f = exit 1

  unfoldable pub squid_running : M Bool
  squid_running = do rc ← call os (access squid_pid); pure (not (rc == minus_one))

  -- `while ((c++ < 15) && running) sleep(1);` on the rounds that are left.
  unfoldable pub await_end : ℕ → M (Unit {0})
  await_end zero = pure tt
  await_end (suc n) = do running ← squid_running; when running (do act os (sleep 1); await_end n)

  -- `while (!running && (c < 15)) { c++; sleep(1); }` on the rounds that are left.
  unfoldable pub await_start : ℕ → M (Unit {0})
  await_start zero = do running ← squid_running; pure tt
  await_start (suc n) = do
    running ← squid_running
    when (not running) (do act os (sleep 1); await_start n)

  unfoldable pub stop_squid : Bool → M (Unit {0})
  stop_squid flag_test = do
    first ← squid_running
    when (not first && flag_test) (exit 0)
    running ← squid_running
    when running do
      act os (system (codes "/usr/sbin/iptables -t nat -F SQUID"))
      act os (system (codes "/usr/sbin/squid -k shutdown >/dev/null 2>/dev/null"))
      await_end 15
      still ← squid_running
      when still (act os (system (codes "/usr/bin/killall -9 squid >/dev/null 2>/dev/null")))
    left ← squid_running
    when left (act os (unlink squid_pid))

  -- A command as the user squid.
  unfoldable pub as_squid : Bytes → M (Unit {0})
  as_squid command = do
    uid ← call os (pw_uid (codes "squid"))
    gid ← call os (pw_gid (codes "squid"))
    act os (unpriv_system command uid gid)

  -- `getpwnam` gives NULL, 0, where there is no such user.
  unfoldable pub flush_cache : Bool → M (Unit {0})
  flush_cache asked = when asked do
    pw ← call os (getpwnam (codes "squid"))
    when (not (pw == 0)) (as_squid (codes "/bin/rm -rf /var/log/cache/*"))

  -- Whether squid is to be started so that it checks its cache.
  unfoldable pub repair_cache : Bool → M Bool
  repair_cache asked = choose (not asked) (pure false) do
    pw ← call os (getpwnam (codes "squid"))
    choose (pw == 0) (pure false) do
      rc ← call os (stat swap_state)
      when (rc == 0) (as_squid (codes "/bin/rm -f /var/log/cache/swap.state"))
      pure true

  unfoldable pub start_squid : Bool → M (Unit {0})
  start_squid saferestart = do
    act os (system (codes "/usr/bin/setfwrules --ipcop"))
    act os (system (codes "/usr/sbin/squid -s -z -N 2>/dev/null"))
    act os (sleep 1)
    act os (system (codes "/sbin/rc-service e2guardian restart >/dev/null 2>/dev/null"))
    act os
        (system (if saferestart then codes "/usr/sbin/squid -s -S" else codes "/usr/sbin/squid -s"))

  -- `strcmp` reads through a `red_type` that was not set.
  unfoldable pub red_destination : Ethernet → M Bytes
  red_destination e = elim e.red_type [ none ↦ crash | some type ↦ pure (destination_of e type) ]

  unfoldable pub set_rules : ProxySettings → Ethernet → Bytes → M (Unit {0})
  set_rules p e destination = do
    set_transparent os (p.transparent_green && p.enabled_green) (text_of e.green_card.device)
        destination
    set_transparent os (p.transparent_blue && p.enabled_blue) (text_of e.blue_card.device)
        destination
    set_transparent os (p.transparent_ovpn && p.enabled_ovpn) (codes "tun0") destination

  -- From the started squid on.
  unfoldable pub redirect : SquidFlags → ProxySettings → Ethernet → M (Unit {0})
  redirect f p e = do
    when (p.transparent_green && (p.enabled_green && (e.green_card.count == 0))) (exit 1)
    when (p.transparent_blue && (p.enabled_blue && (e.blue_card.count == 0))) (exit 1)
    (rc, kv) ← read_kv_from_file os [] (codes "/var/ipcop/ipsec/settings")
    when (not (rc == success)) (exit 1)
    when (ipsec_enabled kv) (
        setdirectipsec os (p.enabled_green && p.transparent_green)
          (p.enabled_blue && p.transparent_blue) e)
    destination ← red_destination e
    set_rules p e destination
    when f.flag_waitpid (await_start 15)
    exit 0

  unfoldable pub restart : SquidFlags → M (Unit {0})
  restart f = do
    stop_squid f.flag_test
    flush_cache f.flag_flush
    saferestart ← repair_cache f.flag_repair
    (rc, kv) ← read_kv_from_file os [] (codes "/var/ipcop/proxy/settings")
    when (not (rc == success)) (exit 1)
    let p = proxy_settings kv
    when (not (p.enabled_green || (p.enabled_blue || p.enabled_ovpn))) (exit 0)
    there ← call os (access (codes "/var/ipcop/proxy/squid.conf"))
    when (there == minus_one) (exit 1)
    (erc, e) ← read_ethernet_settings os true
    start_squid saferestart
    redirect f p e

  unfoldable pub main : List SquidOption → M (Unit {0})
  main options = do require_setuid os; f ← read_options options no_flags; restart f
