-- ===== src/Progs/Ipsec/Control.antt =====
-- source/core/progs/ipsecctrl.c: `main`.
use ipcop_alpine.Prelude.{
  ℕ, Bool, true, false, not, ◌&&◌, ◌||◌, List, [], ◌∷◌, ◌++◌, Option, none, some, ◌==◌, ltb, ◌+◌,
  ◌-◌, ◌/◌, if◌then◌else◌,
}
use ipcop_alpine.Cstring.{Bytes, codes, string_size, snprintf, strcmp_eq, all_in}
use ipcop_alpine.Valid.{numbers}
use ipcop_alpine.Kv.{Kv, success, test_kv, find_kv_default}
use ipcop_alpine.Kv.File.{read_kv_from_file}
use ipcop_alpine.Ethernet.{
  Ethernet, card, Colour, red, blue, unassigned, colour_text, read_ethernet_settings,
}
use ipcop_alpine.Setuid.{require_setuid, sigchld}
use ipcop_alpine.Os.{
  Os, M, pure, ◌>>=◌, ◌>>◌, choose, when, for_each, crash, exit, call, act, contents, system,
  access, fopen_read, fclose, signal_default, minus_one,
}
use ipcop_alpine.Progs.Ipsec.{
  Tunnel, Scan, decode_line, scan_lines, getline_lines, ipsec_config, turn_connection_on,
  turn_connection_off, add_alias_interfaces,
}

pub data IpsecOption : Type 0 where
  start stop : Option Bytes → IpsecOption
  status reload wait verbose help unknown : IpsecOption

pub record IpsecFlags : Type 0 where
  pub flag_start : Bool
  pub flag_stop : Bool
  pub flag_status : Bool
  pub flag_reload : Bool
  pub flag_wait : Bool
  pub flag_verbose : Bool
  pub connection : Option Bytes

abbrev pub no_flags : IpsecFlags
no_flags = record {
  flag_start = false;
  flag_stop = false;
  flag_status = false;
  flag_reload = false;
  flag_wait = false;
  flag_verbose = false;
  connection = none;
}

-- An option without an argument keeps the connection of one before it.
unfoldable pub or_connection : Option Bytes → Option Bytes → Option Bytes
or_connection none old = old
or_connection (some optarg) old = some optarg

unfoldable pub read_options : List IpsecOption → IpsecFlags → M IpsecFlags
unfolding or_connection
read_options [] f = pure f
read_options (start optarg ∷ options) f =
    read_options options
      (record f { flag_start = true; connection = or_connection optarg f.connection })
read_options (stop optarg ∷ options) f =
    read_options options
      (record f { flag_stop = true; connection = or_connection optarg f.connection })
read_options (status ∷ options) f = read_options options (record f { flag_status = true })
read_options (reload ∷ options) f = read_options options (record f { flag_reload = true })
read_options (wait ∷ options) f = read_options options (record f { flag_wait = true })
read_options (verbose ∷ options) f = read_options options (record f { flag_verbose = true })
read_options (help ∷ options) f = exit 0
read_options (unknown ∷ options) f = exit 1

abbrev pub needs_work : IpsecFlags → Bool
needs_work f = f.flag_start || (f.flag_stop || (f.flag_status || f.flag_reload))

unfoldable pub is_key : Option Bytes → Bool
is_key none = true
is_key (some key) = all_in numbers key

-- `connection != NULL`
unfoldable pub has_key : Option Bytes → Bool
has_key none = false
has_key (some key) = true

-- ENABLED_RED_1, ENABLED_BLUE_1 and ENABLED_----_1
unfoldable pub enabled_key : Colour → Bytes
enabled_key colour = snprintf string_size (codes "ENABLED_" ++ (colour_text colour ++ codes "_1"))

-- The loop over all but GREEN and ORANGE, NONE included: the number of enabled cards. It exits at one that has no device.
unfoldable pub count_enabled : Kv → Ethernet → List Colour → ℕ → M ℕ
count_enabled kv e [] n = pure n
count_enabled kv e (colour ∷ colours) n =
    choose (test_kv kv (enabled_key colour) (codes "on") == success)
      (choose (ltb (card e colour).count 1) (exit 1) (count_enabled kv e colours (n + 1)))
      (count_enabled kv e colours n)

unfoldable pub delay_command : Kv → Bytes
delay_command kv =
    snprintf (string_size - 1)
      (codes "sleep " ++ (find_kv_default kv (codes "VPN_DELAYED_START") (codes "0")).1)

module _ (os : Os) where
  unfoldable pub ipsec_running : M Bool
  ipsec_running = do
    rc ← call os (access (codes "/var/run/pluto/pluto.pid"))
    pure (not (rc == minus_one))

  -- Shut pluto down where it runs, and reset the firewall rules.
  unfoldable pub stop_ipsec : M (Unit {0})
  stop_ipsec = do
    act os (system (codes "/usr/bin/vpn-watch --stop"))
    running ← ipsec_running
    when running (act os (system (codes "rc-service ipsec stop 2>/dev/null")))
    act os (system (codes "/usr/bin/setfwrules --ipcop"))
    exit 0

  -- The operations that do not need to start the IPsec system.
  unfoldable pub plain_operations : IpsecFlags → M (Unit {0})
  plain_operations f = choose f.flag_stop stop_ipsec (
      choose f.flag_reload (do act os (system (codes "/usr/sbin/ipsec auto --rereadall")); exit 0)
        (when f.flag_status do
          running ← ipsec_running
          when running (act os (system (codes "/usr/sbin/ipsec auto --status")))
          exit 0))

  unfoldable pub start_pluto : Bool → M (Unit {0})
  start_pluto chatty = do
    rc ← call os (system (codes "/sbin/modinfo ipsec 2>/dev/null"))
    when (rc == 0) do
      act os (system (codes "/sbin/modprobe ipsec"))
      act os (
          system (
            if chatty
            then codes "/usr/sbin/ipsec tncfg --clear"
            else codes "/usr/sbin/ipsec tncfg --clear >/dev/null"))
    act os (
        system (
          if chatty
          then codes "rc-service ipsec restart"
          else codes "rc-service ipsec restart >/dev/null"))

  -- `(enable_red + enable_blue) >> 1` is the number of interfaces in use.
  unfoldable pub start_system : IpsecFlags → Kv → Ethernet → Scan → M (Unit {0})
  start_system f kv e s = do
    when f.flag_wait (act os (system (delay_command kv)))
    start_pluto f.flag_verbose
    add_alias_interfaces os f.flag_verbose e ((s.enable_red + s.enable_blue) / 2)
    when (not (has_key f.connection))
        do act os (system (codes "/usr/bin/vpn-watch --start")); exit 0

  -- Whether the system has to be started first.
  unfoldable pub must_start : IpsecFlags → M Bool
  must_start f = choose (not f.flag_start) (pure false) (
      choose (not (has_key f.connection)) (pure true)
        do running ← ipsec_running; pure (not running))

  -- `strcmp(connection, key)` reads through a connection that is NULL.
  unfoldable pub same_key : Option Bytes → Bytes → M Bool
  same_key none key = crash
  same_key (some connection) key = pure (strcmp_eq connection key)

  -- One line of the loop that searches the connection.
  unfoldable pub handle_tunnel : IpsecFlags → Option Tunnel → M (Unit {0})
  handle_tunnel f none = pure tt
  handle_tunnel f (some t) = do
    same ← same_key f.connection t.key
    when same do
      when f.flag_start (turn_connection_on os f.flag_verbose t.name t.type)
      when f.flag_stop (turn_connection_off os f.flag_verbose t.name)

  unfoldable pub find_connection : IpsecFlags → M (Unit {0})
  find_connection f = do
    opened ← call os (fopen_read ipsec_config)
    when (not (opened == 0)) (exit 1)
    text ← contents os ipsec_config
    for_each (getline_lines text) (λ line. handle_tunnel f (decode_line line))
    act os (fclose ipsec_config)
    act os (system (codes "/usr/bin/vpn-watch --start"))
    exit 0

  -- Behind the scan of the tunnels.
  unfoldable pub finish : IpsecFlags → Kv → Ethernet → Scan → M (Unit {0})
  finish f kv e s = choose (s.enable_red == 1 || s.enable_blue == 1) (exit 1) do
    act os (system (codes "/usr/bin/setfwrules --ipcop"))
    choose (s.enable_red + s.enable_blue == 0) (exit 0)
        do needed ← must_start f; when needed (start_system f kv e s); find_connection f

  unfoldable pub run_tunnels : IpsecFlags → M (Unit {0})
  run_tunnels f = do
    act os (system (codes "/usr/bin/vpn-watch --stop"))
    (erc, e) ← read_ethernet_settings os true
    (rc, kv) ← read_kv_from_file os [] (codes "/var/ipcop/ipsec/settings")
    choose (not (rc == success)) (exit 1) do
      n ← count_enabled kv e (red ∷ blue ∷ unassigned ∷ []) 0
      choose (n == 0) stop_ipsec do
        opened ← call os (fopen_read ipsec_config)
        when (not (opened == 0)) (exit 1)
        text ← contents os ipsec_config
        act os (fclose ipsec_config)
        finish f kv e
            (scan_lines e (getline_lines text) (record { enable_red = 0; enable_blue = 0 }))

  unfoldable pub control : IpsecFlags → M (Unit {0})
  control f = choose (not (needs_work f && is_key f.connection)) (exit 1) do
    require_setuid os
    act os (signal_default sigchld)
    when (not (has_key f.connection)) (plain_operations f)
    run_tunnels f

  unfoldable pub main : List IpsecOption → M (Unit {0})
  main options = do f ← read_options options no_flags; control f
