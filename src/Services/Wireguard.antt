-- ===== src/Services/Wireguard.antt =====
-- source/services/wireguard/progs/restartwireguard.c
use ipcop_alpine.Prelude.{Bool, true, false, not, ◌&&◌, ◌||◌, List, [], ◌∷◌, ◌==◌}
use ipcop_alpine.Cstring.{codes}
use ipcop_alpine.Kv.{success, test_kv}
use ipcop_alpine.Kv.File.{read_kv_from_file}
use ipcop_alpine.Setuid.{require_setuid}
use ipcop_alpine.Os.{Os, M, pure, ◌>>=◌, ◌>>◌, choose, when, exit, act, system}

pub data WireguardOption : Type 0 where
  start stop restart verbose help unknown : WireguardOption

pub record WireguardFlags : Type 0 where
  pub flag_start : Bool
  pub flag_stop : Bool
  pub flag_restart : Bool

unfoldable pub read_options : List WireguardOption → WireguardFlags → M WireguardFlags
read_options [] f = pure f
read_options (start ∷ options) f = read_options options (record f { flag_start = true })
read_options (stop ∷ options) f = read_options options (record f { flag_stop = true })
read_options (restart ∷ options) f = read_options options (record f { flag_restart = true })
read_options (verbose ∷ options) f = read_options options f
read_options (help ∷ options) f = exit 0
read_options (unknown ∷ options) f = exit 1

module _ (os : Os) where
  -- What a disabled WireGuard is brought to.
  unfoldable pub disable : M (Unit {0})
  disable = do
    act os (system (codes "/sbin/rc-service wireguard stop > /dev/null 2>&1"))
    act os (system (codes "/sbin/rc-update del wireguard default 2>/dev/null"))
    exit 0

  unfoldable pub apply : WireguardFlags → M (Unit {0})
  apply f = do
    act os (system (codes "/sbin/rc-update add wireguard default 2>/dev/null"))
    choose f.flag_start
        (act os (system (codes "/sbin/rc-service wireguard start > /dev/null 2>&1")))
        (choose f.flag_stop
          (act os (system (codes "/sbin/rc-service wireguard stop > /dev/null 2>&1")))
          (when f.flag_restart
            (act os (system (codes "/sbin/rc-service wireguard restart > /dev/null 2>&1")))))
    exit 0

  -- Settings that cannot be read count as disabled.
  unfoldable pub control : WireguardFlags → M (Unit {0})
  control f = choose (not (f.flag_start || (f.flag_stop || f.flag_restart))) (exit 1) do
    (rc, kv) ← read_kv_from_file os [] (codes "/var/ipcop/wireguard/settings")
    choose (rc == success && (test_kv kv (codes "ENABLED") (codes "on") == success)) (apply f)
        disable

  unfoldable pub main : List WireguardOption → M (Unit {0})
  main options = do
    require_setuid os
    f ←
        read_options options
          (record { flag_start = false; flag_stop = false; flag_restart = false })
    control f
