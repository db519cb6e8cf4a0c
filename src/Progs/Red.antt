-- ===== src/Progs/Red.antt =====
-- source/core/progs/red.c and conntrack_helper.c, which read their options before `initsetuid`.
pub mod Runs
use ipcop_alpine.Prelude.{Bool, true, false, not, ◌&&◌, List, [], ◌∷◌}
use ipcop_alpine.Cstring.{Bytes, codes}
use ipcop_alpine.Setuid.{require_setuid}
use ipcop_alpine.Os.{Os, M, pure, ◌>>=◌, ◌>>◌, choose, when, exit, act, system}

pub data RedOption : Type 0 where
  start stop clear verbose help unknown : RedOption

pub record RedFlags : Type 0 where
  pub flag_start : Bool
  pub flag_stop : Bool
  pub flag_clear : Bool

unfoldable pub read_options : List RedOption → RedFlags → M RedFlags
read_options [] f = pure f
read_options (start ∷ options) f = read_options options (record f { flag_start = true })
read_options (stop ∷ options) f = read_options options (record f { flag_stop = true })
read_options (clear ∷ options) f = read_options options (record f { flag_clear = true })
read_options (verbose ∷ options) f = read_options options f
read_options (help ∷ options) f = exit 0
read_options (unknown ∷ options) f = exit 1

unfoldable pub stop_command : Bytes
stop_command = codes "rc-service ipcop-red stop"

unfoldable pub clear_command : Bytes
clear_command = codes "/etc/rc.d/rc.red clear"

unfoldable pub start_command : Bytes
start_command = codes "rc-service ipcop-red start"

unfoldable pub eroute_command : Bytes
eroute_command = codes "/bin/cat /proc/net/ipsec_eroute 2>/dev/null"

unfoldable pub conntrack_command : Bytes
conntrack_command = codes "/usr/sbin/conntrack -L -o xml 2>/dev/null"

pub data ConntrackOption : Type 0 where
  eroute verbose help unknown : ConntrackOption

unfoldable pub read_eroute : List ConntrackOption → Bool → M Bool
read_eroute [] flag = pure flag
read_eroute (eroute ∷ options) flag = read_eroute options true
read_eroute (verbose ∷ options) flag = read_eroute options flag
read_eroute (help ∷ options) flag = exit 0
read_eroute (unknown ∷ options) flag = exit 1

module _ (os : Os) where
  unfoldable pub run_red : RedFlags → M (Unit {0})
  run_red f = choose (not f.flag_start && (not f.flag_stop && not f.flag_clear)) (exit 1) do
    require_setuid os
    when f.flag_stop (act os (system stop_command))
    when f.flag_clear (act os (system clear_command))
    when f.flag_start (act os (system start_command))
    exit 0

  unfoldable pub red : List RedOption → M (Unit {0})
  red options = do
    f ← read_options options (record { flag_start = false; flag_stop = false; flag_clear = false })
    run_red f

  unfoldable pub conntrack_helper : List ConntrackOption → M (Unit {0})
  conntrack_helper options = do
    flag ← read_eroute options false
    require_setuid os
    choose flag (act os (system eroute_command)) (act os (system conntrack_command))
    exit 0
