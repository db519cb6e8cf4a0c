-- ===== src/Progs/Sysinfo.antt =====
-- source/core/progs/sysinfo.c, iptableswrapper.c and rebuildlangtexts.c: programs that run a command
-- that their options choose.
use ipcop_alpine.Prelude.{
  ℕ, Bool, true, false, not, ◌||◌, List, [], ◌∷◌, ◌++◌, Option, none, some, ◌-◌, if◌then◌else◌,
}
use ipcop_alpine.Cstring.{Bytes, codes, concat, string_size, snprintf, strcmp_eq}
use ipcop_alpine.Setuid.{require_setuid}
use ipcop_alpine.Os.{Os, M, pure, ◌>>=◌, ◌>>◌, choose, when, exit, act, system}

pub data InfoOption : Type 0 where
  disk link mii pci raid : Bytes → InfoOption
  usb verbose help unknown : InfoOption

-- A flag with its argument is an option; the last one counts.
pub record InfoFlags : Type 0 where
  pub opt_drive : Option Bytes
  pub opt_eth : Option Bytes
  pub opt_mii : Option Bytes
  pub opt_slot : Option Bytes
  pub opt_raid : Option Bytes
  pub flag_usb : Bool

abbrev pub no_info : InfoFlags
no_info = record {
  opt_drive = none;
  opt_eth = none;
  opt_mii = none;
  opt_slot = none;
  opt_raid = none;
  flag_usb = false;
}

unfoldable pub read_options : List InfoOption → InfoFlags → M InfoFlags
read_options [] f = pure f
read_options (disk s ∷ options) f = read_options options (record f { opt_drive = some s })
read_options (link s ∷ options) f = read_options options (record f { opt_eth = some s })
read_options (mii s ∷ options) f = read_options options (record f { opt_mii = some s })
read_options (pci s ∷ options) f = read_options options (record f { opt_slot = some s })
read_options (raid s ∷ options) f = read_options options (record f { opt_raid = some s })
read_options (usb ∷ options) f = read_options options (record f { flag_usb = true })
read_options (verbose ∷ options) f = read_options options f
read_options (help ∷ options) f = exit 0
read_options (unknown ∷ options) f = exit 1

unfoldable pub is_given : Option Bytes → Bool
is_given none = false
is_given (some s) = true

unfoldable pub any_given : InfoFlags → Bool
unfolding is_given
any_given f =
    is_given f.opt_drive
    || (is_given f.opt_eth
        || (is_given f.opt_mii || (is_given f.opt_slot || (is_given f.opt_raid || f.flag_usb))))

unfoldable pub info_command : Bytes → Bytes → Bytes
info_command program argument = snprintf (string_size - 1) (program ++ argument)

abbrev pub table_size : ℕ
table_size = 1024

unfoldable pub is_table : Bytes → Bool
is_table s =
    strcmp_eq (codes "filter") s
    || (strcmp_eq (codes "mangle") s || (strcmp_eq (codes "nat") s || strcmp_eq (codes "raw") s))

-- The command for the arguments behind the name of the program. The buffer is static, so what is not
-- written is the empty text.
unfoldable pub table_command : List Bytes → Bytes
unfolding is_table
table_command (table ∷ []) =
    if is_table table
    then snprintf (table_size - 1)
        (concat (codes "/usr/sbin/iptables -t " ∷ table ∷ codes " --line-numbers -nvL" ∷ []))
    else []
table_command (word ∷ table ∷ chain ∷ []) =
    if strcmp_eq (codes "chain") word
    then snprintf (table_size - 1) (
        concat
          (codes "/usr/sbin/iptables -t " ∷ table ∷ codes " --line-numbers -nvL " ∷ chain ∷ []))
    else []
table_command _ = []

module _ (os : Os) where
  unfoldable pub run_info : Bytes → Option Bytes → M (Unit {0})
  run_info program none = pure tt
  run_info program (some argument) = act os (system (info_command program argument))

  unfoldable pub show_info : InfoFlags → M (Unit {0})
  show_info f = choose (not (any_given f)) (exit 2) do
    run_info (codes "/usr/sbin/hdparm -I /dev/") f.opt_drive
    run_info (codes "/usr/sbin/lspci -nvvvs ") f.opt_slot
    run_info (codes "/sbin/mdadm --detail /dev/") f.opt_raid
    when f.flag_usb (act os (system (codes "/usr/bin/lsusb")))
    run_info (codes "/usr/sbin/ethtool ") f.opt_eth
    run_info (codes "/sbin/mii-tool ") f.opt_mii
    exit 0

  unfoldable pub sysinfo : List InfoOption → M (Unit {0})
  sysinfo options = do require_setuid os; f ← read_options options no_info; show_info f

  unfoldable pub iptableswrapper : List Bytes → M (Unit {0})
  iptableswrapper [] = exit 1
  iptableswrapper (word ∷ words) = do
    require_setuid os
    act os (system (table_command (word ∷ words)))
    exit 0

  unfoldable pub rebuildlangtexts : M (Unit {0})
  rebuildlangtexts = do
    require_setuid os
    act os (system (codes "perl -e \"require '/usr/lib/ipcop/lang.pl'; &Lang::BuildAddonLang\""))
    exit 0
