-- ===== src/Progs/FwRules.antt =====
-- source/core/progs/setfwrules.c
pub mod Commands
use ipcop_alpine.Prelude.{ℕ, ◌+◌, Bool, true, false, not, ◌||◌, List, [], ◌∷◌, ltb, if◌then◌else◌}
use ipcop_alpine.Cstring.{Bytes, codes, string_size, snprintf, concat, strcmp_eq}
use ipcop_alpine.Setuid.{require_setuid}
use ipcop_alpine.Os.{Os, M, pure, ◌>>=◌, ◌>>◌, choose, when, exit, act, system}

pub data FwOption : Type 0 where
  all cron ipcop user wireless emergency verbose help unknown : FwOption
  force : Bytes → FwOption

pub record Flags : Type 0 where
  pub flag_all : Bool
  pub flag_cron : Bool
  pub flag_force : Bool
  pub flag_ipcop : Bool
  pub flag_user : Bool
  pub flag_wireless : Bool
  pub flag_emergency : Bool
  pub flag_verbose : ℕ
  pub opt_chain : Bytes

abbrev pub no_flags : Flags
no_flags = record {
  flag_all = false;
  flag_cron = false;
  flag_force = false;
  flag_ipcop = false;
  flag_user = false;
  flag_wireless = false;
  flag_emergency = false;
  flag_verbose = 0;
  opt_chain = [];
}

unfoldable pub is_chain : Bytes → Bool
is_chain chain =
    strcmp_eq chain (codes "INPUT")
    || (strcmp_eq chain (codes "OUTGOING")
        || (strcmp_eq chain (codes "EXTERNAL")
            || (strcmp_eq chain (codes "PINHOLES") || strcmp_eq chain (codes "PORTFW"))))

-- The option loop.
unfoldable pub read_options : List FwOption → Flags → M Flags
read_options [] f = pure f
read_options (all ∷ options) f = read_options options (record f { flag_all = true })
read_options (cron ∷ options) f = read_options options (record f { flag_cron = true })
read_options (ipcop ∷ options) f = read_options options (record f { flag_ipcop = true })
read_options (user ∷ options) f = read_options options (record f { flag_user = true })
read_options (wireless ∷ options) f = read_options options (record f { flag_wireless = true })
read_options (emergency ∷ options) f = read_options options (record f { flag_emergency = true })
read_options (verbose ∷ options) f =
    read_options options (record f { flag_verbose = f.flag_verbose + 1 })
read_options (help ∷ options) f = exit 0
read_options (unknown ∷ options) f = exit 1
read_options (force chain ∷ options) f =
    choose (not (is_chain chain)) (exit 2)
      (read_options options (record f { flag_force = true; opt_chain = chain }))

unfoldable pub emergency_command : Bytes
emergency_command =
    codes
      "/bin/sed -i -e s+ADMIN_GREEN_1.*+ADMIN_GREEN_1=on+ -e s+USE_ADMIN_MAC.*+USE_ADMIN_MAC=off+ /var/ipcop/firewall/settings"

-- The debug option, which never passes on more than level 1.
unfoldable pub opt_debug : ℕ → Bytes
opt_debug flag_verbose = if ltb 0 flag_verbose then codes "-d" else []

unfoldable pub puzzle_command : ℕ → Bytes → Bytes
puzzle_command flag_verbose action =
    snprintf string_size (
      concat
        (codes "/usr/bin/puzzleFwRules.pl " ∷ opt_debug flag_verbose ∷ codes " " ∷ action ∷ []))

unfoldable pub force_action : Bytes → Bytes
force_action chain = concat (codes "-f " ∷ chain ∷ [])

module _ (os : Os) where
  unfoldable pub run_flags : Flags → M (Unit {0})
  run_flags f = do
    when f.flag_emergency (act os (system emergency_command))
    when f.flag_cron (act os (system (puzzle_command f.flag_verbose (codes "-c"))))
    when f.flag_all (act os (system (puzzle_command f.flag_verbose (codes "-a"))))
    when f.flag_force (act os (system (puzzle_command f.flag_verbose (force_action f.opt_chain))))
    when (f.flag_ipcop || f.flag_emergency)
        (act os (system (puzzle_command f.flag_verbose (codes "-i"))))
    when f.flag_user (act os (system (puzzle_command f.flag_verbose (codes "-u"))))
    when f.flag_wireless (act os (system (puzzle_command f.flag_verbose (codes "-w"))))
    exit 0

  unfoldable pub main : List FwOption → M (Unit {0})
  main options = do require_setuid os; f ← read_options options no_flags; run_flags f
