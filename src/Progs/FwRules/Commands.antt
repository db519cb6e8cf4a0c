-- ===== src/Progs/FwRules/Commands.antt =====
-- The commands that setfwrules runs: fixed ones, and a forced update of one of five chains.
use ipcop_alpine.Prelude.{ℕ, ◌≡◌, Bool, true, ◌||◌, List, [], ◌∷◌, All, inl, inr, Bool-cases, arith}
use ipcop_alpine.Cstring.{Bytes, codes}
use ipcop_alpine.Os.{Os, Call, done, history_of, act, system, pure, exit, choose, when}
use ipcop_alpine.Os.Trace.{
  Keeps, keeps, Keeps-bind, Keeps-act, Keeps-exit, Keeps-choose, Keeps-bind_value, Keeps-when,
  Keeps-when-true,
}
use ipcop_alpine.Setuid.Calls.{OnCommands, require_setuid-Keeps}
use ipcop_alpine.Progs.FwRules.{
  FwOption, all, cron, ipcop, user, wireless, emergency, verbose, help, unknown, force, Flags,
  no_flags, is_chain, read_options, emergency_command, puzzle_command, force_action, run_flags,
  main,
}

pub data FwCommand : Bytes → Type 0 where
  open_green : FwCommand emergency_command
  check_time : (v : ℕ) → FwCommand (puzzle_command v (codes "-c"))
  update_all : (v : ℕ) → FwCommand (puzzle_command v (codes "-a"))
  update_ipcop : (v : ℕ) → FwCommand (puzzle_command v (codes "-i"))
  update_user : (v : ℕ) → FwCommand (puzzle_command v (codes "-u"))
  update_wireless : (v : ℕ) → FwCommand (puzzle_command v (codes "-w"))
  update_chain :
      (v : ℕ) (chain : Bytes)
      → is_chain chain ≡ true
      → FwCommand (puzzle_command v (force_action chain))

abbrev Kept : Call → Type 0
Kept = OnCommands FwCommand

-- A chain that is to be forced has been checked.
abbrev IsChecked : Flags → Type 0
IsChecked f = f.flag_force ≡ true → is_chain f.opt_chain ≡ true

read_options-IsChecked :
    (options : List FwOption) (f : Flags)
    → IsChecked f
    → (h h' : List Call) (g : Flags) → read_options options f h ≡ done g h'
    → IsChecked g
unfolding read_options pure exit choose
read_options-IsChecked [] f w h h' g e = λ c. ground (arith, w)
read_options-IsChecked (all ∷ options) f w h h' g e = read_options-IsChecked options _ w h h' g e
read_options-IsChecked (cron ∷ options) f w h h' g e = read_options-IsChecked options _ w h h' g e
read_options-IsChecked (ipcop ∷ options) f w h h' g e = read_options-IsChecked options _ w h h' g e
read_options-IsChecked (user ∷ options) f w h h' g e = read_options-IsChecked options _ w h h' g e
read_options-IsChecked (wireless ∷ options) f w h h' g e =
    read_options-IsChecked options _ w h h' g e
read_options-IsChecked (emergency ∷ options) f w h h' g e =
    read_options-IsChecked options _ w h h' g e
read_options-IsChecked (verbose ∷ options) f w h h' g e =
    read_options-IsChecked options _ w h h' g e
read_options-IsChecked (help ∷ options) f w h h' g e = cc
read_options-IsChecked (unknown ∷ options) f w h h' g e = cc
read_options-IsChecked (force chain ∷ options) f w h h' g e = elim (Bool-cases (is_chain chain)) [
  | inl good ↦ read_options-IsChecked options _ (λ _. good) h h' g (rw (good, choose) at e)
  | inr bad ↦ cc (rw (bad, choose) at e)
]

module _ (os : Os) where
  read_options-Keeps : (options : List FwOption) (f : Flags) → Keeps Kept (read_options options f)
  unfolding read_options
  read_options-Keeps [] f = search keeps
  read_options-Keeps (all ∷ options) f = read_options-Keeps options _
  read_options-Keeps (cron ∷ options) f = read_options-Keeps options _
  read_options-Keeps (ipcop ∷ options) f = read_options-Keeps options _
  read_options-Keeps (user ∷ options) f = read_options-Keeps options _
  read_options-Keeps (wireless ∷ options) f = read_options-Keeps options _
  read_options-Keeps (emergency ∷ options) f = read_options-Keeps options _
  read_options-Keeps (verbose ∷ options) f = read_options-Keeps options _
  read_options-Keeps (help ∷ options) f = search keeps
  read_options-Keeps (unknown ∷ options) f = search keeps
  read_options-Keeps (force chain ∷ options) f =
      Keeps-choose _ (search keeps) (read_options-Keeps options _)

  force-Keeps :
      (f : Flags)
      → IsChecked f
      → Keeps Kept (
          when f.flag_force
            (act os (system (puzzle_command f.flag_verbose (force_action f.opt_chain)))))
  force-Keeps f w =
      Keeps-when-true f.flag_force
        (λ e. Keeps-act os _ (update_chain f.flag_verbose f.opt_chain (w e)))

  run_flags-Keeps : (f : Flags) → IsChecked f → Keeps Kept (run_flags os f)
  unfolding run_flags
  run_flags-Keeps f w =
      let run = λ (b : Bool) (command : Bytes) (good : FwCommand command).
        Keeps-when {P = Kept} b (Keeps-act os (system command) good) in
      let v = f.flag_verbose in
      Keeps-bind (run f.flag_emergency _ open_green) λ _.
        Keeps-bind (run f.flag_cron _ (check_time v)) λ _.
          Keeps-bind (run f.flag_all _ (update_all v)) λ _. Keeps-bind (force-Keeps f w) λ _.
            Keeps-bind (run (f.flag_ipcop || f.flag_emergency) _ (update_ipcop v)) λ _.
              Keeps-bind (run f.flag_user _ (update_user v))
                λ _. Keeps-bind (run f.flag_wireless _ (update_wireless v)) λ _. Keeps-exit 0

  main-Keeps : (options : List FwOption) → Keeps Kept (main os options)
  unfolding main
  main-Keeps options = Keeps-bind (require_setuid-Keeps FwCommand os) λ _.
      Keeps-bind_value IsChecked (read_options-Keeps options no_flags)
        (read_options-IsChecked options no_flags (λ e. cc)) run_flags-Keeps

  -- Every command that setfwrules runs is the emergency edit of the firewall settings or a call of
  -- puzzleFwRules.pl, where a forced update names one of the five chains.
  pub main-FwCommand : (options : List FwOption) → All Kept (history_of (main os options []))
  main-FwCommand options = (main-Keeps options).kept [] tt
