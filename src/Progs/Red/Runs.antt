-- ===== src/Progs/Red/Runs.antt =====
-- What the program red does for its flags.
use ipcop_alpine.Prelude.{◌≡◌, Bool, ◌||◌, [], ◌∷◌, ◌++◌, arith, if◌then◌else◌}
use ipcop_alpine.Os.{Os, History, done, exited, pure, ◌>>=◌, choose, when, exit, act, system}
use ipcop_alpine.Setuid.{require_setuid}
use ipcop_alpine.Progs.Red.{RedFlags, run_red, stop_command, clear_command, start_command}

-- The commands that the flags ask for, newest first: the stop ran before the clean-up, and that
-- before the start.
abbrev pub asked : RedFlags → History
asked f =
    (if f.flag_start then system start_command ∷ [] else [])
    ++ ((if f.flag_clear then system clear_command ∷ [] else [])
        ++ (if f.flag_stop then system stop_command ∷ [] else []))

abbrev pub is_asked : RedFlags → Bool
is_asked f = f.flag_start || (f.flag_stop || f.flag_clear)

-- Where `initsetuid` succeeds: without a flag red exits with 1 and makes no call, not even those of
-- `initsetuid`; with a flag it runs exactly the commands that are asked for behind `initsetuid`, a
-- stop before a clean-up and that before a start, and exits with 0.
pub run_red_lem :
    (os : Os) (f : RedFlags) (h h' : History)
    → require_setuid os h ≡ done tt h'
    → run_red os f h ≡ (if is_asked f then exited 0 (asked f ++ h') else exited 1 h)
unfolding run_red choose when act exit pure ◌>>=◌
run_red_lem os f h h' e = ground arith
