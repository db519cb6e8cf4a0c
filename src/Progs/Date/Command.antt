-- ===== src/Progs/Date/Command.antt =====
-- What setdate lets into its command.
use ipcop_alpine.Prelude.{◌≡◌, ◌<◌, true, List, [], ◌∷◌, ◌++◌, All, arith, length}
use ipcop_alpine.Cstring.{Bytes, codes, all_in}
use ipcop_alpine.Valid.{numbers}
use ipcop_alpine.Os.{Os, history_of}
use ipcop_alpine.Os.Trace.{Keeps, keeps, Keeps-bind, Keeps-act, Keeps-exit, Keeps-choose-not}
use ipcop_alpine.Setuid.Calls.{OnCommands, require_setuid-Keeps}
use ipcop_alpine.Progs.Date.{is_day, is_time, date_command, clock_command, set_date, main}

-- A day of at most ten bytes, digits and dashes, and a time of at most five, digits and colons.
pub data DateCommand : Bytes → Type 0 where
  set :
      (day time : Bytes)
      → length day < 11
      → all_in (numbers ++ codes "-") day ≡ true
      → length time < 6
      → all_in (numbers ++ codes ":") time ≡ true
      → DateCommand (date_command day time)
  store : DateCommand clock_command

set_of_tests :
    (day time : Bytes)
    → is_day day ≡ true
    → is_time time ≡ true
    → DateCommand (date_command day time)
unfolding is_day is_time
set_of_tests day time h k = set day time (ground arith) (ground arith) (ground arith) (ground arith)

module _ (os : Os) where
  set_date-Keeps : (arguments : List Bytes) → Keeps (OnCommands DateCommand) (set_date os arguments)
  unfolding set_date
  set_date-Keeps [] = Keeps-exit 1
  set_date-Keeps (day ∷ []) = Keeps-exit 1
  set_date-Keeps (day ∷ time ∷ more) =
      Keeps-choose-not (is_day day) (λ _. Keeps-exit 1)
        λ h.
          Keeps-choose-not (is_time time) (λ _. Keeps-exit 1)
            λ k.
              Keeps-bind (Keeps-act os _ (set_of_tests day time h k))
                λ _. Keeps-bind (Keeps-act os _ store) λ _. Keeps-exit 0

  main-Keeps : (arguments : List Bytes) → Keeps (OnCommands DateCommand) (main os arguments)
  unfolding main
  main-Keeps arguments = search (keeps, require_setuid-Keeps, set_date-Keeps) depth 8

  -- Every command that setdate runs stores the clock, or sets it to a day of at most ten digits and
  -- dashes and a time of at most five digits and colons.
  pub main-DateCommand :
      (arguments : List Bytes) → All (OnCommands DateCommand) (history_of (main os arguments []))
  main-DateCommand arguments = (main-Keeps arguments).kept [] tt
