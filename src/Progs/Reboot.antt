-- ===== src/Progs/Reboot.antt =====
-- source/core/progs/ipcopreboot.c
pub mod Message
use ipcop_alpine.Prelude.{
  ℕ, ◌+◌, Bool, true, false, not, ◌&&◌, List, [], ◌∷◌, ◌++◌, ltb, if◌then◌else◌, length,
}
use ipcop_alpine.Cstring.{Bytes, codes, string_size, is_nil}
use ipcop_alpine.Setuid.{require_setuid}
use ipcop_alpine.Os.{Os, M, pure, ◌>>=◌, ◌>>◌, choose, when, exit, act, system, syslog}

pub data RebootOption : Type 0 where
  boot bootfs down verbose help unknown : RebootOption

pub record RebootFlags : Type 0 where
  pub flag_boot : Bool
  pub flag_bootfs : Bool
  pub flag_down : Bool

unfoldable pub read_options : List RebootOption → RebootFlags → M RebootFlags
read_options [] f = pure f
read_options (boot ∷ options) f = read_options options (record f { flag_boot = true })
read_options (bootfs ∷ options) f = read_options options (record f { flag_bootfs = true })
read_options (down ∷ options) f = read_options options (record f { flag_down = true })
read_options (verbose ∷ options) f = read_options options f
read_options (help ∷ options) f = exit 0
read_options (unknown ∷ options) f = exit 1

-- The loop over the remaining words, which ends before the first that would not fit.
unfoldable pub add_words : Bytes → List Bytes → Bytes
add_words message [] = message
add_words message (word ∷ words) =
    let rest = add_words (message ++ (word ++ codes " ")) words in
    if ltb string_size (length message + length word + 4) then message else rest

module _ (os : Os) where
  -- The three branches: what is logged, and the commands.
  unfoldable pub shut_down : RebootFlags → M (Unit {0})
  shut_down f =
      choose f.flag_down
        (do
          act os (syslog (codes "IPCop will shutdown and halt/power off"))
          act os (system (codes "(sleep 10; /sbin/poweroff) &"))
          exit 0)
        (choose f.flag_boot
          (do
            act os (syslog (codes "IPCop will shutdown and reboot"))
            act os (system (codes "(sleep 10; /sbin/reboot) &"))
            exit 0)
          (choose f.flag_bootfs
            (do
              act os (syslog (codes "IPCop will shutdown and reboot with fsck forced"))
              act os (system (codes "/usr/bin/touch /forcefsck"))
              act os (system (codes "(sleep 10; /sbin/reboot) &"))
              exit 0)
            (exit 0)))

  unfoldable pub reboot : RebootFlags → List Bytes → M (Unit {0})
  reboot f words = choose (not f.flag_boot && (not f.flag_bootfs && not f.flag_down)) (exit 1) do
    require_setuid os
    let message = add_words [] words
    when (not (is_nil message)) (act os (syslog message))
    shut_down f

  -- The options, and the words that `getopt_long` leaves.
  unfoldable pub main : List RebootOption → List Bytes → M (Unit {0})
  main options words = do
    f ← read_options options (record { flag_boot = false; flag_bootfs = false; flag_down = false })
    reboot f words
