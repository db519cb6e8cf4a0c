-- ===== src/Progs/Date.antt =====
-- source/core/progs/setdate.c. The arguments are those behind the name of the program.
pub mod Command
use ipcop_alpine.Prelude.{
  ℕ, Bool, true, false, not, ◌&&◌, ◌||◌, List, [], ◌∷◌, ◌++◌, Option, none, some, ◌==◌, ltb,
  if◌then◌else◌, length, zero, suc, ◌-◌,
}
use ipcop_alpine.Cstring.{Bytes, codes, string_size, snprintf, concat, all_in, from, is_nil}
use ipcop_alpine.Valid.{numbers, is_digit, not_white}
use ipcop_alpine.Setuid.{require_setuid}
use ipcop_alpine.Os.{Os, M, pure, ◌>>=◌, ◌>>◌, choose, exit, act, system}

unfoldable pub not_digit : ℕ → Bool
unfolding is_digit
not_digit c = not (is_digit c)

-- The digits of a `%d`: at least one. The result is the text behind them.
unfoldable pub scan_digits : Bytes → Option Bytes
unfolding is_digit not_digit
scan_digits [] = none
scan_digits (c ∷ s) = if is_digit c then some (from not_digit s) else none

unfoldable pub scan_signed : Bytes → Option Bytes
unfolding scan_digits
scan_signed [] = none
scan_signed (c ∷ s) = if c == b'-' || c == b'+' then scan_digits s else scan_digits (c ∷ s)

-- The conversion `%d`, of which the programs use only whether it succeeds.
unfoldable pub scan_int : Bytes → Option Bytes
unfolding scan_signed not_white
scan_int s = scan_signed (from not_white s)

-- A literal byte of the format.
unfoldable pub scan_byte : ℕ → Bytes → Option Bytes
scan_byte c [] = none
scan_byte c (d ∷ s) = if d == c then some s else none

-- `sscanf` of a format such as "%d-%d-%d", `more` conversions behind the first: whether all succeed.
unfoldable pub scan_ints : ℕ → ℕ → Bytes → Bool
unfolding scan_int scan_byte
scan_ints zero c s = elim (scan_int s) [ none ↦ false | some _ ↦ true ]
scan_ints (suc more) c s = elim (scan_int s) [
  | none ↦ false
  | some s' ↦ elim (scan_byte c s') [ none ↦ false | some s'' ↦ scan_ints more c s'' ]
]

unfoldable pub is_day : Bytes → Bool
is_day s = ltb (length s) 11 && scan_ints 2 b'-' s && all_in (numbers ++ codes "-") s

unfoldable pub is_time : Bytes → Bool
is_time s = ltb (length s) 6 && scan_ints 1 b':' s && all_in (numbers ++ codes ":") s

unfoldable pub date_command : Bytes → Bytes → Bytes
date_command day time =
    snprintf (string_size - 1)
      (concat (codes "/bin/date -s '" ∷ day ∷ codes " " ∷ time ∷ codes "' >/dev/null" ∷ []))

unfoldable pub clock_command : Bytes
clock_command = codes "/sbin/hwclock --systohc --utc"

module _ (os : Os) where
  unfoldable pub set_date : List Bytes → M (Unit {0})
  set_date (day ∷ time ∷ _) = choose (not (is_day day)) (exit 1) (
      choose (not (is_time time)) (exit 1)
        do act os (system (date_command day time)); act os (system clock_command); exit 0)
  set_date _ = exit 1

  unfoldable pub main : List Bytes → M (Unit {0})
  main arguments = do require_setuid os; set_date arguments
