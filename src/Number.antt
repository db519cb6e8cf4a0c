-- ===== src/Number.antt =====
-- `atoi`, and the decimal digits that `printf` writes for `%d`. An `int` is its 32-bit pattern.
pub mod Decimal
use ipcop_alpine.Prelude.{
  ℕ, zero, suc, ◌+◌, ◌-◌, ◌/◌, ◌%◌, ◌^◌, Bool, true, false, List, [], ◌∷◌, ◌++◌, ◌==◌, ltb, leb,
  if◌then◌else◌, length, min,
}
use ipcop_alpine.Cstring.{Bytes, from}
use ipcop_alpine.Valid.{digits, decimal, not_white}

abbrev pub is_negative : ℕ → Bool
is_negative w = leb (2 ^ 31) w

-- `(int)strtol(s, NULL, 10)`: the value is cut off to 64 bits, of which the low 32 are kept.
to_int : Bool → ℕ → ℕ
to_int true n = (2 ^ 64 - min n (2 ^ 63)) % 2 ^ 32
to_int false n = min n (2 ^ 63 - 1) % 2 ^ 32

read_signed : Bytes → ℕ
unfolding to_int
read_signed [] = 0
read_signed (c ∷ s) =
    if c == b'-'
    then to_int true (decimal 0 (digits (length s) s).0)
    else if c == b'+'
    then to_int false (decimal 0 (digits (length s) s).0)
    else to_int false (decimal 0 (digits (suc (length s)) (c ∷ s)).0)

unfoldable pub atoi : Bytes → ℕ
unfolding read_signed not_white
atoi s = read_signed (from not_white s)

-- The digits of a number in front of `rest`, on fuel: a digit for each round.
print_onto : ℕ → ℕ → Bytes → Bytes
print_onto zero n rest = rest
print_onto (suc fuel) n rest =
    let more = print_onto fuel (n / 10) ((48 + n % 10) ∷ rest) in
    if ltb n 10 then (48 + n) ∷ rest else more

-- For every number below 10 ^ 20, so for every `int` that is not negative.
unfoldable pub print_decimal : ℕ → Bytes
unfolding print_onto
print_decimal n = print_onto 20 n []

-- `%d`
unfoldable pub print_int : ℕ → Bytes
print_int w = if is_negative w then b'-' ∷ print_decimal (2 ^ 32 - w) else print_decimal w

-- Whether `strtol` reports a value out of range through `errno`.
out_of_range : Bytes → Bool
out_of_range [] = false
out_of_range (c ∷ s) =
    if c == b'-'
    then ltb (2 ^ 63) (decimal 0 (digits (length s) s).0)
    else if c == b'+'
    then leb (2 ^ 63) (decimal 0 (digits (length s) s).0)
    else leb (2 ^ 63) (decimal 0 (digits (suc (length s)) (c ∷ s)).0)

unfoldable pub strtol_errno : Bytes → Bool
unfolding out_of_range not_white
strtol_errno s = out_of_range (from not_white s)
