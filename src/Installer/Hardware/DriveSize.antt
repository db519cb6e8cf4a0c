-- ===== src/Installer/Hardware/DriveSize.antt =====
-- The size of a drive, from the number of its blocks.
use ipcop_alpine.Prelude.{
  ℕ, ◌≡◌, ◌/◌, ◌<◌, ◌^◌, refl, [], ◌∷◌, ◌++◌, some, arith, ap, ◌∙◌, length, length-append, suc,
  false,
}
use ipcop_alpine.Cstring.{Bytes, from, is_nil}
use ipcop_alpine.Valid.{decimal, not_white, is_digit}
use ipcop_alpine.Valid.Ip.{IsDigits, digits-append}
use ipcop_alpine.Number.{print_decimal}
use ipcop_alpine.Number.Decimal.{print_decimal-IsDigits, decimal-print_decimal, print_decimal-cons}
use ipcop_alpine.Installer.Hardware.{strtoull, kbytes, size_text, drive_size}

strtoull-digits :
    (d : Bytes)
    → is_nil d ≡ false
    → IsDigits d
    → decimal 0 d < 2 ^ 64
    → strtoull (d ++ b'\n' ∷ []) ≡ decimal 0 d
unfolding strtoull from not_white is_digit
strtoull-digits [] e h l = cc
strtoull-digits (c ∷ d) e h l =
    let rest = b'\n' ∷ [] in
    let split =
      digits-append (suc (length (d ++ rest))) (c ∷ d) rest h (omega (arith, length-append d rest))
        refl in
    ground (arith, h.0, split, l)

kbytes_lem : (n : ℕ) → n < 2 ^ 55 → kbytes n ≡ n / 2
unfolding kbytes
kbytes_lem n h = omega arith

-- A file with the number of blocks, below 2 ^ 55, and a newline gives the size of 2048 blocks to the
-- MiB, and the text of the number of KiB, two blocks each.
pub drive_size-print_decimal :
    (n : ℕ)
    → n < 2 ^ 55
    → drive_size (some (print_decimal n ++ b'\n' ∷ [])) ≡ (n / 2048, size_text (n / 2))
unfolding drive_size
drive_size-print_decimal n h =
    let value = decimal-print_decimal n (omega arith) in
    let blocks : strtoull (print_decimal n ++ b'\n' ∷ []) ≡ n =
      strtoull-digits (print_decimal n) (print_decimal-cons n) (print_decimal-IsDigits n)
        (omega (arith, value))
      ∙ value in
    rw (blocks, kbytes_lem n h) (ap (λ m. (m, size_text (n / 2))) (omega arith))
