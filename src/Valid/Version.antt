-- ===== src/Valid/Version.antt =====
-- `getipcopversion`: what it reads, and its bound.
use ipcop_alpine.Prelude.{
  ℕ, ◌+◌, ◌*◌, ◌^◌, ◌≡◌, ◌<◌, ◌≤◌, refl, ap, ◌∙◌, true, false, [], ◌∷◌, ◌++◌, Option, none, some,
  arith, length, length-append, All, All-append, drop,
}
use ipcop_alpine.Cstring.{Bytes, codes, is_nil, starts_with, stripnl, is_newline, from, before}
use ipcop_alpine.Cstring.Laws.{before-append_stop}
use ipcop_alpine.Valid.{
  ipcop_version, packed, scan_version, scan_uint, scan_sign, scan_number, scan_dot, decimal,
  to_uint, is_digit, not_white,
}
use ipcop_alpine.Valid.Ip.{IsDigits, digits-append, no_digit}
use ipcop_alpine.Number.{print_decimal}
use ipcop_alpine.Number.Decimal.{print_decimal-IsDigits, decimal-print_decimal, print_decimal-cons}

packed_bound : (o : Option (ℕ × ℕ × ℕ)) → packed o < 2 ^ 24
unfolding packed
packed_bound none = omega arith
packed_bound (some (major, minor, revision)) = ground arith

-- The version number fits 24 bits, whatever /etc/issue holds.
pub ipcop_version_bound : (line : Option Bytes) → ipcop_version line < 2 ^ 24
unfolding ipcop_version
ipcop_version_bound none = omega arith
ipcop_version_bound (some line) =
    ground (arith, packed_bound (scan_version (drop 7 (stripnl line))))

scan_uint-IsDigits :
    (width : ℕ) (d rest : Bytes)
    → is_nil d ≡ false
    → IsDigits d
    → length d ≤ width
    → no_digit rest ≡ true
    → decimal 0 d < 2 ^ 32
    → scan_uint width (d ++ rest) ≡ some (decimal 0 d, rest)
unfolding scan_uint scan_sign scan_number from not_white is_digit to_uint
scan_uint-IsDigits width [] rest e h l r s = cc
scan_uint-IsDigits width (c ∷ d) rest e h l r s =
    ground (arith, h.0, digits-append width (c ∷ d) rest h l r)

scan_uint-print_decimal :
    (n : ℕ) (rest : Bytes)
    → n ≤ 255
    → no_digit rest ≡ true
    → scan_uint (length (print_decimal n ++ rest)) (print_decimal n ++ rest) ≡ some (n, rest)
scan_uint-print_decimal n rest h e =
    let value = decimal-print_decimal n (omega arith) in
    scan_uint-IsDigits (length (print_decimal n ++ rest)) (print_decimal n) rest
      (print_decimal-cons n) (print_decimal-IsDigits n)
      (omega (arith, length-append (print_decimal n) rest)) e (omega (arith, value))
    ∙ ap (λ k. some (k, rest)) value

-- Three numbers with a dot between each two.
abbrev pub version_text : ℕ → ℕ → ℕ → Bytes
version_text a b c = print_decimal a ++ b'.' ∷ (print_decimal b ++ b'.' ∷ (print_decimal c ++ []))

scan_version-text :
    (a b c : ℕ) → a ≤ 255 → b ≤ 255 → c ≤ 255 → scan_version (version_text a b c) ≡ some (a, b, c)
unfolding scan_version scan_dot
scan_version-text a b c ha hb hc =
    rw
      (scan_uint-print_decimal a (b'.' ∷ (print_decimal b ++ b'.' ∷ (print_decimal c ++ []))) ha
        refl)
      (rw (scan_uint-print_decimal b (b'.' ∷ (print_decimal c ++ [])) hb refl)
        (rw (scan_uint-print_decimal c [] hc refl)))

no_newline : (s : Bytes) → IsDigits s → All (λ c. is_newline c ≡ false) s
unfolding is_digit is_newline
no_newline [] h = tt
no_newline (c ∷ s) h = (ground (arith, h.0), no_newline s h.1)

printed_no_newline : (n : ℕ) → All (λ k. is_newline k ≡ false) (print_decimal n)
printed_no_newline n = no_newline (print_decimal n) (print_decimal-IsDigits n)

version_no_newline : (a b c : ℕ) → All (λ k. is_newline k ≡ false) (version_text a b c)
unfolding is_newline
version_no_newline a b c = All-append _ (print_decimal a) _ (printed_no_newline a) (
  refl,
  All-append _ (print_decimal b) _ (printed_no_newline b)
      (refl, All-append _ (print_decimal c) [] (printed_no_newline c) tt),
)

stripped :
    (s rest : Bytes)
    → All (λ k. is_newline k ≡ false) s
    → stripnl (codes "IPCop v" ++ (s ++ b'\n' ∷ rest)) ≡ codes "IPCop v" ++ s
unfolding stripnl before codes is_newline
stripped s rest h =
    ap (λ t. codes "IPCop v" ++ t) (before-append_stop is_newline s b'\n' rest h refl)

-- A first line that names the version `a.b.c`, with numbers up to 255, gives
-- a * 2 ^ 16 + b * 2 ^ 8 + c.
pub ipcop_version-text :
    (a b c : ℕ) (rest : Bytes)
    → a ≤ 255
    → b ≤ 255
    → c ≤ 255
    → ipcop_version (some (codes "IPCop v" ++ (version_text a b c ++ b'\n' ∷ rest)))
      ≡ a * 2 ^ 16 + b * 2 ^ 8 + c
unfolding ipcop_version packed codes starts_with
ipcop_version-text a b c rest ha hb hc =
    rw (stripped (version_text a b c) rest (version_no_newline a b c))
      (rw (scan_version-text a b c ha hb hc) (ground arith))
