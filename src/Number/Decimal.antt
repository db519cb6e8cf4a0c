-- ===== src/Number/Decimal.antt =====
-- `atoi` reads back what `printf` wrote.
use ipcop_alpine.Prelude.{
  ◌≤◌, ℕ, zero, suc, ◌+◌, ◌/◌, ◌%◌, ◌^◌, ◌≡◌, ◌<◌, refl, ap, ◌∙◌, false, [], ◌∷◌, ltb, arith,
  Bool-cases, inl, inr, length, append-nil,
}
use native.Mathlib.Nat.{pow-suc}
use ipcop_alpine.Cstring.{Bytes, from, is_nil}
use ipcop_alpine.Valid.{decimal, not_white, is_digit}
use ipcop_alpine.Valid.Ip.{IsDigits, digits-append}
use ipcop_alpine.Number.{atoi, print_decimal, print_onto, to_int, read_signed}

print_onto-IsDigits :
    (fuel n : ℕ) (rest : Bytes) → IsDigits rest → IsDigits (print_onto fuel n rest)
unfolding print_onto is_digit
print_onto-IsDigits zero n rest h = h
print_onto-IsDigits (suc fuel) n rest h = elim (Bool-cases (ltb n 10)) [
  | inl e ↦ rw e (ground arith, h)
  | inr e ↦ rw e (print_onto-IsDigits fuel (n / 10) _ (ground arith, h))
]

decimal-print_onto :
    (fuel n : ℕ) (rest : Bytes)
    → n < 10 ^ fuel
    → decimal 0 (print_onto fuel n rest) ≡ decimal n rest
unfolding print_onto decimal
decimal-print_onto zero n rest h = ap (λ k. decimal k rest) (omega arith)
decimal-print_onto (suc fuel) n rest h = elim (Bool-cases (ltb n 10)) [
  | inl e ↦ rw e (ap (λ k. decimal k rest) (omega arith))
  | inr e ↦ rw e (
      decimal-print_onto fuel (n / 10) ((48 + n % 10) ∷ rest) (omega (arith, pow-suc 10 fuel))
      ∙ ap (λ k. decimal k rest) (omega arith))
]

read_signed-digits :
    (s : Bytes) → is_nil s ≡ false → IsDigits s → atoi s ≡ to_int false (decimal 0 s)
unfolding atoi read_signed from not_white is_digit
read_signed-digits [] e h = cc
read_signed-digits (c ∷ s) e h = ground (
  arith,
  h.0,
  ap (λ (r : Bytes × Bytes). decimal 0 r.0)
      (digits-append (length (c ∷ s)) (c ∷ s) [] h (omega arith) refl),
  append-nil (c ∷ s),
)

print_onto_begun :
    (fuel n : ℕ) (rest : Bytes) → is_nil rest ≡ false → is_nil (print_onto fuel n rest) ≡ false
unfolding print_onto
print_onto_begun zero n rest h = h
print_onto_begun (suc fuel) n rest h =
    ground (arith, print_onto_begun fuel (n / 10) ((48 + n % 10) ∷ rest) refl)

pub print_decimal-cons : (n : ℕ) → is_nil (print_decimal n) ≡ false
unfolding print_decimal print_onto
print_decimal-cons n = elim (Bool-cases (ltb n 10)) [
  | inl e ↦ rw e
  | inr e ↦ rw e (unfold print_decimal in print_onto_begun 19 (n / 10) ((48 + n % 10) ∷ []) refl)
]

to_int_small : (n : ℕ) → n < 2 ^ 31 → to_int false n ≡ n
unfolding to_int
to_int_small n h = omega arith

pub print_decimal-IsDigits : (n : ℕ) → IsDigits (print_decimal n)
unfolding print_decimal
print_decimal-IsDigits n = print_onto-IsDigits 20 n [] tt

pub decimal-print_decimal : (n : ℕ) → n < 10 ^ 20 → decimal 0 (print_decimal n) ≡ n
unfolding print_decimal decimal
decimal-print_decimal n h = decimal-print_onto 20 n [] h

length-print_onto :
    (fuel n : ℕ) (rest : Bytes) → length (print_onto fuel n rest) ≤ fuel + length rest
unfolding print_onto
length-print_onto zero n rest = omega arith
length-print_onto (suc fuel) n rest =
    ground (arith, length-print_onto fuel (n / 10) ((48 + n % 10) ∷ rest))

pub length-print_decimal : (n : ℕ) → length (print_decimal n) ≤ 20
unfolding print_decimal
length-print_decimal n = omega (arith, length-print_onto 20 n [])

-- `atoi` reads back the digits that `%d` prints, for every `int` that is not negative.
pub atoi-print_decimal : (n : ℕ) → n < 2 ^ 31 → atoi (print_decimal n) ≡ n
atoi-print_decimal n h =
    read_signed-digits (print_decimal n) (print_decimal-cons n) (print_decimal-IsDigits n)
    ∙ ap (to_int false) (decimal-print_decimal n (omega arith))
    ∙ to_int_small n h
