-- ===== src/Valid/Ip.antt =====
-- `VALID_IP` accepts the dotted quads of numbers up to 255 in one to three digits, and nothing else.
use ipcop_alpine.Prelude.{
  ℕ, zero, suc, ◌≡◌, ◌≤◌, ◌<◌, refl, ap, ◌∙◌, Bool, true, false, not, ◌&&◌, ◌||◌, [], ◌∷◌, ◌++◌,
  none, some, ◌==◌, if◌then◌else◌, arith, Bool-cases, inl, inr, length, All,
}
use ipcop_alpine.Cstring.{Bytes, codes, has_byte, all_in, from, is_nil}
use ipcop_alpine.Valid.{
  numbers, is_digit, not_white, digits, decimal, to_uint, scan_number, scan_sign, scan_uint,
  scan_dot,
}

abbrev pub IsDigits : Bytes → Type 0
IsDigits = All (λ c. is_digit c ≡ true)

-- One to three digits of a number up to 255.
pub record IsOctet (s : Bytes) : Type 0 where
  pub ne_nil : is_nil s ≡ false
  pub only_digits : IsDigits s
  pub short : length s ≤ 3
  pub small : decimal 0 s ≤ 255

-- Four octets with a dot between each two.
pub record IsDottedQuad (s : Bytes) : Type 0 where
  pub d1 : Bytes
  pub d2 : Bytes
  pub d3 : Bytes
  pub d4 : Bytes
  pub octet1 : IsOctet d1
  pub octet2 : IsOctet d2
  pub octet3 : IsOctet d3
  pub octet4 : IsOctet d4
  pub spells : s ≡ d1 ++ b'.' ∷ (d2 ++ b'.' ∷ (d3 ++ b'.' ∷ d4))

abbrev pub accepted : Bytes
accepted = numbers ++ codes "."

-- The bytes that `strspn` lets through are the digits and the dot.
has_byte-accepted : (c : ℕ) → has_byte c accepted ≡ (is_digit c || c == b'.')
unfolding has_byte codes is_digit
has_byte-accepted c = ground arith

digits_split :
    (width : ℕ) (s : Bytes)
    → (s ≡ (digits width s).0 ++ (digits width s).1) × (length (digits width s).0 ≤ width)
unfolding digits
digits_split zero s = (refl, omega arith)
digits_split (suc width) [] = (refl, omega arith)
digits_split (suc width) (x ∷ s) = ground (arith, digits_split width s)

digits-IsDigits : (width : ℕ) (s : Bytes) → IsDigits (digits width s).0
unfolding digits
digits-IsDigits zero s = tt
digits-IsDigits (suc width) [] = tt
digits-IsDigits (suc width) (x ∷ s) = elim (Bool-cases (is_digit x)) [
  | inl e ↦ rw e (e, digits-IsDigits width s)
  | inr e ↦ rw e tt
]

-- Digits that fit, and a text behind them that begins with none.
abbrev pub no_digit : Bytes → Bool
no_digit [] = true
no_digit (c ∷ s) = not (is_digit c)

pub digits-append :
    (width : ℕ) (ds rest : Bytes)
    → IsDigits ds
    → length ds ≤ width
    → no_digit rest ≡ true
    → digits width (ds ++ rest) ≡ (ds, rest)
unfolding digits
digits-append zero [] rest h fits e = refl
digits-append zero (x ∷ ds) rest h fits e = elim fits [ ]
digits-append (suc width) [] [] h fits e = refl
digits-append (suc width) [] (c ∷ rest) h fits e = ground arith
digits-append (suc width) (x ∷ ds) rest h fits e =
    rw h.0 (ap (λ r. (x ∷ r.0, r.1)) (digits-append width ds rest h.1 (omega arith) e))

-- On accepted text there is neither white space nor a sign.
scan_uint-digits :
    (width : ℕ) (s : Bytes)
    → all_in accepted s ≡ true
    → scan_uint width s ≡ (if is_nil s then none else scan_number false (digits width s))
unfolding scan_uint all_in from not_white scan_sign is_digit
scan_uint-digits width [] h = refl
scan_uint-digits width (c ∷ s) h = ground (arith, has_byte-accepted c)

pub all_in-append : (a s t : Bytes) → all_in a (s ++ t) ≡ (all_in a s && all_in a t)
unfolding all_in
all_in-append a [] t = refl
all_in-append a (c ∷ s) t = ground (arith, all_in-append a s t)

pub all_in-IsDigits : (s : Bytes) → IsDigits s → all_in accepted s ≡ true
unfolding all_in
all_in-IsDigits [] h = refl
all_in-IsDigits (c ∷ s) h = ground (arith, has_byte-accepted c, all_in-IsDigits s h.1, h.0)

-- Up to three digits are a number below 1000, which the conversion leaves as it is.
decimal_short : (s : Bytes) → IsDigits s → length s ≤ 3 → decimal 0 s < 1000
unfolding decimal is_digit
decimal_short [] h l = omega arith
decimal_short (a ∷ []) h l = ground (arith, h.0)
decimal_short (a ∷ b ∷ []) h l = ground (arith, h.0, h.1.0)
decimal_short (a ∷ b ∷ c ∷ []) h l = ground (arith, h.0, h.1.0, h.1.1.0)
decimal_short (a ∷ b ∷ c ∷ d ∷ s) h l = absurd (omega arith)

to_uint_small : (n : ℕ) → n < 1000 → to_uint false n ≡ n
unfolding to_uint
to_uint_small n h = ground arith

-- What a conversion of three digits takes, and leaves.
pub record Taken (s : Bytes) (n : ℕ) (rest : Bytes) : Type 0 where
  pub word : Bytes
  pub splits : s ≡ word ++ rest
  pub some_digit : is_nil word ≡ false
  pub only_digits : IsDigits word
  pub short : length word ≤ 3
  pub value : n ≡ decimal 0 word

scan_number-Taken :
    (s d rest r : Bytes) (n : ℕ)
    → s ≡ d ++ rest
    → IsDigits d
    → length d ≤ 3
    → scan_number false (d, rest) ≡ some (n, r)
    → Taken s n r
unfolding scan_number
scan_number-Taken s [] rest r n e h l q = cc
scan_number-Taken s (c ∷ d) rest r n e h l q = record {
  word = c ∷ d;
  splits = ground arith;
  some_digit = refl;
  only_digits = h;
  short = l;
  value = ground (arith, to_uint_small (decimal 0 (c ∷ d)) (decimal_short (c ∷ d) h l));
}

pub scan_uint-Taken :
    (s r : Bytes) (n : ℕ) → all_in accepted s ≡ true → scan_uint 3 s ≡ some (n, r) → Taken s n r
scan_uint-Taken s r n a q =
    scan_number-Taken s (digits 3 s).0 (digits 3 s).1 r n (digits_split 3 s).0 (digits-IsDigits 3 s)
      (digits_split 3 s).1 (ground (arith, scan_uint-digits 3 s a))

pub scan_dot-some : (s t : Bytes) → scan_dot s ≡ some t → s ≡ b'.' ∷ t
unfolding scan_dot
scan_dot-some [] t q = cc
scan_dot-some (c ∷ s) t q = ground arith

-- A conversion of an octet with no digit behind it.
pub scan_uint-octet :
    (d rest : Bytes)
    → IsOctet d
    → no_digit rest ≡ true
    → all_in accepted rest ≡ true
    → scan_uint 3 (d ++ rest) ≡ some (decimal 0 d, rest)
scan_uint-octet [] rest o e a = cc (o.ne_nil)
scan_uint-octet (c ∷ d) rest o e a =
    scan_uint-digits 3 (c ∷ (d ++ rest))
      (all_in-append accepted (c ∷ d) rest ∙ ground (arith, all_in-IsDigits (c ∷ d) o.only_digits))
    ∙ ap (scan_number false) (digits-append 3 (c ∷ d) rest o.only_digits o.short e)
    ∙ unfold scan_number in
      ap (λ n. some (n, rest))
        (to_uint_small (decimal 0 (c ∷ d)) (decimal_short (c ∷ d) o.only_digits o.short))
