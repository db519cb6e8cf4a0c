-- ===== src/Valid.antt =====
-- The tests on user-supplied text: the `VALID_*` macros of source/core/progs/common.h, `VALID_IP`
-- and `getipcopversion` of helper.c, and the part of `sscanf` that these use.
pub mod Bits
pub mod Ip
pub mod Quad
pub mod Version
pub mod Title
use Prim.Native.Nat.{bit_or}
use ipcop_alpine.Prelude.{
  ℕ, zero, suc, ◌+◌, ◌-◌, ◌*◌, ◌%◌, ◌^◌, Bool, true, false, not, ◌&&◌, ◌||◌, List, [], ◌∷◌, ◌++◌,
  Option, none, some, ◌==◌, ltb, leb, if◌then◌else◌, length, drop,
}
use ipcop_alpine.Cstring.{Bytes, codes, strcmp_eq, starts_with, all_in, from, is_nil, stripnl}

abbrev pub numbers : Bytes
numbers = codes "0123456789"

abbrev pub letters : Bytes
letters = codes "abcdefghijklmnopqrstuvwxyzABCDEFGHIJKLMNOPQRSTUVWXYZ"

abbrev pub letters_numbers : Bytes
letters_numbers = letters ++ numbers

-- A length strictly between two bounds, and only accepted bytes.
abbrev within : ℕ → ℕ → Bytes → Bytes → Bool
within lo hi accept s = ltb lo (length s) && (ltb (length s) hi && all_in accept s)

unfoldable pub valid_ip_and_mask : Bytes → Bool
valid_ip_and_mask = within 6 32 (codes "./" ++ numbers)

unfoldable pub valid_port : Bytes → Bool
valid_port = within 0 6 numbers

unfoldable pub valid_port_range : Bytes → Bool
valid_port_range = within 0 12 (codes ":-" ++ numbers)

unfoldable pub valid_short_mask : Bytes → Bool
valid_short_mask = within 1 3 numbers

unfoldable pub valid_device : Bytes → Bool
valid_device = within 0 16 (letters_numbers ++ codes "-_:.")

unfoldable pub valid_protocol : Bytes → Bool
valid_protocol = within 0 16 (letters_numbers ++ codes "-")

unfoldable pub is_digit : ℕ → Bool
is_digit c = leb b'0' c && leb c b'9'

unfoldable pub not_white : ℕ → Bool
not_white c = not (c == b' ' || (leb 9 c && leb c 13))

-- The digits at the front, `width` at most, and the text behind them.
unfoldable pub digits : ℕ → Bytes → Bytes × Bytes
unfolding is_digit
digits zero s = ([], s)
digits (suc width) [] = ([], [])
digits (suc width) (x ∷ s) =
    let more = digits width s in if is_digit x then (x ∷ more.0, more.1) else ([], x ∷ s)

unfoldable pub decimal : ℕ → Bytes → ℕ
decimal acc [] = acc
decimal acc (x ∷ s) = decimal (acc * 10 + (x - b'0')) s

-- `strtoul` as the conversion stores it in an `unsigned int`: cut off at 2 ^ 64 - 1, then the low
-- 32 bits. A minus sign negates.
to_uint : Bool → ℕ → ℕ
to_uint negative n =
    let m = if ltb n (2 ^ 64) then n else 2 ^ 64 - 1 in
    if negative && ltb n (2 ^ 64) then (2 ^ 64 - m) % 2 ^ 32 else m % 2 ^ 32

scan_number : Bool → Bytes × Bytes → Option (ℕ × Bytes)
unfolding to_uint decimal
scan_number negative ([], rest) = none
scan_number negative (d ∷ ds, rest) = some (to_uint negative (decimal 0 (d ∷ ds)), rest)

scan_sign : ℕ → Bytes → Option (ℕ × Bytes)
unfolding scan_number digits
scan_sign width [] = none
scan_sign width (c ∷ s) =
    if c == b'-'
    then scan_number true (digits (width - 1) s)
    else if c == b'+'
    then scan_number false (digits (width - 1) s)
    else scan_number false (digits width (c ∷ s))

-- The conversion `%3u` at a width of 3, and `%u` at the length of the text.
unfoldable pub scan_uint : ℕ → Bytes → Option (ℕ × Bytes)
unfolding scan_sign not_white
scan_uint width s = scan_sign width (from not_white s)

-- A literal dot in the format.
unfoldable pub scan_dot : Bytes → Option Bytes
scan_dot [] = none
scan_dot (c ∷ s) = if c == b'.' then some s else none

infixl 5 ◌>>=◌
abbrev pub ◌>>=◌ {ℓ κ} : {A : Type ℓ} {B : Type κ} → Option A → (A → Option B) → Option B
none >>= f = none
some a >>= f = f a

-- `sscanf(ip, "%3u.%3u.%3u.%3u%c", ...)`: the four numbers where it returns 4, so that no byte is
-- left for `%c`.
unfoldable pub scan_ip : Bytes → Option (ℕ × ℕ × ℕ × ℕ)
unfolding scan_uint scan_dot
scan_ip s = do
  (b1, s1) ← scan_uint 3 s
  t1 ← scan_dot s1
  (b2, s2) ← scan_uint 3 t1
  t2 ← scan_dot s2
  (b3, s3) ← scan_uint 3 t2
  t3 ← scan_dot s3
  (b4, s4) ← scan_uint 3 t3
  if is_nil s4 then some (b1, b2, b3, b4) else none

unfoldable pub in_range : Option (ℕ × ℕ × ℕ × ℕ) → Bool
in_range none = false
in_range (some (b1, b2, b3, b4)) = not (ltb 255 (bit_or (bit_or (bit_or b1 b2) b3) b4))

unfoldable pub valid_ip : Bytes → Bool
valid_ip ip =
    if ltb (length ip) 7 || ltb 15 (length ip)
    then false
    else if not (all_in (numbers ++ codes ".") ip)
    then false
    else in_range (scan_ip ip)

-- `sscanf(buffer + 7, "%u.%u.%u", ...)`, where it returns 3
pub scan_version : Bytes → Option (ℕ × ℕ × ℕ)
unfolding scan_uint scan_dot
scan_version s = do
  (major, s1) ← scan_uint (length s) s
  t1 ← scan_dot s1
  (minor, s2) ← scan_uint (length t1) t1
  t2 ← scan_dot s2
  (revision, s3) ← scan_uint (length t2) t2
  some (major, minor, revision)

pub packed : Option (ℕ × ℕ × ℕ) → ℕ
packed none = 0
packed (some (major, minor, revision)) =
    if ltb 255 major || (ltb 255 minor || ltb 255 revision)
    then 0
    else major * 2 ^ 16 + minor * 2 ^ 8 + revision

-- `getipcopversion` on what `fgets` read from /etc/issue; `none` where that failed.
unfoldable pub ipcop_version : Option Bytes → ℕ
unfolding scan_version packed
ipcop_version none = 0
ipcop_version (some line) =
    let buffer = stripnl line in
    if is_nil buffer || not (starts_with (codes "IPCop v") buffer)
    then 0
    else packed (scan_version (drop 7 buffer))
