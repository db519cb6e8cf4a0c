-- ===== src/Cstring.antt =====
-- C strings as lists of byte values without the closing NUL, and the functions of libc that the
-- programs call on them. Buffers of a fixed size show as truncation.
pub mod Laws
use Prim.Native.Char.{code}
use Prim.Native.String.{String}
use ipcop_alpine.Prelude.{
  ℕ, zero, suc, ◌-◌, ◌+◌, ◌*◌, Bool, true, false, not, ◌&&◌, ◌||◌, List, [], ◌∷◌, ◌++◌, Option,
  none, some, ltb, leb, ◌==◌, if◌then◌else◌, take, length, map,
}

abbrev pub Bytes : Type 0
Bytes = List ℕ

-- A string literal: the byte values of an ASCII text.
unfoldable pub codes : String → Bytes
codes String.[] = []
codes (String.◌∷◌ c s) = code c ∷ codes s

-- The sizes of common.h.
abbrev pub string_size : ℕ
string_size = 256

abbrev pub string_size_large : ℕ
string_size_large = 4096

-- `strcmp(a, b) == 0`
unfoldable pub strcmp_eq : Bytes → Bytes → Bool
strcmp_eq [] [] = true
strcmp_eq (x ∷ xs) (y ∷ ys) = x == y && strcmp_eq xs ys
strcmp_eq _ _ = false

-- `strncmp(s, prefix, strlen(prefix)) == 0`
unfoldable pub starts_with : Bytes → Bytes → Bool
starts_with [] s = true
starts_with (x ∷ xs) [] = false
starts_with (x ∷ xs) (y ∷ ys) = x == y && starts_with xs ys

-- `strchr(s, c) != NULL`
unfoldable pub has_byte : ℕ → Bytes → Bool
has_byte c [] = false
has_byte c (x ∷ xs) = x == c || has_byte c xs

-- `strstr(s, needle) != NULL`
unfoldable pub has_text : Bytes → Bytes → Bool
unfolding starts_with
has_text needle [] = starts_with needle []
has_text needle (x ∷ xs) = starts_with needle (x ∷ xs) || has_text needle xs

-- The text before the first byte that meets the test: `*strchr(s, c) = '\0'`.
unfoldable pub before : (ℕ → Bool) → Bytes → Bytes
before p [] = []
before p (x ∷ xs) = if p x then [] else x ∷ before p xs

-- The text behind the first byte that meets the test: `strchr(s, c) + 1`.
unfoldable pub after : (ℕ → Bool) → Bytes → Bytes
after p [] = []
after p (x ∷ xs) = if p x then xs else after p xs

-- The text before the last `c`, where there is one: `*strrchr(s, c) = '\0'`.
unfoldable pub before_last : ℕ → Bytes → Option Bytes
unfolding has_byte
before_last c [] = none
before_last c (x ∷ xs) = elim (before_last c xs) [
  | some ys ↦ some (x ∷ ys)
  | none ↦ if x == c then some [] else none
]

-- `strspn(s, accept) == strlen(s)`
unfoldable pub all_in : Bytes → Bytes → Bool
unfolding has_byte
all_in accept [] = true
all_in accept (x ∷ xs) = has_byte x accept && all_in accept xs

-- `snprintf(buffer, size, ...)`: what fits before the closing NUL.
abbrev pub snprintf : ℕ → Bytes → Bytes
snprintf size s = take (size - 1) s

-- The string that a buffer holds: what stands before its first NUL.
unfoldable pub c_string : Bytes → Bytes
unfolding before
c_string = before (λ c. c == 0)

abbrev pub is_nil {ℓ} : {A : Type ℓ} → List A → Bool
is_nil [] = true
is_nil (x ∷ xs) = false

-- The rounds of `while (fgets(buffer, suc room, file))`: a round ends behind a newline, or when
-- `left`, the room of its buffer, is used up. `got` is what the round has read so far.
unfoldable pub fgets_rounds : ℕ → ℕ → Bytes → Bytes → List Bytes
fgets_rounds room left got [] = if is_nil got then [] else got ∷ []
fgets_rounds room left got (x ∷ xs) =
    let full = x == b'\n' || leb left 1 in
    let rest =
      fgets_rounds room (if full then room else left - 1) (if full then [] else got ++ x ∷ []) xs in
    if full then (got ++ x ∷ []) ∷ rest else rest

-- The strings that the rounds leave in a buffer of `size` bytes.
unfoldable pub fgets_lines : ℕ → Bytes → List Bytes
unfolding fgets_rounds c_string
fgets_lines size s = map c_string (fgets_rounds (size - 1) (size - 1) [] s)

-- The string that the first round leaves; `none` at the end of the file.
unfoldable pub fgets_first : ℕ → Bytes → Option Bytes
unfolding fgets_lines
fgets_first size s = elim (fgets_lines size s) [ [] ↦ none | line ∷ lines ↦ some line ]

unfoldable pub is_newline : ℕ → Bool
is_newline c = c == b'\n'

-- helper.c: `stripnl`
unfoldable pub stripnl : Bytes → Bytes
unfolding before is_newline
stripnl = before is_newline

-- The rest of the text from the first byte that meets the test on: where a walk that stops there
-- leaves its pointer.
unfoldable pub from : (ℕ → Bool) → Bytes → Bytes
from p [] = []
from p (x ∷ xs) = if p x then x ∷ xs else from p xs

-- The pieces of a text, put together as `printf` does with `%s`.
unfoldable pub concat : List Bytes → Bytes
concat [] = []
concat (s ∷ ss) = s ++ concat ss

-- What `%s` prints for a pointer: the C libraries of Linux print NULL so.
unfoldable pub text_of : Option Bytes → Bytes
text_of none = codes "(null)"
text_of (some s) = s

-- `if (s[strlen(s) - 1] == '\n') s[strlen(s) - 1] = '\0'`. On an empty string the source looks at the
-- byte before the buffer; this leaves the string empty.
unfoldable pub chop_newline : Bytes → Bytes
chop_newline [] = []
chop_newline (c ∷ []) = if c == b'\n' then [] else c ∷ []
chop_newline (c ∷ d ∷ s) = c ∷ chop_newline (d ∷ s)

-- The fields that `strsep(&s, ",")` gives one by one, empty ones too.
unfoldable pub strsep_fields : Bytes → Bytes → List Bytes
strsep_fields got [] = got ∷ []
strsep_fields got (c ∷ s) =
    let rest = strsep_fields (if c == b',' then [] else got ++ c ∷ []) s in
    if c == b',' then got ∷ rest else rest

unfoldable pub non_empty : List Bytes → List Bytes
non_empty [] = []
non_empty (s ∷ ss) = if is_nil s then non_empty ss else s ∷ non_empty ss

-- The tokens that `strtok(s, ",")` gives one by one: the fields that are not empty.
unfoldable pub strtok_tokens : Bytes → List Bytes
unfolding strsep_fields non_empty
strtok_tokens s = non_empty (strsep_fields [] s)
