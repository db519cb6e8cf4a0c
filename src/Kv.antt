-- ===== src/Kv.antt =====
-- The `NODEKV` lists of source/core/progs/helper.c: look-up, update, and the two file formats.
-- A list is written out node by node; a node is its key and value.
pub mod Laws
pub mod File
pub mod CommandLine
pub mod RoundTrip
pub mod Storage
use ipcop_alpine.Prelude.{
  ℕ, Bool, true, false, not, ◌&&◌, ◌||◌, List, [], ◌∷◌, ◌++◌, Option, none, some, ◌==◌,
  if◌then◌else◌, take,
}
use ipcop_alpine.Cstring.{
  Bytes, string_size, strcmp_eq, has_byte, before, after, before_last, snprintf, is_nil,
}

-- The results of common.h.
abbrev pub success : ℕ
success = 0

abbrev pub failure : ℕ
failure = 1

pub record Item : Type 0 where
  pub key : Bytes
  pub value : Bytes

abbrev pub Kv : Type 0
Kv = List Item

unfoldable pub add_kv : Kv → Bytes → Bytes → Kv
add_kv kv k v = record { key = k; value = v } ∷ kv

unfoldable pub find_kv : Kv → Bytes → Option Bytes
find_kv [] k = none
find_kv (item ∷ kv) k = if strcmp_eq item.key k then some item.value else find_kv kv k

-- The result and the caller's buffer.
unfoldable pub find_kv_default : Kv → Bytes → Bytes → ℕ × Bytes
find_kv_default [] k value = (failure, value)
find_kv_default (item ∷ kv) k value =
    if strcmp_eq item.key k
    then (success, snprintf string_size item.value)
    else find_kv_default kv k value

unfoldable pub test_kv : Kv → Bytes → Bytes → ℕ
unfolding find_kv
test_kv kv k expected = elim (find_kv kv k) [
  | none ↦ failure
  | some value ↦ if strcmp_eq value expected then success else failure
]

-- The loop of `update_kv`: `none` where no node has the key.
replace_kv : Kv → Bytes → Bytes → Option Kv
replace_kv [] k v = none
replace_kv (item ∷ kv) k v =
    if strcmp_eq item.key k
    then some (record item { value = v } ∷ kv)
    else elim (replace_kv kv k v) [ none ↦ none | some kv' ↦ some (item ∷ kv') ]

unfoldable pub update_kv : Kv → Bytes → Bytes → Kv
unfolding replace_kv add_kv
update_kv kv k v = elim (replace_kv kv k v) [ none ↦ add_kv kv k v | some kv' ↦ kv' ]

-- What one line of a settings file is.
pub data Line : Type 0 where
  skip bad : Line
  entry : Bytes → Bytes → Line

pub is_eol : ℕ → Bool
is_eol c = c == b'\n' || c == b'\r'

unfoldable pub is_equals : ℕ → Bool
is_equals c = c == b'='

-- Behind a leading quote the value ends before the last quote, which must be there.
unfoldable pub unquote : Bytes → Option Bytes
unquote [] = some []
unquote (c ∷ v) = if c == 39 then before_last 39 v else some (c ∷ v)

-- A key without text is passed over, once its value has been seen to be well quoted.
assign : Bytes → Option Bytes → Line
assign name none = bad
assign name (some value) = if is_nil name then skip else entry name value

classify : Bytes → Line
classify text =
    if is_nil text
    then skip
    else if not (has_byte b'=' text)
    then bad
    else assign (before is_equals text) (unquote (after is_equals text))

-- The body of the loop of `read_kv_from_file`, on the string in its buffer.
unfoldable pub parse_line : Bytes → Line
unfolding is_eol is_equals unquote assign classify
parse_line buffer = classify (before is_eol buffer)

-- The loop. A bad line ends it with a failure, and what was read before stays in the list.
unfoldable pub read_kv_lines : Kv → List Bytes → ℕ × Kv
unfolding add_kv
read_kv_lines kv [] = (success, kv)
read_kv_lines kv (line ∷ lines) = elim (parse_line line) [
  | skip ↦ read_kv_lines kv lines
  | bad ↦ (failure, kv)
  | entry k v ↦ read_kv_lines (add_kv kv k v) lines
]

-- The line that `write_kv_to_file` prints for a node: quoted where the value has a space.
unfoldable pub print_item : Item → Bytes
print_item item =
    if has_byte b' ' item.value
    then item.key ++ b'=' ∷ 39 ∷ (item.value ++ 39 ∷ b'\n' ∷ [])
    else item.key ++ b'=' ∷ (item.value ++ b'\n' ∷ [])

unfoldable pub print_kv : Kv → Bytes
unfolding print_item
print_kv [] = []
print_kv (item ∷ kv) = print_item item ++ print_kv kv
