-- ===== src/Kv/CommandLine.antt =====
-- `read_kv_from_line` of source/core/progs/helper.c, which reads `key=data key ...` as it stands
-- on a kernel command line, and the line that gives a list of settings.
pub mod RoundTrip
use ipcop_alpine.Prelude.{
  ℕ, zero, suc, ◌-◌, Bool, not, ◌||◌, [], ◌∷◌, Option, none, some, ◌==◌, if◌then◌else◌, ltb, length,
}
use ipcop_alpine.Cstring.{Bytes, string_size, codes, before, from, is_nil, stripnl}
use ipcop_alpine.Kv.{Kv, add_kv}

unfoldable pub is_space : ℕ → Bool
is_space c = c == b' '

unfoldable pub not_space : ℕ → Bool
unfolding is_space
not_space c = not (is_space c)

unfoldable pub ends_key : ℕ → Bool
ends_key c = c == b' ' || c == b'='

-- The `switch` on the byte behind a key: the value of the setting, and the text that is left.
unfoldable pub value_at : Bytes → Bytes × Bytes
unfolding is_space
value_at [] = (codes "1", [])
value_at (c ∷ s) = if c == b'=' then (before is_space s, from is_space s) else (codes "1", s)

-- The outer loop, on fuel.
unfoldable pub read_kv_words : ℕ → Kv → Bytes → Kv
unfolding is_space not_space ends_key value_at
read_kv_words zero kv buffer = kv
read_kv_words (suc fuel) kv buffer =
    let word = from not_space buffer in
    let (value, left) = value_at (from ends_key word) in
    let kv' = read_kv_words fuel (add_kv kv (before ends_key word) value) left in
    if is_nil word then kv else kv'

-- `none`: the copy into the local buffer is cut at its last byte but one, and the last byte, which
-- should be NUL, was never set. Each round takes a byte, so the length is fuel enough.
unfoldable pub read_kv_from_line : Kv → Bytes → Option Kv
unfolding read_kv_words
read_kv_from_line kv line =
    if ltb (length line) (string_size - 1)
    then some (read_kv_words (suc (length line)) kv (stripnl line))
    else none
