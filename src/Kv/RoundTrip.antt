-- ===== src/Kv/RoundTrip.antt =====
-- A list that is written to a settings file and read back.
use ipcop_alpine.Prelude.{
  ℕ, ◌+◌, ◌-◌, ◌≡◌, ◌≢◌, ◌≤◌, ◌⊎◌, refl, sym, ap, ap₂, ◌∙◌, Bool, true, false, List, [], ◌∷◌, ◌++◌,
  append-nil, append_assoc, some, ◌==◌, if◌then◌else◌, arith, Bool-cases, inl, inr, length,
  length-append, All, All-append, map, reverse, reverse-cons,
}
use ipcop_alpine.Cstring.{
  Bytes, string_size, has_byte, before, after, c_string, fgets_rounds, fgets_lines, is_nil,
}
use ipcop_alpine.Cstring.Laws.{
  before-append_stop, after-append_stop, before-eq_of_All, has_byte-append, before_last-append,
  fgets_rounds_line,
}
use ipcop_alpine.Kv.{
  Item, Kv, entry, success, add_kv, parse_line, read_kv_lines, print_item, print_kv, is_eol,
  is_equals, unquote, assign, classify,
}

-- A byte that a line of text can hold.
pub record IsText (c : ℕ) : Type 0 where
  pub ne_nul : c ≢ 0
  pub ne_newline : c ≢ b'\n'
  pub ne_return : c ≢ b'\r'

-- What the format can express: a key with no equals sign, a value that begins with no quote unless
-- a space gets it quoted, on a line that fits the buffer.
pub record IsStorable (item : Item) : Type 0 where
  pub key_ne_nil : is_nil item.key ≡ false
  pub key_text : All IsText item.key
  pub key_plain : All (λ c. is_equals c ≡ false) item.key
  pub value_text : All IsText item.value
  pub value_plain : (has_byte b' ' item.value ≡ true) ⊎ (unquote item.value ≡ some item.value)
  pub fits : length (print_item item) ≤ string_size - 1

-- The printed value, between the equals sign and the newline.
quoted : Bytes → Bytes
quoted value = if has_byte b' ' value then 39 ∷ (value ++ 39 ∷ []) else value

print_item-quoted :
    (item : Item) (rest : Bytes)
    → print_item item ++ rest ≡ (item.key ++ b'=' ∷ quoted item.value) ++ b'\n' ∷ rest
unfolding print_item quoted
print_item-quoted item rest = elim (Bool-cases (has_byte b' ' item.value)) [
  | inl e ↦ rw e (simp append_assoc)
  | inr e ↦ rw e (simp append_assoc)
]

unquote-quoted :
    (value : Bytes)
    → (has_byte b' ' value ≡ true) ⊎ (unquote value ≡ some value)
    → unquote (quoted value) ≡ some value
unfolding quoted unquote
unquote-quoted value h = elim (Bool-cases (has_byte b' ' value)) [
  | inl e ↦ rw e (before_last-append 39 value)
  | inr e ↦ rw e (ground arith)
]

All-quoted : (value : Bytes) → All IsText value → All IsText (quoted value)
unfolding quoted
All-quoted value h = elim (Bool-cases (has_byte b' ' value)) [
  | inl e ↦ rw e (omega arith, All-append IsText value (39 ∷ []) h (omega arith, tt))
  | inr e ↦ rw e h
]

-- The text of a line, without its newline.
text : Item → Bytes
text item = item.key ++ b'=' ∷ quoted item.value

All-text : (item : Item) → IsStorable item → All IsText (text item)
unfolding text
All-text item w =
    All-append IsText item.key (b'=' ∷ quoted item.value) w.key_text
      (omega arith, All-quoted item.value w.value_text)

module _ (P : ℕ → Bool) where
  All-text_false :
      ((c : ℕ) → IsText c → P c ≡ false) → (s : Bytes) → All IsText s → All (λ c. P c ≡ false) s
  All-text_false h [] w = tt
  All-text_false h (c ∷ s) w = (h c w.0, All-text_false h s w.1)

All-ne_newline : (s : Bytes) → All IsText s → All (λ c. c ≢ b'\n') s
All-ne_newline [] w = tt
All-ne_newline (c ∷ s) w = (w.0.ne_newline, All-ne_newline s w.1)

is_nil-append : (s t : Bytes) → is_nil s ≡ false → is_nil (s ++ t) ≡ false
is_nil-append [] t h = cc
is_nil-append (c ∷ s) t h = refl

c_string-line : (s : Bytes) → All IsText s → c_string (s ++ b'\n' ∷ []) ≡ s ++ b'\n' ∷ []
unfolding c_string
c_string-line s w =
    before-eq_of_All (λ c. c == 0) (s ++ b'\n' ∷ [])
      (All-append (λ c. (c == 0) ≡ false) s (b'\n' ∷ [])
        (All-text_false (λ c. c == 0) (λ c t. ground (arith, t.ne_nul)) s w) (refl, tt))

is_nil-text : (item : Item) → IsStorable item → is_nil (text item) ≡ false
unfolding text
is_nil-text item w = is_nil-append item.key (b'=' ∷ quoted item.value) w.key_ne_nil

before-text : (item : Item) → IsStorable item → before is_eol (text item ++ b'\n' ∷ []) ≡ text item
unfolding is_eol
before-text item w =
    before-append_stop is_eol (text item) b'\n' []
      (All-text_false is_eol (λ c t. ground (arith, t.ne_newline, t.ne_return)) (text item)
        (All-text item w))
      refl

has_byte-text : (item : Item) → has_byte b'=' (text item) ≡ true
unfolding text
has_byte-text item = has_byte-append b'=' item.key (quoted item.value)

before-equals : (item : Item) → IsStorable item → before is_equals (text item) ≡ item.key
unfolding text
before-equals item w =
    before-append_stop is_equals item.key b'=' (quoted item.value) w.key_plain
      (unfold is_equals in refl)

after-equals : (item : Item) → IsStorable item → after is_equals (text item) ≡ quoted item.value
unfolding text
after-equals item w =
    after-append_stop is_equals item.key b'=' (quoted item.value) w.key_plain
      (unfold is_equals in refl)

print_kv-cons : (item : Item) (kv : Kv) → print_kv (item ∷ kv) ≡ text item ++ b'\n' ∷ print_kv kv
unfolding print_kv text
print_kv-cons item kv = print_item-quoted item (print_kv kv)

print_item-text : (item : Item) → print_item item ++ [] ≡ text item ++ b'\n' ∷ []
unfolding text
print_item-text item = print_item-quoted item []

fits_text : (item : Item) → IsStorable item → length (text item) + 1 ≤ 255
fits_text item w = omega (
  arith,
  w.fits,
  ap length (sym (append-nil (print_item item)) ∙ print_item-text item),
  length-append (text item) (b'\n' ∷ []),
)

classify-text : (item : Item) → IsStorable item → classify (text item) ≡ entry item.key item.value
unfolding classify assign
classify-text item w =
    rw (is_nil-text item w, has_byte-text item)
      (ap₂ (λ name value. assign name (unquote value)) (before-equals item w) (after-equals item w)
        ∙ ap (assign item.key) (unquote-quoted item.value w.value_plain)
        ∙ rw w.key_ne_nil)

parse_line-text :
    (item : Item)
    → IsStorable item
    → parse_line (text item ++ b'\n' ∷ []) ≡ entry item.key item.value
unfolding parse_line
parse_line-text item w = ap classify (before-text item w) ∙ classify-text item w

fgets_lines-print_kv :
    (item : Item) (kv : Kv)
    → IsStorable item
    → fgets_lines string_size (print_kv (item ∷ kv))
      ≡ (text item ++ b'\n' ∷ []) ∷ fgets_lines string_size (print_kv kv)
unfolding fgets_lines
fgets_lines-print_kv item kv w =
    ap (λ s. map c_string (fgets_rounds 255 255 [] s)) (print_kv-cons item kv)
    ∙ ap (map c_string) (
        fgets_rounds_line 255 255 [] (text item) (print_kv kv)
          (All-ne_newline (text item) (All-text item w)) (fits_text item w))
    ∙ ap (◌∷ map c_string (fgets_rounds 255 255 [] (print_kv kv)))
        (c_string-line (text item) (All-text item w))

read_kv_lines-entry :
    (acc : Kv) (line : Bytes) (lines : List Bytes) (k v : Bytes)
    → parse_line line ≡ entry k v
    → read_kv_lines acc (line ∷ lines) ≡ read_kv_lines (add_kv acc k v) lines
unfolding read_kv_lines
read_kv_lines-entry acc line lines k v e = rw (e, read_kv_lines)

-- Reading what was written gives back every node, each in front of those before it, onto the list
-- that was there.
pub read-print_kv :
    (kv acc : Kv)
    → All IsStorable kv
    → read_kv_lines acc (fgets_lines string_size (print_kv kv)) ≡ (success, reverse kv ++ acc)
unfolding read_kv_lines fgets_lines print_kv add_kv
read-print_kv [] acc w = refl
read-print_kv (item ∷ kv) acc w =
    ap (read_kv_lines acc) (fgets_lines-print_kv item kv w.0)
    ∙ read_kv_lines-entry acc (text item ++ b'\n' ∷ []) (fgets_lines string_size (print_kv kv))
        item.key item.value (parse_line-text item w.0)
    ∙ read-print_kv kv (item ∷ acc) w.1
    ∙ rw reverse-cons (rw append_assoc)
