-- ===== src/Kv/CommandLine/RoundTrip.antt =====
-- A command line that gives a list of settings, read back.
use ipcop_alpine.Prelude.{
  ℕ, zero, suc, ◌+◌, ◌-◌, ◌≡◌, ◌≤◌, ◌<◌, refl, ap, ◌∙◌, Bool, true, false, [], ◌∷◌, ◌++◌, some,
  arith, length, length-append, All, All-append, reverse, reverse-cons, append_assoc, append-nil,
}
use ipcop_alpine.Cstring.{Bytes, before, from, is_nil, stripnl, is_newline, string_size}
use ipcop_alpine.Cstring.Laws.{before-append_stop, before-eq_of_All}
use ipcop_alpine.Kv.{Item, Kv, add_kv}
use ipcop_alpine.Kv.CommandLine.{
  is_space, not_space, ends_key, value_at, read_kv_words, read_kv_from_line,
}

-- A setting that a word can give: a key with no space and no equals sign, a value with no space,
-- and no newline in either.
pub record IsWord (item : Item) : Type 0 where
  pub key_ne_nil : is_nil item.key ≡ false
  pub key_plain : All (λ c. ends_key c ≡ false) item.key
  pub value_plain : All (λ c. is_space c ≡ false) item.value
  pub key_line : All (λ c. is_newline c ≡ false) item.key
  pub value_line : All (λ c. is_newline c ≡ false) item.value

-- Each setting as one space, key, equals sign and value.
abbrev pub words_of : Kv → Bytes
words_of [] = []
words_of (item ∷ kv) = b' ' ∷ (item.key ++ b'=' ∷ (item.value ++ words_of kv))

module _ (p : ℕ → Bool) where
  from-append_stop :
      (s : Bytes) (c : ℕ) (t : Bytes)
      → All (λ x. p x ≡ false) s
      → p c ≡ true
      → from p (s ++ c ∷ t) ≡ c ∷ t
  unfolding from
  from-append_stop [] c t h e = rw e
  from-append_stop (x ∷ s) c t h e = rw h.0 (from-append_stop s c t h.1 e)

  from-nil_of_All : (s : Bytes) → All (λ x. p x ≡ false) s → from p s ≡ []
  unfolding from
  from-nil_of_All [] h = refl
  from-nil_of_All (x ∷ s) h = rw h.0 (from-nil_of_All s h.1)

-- A value ends at the next word, or at the end of the line.
before-words :
    (v : Bytes) (kv : Kv) → All (λ c. is_space c ≡ false) v → before is_space (v ++ words_of kv) ≡ v
before-words v [] h = ap (before is_space) (append-nil v) ∙ before-eq_of_All is_space v h
before-words v (item ∷ kv) h = before-append_stop is_space v b' ' _ h (unfold is_space in refl)

from-words :
    (v : Bytes) (kv : Kv)
    → All (λ c. is_space c ≡ false) v
    → from is_space (v ++ words_of kv) ≡ words_of kv
from-words v [] h = ap (from is_space) (append-nil v) ∙ from-nil_of_All is_space v h
from-words v (item ∷ kv) h = from-append_stop is_space v b' ' _ h (unfold is_space in refl)

-- The space in front of a key is skipped.
from_key :
    (k rest : Bytes)
    → is_nil k ≡ false
    → All (λ c. ends_key c ≡ false) k
    → from not_space (b' ' ∷ (k ++ rest)) ≡ k ++ rest
unfolding from not_space is_space ends_key
from_key [] rest e h = cc
from_key (c ∷ k) rest e h = ground (arith, h.0)

append-is_nil : (k rest : Bytes) → is_nil k ≡ false → is_nil (k ++ rest) ≡ false
append-is_nil [] rest h = cc
append-is_nil (c ∷ k) rest h = refl

read_kv_words-cons :
    (fuel : ℕ) (kv items : Kv) (item : Item)
    → IsWord item
    → read_kv_words (suc fuel) kv (words_of (item ∷ items))
      ≡ read_kv_words fuel (add_kv kv item.key item.value) (words_of items)
unfolding read_kv_words value_at
read_kv_words-cons fuel kv items item w =
    let rest = b'=' ∷ (item.value ++ words_of items) in
    let e : ends_key b'=' ≡ true = unfold ends_key in refl in
    rw (from_key item.key rest w.key_ne_nil w.key_plain) (
      rw (append-is_nil item.key rest w.key_ne_nil) (
        rw (from-append_stop ends_key item.key b'=' (item.value ++ words_of items) w.key_plain e) (
          rw
            (before-append_stop ends_key item.key b'=' (item.value ++ words_of items) w.key_plain e)
            (rw (before-words item.value items w.value_plain)
              (rw (from-words item.value items w.value_plain) refl)))))

read_kv_words-words_of :
    (items kv : Kv) (fuel : ℕ)
    → All IsWord items
    → length items ≤ fuel
    → read_kv_words fuel kv (words_of items) ≡ reverse items ++ kv
unfolding read_kv_words add_kv
read_kv_words-words_of [] kv zero w h = refl
read_kv_words-words_of [] kv (suc fuel) w h = unfold from in refl
read_kv_words-words_of (item ∷ items) kv zero w h = elim h [ ]
read_kv_words-words_of (item ∷ items) kv (suc fuel) w h =
    read_kv_words-cons fuel kv items item w.0
    ∙ read_kv_words-words_of items (item ∷ kv) fuel w.1 (omega arith)
    ∙ rw reverse-cons (rw append_assoc)

words_of_line : (items : Kv) → All IsWord items → All (λ c. is_newline c ≡ false) (words_of items)
unfolding is_newline
words_of_line [] w = tt
words_of_line (item ∷ items) w = (
  refl,
  All-append _ item.key _ w.0.key_line
      (refl, All-append _ item.value _ w.0.value_line (words_of_line items w.1)),
)

words_of_long : (items : Kv) → length items ≤ length (words_of items)
words_of_long [] = omega arith
words_of_long (item ∷ items) = omega (
  arith,
  words_of_long items,
  length-append item.key (b'=' ∷ (item.value ++ words_of items)),
  length-append item.value (words_of items),
)

-- A line of such words that fits the local buffer is read as its settings, each in front of those
-- before it, onto the list that was there.
pub read_kv_from_line-words_of :
    (items kv : Kv)
    → All IsWord items
    → length (words_of items) + 1 < string_size - 1
    → read_kv_from_line kv (words_of items ++ b'\n' ∷ []) ≡ some (reverse items ++ kv)
unfolding read_kv_from_line stripnl
read_kv_from_line-words_of items kv w fits =
    let whole =
      before-append_stop is_newline (words_of items) b'\n' [] (words_of_line items w)
        (unfold is_newline in refl) in
    let long = length-append (words_of items) (b'\n' ∷ []) in
    let result =
      read_kv_words-words_of items kv (suc (length (words_of items ++ b'\n' ∷ []))) w
        (omega (arith, words_of_long items, long)) in
    rw whole (ground (arith, long, result))
