-- ===== src/Progs/Reboot/Message.antt =====
-- The message buffer of ipcopreboot.
use ipcop_alpine.Prelude.{
  ℕ, ◌+◌, ◌≡◌, ◌<◌, sym, ◌∙◌, List, [], ◌∷◌, ◌++◌, ltb, arith, length, length-append, take,
  Bool-cases, inl, inr, append_assoc, append-nil, suc,
}
use ipcop_alpine.Cstring.{Bytes, codes, string_size}
use ipcop_alpine.Progs.Reboot.{add_words}

-- The words, each with a space behind it.
abbrev pub spaced : List Bytes → Bytes
spaced [] = []
spaced (word ∷ words) = (word ++ codes " ") ++ spaced words

length-spaced_word : (word : Bytes) → length (word ++ codes " ") ≡ length word + 1
unfolding codes
length-spaced_word word = omega (arith, length-append word (32 ∷ []))

-- A message shorter than the buffer grows by the first words, each with a space behind it, and
-- stays shorter than the buffer.
pub add_words_lem :
    (message : Bytes) (words : List Bytes)
    → length message < string_size
    → (n : ℕ) × (add_words message words ≡ message ++ spaced (take n words))
      × (length (add_words message words) < string_size)
unfolding add_words
add_words_lem message [] h = (0, sym (append-nil message), h)
add_words_lem message (word ∷ words) h =
    elim (Bool-cases (ltb string_size (length message + length word + 4))) [
      | inl full ↦ rw full (0, sym (append-nil message), h)
      | inr fits ↦
          let longer = length-append message (word ++ codes " ") in
          let (n, e, short) =
            add_words_lem (message ++ (word ++ codes " ")) words
              (ground (arith, longer, length-spaced_word word)) in
          rw fits
            (suc n, e ∙ append_assoc message (word ++ codes " ") (spaced (take n words)), short)
    ]
