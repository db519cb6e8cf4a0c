-- ===== src/Setuid/Log/Lines.antt =====
-- The lines of a captured output, as the debug log takes them apart.
use ipcop_alpine.Prelude.{
  ◌≡◌, refl, sym, ap, ◌∙◌, false, Bool-cases, inl, inr, List, [], ◌∷◌, ◌++◌, All, All-append, map,
  append_assoc, append-nil,
}
use ipcop_alpine.Cstring.{Bytes, concat, is_newline, is_nil, non_empty}
use ipcop_alpine.Setuid.Log.{newline_fields, output_lines}

-- A line of an output: some bytes, none of them a newline.
pub record IsLine (s : Bytes) : Type 0 where
  pub some_byte : is_nil s ≡ false
  pub no_newline : All (λ c. is_newline c ≡ false) s

abbrev pub unlines : List Bytes → Bytes
unlines ls = concat (map (λ l. l ++ b'\n' ∷ []) ls)

abbrev pub NoNewline : Bytes → Type 0
NoNewline = All (λ c. is_newline c ≡ false)

newline_fields-line :
    (got s t : Bytes)
    → NoNewline s
    → newline_fields got (s ++ b'\n' ∷ t) ≡ (got ++ s) ∷ newline_fields [] t
unfolding newline_fields is_newline
newline_fields-line got [] t h = ap (λ g. g ∷ newline_fields [] t) (sym (append-nil got))
newline_fields-line got (c ∷ s) t h = rw (h.0) (
    newline_fields-line (got ++ c ∷ []) s t h.1
    ∙ ap (λ g. g ∷ newline_fields [] t) (append_assoc got (c ∷ []) s))

output_lines-line : (s t : Bytes) → IsLine s → output_lines (s ++ b'\n' ∷ t) ≡ s ∷ output_lines t
unfolding output_lines non_empty
output_lines-line s t h =
    ap non_empty (newline_fields-line [] s t h.no_newline) ∙ rw (h.some_byte) refl

-- Lines that are written one after the other, each with a newline behind it, are taken apart into
-- the same lines.
pub output_lines-unlines : (ls : List Bytes) → All IsLine ls → output_lines (unlines ls) ≡ ls
unfolding concat output_lines newline_fields non_empty
output_lines-unlines [] h = refl
output_lines-unlines (l ∷ ls) h =
    ap output_lines (append_assoc l (b'\n' ∷ []) (unlines ls))
    ∙ (output_lines-line l (unlines ls) h.0 ∙ ap (◌∷◌ l) (output_lines-unlines ls h.1))

newline_fields-NoNewline : (got s : Bytes) → NoNewline got → All NoNewline (newline_fields got s)
unfolding newline_fields
newline_fields-NoNewline got [] h = (h, tt)
newline_fields-NoNewline got (c ∷ s) h = elim (Bool-cases (is_newline c)) [
  | inl e ↦ rw e (h, newline_fields-NoNewline [] s tt)
  | inr e ↦ rw e (newline_fields-NoNewline (got ++ c ∷ []) s (All-append _ got (c ∷ []) h (e, tt)))
]

non_empty-IsLine : (ls : List Bytes) → All NoNewline ls → All IsLine (non_empty ls)
unfolding non_empty
non_empty-IsLine [] h = tt
non_empty-IsLine ([] ∷ ls) h = non_empty-IsLine ls h.1
non_empty-IsLine ((c ∷ l) ∷ ls) h =
    (record { some_byte = refl; no_newline = h.0 }, non_empty-IsLine ls h.1)

-- Every line that is taken from an output has a byte, and no newline in it.
pub output_lines-IsLine : (s : Bytes) → All IsLine (output_lines s)
unfolding output_lines
output_lines-IsLine s = non_empty-IsLine _ (newline_fields-NoNewline [] s tt)
