-- ===== src/Progs/Bkcfg/Trim.antt =====
-- The loop of `add_file` that trims a line in place gives the name between the blanks.
use ipcop_alpine.Prelude.{
  ℕ, zero, suc, ◌+◌, ◌-◌, ◌≡◌, refl, ap, sym, ◌∙◌, Bool, true, false, ◌&&◌, [], ◌∷◌, ◌++◌, ◌==◌,
  if◌then◌else◌, arith, length, length-append, set, All, All-append, append_assoc, append-nil,
}
use ipcop_alpine.Cstring.{Bytes, c_string}
use ipcop_alpine.Cstring.Laws.{before-append_stop}
use ipcop_alpine.Progs.Bkcfg.{is_blank, is_line_end, shift_line, trim_end, trim_line}

set-skip : (p r : Bytes) (i j v : ℕ) → j ≡ length p + i → set (p ++ r) j v ≡ p ++ set r i v
set-skip [] r i j v e = ap (λ k. set r k v) (omega (arith, e))
set-skip (x ∷ p) r i zero v e = absurd (omega (arith, e))
set-skip (x ∷ p) r i (suc j) v e = ap (◌∷◌ x) (set-skip p r i j v (omega (arith, e)))

-- The bytes between the two pointers, behind a step that reads `c`.
abbrev between : Bytes → ℕ → Bytes
between [] c = []
between (m ∷ mid) c = mid ++ c ∷ []

length-between : (mid : Bytes) (c : ℕ) → length (between mid c) ≡ length mid
length-between [] c = refl
length-between (m ∷ mid) c = omega (arith, length-append mid (c ∷ []))

-- The two writes of a step, `pre` being what is in place already.
step_writes :
    (pre mid t : Bytes) (x c : ℕ)
    → (if length mid == 0
        then set (pre ++ (mid ++ x ∷ t)) (length pre + length mid) c
        else set
            (set (pre ++ (mid ++ x ∷ t)) (length pre + length mid) c)
            (length pre + length mid - length mid)
            c)
      ≡ pre ++ c ∷ (between mid c ++ t)
step_writes pre [] t x c = set-skip pre (x ∷ t) 0 (length pre + 0) c refl
step_writes pre (m ∷ mid) t x c =
    let front = set-skip pre ((m ∷ mid) ++ x ∷ t) (length (m ∷ mid)) _ c refl in
    let inner = set-skip (m ∷ mid) (x ∷ t) 0 (length (m ∷ mid)) c (omega arith) in
    let outer =
      set-skip pre ((m ∷ mid) ++ c ∷ t) 0 (length pre + length (m ∷ mid) - length (m ∷ mid)) c
        (omega arith) in
    let some : (suc (length mid) == 0) ≡ false = ground arith in
    rw front (rw (inner, some) (outer ∙ ap (λ r. pre ++ c ∷ r) (sym (append_assoc mid (c ∷ []) t))))

-- A byte of a name: neither the end of the line nor a NUL.
abbrev pub IsInner : ℕ → Type 0
IsInner c = (is_line_end c ≡ false) × ((c == 0) ≡ false)

cut_lem : (pre t : Bytes) → All IsInner pre → c_string (pre ++ 0 ∷ t) ≡ pre
unfolding c_string
cut_lem pre t h = before-append_stop (λ c. c == 0) pre 0 t (nonzero pre h) refl
  where
    nonzero : (s : Bytes) → All IsInner s → All (λ c. (c == 0) ≡ false) s
    nonzero [] h = tt
    nonzero (c ∷ s) h = (h.0.1, nonzero s h.1)

and_false : (b : Bool) → (b && false) ≡ false
and_false true = refl
and_false false = refl

-- Behind the blanks: what is left of the line is moved to the left.
shift_name :
    (pre mid s : Bytes) (ch offset : ℕ) (buf : Bytes)
    → ch ≡ length pre + length mid
    → offset ≡ length mid
    → buf ≡ pre ++ (mid ++ (s ++ b'\n' ∷ []))
    → All IsInner pre
    → All IsInner s
    → c_string (shift_line (s ++ b'\n' ∷ []) ch offset false buf) ≡ pre ++ s
unfolding shift_line is_line_end
shift_name pre mid [] ch offset buf e o b hp hs =
    rw (e, o, b)
      (rw (step_writes pre mid [] b'\n' 0)
        (cut_lem pre (between mid 0 ++ []) hp ∙ sym (append-nil pre)))
shift_name pre mid (x ∷ s) ch offset buf e o b hp hs =
    let rest = s ++ b'\n' ∷ [] in
    let inner = hs.0.0 in
    rw (inner, and_false (is_blank x), shift_line)
      (shift_name (pre ++ x ∷ []) (between mid x) s (ch + 1) offset _
          (omega (arith, length-append pre (x ∷ []), length-between mid x))
          (omega (arith, length-between mid x))
          (rw (e, o, b)
            (step_writes pre mid rest x x
              ∙ sym (append_assoc pre (x ∷ []) (between mid x ++ rest))))
          (All-append IsInner pre (x ∷ []) hp (hs.0, tt)) hs.1
        ∙ append_assoc pre (x ∷ []) s)

not_end : (c : ℕ) → is_blank c ≡ true → is_line_end c ≡ false
unfolding is_blank is_line_end
not_end c e = ground arith

-- With nothing in place yet.
first_writes :
    (mid t : Bytes) (c : ℕ)
    → (if length mid == 0
        then set (mid ++ c ∷ t) (length mid) c
        else set (set (mid ++ c ∷ t) (length mid) c) (length mid - length mid) c)
      ≡ c ∷ (between mid c ++ t)
first_writes mid t c =
    let zero_add : 0 + length mid ≡ length mid = omega arith in
    let writes = rw zero_add at (step_writes [] mid t c c) in writes

-- The blanks in front, and the first byte of the name.
shift_blanks :
    (b : Bytes) (x : ℕ) (mid s : Bytes) (ch : ℕ) (buf : Bytes)
    → ch ≡ length mid
    → buf ≡ mid ++ (b ++ (x ∷ (s ++ b'\n' ∷ [])))
    → All (λ c. is_blank c ≡ true) b
    → is_blank x ≡ false
    → All IsInner (x ∷ s)
    → c_string (shift_line (b ++ (x ∷ (s ++ b'\n' ∷ []))) ch ch true buf) ≡ x ∷ s
unfolding shift_line
shift_blanks [] x mid s ch buf e q hb hx hs =
    rw (hs.0.0, hx, shift_line)
      (shift_name (x ∷ []) (between mid x) s (ch + 1) ch _ (omega (arith, length-between mid x))
        (omega (arith, length-between mid x)) (rw (e, q) (first_writes mid (s ++ b'\n' ∷ []) x))
        (hs.0, tt) hs.1)
shift_blanks (c ∷ b) x mid s ch buf e q hb hx hs =
    let rest = b ++ (x ∷ (s ++ b'\n' ∷ [])) in
    rw (not_end c hb.0, hb.0, shift_line)
      (shift_blanks b x (c ∷ between mid c) s (ch + 1) _ (omega (arith, length-between mid c))
        (rw (e, q) (first_writes mid rest c)) hb.1 hx hs)

-- The last byte of `x ∷ s`.
abbrev pub last_of : ℕ → Bytes → ℕ
last_of x [] = x
last_of x (y ∷ s) = last_of y s

trim_end-blanks : (e : Bytes) → All (λ c. is_blank c ≡ true) e → trim_end e ≡ []
unfolding trim_end
trim_end-blanks [] h = refl
trim_end-blanks (c ∷ e) h = rw (h.0, trim_end-blanks e h.1, trim_end) refl

trim_end-name :
    (x : ℕ) (s e : Bytes)
    → is_blank (last_of x s) ≡ false
    → All (λ c. is_blank c ≡ true) e
    → trim_end (x ∷ (s ++ e)) ≡ x ∷ s
unfolding trim_end
trim_end-name x [] e h he = rw (trim_end-blanks e he, h, trim_end) refl
trim_end-name x (y ∷ s) e h he = ground (arith, trim_end-name y s e h he)

blanks-IsInner : (e : Bytes) → All (λ c. is_blank c ≡ true) e → All IsInner e
unfolding is_blank is_line_end
blanks-IsInner [] h = tt
blanks-IsInner (c ∷ e) h = ((ground (arith, h.0), ground (arith, h.0)), blanks-IsInner e h.1)

-- A line that is a name with blanks around it and a newline behind is trimmed to the name, where the
-- name is a byte and more, starts and ends with a byte that is no blank, and has no end of line and no
-- NUL in it.
pub trim_line-name :
    (b : Bytes) (x : ℕ) (s e : Bytes)
    → All (λ c. is_blank c ≡ true) b
    → is_blank x ≡ false
    → is_blank (last_of x s) ≡ false
    → All IsInner (x ∷ s)
    → All (λ c. is_blank c ≡ true) e
    → trim_line (b ++ (x ∷ ((s ++ e) ++ b'\n' ∷ []))) ≡ x ∷ s
unfolding trim_line
trim_line-name b x s e hb hx hl hs he =
    ap trim_end (
      shift_blanks b x [] (s ++ e) 0 _ refl refl hb hx
        (hs.0, All-append IsInner s e hs.1 (blanks-IsInner e he)))
    ∙ trim_end-name x s e hl he
