-- ===== src/Setuid/Strlcat/Text.antt =====
-- `strlcat` against the string view: the text of `dst` with as much of `src` as fits.
use ipcop_alpine.Prelude.{
  ℕ, zero, suc, ◌+◌, ◌-◌, ◌≡◌, ◌≢◌, ◌≤◌, ◌<◌, refl, ap, sym, ◌∙◌, false, [], ◌∷◌, ◌++◌, ◌==◌, arith,
  length, length-append, get_or, set, take, drop, All, All-append, All-take, append_assoc, min,
  length-take, length-drop, take-eq_of_le,
}
use ipcop_alpine.Cstring.{Bytes, before, c_string}
use ipcop_alpine.Cstring.Laws.{before-append_stop}
use ipcop_alpine.Setuid.Strlcat.{scan_end, copy_over, strlcat}

abbrev pub NotNul : ℕ → Type 0
NotNul c = c ≢ 0

get_or_mid : (pre : Bytes) (x : ℕ) (rest : Bytes) → get_or (pre ++ x ∷ rest) (length pre) 0 ≡ x
get_or_mid [] x rest = refl
get_or_mid (c ∷ pre) x rest = get_or_mid pre x rest

set_mid :
    (pre : Bytes) (x y : ℕ) (rest : Bytes) → set (pre ++ x ∷ rest) (length pre) y ≡ pre ++ y ∷ rest
set_mid [] x y rest = refl
set_mid (c ∷ pre) x y rest = ap (◌∷◌ c) (set_mid pre x y rest)

length_concat : (pre : Bytes) (c : ℕ) → length (pre ++ c ∷ []) ≡ length pre + 1
length_concat pre c = omega (arith, length-append pre (c ∷ []))

scan_end_lem :
    (n : ℕ) (pre s pad : Bytes)
    → All NotNul s
    → scan_end n (pre ++ (s ++ 0 ∷ pad)) (length pre) ≡ length pre + min n (length s)
unfolding scan_end
scan_end_lem zero pre s pad h = omega arith
scan_end_lem (suc n) pre [] pad h = rw (get_or_mid pre 0 pad) (omega arith)
scan_end_lem (suc n) pre (c ∷ s) pad h =
    let ih = scan_end_lem n (pre ++ c ∷ []) s pad h.1 in
    let moved : scan_end n (pre ++ (c ∷ (s ++ 0 ∷ pad))) (length pre + 1)
        ≡ scan_end n ((pre ++ c ∷ []) ++ (s ++ 0 ∷ pad)) (length (pre ++ c ∷ [])) =
      rw (length_concat pre c) (rw append_assoc refl) in
    rw (get_or_mid pre c (s ++ 0 ∷ pad)) (ground (arith, ih, moved, length_concat pre c, h.0))

copy_over_lem :
    (src : Bytes) (room : ℕ) (pre mid : Bytes)
    → room + 1 ≤ length mid
    → copy_over src (suc room) (pre ++ mid) (length pre)
      ≡ pre ++ (take room src ++ 0 ∷ drop (suc (length (take room src))) mid)
unfolding copy_over
copy_over_lem src room pre [] h = absurd (omega arith)
copy_over_lem [] zero pre (m ∷ mid) h = set_mid pre m 0 mid
copy_over_lem [] (suc room) pre (m ∷ mid) h = set_mid pre m 0 mid
copy_over_lem (c ∷ src) zero pre (m ∷ mid) h = copy_over_lem src zero pre (m ∷ mid) h
copy_over_lem (c ∷ src) (suc room) pre (m ∷ mid) h =
    let ih = copy_over_lem src room (pre ++ c ∷ []) mid (omega arith) in
    let more : (suc (suc room) == 1) ≡ false = ground arith in
    let less : suc (suc room) - 1 ≡ suc room = omega arith in
    rw more (rw (less, set_mid pre m c mid) (simp (length_concat pre c, append_assoc) at ih))

-- The room behind the text, for what is appended and for its NUL.
abbrev pub room_of : Bytes → ℕ → ℕ
room_of s len = len - length s - 1

strlcat_lem :
    (s pad src : Bytes) (len : ℕ)
    → All NotNul s
    → length s < len
    → len ≤ length (s ++ 0 ∷ pad)
    → strlcat (s ++ 0 ∷ pad) src len ≡ (
      length s + length src,
      s
          ++ (take (room_of s len) src
              ++ 0 ∷ drop (suc (length (take (room_of s len) src))) (0 ∷ pad)),
    )
unfolding strlcat
strlcat_lem s pad src len h fits inside =
    let end : scan_end len (s ++ 0 ∷ pad) 0 ≡ length s =
      scan_end_lem len [] s pad h ∙ omega arith in
    let tocopy : len - length s ≡ suc (room_of s len) = omega arith in
    let copied =
      copy_over_lem src (room_of s len) s (0 ∷ pad) (omega (arith, length-append s (0 ∷ pad))) in
    rw (end, tocopy) (ground (arith, copied))

not_zero : (s : Bytes) → All NotNul s → All (λ c. (c == 0) ≡ false) s
not_zero [] h = tt
not_zero (c ∷ s) h = (ground (arith, h.0), not_zero s h.1)

-- With room in the array of `len` bytes, `strlcat` leaves the text of `dst` with as much of `src`
-- behind it as fits, keeps the size of the array, and returns the length that it tried for.
pub strlcat-text :
    (s pad src : Bytes) (len : ℕ)
    → All NotNul s
    → All NotNul src
    → length s < len
    → len ≤ length (s ++ 0 ∷ pad)
    → (c_string (strlcat (s ++ 0 ∷ pad) src len).1 ≡ s ++ take (room_of s len) src)
      × ((strlcat (s ++ 0 ∷ pad) src len).0 ≡ length s + length src)
      × (length (strlcat (s ++ 0 ∷ pad) src len).1 ≡ length (s ++ 0 ∷ pad))
unfolding c_string
strlcat-text s pad src len h h' fits inside =
    let t = take (room_of s len) src in
    let d = drop (length t) pad in
    rw (strlcat_lem s pad src len h fits inside) (
      ap (before (λ c. c == 0)) (sym (append_assoc s t (0 ∷ d)))
          ∙ before-append_stop (λ c. c == 0) (s ++ t) 0 d
              (not_zero (s ++ t) (All-append NotNul s t h (All-take NotNul (room_of s len) src h')))
              refl,
      refl,
      omega (
        arith,
        length-append s (t ++ 0 ∷ d),
        length-append t (0 ∷ d),
        length-append s (0 ∷ pad),
        length-take (room_of s len) src,
        length-drop (length t) pad,
      ),
    )

-- Where `dst` fills the `len` bytes, `strlcat` changes nothing.
pub strlcat_full :
    (s pad src : Bytes) (len : ℕ)
    → All NotNul s
    → len ≤ length s
    → strlcat (s ++ 0 ∷ pad) src len ≡ (len + length src, s ++ 0 ∷ pad)
unfolding strlcat
strlcat_full s pad src len h full =
    let end : scan_end len (s ++ 0 ∷ pad) 0 ≡ len = scan_end_lem len [] s pad h ∙ omega arith in
    rw end (ground arith)

-- The text of an array.
pub c_string-held : (s pad : Bytes) → All NotNul s → c_string (s ++ 0 ∷ pad) ≡ s
unfolding c_string
c_string-held s pad h = before-append_stop (λ c. c == 0) s 0 pad (not_zero s h) refl

-- A source that fits is appended whole.
pub strlcat_fits :
    (s pad src : Bytes) (len : ℕ)
    → All NotNul s
    → length s + length src < len
    → len ≤ length (s ++ 0 ∷ pad)
    → (strlcat (s ++ 0 ∷ pad) src len).1 ≡ (s ++ src) ++ 0 ∷ drop (length src) pad
strlcat_fits s pad src len h fits inside =
    let whole : take (room_of s len) src ≡ src = take-eq_of_le (room_of s len) src (omega arith) in
    rw (strlcat_lem s pad src len h (omega arith) inside)
      (rw whole (sym (append_assoc s src (0 ∷ drop (length src) pad))))
