-- ===== src/Cstring/Laws.antt =====
-- Laws of the string functions: comparison, the parts before and after a byte, the rounds of fgets.
use ipcop_alpine.Prelude.{
  ℕ, ◌+◌, ◌-◌, ◌≤◌, ◌≡◌, ◌≢◌, ◌↔◌, refl, ap, ◌∙◌, Bool, true, false, ◌||◌, [], ◌∷◌, ◌++◌,
  append_assoc, some, ◌==◌, leb, arith, All, length,
}
use ipcop_alpine.Cstring.{Bytes, strcmp_eq, has_byte, before, after, before_last, fgets_rounds}

pub strcmp_eq_iff : (a b : Bytes) → (strcmp_eq a b ≡ true) ↔ (a ≡ b)
unfolding strcmp_eq
strcmp_eq_iff (x ∷ a) (y ∷ b) = ground (arith, strcmp_eq_iff a b)
strcmp_eq_iff _ _ = ground arith

pub strcmp_eq_refl : (a : Bytes) → strcmp_eq a a ≡ true
strcmp_eq_refl a = (strcmp_eq_iff a a).1 refl

module _ (p : ℕ → Bool) where
  pub before-append_stop :
      (s : Bytes) (c : ℕ) (t : Bytes)
      → All (λ x. p x ≡ false) s
      → p c ≡ true
      → before p (s ++ c ∷ t) ≡ s
  unfolding before
  before-append_stop [] c t h e = rw e
  before-append_stop (x ∷ s) c t h e = rw (h.0) (ap (◌∷◌ x) (before-append_stop s c t h.1 e))

  pub after-append_stop :
      (s : Bytes) (c : ℕ) (t : Bytes)
      → All (λ x. p x ≡ false) s
      → p c ≡ true
      → after p (s ++ c ∷ t) ≡ t
  unfolding after
  after-append_stop [] c t h e = rw e
  after-append_stop (x ∷ s) c t h e = rw (h.0) (after-append_stop s c t h.1 e)

  pub before-eq_of_All : (s : Bytes) → All (λ x. p x ≡ false) s → before p s ≡ s
  unfolding before
  before-eq_of_All [] h = refl
  before-eq_of_All (x ∷ s) h = rw (h.0) (ap (◌∷◌ x) (before-eq_of_All s h.1))

  -- What stands before the first stop holds no stop.
  pub All-before : (s : Bytes) → All (λ x. p x ≡ false) (before p s)
  unfolding before
  All-before [] = tt
  All-before (x ∷ s) = ground (arith, All-before s)

pub has_byte-append : (c : ℕ) (s t : Bytes) → has_byte c (s ++ c ∷ t) ≡ true
unfolding has_byte
has_byte-append c [] t = ground arith
has_byte-append c (x ∷ s) t = ground (arith, has_byte-append c s t)

pub before_last-append : (c : ℕ) (s : Bytes) → before_last c (s ++ c ∷ []) ≡ some s
unfolding before_last
before_last-append c [] = ground arith
before_last-append c (x ∷ s) = rw (before_last-append c s)

test_false : (x left : ℕ) → x ≢ b'\n' → 2 ≤ left → (x == b'\n' || leb left 1) ≡ false
test_false x left h fits = ground arith

-- One round reads a line that fits, newline included.
pub fgets_rounds_line :
    (room left : ℕ) (got line rest : Bytes)
    → All (λ x. x ≢ b'\n') line
    → length line + 1 ≤ left
    → fgets_rounds room left got (line ++ b'\n' ∷ rest)
      ≡ (got ++ (line ++ b'\n' ∷ [])) ∷ fgets_rounds room room [] rest
unfolding fgets_rounds
fgets_rounds_line room left got [] rest h fits = refl
fgets_rounds_line room left got (x ∷ line) rest h fits = rw (test_false x left h.0 (omega arith)) (
    fgets_rounds_line room (left - 1) (got ++ x ∷ []) line rest h.1 (omega arith) ∙ rw append_assoc)
