-- ===== src/Valid/Quad.antt =====
-- `VALID_IP` accepts the dotted quads of numbers up to 255, and nothing else.
use Prim.Native.Nat.{bit_or}
use ipcop_alpine.Prelude.{
  ℕ, ◌≡◌, ◌≤◌, ◌↔◌, refl, ap, sym, ◌∙◌, true, [], ◌∷◌, ◌++◌, append-nil, Option, none, some,
  if◌then◌else◌, arith, Option-cases, inl, inr, length, length-append,
}
use ipcop_alpine.Cstring.{Bytes, codes, has_byte, all_in, is_nil}
use ipcop_alpine.Valid.{is_digit, decimal, scan_uint, scan_dot, scan_ip, in_range, valid_ip, ◌>>=◌}
use ipcop_alpine.Valid.Bits.{or_four_bytes}
use ipcop_alpine.Valid.Ip.{
  accepted, IsOctet, IsDottedQuad, Taken, scan_uint-Taken, scan_dot-some, scan_uint-octet,
  all_in-append, all_in-IsDigits,
}

bind_some {ℓ κ} :
    {A : Type ℓ} {B : Type κ} (m : Option A) (f : A → Option B) {b : B}
    → (m >>= f) ≡ some b
    → (a : A) × (m ≡ some a) × (f a ≡ some b)
bind_some none f h = cc
bind_some (some a) f h = (a, refl, h)

all_in_rest :
    (s d rest : Bytes) → s ≡ d ++ rest → all_in accepted s ≡ true → all_in accepted rest ≡ true
all_in_rest s d rest e h = ground (arith, all_in-append accepted d rest)

-- A number and the dot behind it, in front of what `f` reads.
record Field {ℓ} {B : Type ℓ} (s : Bytes) (f : ℕ → Bytes → Option B) (b : B) : Type ℓ where
  n : ℕ
  dotted : Bytes
  rest : Bytes
  taken : Taken s n dotted
  dot : dotted ≡ b'.' ∷ rest
  accepts : all_in accepted rest ≡ true
  then_reads : f n rest ≡ some b

field_lem {ℓ} :
    {B : Type ℓ} (s : Bytes) (f : ℕ → Bytes → Option B) {b : B}
    → all_in accepted s ≡ true
    → (scan_uint 3 s >>= λ r. scan_dot r.1 >>= f r.0) ≡ some b
    → Field s f b
field_lem s f a h =
    let ((n, dotted), e, h') = bind_some (scan_uint 3 s) (λ r. scan_dot r.1 >>= f r.0) h in
    let (rest, e', h'') = bind_some (scan_dot dotted) (f n) h' in
    let took = scan_uint-Taken s dotted n a e in
    let dot = scan_dot-some dotted rest e' in
    record {
      n = n;
      dotted = dotted;
      rest = rest;
      taken = took;
      dot = dot;
      accepts =
          all_in_rest dotted (b'.' ∷ []) rest dot (all_in_rest s took.word dotted took.splits a);
      then_reads = h'';
    }

Field-spells {ℓ} :
    {B : Type ℓ} {s : Bytes} {f : ℕ → Bytes → Option B} {b : B} (w : Field s f b)
    → s ≡ w.taken.word ++ b'.' ∷ w.rest
Field-spells w = w.taken.splits ∙ ap (◌++◌ w.taken.word) w.dot

quad_spells :
    (s w1 r1 w2 r2 w3 r3 w4 : Bytes)
    → s ≡ w1 ++ b'.' ∷ r1
    → r1 ≡ w2 ++ b'.' ∷ r2
    → r2 ≡ w3 ++ b'.' ∷ r3
    → r3 ≡ w4 ++ []
    → s ≡ w1 ++ b'.' ∷ (w2 ++ b'.' ∷ (w3 ++ b'.' ∷ w4))
quad_spells s w1 r1 w2 r2 w3 r3 w4 p q r t = cc (append-nil w4)

-- The four parts of `scan_ip`, each behind the numbers read so far.
abbrev read4 : ℕ → ℕ → ℕ → Bytes → Option (ℕ × ℕ × ℕ × ℕ)
read4 b1 b2 b3 s = scan_uint 3 s >>= λ r. if is_nil r.1 then some (b1, b2, b3, r.0) else none

abbrev read3 : ℕ → ℕ → Bytes → Option (ℕ × ℕ × ℕ × ℕ)
read3 b1 b2 s = scan_uint 3 s >>= λ r. scan_dot r.1 >>= read4 b1 b2 r.0

abbrev read2 : ℕ → Bytes → Option (ℕ × ℕ × ℕ × ℕ)
read2 b1 s = scan_uint 3 s >>= λ r. scan_dot r.1 >>= read3 b1 r.0

scan_ip_lem : (s : Bytes) → scan_ip s ≡ (scan_uint 3 s >>= λ r. scan_dot r.1 >>= read2 r.0)
unfolding scan_ip
scan_ip_lem s = refl

Octet-Taken : {s rest : Bytes} {n : ℕ} (t : Taken s n rest) → n ≤ 255 → IsOctet t.word
Octet-Taken t h = record {
  ne_nil = t.some_digit;
  only_digits = t.only_digits;
  short = t.short;
  small = omega (arith, t.value);
}

last_lem :
    (b1 b2 b3 : ℕ) (s : Bytes) (q : ℕ × ℕ × ℕ × ℕ)
    → all_in accepted s ≡ true
    → read4 b1 b2 b3 s ≡ some q
    → (n : ℕ) × (Taken s n []) × (q ≡ (b1, b2, b3, n))
last_lem b1 b2 b3 s q a h =
    let ((n, rest), e, h') =
      bind_some (scan_uint 3 s) (λ r. if is_nil r.1 then some (b1, b2, b3, r.0) else none) h in
    close n rest e h'
  where
    close :
        (n : ℕ) (rest : Bytes)
        → scan_uint 3 s ≡ some (n, rest)
        → (if is_nil rest then some (b1, b2, b3, n) else none) ≡ some q
        → (n : ℕ) × (Taken s n []) × (q ≡ (b1, b2, b3, n))
    close n [] e h' = (n, scan_uint-Taken s [] n a e, cc)
    close n (c ∷ rest) e h' = cc

-- An accepted text is a dotted quad.
valid_ip-IsDottedQuad_of_scan :
    (s : Bytes) (q : ℕ × ℕ × ℕ × ℕ)
    → all_in accepted s ≡ true
    → scan_ip s ≡ some q
    → in_range (some q) ≡ true
    → IsDottedQuad s
unfolding in_range
valid_ip-IsDottedQuad_of_scan s q a h small =
    let f1 = field_lem s read2 a (sym (scan_ip_lem s) ∙ h) in
    let f2 = field_lem f1.rest (read3 f1.n) f1.accepts f1.then_reads in
    let f3 = field_lem f2.rest (read4 f1.n f2.n) f2.accepts f2.then_reads in
    let (n4, t4, e) = last_lem f1.n f2.n f3.n f3.rest q f3.accepts f3.then_reads in
    let bounds = (or_four_bytes f1.n f2.n f3.n n4).0 (ground (arith)) in
    record {
      d1 = f1.taken.word;
      d2 = f2.taken.word;
      d3 = f3.taken.word;
      d4 = t4.word;
      octet1 = Octet-Taken f1.taken bounds.0;
      octet2 = Octet-Taken f2.taken bounds.1;
      octet3 = Octet-Taken f3.taken bounds.2;
      octet4 = Octet-Taken t4 bounds.3;
      spells =
          quad_spells s f1.taken.word f1.rest f2.taken.word f2.rest f3.taken.word f3.rest t4.word
            (Field-spells f1) (Field-spells f2) (Field-spells f3) t4.splits;
    }

all_in_cons_dot : (r : Bytes) → all_in accepted r ≡ true → all_in accepted (b'.' ∷ r) ≡ true
unfolding all_in has_byte codes
all_in_cons_dot r h = h

accepted_dot :
    (d r : Bytes) → IsOctet d → all_in accepted r ≡ true → all_in accepted (d ++ b'.' ∷ r) ≡ true
accepted_dot d r o h =
    rw (all_in-append accepted d (b'.' ∷ r))
      (rw (all_in-IsDigits d o.only_digits) (all_in_cons_dot r h))

read_dotted {ℓ} :
    {B : Type ℓ} (f : ℕ → Bytes → Option B) (d r : Bytes)
    → IsOctet d
    → all_in accepted r ≡ true
    → (scan_uint 3 (d ++ b'.' ∷ r) >>= λ p. scan_dot p.1 >>= f p.0) ≡ f (decimal 0 d) r
unfolding scan_dot
read_dotted f d r o h =
    rw (scan_uint-octet d (b'.' ∷ r) o (unfold is_digit in refl) (all_in_cons_dot r h))

read4_last :
    (b1 b2 b3 : ℕ) (d : Bytes) → IsOctet d → read4 b1 b2 b3 d ≡ some (b1, b2, b3, decimal 0 d)
unfolding all_in
read4_last b1 b2 b3 d o =
    ap (read4 b1 b2 b3) (sym (append-nil d)) ∙ rw (scan_uint-octet d [] o refl refl)

octet_length : (d : Bytes) → IsOctet d → 1 ≤ length d
octet_length [] o = cc (o.ne_nil)
octet_length (c ∷ d) o = omega arith

quad_length :
    (d1 d2 d3 d4 : Bytes)
    → IsOctet d1
    → IsOctet d2
    → IsOctet d3
    → IsOctet d4
    → (7 ≤ length (d1 ++ b'.' ∷ (d2 ++ b'.' ∷ (d3 ++ b'.' ∷ d4))))
      × (length (d1 ++ b'.' ∷ (d2 ++ b'.' ∷ (d3 ++ b'.' ∷ d4))) ≤ 15)
quad_length d1 d2 d3 d4 o1 o2 o3 o4 = omega (
  arith,
  length-append d1 (b'.' ∷ (d2 ++ b'.' ∷ (d3 ++ b'.' ∷ d4))),
  length-append d2 (b'.' ∷ (d3 ++ b'.' ∷ d4)),
  length-append d3 (b'.' ∷ d4),
  octet_length d1 o1,
  octet_length d2 o2,
  octet_length d3 o3,
  octet_length d4 o4,
  o1.short,
  o2.short,
  o3.short,
  o4.short,
)

guards_pass :
    (s : Bytes) (b1 b2 b3 b4 : ℕ)
    → 7 ≤ length s
    → length s ≤ 15
    → all_in accepted s ≡ true
    → scan_ip s ≡ some (b1, b2, b3, b4)
    → bit_or (bit_or (bit_or b1 b2) b3) b4 ≤ 255
    → valid_ip s ≡ true
unfolding valid_ip in_range
guards_pass s b1 b2 b3 b4 lo hi a e small = rw a (rw e (ground arith))

-- Dotted quads are accepted.
valid_ip-quad :
    (d1 d2 d3 d4 : Bytes)
    → IsOctet d1
    → IsOctet d2
    → IsOctet d3
    → IsOctet d4
    → valid_ip (d1 ++ b'.' ∷ (d2 ++ b'.' ∷ (d3 ++ b'.' ∷ d4))) ≡ true
valid_ip-quad d1 d2 d3 d4 o1 o2 o3 o4 =
    let a4 = all_in-IsDigits d4 o4.only_digits in
    let a3 = accepted_dot d3 d4 o3 a4 in
    let a2 = accepted_dot d2 (d3 ++ b'.' ∷ d4) o2 a3 in
    let a1 = accepted_dot d1 (d2 ++ b'.' ∷ (d3 ++ b'.' ∷ d4)) o1 a2 in
    let scanned =
      scan_ip_lem (d1 ++ b'.' ∷ (d2 ++ b'.' ∷ (d3 ++ b'.' ∷ d4)))
      ∙ read_dotted read2 d1 (d2 ++ b'.' ∷ (d3 ++ b'.' ∷ d4)) o1 a2
      ∙ read_dotted (read3 (decimal 0 d1)) d2 (d3 ++ b'.' ∷ d4) o2 a3
      ∙ read_dotted (read4 (decimal 0 d1) (decimal 0 d2)) d3 d4 o3 a4
      ∙ read4_last (decimal 0 d1) (decimal 0 d2) (decimal 0 d3) d4 o4 in
    let small =
      (or_four_bytes (decimal 0 d1) (decimal 0 d2) (decimal 0 d3) (decimal 0 d4)).1
        (o1.small, o2.small, o3.small, o4.small) in
    let lengths = quad_length d1 d2 d3 d4 o1 o2 o3 o4 in
    guards_pass (d1 ++ b'.' ∷ (d2 ++ b'.' ∷ (d3 ++ b'.' ∷ d4))) (decimal 0 d1) (decimal 0 d2)
      (decimal 0 d3) (decimal 0 d4) lengths.0 lengths.1 a1 scanned small

scanned_quad : (s : Bytes) → all_in accepted s ≡ true → in_range (scan_ip s) ≡ true → IsDottedQuad s
unfolding in_range
scanned_quad s a h = elim (Option-cases (scan_ip s)) [
  | inl e ↦ cc (ap in_range e)
  | inr (q, e) ↦ valid_ip-IsDottedQuad_of_scan s q a e (sym (ap in_range e) ∙ h)
]

guards_of_valid :
    (s : Bytes) → valid_ip s ≡ true → (all_in accepted s ≡ true) × (in_range (scan_ip s) ≡ true)
unfolding valid_ip
guards_of_valid s h = ground arith

-- `VALID_IP` accepts a text exactly if it is four numbers up to 255, in one to three digits each,
-- with a dot between each two.
pub valid_ip_iff : (s : Bytes) → (valid_ip s ≡ true) ↔ IsDottedQuad s
valid_ip_iff s = (
  λ h. scanned_quad s (guards_of_valid s h).0 (guards_of_valid s h).1,
  λ w. rw w.spells (valid_ip-quad w.d1 w.d2 w.d3 w.d4 w.octet1 w.octet2 w.octet3 w.octet4),
)
