-- ===== src/Progs/Ssh/SedCommand.antt =====
-- The command that restartssh puts together by `strlcat` in an array of 4096 bytes.
use ipcop_alpine.Prelude.{
  ℕ, ◌+◌, ◌-◌, ◌≡◌, ◌≤◌, ◌<◌, refl, ap, sym, ◌∙◌, Bool, true, false, not, ◌&&◌, [], ◌∷◌, ◌++◌, ◌==◌,
  leb, if◌then◌else◌, arith, length, length-append, length-drop, drop, All, All-append,
  append_assoc, append-nil, take-eq_of_le,
}
use ipcop_alpine.Cstring.{Bytes, codes, c_string, concat, string_size_large}
use ipcop_alpine.Kv.{Kv}
use ipcop_alpine.Number.{print_decimal}
use ipcop_alpine.Number.Decimal.{length-print_decimal, print_decimal-IsDigits}
use ipcop_alpine.Valid.{is_digit}
use ipcop_alpine.Valid.Ip.{IsDigits}
use ipcop_alpine.Setuid.Strlcat.Text.{NotNul, strlcat_fits, c_string-held}
use ipcop_alpine.Progs.Ssh.{
  ssh_command, append, command_array, protocol_edit, keys_edit, passwords_edit, forwarding_edit,
  redirection, zeros,
}

-- An array of 4096 bytes with a text and its NUL.
record Holds (array text : Bytes) : Type 0 where
  pad : Bytes
  order : array ≡ text ++ 0 ∷ pad
  no_nul : All NotNul text
  size : length array ≡ string_size_large

-- A text short enough for each of the pieces to find room.
record IsPiece (s : Bytes) : Type 0 where
  bounded : length s ≤ 128
  no_nul : All NotNul s

append-Holds :
    (array text s : Bytes) (n : ℕ)
    → Holds array text
    → length text ≤ n
    → n < 3900
    → IsPiece s
    → Holds (append array s) (text ++ s) × (length (text ++ s) ≤ n + 128)
unfolding append
append-Holds array text s n h short room p =
    let inside : length (text ++ 0 ∷ h.pad) ≡ string_size_large =
      ap length (sym h.order) ∙ h.size in
    let e =
      strlcat_fits text h.pad s (string_size_large - 1) h.no_nul (omega (arith, p.bounded))
        (omega arith) in
    let grown : Holds (append array s) (text ++ s) = record {
      pad = drop (length s) h.pad;
      order = ap (λ a. append a s) h.order ∙ e;
      no_nul = All-append NotNul text s h.no_nul p.no_nul;
      size =
          rw (h.order, e)
            (omega (
              arith,
              length-append (text ++ s) (0 ∷ drop (length s) h.pad),
              length-append text s,
              length-append text (0 ∷ h.pad),
              length-drop (length s) h.pad,
              p.bounded,
            ));
    } in
    (grown, omega (arith, p.bounded, length-append text s))

all_set : Bytes → Bool
all_set [] = true
all_set (c ∷ s) = not (c == 0) && all_set s

all_set-NotNul : (s : Bytes) → all_set s ≡ true → All NotNul s
unfolding all_set
all_set-NotNul [] e = tt
all_set-NotNul (c ∷ s) e = (ground arith, all_set-NotNul s (ground arith))

literal-IsPiece : (s : Bytes) → (leb (length s) 128 && all_set s) ≡ true → IsPiece s
literal-IsPiece s e = record { bounded = ground arith; no_nul = all_set-NotNul s (ground arith) }

either-IsPiece : (b : Bool) (s t : Bytes) → IsPiece s → IsPiece t → IsPiece (if b then s else t)
either-IsPiece true s t p q = p
either-IsPiece false s t p q = q

module _ (kv : Kv) where
  protocol_edit-IsPiece : IsPiece (protocol_edit kv)
  unfolding protocol_edit codes all_set
  protocol_edit-IsPiece = search (either-IsPiece, literal-IsPiece)

  keys_edit-IsPiece : IsPiece (keys_edit kv)
  unfolding keys_edit codes all_set
  keys_edit-IsPiece = search (either-IsPiece, literal-IsPiece)

  passwords_edit-IsPiece : IsPiece (passwords_edit kv)
  unfolding passwords_edit codes all_set
  passwords_edit-IsPiece = search (either-IsPiece, literal-IsPiece)

  forwarding_edit-IsPiece : IsPiece (forwarding_edit kv)
  unfolding forwarding_edit codes all_set
  forwarding_edit-IsPiece = search (either-IsPiece, literal-IsPiece)

digits-NotNul : (s : Bytes) → IsDigits s → All NotNul s
unfolding is_digit
digits-NotNul [] h = tt
digits-NotNul (c ∷ s) h = (ground (arith, h.0), digits-NotNul s h.1)

abbrev pub redirected : ℕ → Bytes
redirected config_fd = codes "' /etc/ssh/sshd_config >&" ++ print_decimal config_fd

redirection_lem :
    (config_fd : ℕ)
    → (redirection config_fd ≡ redirected config_fd) × IsPiece (redirection config_fd)
unfolding redirection codes all_set
redirection_lem config_fd =
    let short = length-append (codes "' /etc/ssh/sshd_config >&") (print_decimal config_fd) in
    let n = length-print_decimal config_fd in
    let whole : redirection config_fd ≡ redirected config_fd =
      take-eq_of_le (string_size_large - 1 - 1) (redirected config_fd) (omega arith) in
    (
      whole,
      rw whole (record {
        bounded = omega arith;
        no_nul =
            All-append NotNul (codes "' /etc/ssh/sshd_config >&") _
              (all_set-NotNul (codes "' /etc/ssh/sshd_config >&") refl)
              (digits-NotNul _ (print_decimal-IsDigits config_fd));
      }),
    )

command_array-Holds : Holds command_array (codes "/bin/sed -e '")
unfolding command_array codes all_set
command_array-Holds = record {
  pad = zeros 4082;
  order = refl;
  no_nul = all_set-NotNul (codes "/bin/sed -e '") refl;
  size = refl;
}

-- The array never overflows and nothing is cut off: the command is the start, the four chosen
-- pieces and the redirection, whatever the settings and the descriptor are.
pub ssh_command_lem :
    (kv : Kv) (config_fd : ℕ)
    → ssh_command kv config_fd
      ≡ concat (
          codes "/bin/sed -e '"
          ∷ protocol_edit kv
          ∷ keys_edit kv
          ∷ passwords_edit kv
          ∷ forwarding_edit kv
          ∷ redirected config_fd
          ∷ [])
unfolding ssh_command concat
ssh_command_lem kv config_fd =
    let (whole, last) = redirection_lem config_fd in
    let (h1, b1) =
      append-Holds _ _ _ 13 command_array-Holds (unfold codes in omega arith) (omega arith)
        (protocol_edit-IsPiece kv) in
    let (h2, b2) = append-Holds _ _ _ _ h1 b1 (omega arith) (keys_edit-IsPiece kv) in
    let (h3, b3) = append-Holds _ _ _ _ h2 b2 (omega arith) (passwords_edit-IsPiece kv) in
    let (h4, b4) = append-Holds _ _ _ _ h3 b3 (omega arith) (forwarding_edit-IsPiece kv) in
    let (h5, b5) = append-Holds _ _ _ _ h4 b4 (omega arith) last in
    ap c_string h5.order ∙ c_string-held _ h5.pad h5.no_nul ∙ simp (whole, append_assoc, append-nil)
