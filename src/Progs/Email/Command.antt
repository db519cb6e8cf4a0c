-- ===== src/Progs/Email/Command.antt =====
-- The command for sendEmail fits its buffer.
use ipcop_alpine.Prelude.{
  ℕ, ◌≡◌, ◌≤◌, ◌<◌, ◌+◌, ◌-◌, refl, List, [], ◌∷◌, ◌++◌, length, length-append, length-take,
  take-eq_of_le, arith, Bool-cases, inl, inr,
}
use ipcop_alpine.Cstring.{Bytes, codes, concat, string_size, string_size_large, is_nil}
use ipcop_alpine.Kv.{Kv}
use ipcop_alpine.Progs.Email.{
  accepted, EmailSettings, email_settings, Parts, email_text, email_command, verbose_text, optional,
}
use ipcop_alpine.Progs.Email.Settings.{IsAccepted, email_settings-IsAccepted}

-- The sum of the lengths of the pieces.
total : List Bytes → ℕ
total [] = 0
total (s ∷ ss) = length s + total ss

length-concat : (ss : List Bytes) → length (concat ss) ≡ total ss
unfolding concat total
length-concat [] = refl
length-concat (s ∷ ss) = omega (arith, length-append s (concat ss), length-concat ss)

length-optional : (flag value : Bytes) → length (optional flag value) ≤ 255
unfolding optional
length-optional flag value = elim (Bool-cases (is_nil value)) [
  | inl e ↦ rw e (omega arith)
  | inr e ↦ rw e (omega (arith, length-take (string_size - 1) (flag ++ value)))
]

length-verbose_text : (n : ℕ) → length (verbose_text n) ≤ 4
unfolding verbose_text codes
length-verbose_text n = ground arith

pub record PartsFit (p : Parts) : Type 0 where
  pub subject_fits : length p.subject ≤ 255
  pub message_fits : length p.message ≤ 255
  pub attachment_fits : length p.attachment ≤ 255

length-email_text :
    (s : EmailSettings) (p : Parts) → IsAccepted s → PartsFit p → length (email_text s p) ≤ 4000
unfolding email_text total codes
length-email_text s p h f =
    let port = length-optional (codes ":") s.opt_port in
    let user = length-optional (codes "-xu ") s.opt_user in
    let password = length-optional (codes "-xp ") s.opt_password in
    omega (
      arith, length-concat, port, user, password, h.server_fits, h.from_fits, h.to_fits, h.tls_fits,
      f.subject_fits, f.message_fits, f.attachment_fits,
    )

-- Where the settings pass all tests and the three other parts fit their buffers, the command is the
-- whole text with the verbosity behind it, and with its NUL it fits the buffer of 4096 bytes.
pub email_command_lem :
    (kv : Kv) (s : EmailSettings) (p : Parts) (flag_verbose : ℕ)
    → email_settings kv ≡ accepted s
    → PartsFit p
    → (email_command flag_verbose s p ≡ email_text s p ++ verbose_text flag_verbose)
      × (length (email_command flag_verbose s p) < string_size_large)
unfolding email_command
email_command_lem kv s p flag_verbose e f =
    let short = length-email_text s p (email_settings-IsAccepted kv s e) f in
    let whole = take-eq_of_le (string_size_large - 1) (email_text s p) (omega (arith, short)) in
    rw whole (
      refl,
      omega (
        arith,
        short,
        length-append (email_text s p) (verbose_text flag_verbose),
        length-verbose_text flag_verbose,
      ),
    )
