-- ===== src/Progs/Email/Sending.antt =====
-- source/core/progs/emailhelper.c: `main`. `today` is what `strftime` writes.
use ipcop_alpine.Prelude.{
  ℕ, Bool, true, false, not, ◌&&◌, List, [], ◌∷◌, ◌++◌, Option, none, some, ◌==◌, ltb, ◌-◌, ◌+◌,
  length,
}
use ipcop_alpine.Cstring.{Bytes, codes, concat, string_size, string_size_large, snprintf, all_in}
use ipcop_alpine.Kv.{success}
use ipcop_alpine.Kv.File.{read_kv_from_file}
use ipcop_alpine.Setuid.{require_setuid}
use ipcop_alpine.Os.{
  Os, M, pure, ◌>>=◌, ◌>>◌, choose, when, exit, call, act, system, access, unlink, minus_one,
}
use ipcop_alpine.Progs.Email.{
  Checked, refused, accepted, setting, subject_bytes, EmailSettings, email_settings, email_command,
}

pub data EmailOption : Type 0 where
  subject messagefile attachment : Bytes → EmailOption
  delete verbose help unknown : EmailOption

pub record EmailFlags : Type 0 where
  pub opt_subject : Option Bytes
  pub opt_messagefile : Option Bytes
  pub opt_attachment : Option Bytes
  pub flag_delete_messagefile : Bool
  pub flag_verbose : ℕ

abbrev pub no_flags : EmailFlags
no_flags = record {
  opt_subject = none;
  opt_messagefile = none;
  opt_attachment = none;
  flag_delete_messagefile = false;
  flag_verbose = 0;
}

unfoldable pub is_subject : Bytes → Bool
is_subject s = not (ltb (string_size - 1) (length s)) && all_in subject_bytes s

unfoldable pub read_options : List EmailOption → EmailFlags → M EmailFlags
read_options [] f = pure f
read_options (subject s ∷ options) f =
    choose (not (is_subject s)) (exit 8) (read_options options (record f { opt_subject = some s }))
read_options (messagefile s ∷ options) f =
    read_options options (record f { opt_messagefile = some s })
read_options (attachment s ∷ options) f =
    read_options options (record f { opt_attachment = some s })
read_options (delete ∷ options) f =
    read_options options (record f { flag_delete_messagefile = true })
read_options (verbose ∷ options) f =
    read_options options (record f { flag_verbose = f.flag_verbose + 1 })
read_options (help ∷ options) f = exit 0
read_options (unknown ∷ options) f = exit 1

abbrev pub email_file : Bytes
email_file = codes "/tmp/email.msg.tmp"

unfoldable pub full_name : Bytes → Bytes → Bytes
full_name hostname domainname = concat (hostname ∷ codes "." ∷ domainname ∷ [])

unfoldable pub subject_part : Bytes → Option Bytes → Bytes
subject_part name opt_subject =
    let prefix = snprintf string_size (concat (codes "[IPCop] " ∷ name ∷ codes ":" ∷ [])) in
    snprintf string_size (elim opt_subject [
      | none ↦ concat (codes "-u \"" ∷ prefix ∷ codes "\"" ∷ [])
      | some s ↦ concat (codes "-u \"" ∷ prefix ∷ codes " " ∷ s ∷ codes "\"" ∷ [])
    ])

unfoldable pub sed_command : Bytes → Bytes → Bytes → Bytes
sed_command name date file = snprintf string_size_large (
    concat (
      codes "/bin/sed -e 's/__HOSTNAME__/"
      ∷ name
      ∷ codes "/;s/__CURRENT_DATE__/"
      ∷ date
      ∷ codes "/;'  "
      ∷ file
      ∷ codes " > "
      ∷ email_file
      ∷ []))

-- A test that failed exits with its status.
unfoldable pub checked : {A : Type 0} → Checked A → M A
checked (refused code) = exit code
checked (accepted a) = pure a

module _ (os : Os) (today : Bytes) where
  unfoldable pub message_part : Bytes → Option Bytes → M Bytes
  message_part name none = pure (codes "-m \" \"")
  message_part name (some file) = do
    there ← call os (access file)
    choose (there == minus_one) (exit 9) do
      rc ← call os (system (sed_command name today file))
      choose (not (rc == 0)) (exit 14)
          (pure (snprintf string_size (codes "-o message-file=" ++ email_file)))

  unfoldable pub attachment_part : Option Bytes → M Bytes
  attachment_part none = pure []
  attachment_part (some file) = do
    there ← call os (access file)
    choose (there == minus_one) (exit 10) (pure (snprintf string_size (codes "-a " ++ file)))

  unfoldable pub delete_message : Bool → Option Bytes → M (Unit {0})
  delete_message asked none = pure tt
  delete_message asked (some file) = when asked (act os (unlink file))

  unfoldable pub send : EmailFlags → EmailSettings → Bytes → M (Unit {0})
  send f s name = do
    message ← message_part name f.opt_messagefile
    attached ← attachment_part f.opt_attachment
    rc ← call os (
        system (
          email_command f.flag_verbose s (record {
            subject = subject_part name f.opt_subject;
            message = message;
            attachment = attached;
          })))
    choose (not (rc == 0)) (exit 13) do
      act os (unlink email_file)
      delete_message f.flag_delete_messagefile f.opt_messagefile
      exit 0

  unfoldable pub prepare : EmailFlags → M (Unit {0})
  prepare f = do
    (rc, kv) ← read_kv_from_file os [] (codes "/var/ipcop/email/settings")
    when (not (rc == success)) (exit 1)
    s ← checked (email_settings kv)
    (main_rc, main_kv) ← read_kv_from_file os [] (codes "/var/ipcop/main/settings")
    when (not (main_rc == success)) (exit 1)
    hostname ← checked (setting main_kv (codes "HOSTNAME") 11)
    domainname ← checked (setting main_kv (codes "DOMAINNAME") 12)
    send f s (full_name hostname domainname)

  unfoldable pub main : List EmailOption → M (Unit {0})
  main options = do require_setuid os; f ← read_options options no_flags; prepare f
