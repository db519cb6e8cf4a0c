-- ===== src/Progs/Email.antt =====
-- source/core/progs/emailhelper.c: the tests on the settings, and the command. The rest of the program
-- is in Sending.
pub mod Sending
pub mod Settings
pub mod Command
use ipcop_alpine.Prelude.{
  ℕ, Bool, true, false, not, ◌&&◌, ◌||◌, List, [], ◌∷◌, ◌++◌, ◌==◌, ltb, ◌-◌, length, if◌then◌else◌,
}
use ipcop_alpine.Cstring.{
  Bytes, codes, concat, string_size, string_size_large, snprintf, has_byte, all_in, is_nil,
}
use ipcop_alpine.Valid.{numbers, letters_numbers}
use ipcop_alpine.Kv.{Kv, success, find_kv_default}

-- A value, or the exit status that a test gives.
pub data Checked (A : Type 0) : Type 0 where
  refused : ℕ → Checked A
  accepted : A → Checked A

infixl 5 ◌>>=◌
abbrev pub ◌>>=◌ : {A B : Type 0} → Checked A → (A → Checked B) → Checked B
refused n >>= f = refused n
accepted a >>= f = f a

unfoldable pub require : Bool → ℕ → Bytes → Checked Bytes
require good code value = if good then accepted value else refused code

-- A setting that must be there.
unfoldable pub setting : Kv → Bytes → ℕ → Checked Bytes
unfolding require
setting kv key code =
    let (rc, value) = find_kv_default kv key [] in require (rc == success) code value

abbrev pub server_bytes : Bytes
server_bytes = letters_numbers ++ codes "-."

abbrev pub user_bytes : Bytes
user_bytes = letters_numbers ++ codes "-_.@"

abbrev pub from_bytes : Bytes
from_bytes = letters_numbers ++ codes "-_.@=+#"

abbrev pub to_bytes : Bytes
to_bytes = letters_numbers ++ codes "-_.@=+# "

abbrev pub subject_bytes : Bytes
subject_bytes = letters_numbers ++ codes "-_:.+, "

unfoldable pub is_server : Bytes → Bool
is_server s = not (is_nil s) && (not (has_byte b' ' s) && all_in server_bytes s)

unfoldable pub is_port : Bytes → Bool
is_port s = not (has_byte b' ' s) && all_in numbers s

unfoldable pub is_user : Bytes → Bool
is_user s = not (has_byte b' ' s) && all_in user_bytes s

-- No space and no quote, single or double.
unfoldable pub is_password : Bytes → Bool
is_password s = not (has_byte b' ' s) && not (has_byte 34 s || has_byte 39 s)

unfoldable pub is_from : Bytes → Bool
is_from s = not (is_nil s) && (not (has_byte b' ' s) && all_in from_bytes s)

unfoldable pub is_to : Bytes → Bool
is_to s = not (is_nil s) && all_in to_bytes s

pub record EmailSettings : Type 0 where
  pub server : Bytes
  pub opt_port : Bytes
  pub opt_user : Bytes
  pub opt_password : Bytes
  pub from : Bytes
  pub to : Bytes
  pub tls : Bytes

-- The settings in the order in which they are read and tested.
unfoldable pub email_settings : Kv → Checked EmailSettings
unfolding setting require is_server is_port is_user is_password is_from is_to
email_settings kv = do
  a ← setting kv (codes "EMAIL_SERVER") 2
  server ← require (is_server a) 2 a
  b ← setting kv (codes "EMAIL_SERVER_PORT") 3
  port ← require (is_port b) 3 b
  c ← setting kv (codes "EMAIL_USR") 4
  user ← require (is_user c) 4 c
  d ← setting kv (codes "EMAIL_PW") 5
  password ← require (is_password d) 5 d
  e ← setting kv (codes "EMAIL_FROM") 6
  from ← require (is_from e) 6 e
  f ← setting kv (codes "EMAIL_TO") 7
  to ← require (is_to f) 7 f
  accepted (record {
    server = server;
    opt_port = port;
    opt_user = user;
    opt_password = password;
    from = from;
    to = to;
    tls = (find_kv_default kv (codes "EMAIL_USE_TLS") (codes "auto")).1;
  })

-- A part of the command line that is left out where its setting is empty.
unfoldable pub optional : Bytes → Bytes → Bytes
optional flag value = if is_nil value then [] else snprintf string_size (flag ++ value)

-- What `sendEmail` is given besides the settings.
pub record Parts : Type 0 where
  pub subject : Bytes
  pub message : Bytes
  pub attachment : Bytes

unfoldable pub email_text : EmailSettings → Parts → Bytes
unfolding optional
email_text s p = concat (
    codes "/usr/bin/sendEmail -s "
    ∷ s.server
    ∷ optional (codes ":") s.opt_port
    ∷ codes " "
    ∷ optional (codes "-xu ") s.opt_user
    ∷ codes " "
    ∷ optional (codes "-xp ") s.opt_password
    ∷ codes " -f "
    ∷ s.from
    ∷ codes " -t "
    ∷ s.to
    ∷ codes " "
    ∷ p.subject
    ∷ codes " "
    ∷ p.message
    ∷ codes " "
    ∷ p.attachment
    ∷ codes " -o tls="
    ∷ s.tls
    ∷ codes " -o message-charset=utf-8"
    ∷ [])

-- The text behind the command at a verbosity of 2 and of 1.
unfoldable pub verbose_text : ℕ → Bytes
verbose_text n = if ltb 1 n then codes " -vv" else if ltb 0 n then codes " -v" else []

unfoldable pub email_command : ℕ → EmailSettings → Parts → Bytes
unfolding email_text verbose_text
email_command flag_verbose s p =
    snprintf string_size_large (email_text s p) ++ verbose_text flag_verbose
