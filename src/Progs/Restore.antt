-- ===== src/Progs/Restore.antt =====
-- source/core/progs/ipcoprestore.c: the options, the commands and the names of files. What is done with
-- them is in Steps.
pub mod Steps
pub mod Archive
use ipcop_alpine.Prelude.{
  ℕ, Bool, true, false, not, ◌&&◌, ◌||◌, List, [], ◌∷◌, ◌++◌, Option, none, some, ◌==◌, ◌+◌, ◌-◌,
  length, if◌then◌else◌,
}
use ipcop_alpine.Cstring.{
  Bytes, codes, concat, string_size, snprintf, has_text, text_of, before, from, fgets_first,
  chop_newline, is_nil,
}
use ipcop_alpine.Kv.{Kv, success, test_kv, find_kv_default}
use ipcop_alpine.Kv.File.{read_kv_from_file}
use ipcop_alpine.Setuid.{initsetuid}
use ipcop_alpine.Progs.Backup.{testbackupversion}
use ipcop_alpine.Os.{
  Os, M, pure, ◌>>=◌, ◌>>◌, choose, when, exit, call, act, contents, system, access, unlink,
  mkdtemp, mkstemp, chown, fopen_read, fopen_write, flock_exclusive, flock_unlock, fprintf, fclose,
  minus_one,
}

pub data RestoreOption : Type 0 where
  hardware import verbose help unknown : RestoreOption
  hostname restore : Bytes → RestoreOption

pub record RestoreFlags : Type 0 where
  pub flag_hardware : Bool
  pub flag_import : Bool
  -- `flag_hostname` and `flag_restore` with their arguments
  pub opt_hostname : Option Bytes
  pub opt_filename : Option Bytes

abbrev pub no_flags : RestoreFlags
no_flags = record {
  flag_hardware = false;
  flag_import = false;
  opt_hostname = none;
  opt_filename = none;
}

unfoldable pub read_options : List RestoreOption → RestoreFlags → M RestoreFlags
read_options [] f = pure f
read_options (hardware ∷ options) f = read_options options (record f { flag_hardware = true })
read_options (import ∷ options) f = read_options options (record f { flag_import = true })
read_options (hostname s ∷ options) f = read_options options (record f { opt_hostname = some s })
read_options (restore s ∷ options) f = read_options options (record f { opt_filename = some s })
read_options (verbose ∷ options) f = read_options options f
read_options (help ∷ options) f = exit 0
read_options (unknown ∷ options) f = exit 22

abbrev pub mountpoint : Bytes
mountpoint = codes "/var/www/ipcop/html/backup"

abbrev pub backup_key : Bytes
backup_key = codes "/var/ipcop/backup/backup.key"

unfoldable pub command_line : List Bytes → Bytes
command_line pieces = snprintf (string_size - 1) (concat pieces)

unfoldable pub decrypt_command : Bytes → Bytes → Bytes
unfolding command_line
decrypt_command file name = command_line (
    codes "/usr/bin/openssl des3 -d -salt -in "
    ∷ file
    ∷ codes " -out /tmp/"
    ∷ name
    ∷ codes ".tar.gz -kfile "
    ∷ backup_key
    ∷ [])

unfoldable pub test_command : Bytes → Bytes → Bytes
unfolding command_line
test_command dir name =
    command_line (codes "/bin/tar -C " ∷ dir ∷ codes " -xzvf /tmp/" ∷ name ∷ codes ".tar.gz" ∷ [])

unfoldable pub find_command : Bytes → Bytes → Bytes
unfolding command_line
find_command dir date_file = command_line (
    codes "/usr/bin/find "
    ∷ dir
    ∷ codes
        " -type f -exec /bin/ls --time-style=+%Y-%m-%d_%H-%M-%S -l {} \\; | /usr/bin/awk '{print $6}' | /usr/bin/sort -rn | /bin/head -n 1 >"
    ∷ date_file
    ∷ [])

unfoldable pub restore_command : Bool → Bytes → Bytes
unfolding command_line
restore_command flag_hardware name =
    if not flag_hardware
    then command_line (
        codes
          "/bin/tar -X /var/ipcop/backup/exclude.system -X /var/ipcop/backup/exclude.hardware -C / -xvf /tmp/"
        ∷ name
        ∷ codes ".tar"
        ∷ [])
    else command_line (
        codes "/bin/tar -X /var/ipcop/backup/exclude.system -C / -xvf /tmp/"
        ∷ name
        ∷ codes ".tar"
        ∷ [])

-- A name in the directory of the backups, with its ending.
unfoldable pub backup_file : Bytes → Bytes → Bytes
unfolding command_line
backup_file name ending = command_line (mountpoint ∷ codes "/" ∷ name ∷ ending ∷ [])

unfoldable pub dated_file : Bytes → Option Bytes → Bytes → Bytes
dated_file name timestamp ending =
    concat (mountpoint ∷ codes "/" ∷ name ∷ codes "-" ∷ text_of timestamp ∷ ending ∷ [])

unfoldable pub move_command : Bytes → Bytes → Bytes
unfolding command_line
move_command file to = command_line (codes "/bin/mv " ∷ file ∷ codes " " ∷ to ∷ [])

unfoldable pub is_blank : ℕ → Bool
is_blank c = c == b' '

unfoldable pub not_blank : ℕ → Bool
unfolding is_blank
not_blank c = not (is_blank c)

-- `strtok(buffer, " ")`
unfoldable pub first_word : Bytes → Option Bytes
unfolding is_blank not_blank
first_word s =
    let word = before is_blank (from not_blank s) in if is_nil word then none else some word

-- The date that a file names in its first line. Where `fgets` fails the buffer was never set; it is
-- taken to hold no word.
unfoldable pub date_of : Bool → Bytes → Option Bytes
unfolding first_word
date_of chopped text = elim (fgets_first string_size text) [
  | none ↦ none
  | some line ↦ first_word (if chopped then chop_newline line else line)
]

unfoldable pub port_command : Bytes → Bytes → Bytes
port_command flag port =
    snprintf string_size
      (concat (codes "/usr/bin/setreservedports.pl --nocheck --" ∷ flag ∷ codes " " ∷ port ∷ []))

-- The file name of `--restore`: its length, and a place where the directory of the backups stands.
unfoldable pub is_backup_name : Bytes → Bytes → Bool
is_backup_name name file =
    length file == length mountpoint + length (codes "/-YYYY-MM-DD_HH-MM-SS.dat") + length name
