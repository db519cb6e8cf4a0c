-- ===== src/Progs/Bkcfg.antt =====
-- source/core/progs/ipcopbkcfg.c: the lines of its lists of files, the tests of its arguments, and its
-- commands. What is done with them is in Steps.
pub mod Trim
pub mod Steps
pub mod Control
pub mod Temporary
pub mod Mount
use ipcop_alpine.Prelude.{
  ℕ, zero, suc, ◌+◌, ◌-◌, ◌/◌, ◌%◌, ◌^◌, Bool, true, false, not, ◌&&◌, ◌||◌, List, [], ◌∷◌, ◌++◌,
  Option, none, some, ◌==◌, ltb, leb, if◌then◌else◌, length, set, take, map,
}
use ipcop_alpine.Cstring.{
  Bytes, codes, c_string, strcmp_eq, starts_with, has_text, all_in, is_nil, string_size,
}
use ipcop_alpine.Valid.{letters_numbers}
use ipcop_alpine.Progs.Restore.{command_line, mountpoint, backup_key}

unfoldable pub is_blank : ℕ → Bool
is_blank c = c == b'\t' || c == b' '

unfoldable pub is_line_end : ℕ → Bool
is_line_end c = c == b'\r' || c == b'\n'

-- `while (*ch)`: `s` is what the pointer still has before it, `ch` where it stands in the buffer.
unfoldable pub shift_line : Bytes → ℕ → ℕ → Bool → Bytes → Bytes
unfolding is_blank is_line_end
shift_line [] ch offset chk_space buf = buf
shift_line (x ∷ s) ch offset chk_space buf =
    let c = if is_line_end x then 0 else x in
    let ended = set buf ch c in
    shift_line s (ch + 1) (if is_blank c && chk_space then offset + 1 else offset)
      (chk_space && is_blank c) (if offset == 0 then ended else set ended (ch - offset) c)

-- The loop over the blanks at the end. On an empty string the source starts at the byte before the
-- buffer; this leaves the string empty.
unfoldable pub trim_end : Bytes → Bytes
unfolding is_blank
trim_end [] = []
trim_end (x ∷ s) = let t = trim_end s in if is_blank x && is_nil t then [] else x ∷ t

-- A line of a list of files, as `add_file` leaves it in its buffer.
unfoldable pub trim_line : Bytes → Bytes
unfolding shift_line trim_end c_string
trim_line line = trim_end (c_string (shift_line line 0 0 true line))

-- `S_ISREG`
unfoldable pub is_regular : ℕ → Bool
is_regular mode = mode / 2 ^ 12 % 2 ^ 4 == 8

unfoldable pub to_lower : ℕ → ℕ
to_lower c = if leb b'A' c && leb c b'Z' then c + 32 else c

-- The files of /var/ipcop/backup that are combined: `strncasecmp`, and `strncmp` for the one left out.
unfoldable pub is_listed : Bytes → Bytes → Bool
unfolding to_lower
is_listed fnamebase name =
    starts_with (map to_lower fnamebase) (map to_lower name)
    && not (starts_with (codes "exclude.hardware") name)

-- What `getpwnam` and `getspnam` give for the user backup, and `crypt`; `none` is NULL.
pub record Account : Type 0 where
  pub pw_passwd : Option Bytes
  pub sp_pwdp : Option Bytes
  pub crypt : Bytes → Bytes → Option Bytes

-- `none` where `strcmp` is given the NULL of `crypt`.
unfoldable pub checkbackuppass : Account → Bytes → Option ℕ
checkbackuppass a passwd = elim a.pw_passwd [
  | none ↦ some 1
  | some pw ↦
      let hash : Bytes = elim a.sp_pwdp [ none ↦ pw | some sp ↦ sp ] in
      elim (a.crypt passwd hash) [ none ↦ none | some s ↦ some (if strcmp_eq s hash then 0 else 1) ]
]

-- The test of the log file's name against "/tmp/logfile.XXXXXX".
unfoldable pub is_logfile : Bytes → Bool
is_logfile file = has_text (codes "/tmp/logfile.") file && length file == 19

unfoldable pub is_device : Bytes → Bool
is_device name = ltb 2 (length name) && ltb (length name) 6 && all_in letters_numbers name

-- The link, as far as `readlink` gave it and less its last byte, starts the device's name.
unfoldable pub is_root_disk : ℕ → Bytes → Bytes → Bool
is_root_disk len link name = starts_with (take (len - 1) link) (codes "/dev/" ++ name)

unfoldable pub is_comment : Bytes → Bool
is_comment comment =
    not (ltb (string_size - 1) (length comment)) && all_in (letters_numbers ++ codes " '_-") comment

unfoldable pub keycat_command : Bytes → Bytes → Bytes
unfolding command_line
keycat_command passwd file = command_line (
    codes "/usr/bin/openssl enc -a -e -aes256 -salt -pass pass:\""
    ∷ passwd
    ∷ codes "\" -in "
    ∷ backup_key
    ∷ codes " -out "
    ∷ file
    ∷ [])

unfoldable pub mount_command : Bytes → Bytes
unfolding command_line
mount_command name =
    command_line
      (codes "/bin/mount -t vfat -o,uid=99,gid=99 /dev/" ∷ name ∷ codes " " ∷ mountpoint ∷ [])

unfoldable pub tar_command : Bytes → Bytes → Bytes → Bytes
unfolding command_line
tar_command include exclude tarfile =
    command_line
      (codes "/bin/tar -T " ∷ include ∷ codes " -X " ∷ exclude ∷ codes " -C / -cf " ∷ tarfile ∷ [])

unfoldable pub gzip_command : Bytes → Bytes → Bytes
unfolding command_line
gzip_command tarfile tgzfile =
    command_line (codes "/bin/gzip -c < " ∷ tarfile ∷ codes " > " ∷ tgzfile ∷ [])

-- The name of an archive, with its ending.
unfoldable pub archive_name : Bytes → Bytes → Bytes → Bytes
unfolding command_line
archive_name host timestamp ending =
    command_line (mountpoint ∷ codes "/" ∷ host ∷ codes "-" ∷ timestamp ∷ ending ∷ [])

unfoldable pub encrypt_command : Bytes → Bytes → Bytes → Bytes
unfolding command_line
encrypt_command tgzfile host timestamp = command_line (
    codes "/usr/bin/openssl des3 -e -salt -in "
    ∷ tgzfile
    ∷ codes " -out "
    ∷ mountpoint
    ∷ codes "/"
    ∷ host
    ∷ codes "-"
    ∷ timestamp
    ∷ codes ".dat -kfile "
    ∷ backup_key
    ∷ [])
