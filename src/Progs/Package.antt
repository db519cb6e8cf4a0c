-- ===== src/Progs/Package.antt =====
-- source/core/progs/installpackage.c. `dir` is the directory that `mkdtemp` makes of
-- "/var/patches/install_XXXXXX".
pub mod Signature
use ipcop_alpine.Prelude.{
  ℕ, Bool, true, false, not, ◌&&◌, ◌||◌, List, [], ◌∷◌, ◌++◌, Option, none, some, ◌==◌, ltb, ◌+◌,
  ◌-◌, ◌*◌, ◌/◌, ◌^◌, if◌then◌else◌,
}
use ipcop_alpine.Cstring.{
  Bytes, codes, concat, string_size, snprintf, has_byte, has_text, starts_with, before_last, after,
  is_nil,
}
use ipcop_alpine.Number.{is_negative, print_decimal, print_int}
use ipcop_alpine.Setuid.{initsetuid}
use ipcop_alpine.Os.{
  Os, M, pure, ◌>>=◌, ◌>>◌, choose, when, exit, crash, call, act, system, unlink, chdir, mkdtemp,
  lstat, lstat_size, statvfs, statvfs_size, sync,
}

pub data PackageOption : Type 0 where
  install test : Bytes → PackageOption
  verbose help unknown : PackageOption

pub record PackageFlags : Type 0 where
  pub flag_install : Bool
  pub flag_test : Bool
  pub upgrade_filename : Bytes

unfoldable pub read_options : List PackageOption → PackageFlags → M PackageFlags
read_options [] f = pure f
read_options (install s ∷ options) f =
    read_options options (record f { flag_install = true; upgrade_filename = s })
read_options (test s ∷ options) f =
    read_options options (record f { flag_test = true; upgrade_filename = s })
read_options (verbose ∷ options) f = read_options options f
read_options (help ∷ options) f = exit 0
read_options (unknown ∷ options) f = exit 1

-- `x >> 8` on an `int`, which keeps the sign.
unfoldable pub shift_8 : ℕ → ℕ
shift_8 w = if is_negative w then 255 * 2 ^ 24 + w / 2 ^ 8 else w / 2 ^ 8

-- The text from the last slash on: `strrchr(s, '/')`.
unfoldable pub from_last_slash : Bytes → Bytes
from_last_slash [] = []
from_last_slash (c ∷ s) =
    if has_byte b'/' s then from_last_slash s else if c == b'/' then c ∷ s else []

-- The text in front of the first place where the needle stands: `*strstr(s, needle) = '\0'`.
unfoldable pub before_text : Bytes → Bytes → Bytes
before_text needle [] = []
before_text needle (c ∷ s) = if starts_with needle (c ∷ s) then [] else c ∷ before_text needle s

-- What `strcpy` writes over the ending, which must still be in the buffer.
unfoldable pub signature_of : Bytes → Option Bytes
unfolding from_last_slash before_text
signature_of upgrade =
    let name = snprintf string_size (codes "/var/patches/" ++ from_last_slash upgrade) in
    if has_text (codes ".tgz.gpg") name
    then some (before_text (codes ".tgz.gpg") name ++ codes ".sig")
    else none

unfoldable pub error_text : ℕ → Bytes
error_text err =
    if err == 2
    then codes "): Could not create directory.\""
    else if err == 3
    then codes "): This is not an authorised update.\""
    else if err == 4
    then codes "): This is not a valid archive.\""
    else if err == 5
    then codes "): Could not open update information file. The update file is corrupt.\""
    else if err == 6
    then codes "): Could not open installed updates file.\""
    else if err == 7
    then codes "): This update is already installed.\""
    else if err == 10
    then codes "): ERR_MISSING_PREVIOUS.\""
    else if err == 11
    then codes "): Not enough disk space.\""
    else if err == 20
    then codes "): Could not initsetuid.\""
    else codes ")\""

-- The log line; that of a failed setup has the status of the script.
unfoldable pub logger_command : ℕ → ℕ → Bytes
unfolding error_text
logger_command err ret = snprintf string_size (
    concat (
      codes "/usr/bin/logger -t installpackage \"ERROR ("
      ∷ print_decimal err
      ∷ (if err == 9
          then concat
              (codes "): Setup script returned errorcode (" ∷ print_int ret ∷ codes ").\"" ∷ [])
          else error_text err)
      ∷ []))

unfoldable pub remove_command : Bytes → Bytes
remove_command dir = snprintf string_size (codes "/bin/rm -rf " ++ dir)

unfoldable pub echo_command : ℕ → Bytes
echo_command err =
    snprintf string_size
      (concat (codes "echo " ∷ print_decimal err ∷ codes " > /var/patches/error" ∷ []))

unfoldable pub gpg_command : Bytes → Bytes → Bytes
gpg_command dir upgrade = snprintf string_size (
    concat (
      codes "/usr/bin/gpg --batch --logger-fd 1 --homedir /root/.gnupg -o "
      ∷ dir
      ∷ codes "/patch-1.tgz --decrypt "
      ∷ upgrade
      ∷ codes " >"
      ∷ dir
      ∷ codes "/signature"
      ∷ []))

unfoldable pub grep_command : Bytes → Bytes → Bytes
grep_command dir signature =
    snprintf string_size
      (concat (codes "/bin/grep '^gpg' -m 2 " ∷ dir ∷ codes "/signature >" ∷ signature ∷ []))

unfoldable pub information_command : Bytes → Bytes
information_command dir = snprintf string_size (
    concat
      (codes "/bin/tar xzf " ∷ dir ∷ codes "/patch-1.tgz -C /var/patches information.xml" ∷ []))

unfoldable pub untar_command : Bytes → Bytes
untar_command dir =
    snprintf string_size (concat (codes "/bin/tar xzf " ∷ dir ∷ codes "/patch-1.tgz" ∷ []))

unfoldable pub setup_command : Bytes → Bytes
setup_command dir = snprintf string_size (dir ++ codes "/setup")

unfoldable pub installed_command : Bytes → Bytes
installed_command dir = snprintf string_size (
    concat (
      codes
        "/usr/bin/perl -e \"require '/usr/lib/ipcop/general-functions.pl'; &General::updateinstalledpatches('"
      ∷ dir
      ∷ codes "/information.xml');\""
      ∷ []))

module _ (os : Os) (dir : Bytes) where
  -- `created` is `tmpdir_created`, and `ret` what the buffer of that name holds.
  unfoldable pub ourexit : {A : Type 0} → Bool → ℕ → ℕ → M A
  ourexit created ret err = do
    when created do act os (chdir (codes "/var/patches")); act os (system (remove_command dir))
    when (not (err == 0)) do
      act os (system (logger_command err ret))
      act os (system (echo_command err))
      act os (system (snprintf string_size (codes "chown nobody:nobody /var/patches/error")))
    exit err

  -- The space that is needed is twice the size of the file, and 1500000 bytes.
  unfoldable pub check_space : Bytes → M (Unit {0})
  check_space upgrade = do
    rc ← call os (lstat upgrade)
    when (not (rc == 0)) (ourexit false 0 1)
    size ← call os (lstat_size upgrade)
    fs ← call os (statvfs (codes "/var/patches"))
    when (not (fs == 0)) (ourexit false 0 1)
    available ← call os (statvfs_size (codes "/var/patches"))
    when (ltb available (2 * size + 1500 * 1000)) (ourexit false 0 11)

  -- From the decrypted package on.
  unfoldable pub install_package : Bytes → Bytes → M (Unit {0})
  install_package upgrade signature = do
    act os (unlink upgrade)
    act os (unlink signature)
    act os sync
    entered ← call os (chdir dir)
    when (not (entered == 0)) (ourexit true 0 2)
    untarred ← call os (system (untar_command dir))
    when (not (untarred == 0)) (ourexit true 0 4)
    act os (unlink (snprintf string_size (dir ++ codes "/patch-1.tgz")))
    act os sync
    ret ← call os (system (setup_command dir))
    when (not (shift_8 ret == 0)) (ourexit true (shift_8 ret) 9)
    act os (system (installed_command dir))
    ourexit true 0 0

  unfoldable pub use_package : PackageFlags → Bytes → M (Unit {0})
  use_package f signature = do
    act os (system (grep_command dir signature))
    act os (system (snprintf string_size (codes "/bin/chown nobody:nobody " ++ signature)))
    found ← call os (system (information_command dir))
    when (not (found == 0)) (ourexit true 0 5)
    when f.flag_test do
      act os (
          system (
            snprintf string_size (
              codes
                "/usr/bin/perl -e \"require '/usr/lib/ipcop/general-functions.pl'; &General::updateavailablepatches('/var/patches/information.xml');\"")))
      ourexit true 0 0
    install_package f.upgrade_filename signature

  -- A name whose ending was cut off by the buffer faults in `strcpy`.
  unfoldable pub signature_name : Bytes → M Bytes
  signature_name upgrade = elim (signature_of upgrade) [
    | none ↦ crash
    | some signature ↦ pure signature
  ]

  unfoldable pub check_package : PackageFlags → M (Unit {0})
  check_package f = do
    when (not (has_byte b'/' f.upgrade_filename)) (ourexit false 0 1)
    when (not (has_text (codes ".tgz.gpg") f.upgrade_filename)) (ourexit false 0 1)
    signature ← signature_name f.upgrade_filename
    check_space f.upgrade_filename
    made ← call os (mkdtemp dir)
    when (made == 0) (ourexit false 0 2)
    verified ← call os (system (gpg_command dir f.upgrade_filename))
    choose (not (shift_8 verified == 0)) (ourexit true (shift_8 verified) 3)
        (use_package f signature)

  unfoldable pub main : List PackageOption → M (Unit {0})
  main options = do
    ok ← initsetuid os
    when (ok == 0) (ourexit false 0 20)
    f ←
        read_options options
          (record { flag_install = false; flag_test = false; upgrade_filename = [] })
    when (not (f.flag_install || f.flag_test)) (exit 1)
    check_package f
