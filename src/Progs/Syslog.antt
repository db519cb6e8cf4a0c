-- ===== src/Progs/Syslog.antt =====
-- source/core/progs/restartsyslogd.c
pub mod Command
pub mod Config
use ipcop_alpine.Prelude.{
  ℕ, Bool, true, false, not, ◌&&◌, ◌||◌, List, [], ◌∷◌, ◌++◌, ◌==◌, ◌+◌, ◌-◌, ◌/◌, ◌%◌, ◌^◌,
  if◌then◌else◌,
}
use ipcop_alpine.Cstring.{Bytes, codes, concat, string_size, snprintf, strcmp_eq, all_in}
use ipcop_alpine.Number.{print_decimal}
use ipcop_alpine.Valid.{letters_numbers}
use ipcop_alpine.Kv.{Kv, success, test_kv, find_kv_default}
use ipcop_alpine.Kv.File.{read_kv_from_file}
use ipcop_alpine.Setuid.{require_setuid}
use ipcop_alpine.Progs.Signal.{mysignalpidfile, sigterm}
use ipcop_alpine.Os.{
  Os, M, pure, ◌>>=◌, ◌>>◌, choose, when, exit, call, act, system, unpriv_system, access, unlink,
  rename, open_exclusive, close, sleep, minus_one, lstat, lstat_mode, lstat_uid, lstat_gid,
}

pub data SyslogOption : Type 0 where
  verbose help unknown : SyslogOption

-- The verbosity changes only what is printed.
unfoldable pub read_options : List SyslogOption → M (Unit {0})
read_options [] = pure tt
read_options (verbose ∷ options) = read_options options
read_options (help ∷ options) = exit 0
read_options (unknown ∷ options) = exit 1

abbrev pub err_settings : ℕ
err_settings = 2

abbrev pub err_etc : ℕ
err_etc = 3

abbrev pub err_config : ℕ
err_config = 4

abbrev pub err_syslog : ℕ
err_syslog = 5

abbrev pub new_conf : Bytes
new_conf = codes "/etc/rsyslog.conf.new"

abbrev pub rsyslog_conf : Bytes
rsyslog_conf = codes "/etc/rsyslog.conf"

abbrev pub rsyslogd_pid : Bytes
rsyslogd_pid = codes "/var/run/rsyslogd.pid"

-- VALID_FQDN
abbrev pub fqdn_bytes : Bytes
fqdn_bytes = letters_numbers ++ codes ".-"

-- What the settings say, over the defaults.
pub record LogSettings : Type 0 where
  pub remote_log : Bool
  pub hostname : Bytes
  pub proto : Bytes
  pub log_keep : Bytes

unfoldable pub log_settings : Kv → Bytes → LogSettings
log_settings kv keep = record {
  remote_log = test_kv kv (codes "ENABLE_REMOTELOG") (codes "on") == success;
  hostname = (find_kv_default kv (codes "REMOTELOG_ADDR") []).1;
  proto = (find_kv_default kv (codes "REMOTELOG_PROTO") (codes "udp")).1;
  log_keep = (find_kv_default kv (codes "LOG_KEEP") keep).1;
}

-- `REMOTELOG_ADDR` is there and made of the bytes of a host name.
unfoldable pub good_address : Kv → LogSettings → Bool
good_address kv s =
    (find_kv_default kv (codes "REMOTELOG_ADDR") []).0 == success && all_in fqdn_bytes s.hostname

unfoldable pub grep_command : Bytes → Bytes
grep_command keep =
    snprintf string_size
      (concat (codes "/bin/grep 'rotate " ∷ keep ∷ codes "' /etc/logrotate.conf >/dev/null" ∷ []))

unfoldable pub rotate_command : Bytes → Bytes
rotate_command keep = snprintf string_size (
    concat
      (codes "/bin/sed -i -e 's/^rotate.*/rotate " ∷ keep ∷ codes "/' /etc/logrotate.conf" ∷ []))

-- The line for a remote host: `at` is "@" for TCP.
unfoldable pub remote_command : Bytes → Bytes → ℕ → Bytes
remote_command at host config_fd = snprintf (string_size - 1) (
    concat (
      codes "/bin/sed -e 's/^#\\?\\(\\*\\.\\*[[:blank:]]\\+@\\).\\+$/\\1"
      ∷ at
      ∷ host
      ∷ codes "/' /etc/rsyslog.conf >&"
      ∷ print_decimal config_fd
      ∷ []))

unfoldable pub local_command : ℕ → Bytes
local_command config_fd = snprintf (string_size - 1) (
    concat (
      codes "/bin/sed -e 's/^#\\?\\(\\*\\.\\*[[:blank:]]\\+@.\\+\\)$/#\\1/' /etc/rsyslog.conf >&"
      ∷ print_decimal config_fd
      ∷ []))

unfoldable pub config_command : LogSettings → ℕ → Bytes
unfolding remote_command local_command
config_command s config_fd =
    if s.remote_log
    then (if strcmp_eq s.proto (codes "tcp")
        then remote_command (codes "@") s.hostname config_fd
        else remote_command [] s.hostname config_fd)
    else local_command config_fd

-- `S_ISDIR`, `S_IWOTH` and `S_IWGRP` on `st_mode`.
unfoldable pub is_directory : ℕ → Bool
is_directory mode = mode / 2 ^ 12 % 2 ^ 4 == 4

unfoldable pub others_write : ℕ → Bool
others_write mode = mode / 2 % 2 == 1

unfoldable pub group_write : ℕ → Bool
group_write mode = mode / 2 ^ 4 % 2 == 1

unfoldable pub open_to_others : ℕ → ℕ → ℕ → Bool
unfolding others_write group_write
open_to_others mode uid gid =
    not (uid == 0) || (others_write mode || (not (gid == 0) && group_write mode))

module _ (os : Os) where
  -- "/etc" is a directory of root that nobody else may write to.
  unfoldable pub verify_etc : M (Unit {0})
  verify_etc = do
    rc ← call os (lstat (codes "/etc"))
    when (not (rc == 0)) (exit err_etc)
    mode ← call os (lstat_mode (codes "/etc"))
    when (not (is_directory mode)) (exit err_etc)
    uid ← call os (lstat_uid (codes "/etc"))
    gid ← call os (lstat_gid (codes "/etc"))
    when (open_to_others mode uid gid) (exit err_etc)

  unfoldable pub set_rotation : Bytes → M (Unit {0})
  set_rotation keep = do
    rc ← call os (system (grep_command keep))
    when (not (rc == 0)) (act os (system (rotate_command keep)))

  -- From the new config file on; `config_fd` is its descriptor.
  unfoldable pub rebuild_config : LogSettings → ℕ → M (Unit {0}) → M (Unit {0})
  rebuild_config s config_fd more = do
    rc ← call os (unpriv_system (config_command s config_fd) 99 99)
    choose (not (rc == 0)) (do act os (close config_fd); act os (unlink new_conf); exit err_config)
        do
          act os (close config_fd)
          renamed ← call os (rename new_conf rsyslog_conf)
          choose (renamed == minus_one) (do act os (unlink new_conf); exit err_config) more

  unfoldable pub stop_rsyslogd : M (Unit {0})
  stop_rsyslogd = do
    running ← call os (access rsyslogd_pid)
    when (not (running == minus_one))
        do rc ← mysignalpidfile os rsyslogd_pid sigterm; act os (unlink rsyslogd_pid)

  unfoldable pub start_rsyslogd : M (Unit {0})
  start_rsyslogd = do
    rc ← call os (system (codes "/usr/sbin/rsyslogd"))
    choose (not (rc == 0)) (exit err_syslog) do act os (sleep 1); exit 0

  unfoldable pub configure : LogSettings → M (Unit {0})
  configure s = do
    verify_etc
    set_rotation s.log_keep
    config_fd ← call os (open_exclusive new_conf)
    choose (config_fd == minus_one) (exit err_config)
        do rebuild_config s config_fd do stop_rsyslogd; start_rsyslogd

  -- `keep` is the default of `log_keep`.
  unfoldable pub restart : Bytes → M (Unit {0})
  restart keep = do
    (rc, kv) ← read_kv_from_file os [] (codes "/var/ipcop/logging/settings")
    choose (not (rc == success)) (exit err_settings) do
      let s = log_settings kv keep
      choose (not (good_address kv s)) (exit err_settings) (configure s)

  unfoldable pub main : List SyslogOption → M (Unit {0})
  main options = do
    flash ← call os (access (codes "/etc/FLASH"))
    require_setuid os
    read_options options
    restart (if flash == minus_one then codes "56" else codes "14")
