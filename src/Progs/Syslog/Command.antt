-- ===== src/Progs/Syslog/Command.antt =====
-- What restartsyslogd lets into its commands, and what it asks of "/etc" before them.
use ipcop_alpine.Prelude.{
  ℕ, ◌≡◌, refl, ◌⊎◌, Bool, true, false, List, [], ◌∷◌, All, Bool-cases, inl, inr, arith, ◌==◌, ap,
  if◌then◌else◌,
}
use ipcop_alpine.Cstring.{Bytes, codes, all_in, strcmp_eq, string_size, fgets_lines}
use ipcop_alpine.Os.{Os, Call, History, M, history_of, unpriv_system, system}
use ipcop_alpine.Os.Trace.{
  Keeps, keeps, Keeps-bind, Keeps-act, Keeps-call, Keeps-choose, Keeps-exit, Keeps-pure,
  Keeps-choose-not, Keeps-bind_value,
}
use ipcop_alpine.Os.Footprint.{Keeps-of_Makes}
use ipcop_alpine.Kv.{Kv, success, read_kv_lines}
use ipcop_alpine.Kv.File.{read_kv_from_file_value}
use ipcop_alpine.Progs.Signal.{mysignalpidfile}
use ipcop_alpine.Setuid.Footprint.{Setup, require_setuid-Makes, read_kv_from_file-Makes}
use ipcop_alpine.Progs.Syslog.{
  SyslogOption, LogSettings, verbose, help, unknown, read_options, good_address, fqdn_bytes,
  rebuild_config, verify_etc, set_rotation, stop_rsyslogd, start_rsyslogd, configure, restart, main,
  grep_command, rotate_command, remote_command, local_command, config_command, log_settings,
}

abbrev pub settings_file : Bytes
settings_file = codes "/var/ipcop/logging/settings"

-- The settings that a run has: what the file held at some time, over one of the defaults of LOG_KEEP.
abbrev pub IsRead : Os → LogSettings → Type 0
IsRead os s =
    (g : History) × (keep : Bytes) × ((keep ≡ codes "56") ⊎ (keep ≡ codes "14"))
    × (s
        ≡ log_settings (read_kv_lines [] (fgets_lines string_size (os.text g settings_file))).1
            keep)

-- Every command of root is one of three texts, of which two hold `log_keep`; the others run as user and
-- group 99 and hold the host of the settings, made of letters, digits, dots and dashes, or none.
pub data SyslogCommand (os : Os) : Call → Type 0 where
  grep : (s : LogSettings) → IsRead os s → SyslogCommand os (system (grep_command s.log_keep))
  rotate : (s : LogSettings) → IsRead os s → SyslogCommand os (system (rotate_command s.log_keep))
  start : SyslogCommand os (system (codes "/usr/sbin/rsyslogd"))
  remote_tcp :
      (s : LogSettings) (fd : ℕ)
      → IsRead os s
      → s.remote_log ≡ true
      → strcmp_eq s.proto (codes "tcp") ≡ true
      → all_in fqdn_bytes s.hostname ≡ true
      → SyslogCommand os (unpriv_system (remote_command (codes "@") s.hostname fd) 99 99)
  remote_udp :
      (s : LogSettings) (fd : ℕ)
      → IsRead os s
      → s.remote_log ≡ true
      → strcmp_eq s.proto (codes "tcp") ≡ false
      → all_in fqdn_bytes s.hostname ≡ true
      → SyslogCommand os (unpriv_system (remote_command [] s.hostname fd) 99 99)
  local :
      (s : LogSettings) (fd : ℕ)
      → IsRead os s
      → s.remote_log ≡ false
      → SyslogCommand os (unpriv_system (local_command fd) 99 99)

-- Calls that run no command are not restricted.
abbrev pub IsAllowed : Os → Call → Type 0
IsAllowed os (system command) = SyslogCommand os (system command)
IsAllowed os (unpriv_system command uid gid) = SyslogCommand os (unpriv_system command uid gid)
IsAllowed os _ = Unit

Setup-IsAllowed : (os : Os) (c : Call) → Setup c → IsAllowed os c
Setup-IsAllowed os (system _) s = elim s [ ]
Setup-IsAllowed os (unpriv_system _ _ _) s = elim s [ ]
Setup-IsAllowed os _ s = tt

config_command-SyslogCommand :
    (os : Os) (s : LogSettings) (fd : ℕ)
    → IsRead os s
    → all_in fqdn_bytes s.hostname ≡ true
    → SyslogCommand os (unpriv_system (config_command s fd) 99 99)
unfolding config_command
config_command-SyslogCommand os s fd r h = elim (Bool-cases s.remote_log) [
  | inr off ↦ rw off (local s fd r off)
  | inl on ↦ elim (Bool-cases (strcmp_eq s.proto (codes "tcp"))) [
    | inl e ↦ rw (on, e) (remote_tcp s fd r on e h)
    | inr e ↦ rw (on, e) (remote_udp s fd r on e h)
  ]
]

read_options-Keeps :
    (os : Os) (options : List SyslogOption) → Keeps (IsAllowed os) (read_options options)
unfolding read_options
read_options-Keeps os [] = Keeps-pure tt
read_options-Keeps os (verbose ∷ options) = read_options-Keeps os options
read_options-Keeps os (help ∷ options) = Keeps-exit 0
read_options-Keeps os (unknown ∷ options) = Keeps-exit 1

module _ (os : Os) where
  mysignalpidfile-Keeps :
      (file : Bytes) (signal : ℕ) → Keeps (IsAllowed os) (mysignalpidfile os file signal)
  unfolding mysignalpidfile
  mysignalpidfile-Keeps file signal = search keeps depth 20

  verify_etc-Keeps : Keeps (IsAllowed os) (verify_etc os)
  unfolding verify_etc
  verify_etc-Keeps = search keeps depth 20

  set_rotation-Keeps :
      (s : LogSettings) → IsRead os s → Keeps (IsAllowed os) (set_rotation os s.log_keep)
  unfolding set_rotation
  set_rotation-Keeps s r =
      let g : SyslogCommand os (system (grep_command s.log_keep)) = grep s r in
      let t : SyslogCommand os (system (rotate_command s.log_keep)) = rotate s r in
      search keeps depth 12

  stop_rsyslogd-Keeps : Keeps (IsAllowed os) (stop_rsyslogd os)
  unfolding stop_rsyslogd
  stop_rsyslogd-Keeps = search (keeps, mysignalpidfile-Keeps) depth 12

  start_rsyslogd-Keeps : Keeps (IsAllowed os) (start_rsyslogd os)
  unfolding start_rsyslogd
  start_rsyslogd-Keeps = search (keeps, start) depth 12

  rebuild_config-Keeps :
      (s : LogSettings) (fd : ℕ) (more : M (Unit {0}))
      → IsRead os s
      → all_in fqdn_bytes s.hostname ≡ true
      → Keeps (IsAllowed os) more
      → Keeps (IsAllowed os) (rebuild_config os s fd more)
  unfolding rebuild_config
  rebuild_config-Keeps s fd more r h k =
      let given_up =
        Keeps-bind (Keeps-act os _ tt) λ _. Keeps-bind (Keeps-act os _ tt) λ _. Keeps-exit 4 in
      Keeps-bind (Keeps-call os _ (config_command-SyslogCommand os s fd r h)) λ rc.
        Keeps-choose _ given_up (
          Keeps-bind (Keeps-act os _ tt) λ _.
            Keeps-bind (Keeps-call os _ tt)
              λ renamed. Keeps-choose _ (Keeps-bind (Keeps-act os _ tt) λ _. Keeps-exit 4) k)

  configure-Keeps :
      (s : LogSettings)
      → IsRead os s
      → all_in fqdn_bytes s.hostname ≡ true
      → Keeps (IsAllowed os) (configure os s)
  unfolding configure
  configure-Keeps s r h = Keeps-bind verify_etc-Keeps λ _. Keeps-bind (set_rotation-Keeps s r) λ _.
      Keeps-bind (Keeps-call os _ tt) λ fd.
        Keeps-choose _ (Keeps-exit 4) (
          rebuild_config-Keeps s fd _ r h
            (Keeps-bind stop_rsyslogd-Keeps λ _. start_rsyslogd-Keeps))

  good_host :
      (kv : Kv) (s : LogSettings) → good_address kv s ≡ true → all_in fqdn_bytes s.hostname ≡ true
  unfolding good_address
  good_host kv s e = ground arith

  restart-Keeps :
      (keep : Bytes)
      → (keep ≡ codes "56") ⊎ (keep ≡ codes "14")
      → Keeps (IsAllowed os) (restart os keep)
  unfolding restart
  restart-Keeps keep d =
      Keeps-bind_value
        (λ r.
          (r.0 == success) ≡ true
          → (g : History) × (r.1
              ≡ (read_kv_lines [] (fgets_lines string_size (os.text g settings_file))).1))
        (Keeps-of_Makes (IsAllowed os) (Setup-IsAllowed os) (read_kv_from_file-Makes os _ _))
        (λ h h' r e good. read_kv_from_file_value os settings_file h h' r.0 r.1 e good)
        λ r read.
          Keeps-choose-not _ (λ _. Keeps-exit 2)
            λ good.
              let (g, q) = read good in
              let s = log_settings r.1 keep in
              Keeps-choose-not _ (λ _. Keeps-exit 2)
                λ e.
                  configure-Keeps s (g, keep, d, ap (λ kv. log_settings kv keep) q)
                    (good_host r.1 s e)

  default_lem :
      (flash : Bool)
      → (let keep = if flash then codes "56" else codes "14" in
          (keep ≡ codes "56") ⊎ (keep ≡ codes "14"))
  default_lem true = inl refl
  default_lem false = inr refl

  main-Keeps : (options : List SyslogOption) → Keeps (IsAllowed os) (main os options)
  unfolding main
  main-Keeps options = Keeps-bind (Keeps-call os _ tt) λ flash.
      Keeps-bind (Keeps-of_Makes (IsAllowed os) (Setup-IsAllowed os) (require_setuid-Makes os))
        λ _. Keeps-bind (read_options-Keeps os options) λ _. restart-Keeps _ (default_lem _)

  -- Every command of a run of restartsyslogd is one of six kinds. As root: a grep and a sed that hold the
  -- value of LOG_KEEP, of the settings file or the default, as it is, and rsyslogd itself. As user and
  -- group 99: where ENABLE_REMOTELOG is on, a sed that holds REMOTELOG_ADDR, made of letters, digits, dots
  -- and dashes, with "@" in front of it for the protocol tcp and nothing for others; where it is not
  -- on, a sed without text of the settings.
  pub main-IsAllowed :
      (options : List SyslogOption) → All (IsAllowed os) (history_of (main os options []))
  main-IsAllowed options = (main-Keeps options).kept [] tt
