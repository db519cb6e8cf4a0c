-- ===== src/Progs/Syslog/Config.antt =====
-- What restartsyslogd does with the config file that it creates.
use ipcop_alpine.Prelude.{ℕ, ◌≡◌, refl, false, List, [], ◌∷◌, ◌==◌}
use ipcop_alpine.Cstring.{Bytes}
use ipcop_alpine.Os.{Os, M, history_of, minus_one}
use ipcop_alpine.Os.Footprint.{Makes, makes, Makes-mono, Makes-pure, Makes-exit, Makes-call}
use ipcop_alpine.Os.Tidy.{
  is_pending, NoCreate, Tidy, Settles, Tidy-bind, Tidy-of_Makes, Tidy-choose, Tidy-create,
  Settles-act, Settles-call, Settles-choose, Settles-unlink, Settles-rename,
}
use ipcop_alpine.Setuid.Footprint.{Setup-NoCreate, require_setuid-Makes, read_kv_from_file-Makes}
use ipcop_alpine.Progs.Signal.{mysignalpidfile}
use ipcop_alpine.Progs.Syslog.{
  SyslogOption, LogSettings, verbose, help, unknown, read_options, new_conf, rebuild_config,
  verify_etc, set_rotation, stop_rsyslogd, start_rsyslogd, configure, restart, main,
}

read_options-Makes : (options : List SyslogOption) → Makes NoCreate (read_options options)
unfolding read_options
read_options-Makes [] = Makes-pure tt
read_options-Makes (verbose ∷ options) = read_options-Makes options
read_options-Makes (help ∷ options) = Makes-exit 0
read_options-Makes (unknown ∷ options) = Makes-exit 1

module _ (os : Os) where
  mysignalpidfile-Makes :
      (file : Bytes) (signal : ℕ) → Makes NoCreate (mysignalpidfile os file signal)
  unfolding mysignalpidfile
  mysignalpidfile-Makes file signal = search makes depth 20

  verify_etc-Makes : Makes NoCreate (verify_etc os)
  unfolding verify_etc
  verify_etc-Makes = search makes depth 20

  set_rotation-Makes : (keep : Bytes) → Makes NoCreate (set_rotation os keep)
  unfolding set_rotation
  set_rotation-Makes keep = search makes depth 12

  stop_rsyslogd-Makes : Makes NoCreate (stop_rsyslogd os)
  unfolding stop_rsyslogd
  stop_rsyslogd-Makes = search (makes, mysignalpidfile-Makes) depth 12

  start_rsyslogd-Makes : Makes NoCreate (start_rsyslogd os)
  unfolding start_rsyslogd
  start_rsyslogd-Makes = search makes depth 12

  rebuild_config-Settles :
      (s : LogSettings) (config_fd : ℕ) (more : M (Unit {0}))
      → Tidy os new_conf more
      → Settles os new_conf (rebuild_config os s config_fd more)
  unfolding rebuild_config
  rebuild_config-Settles s config_fd more tm =
      let given_up =
        Settles-unlink os new_conf (Tidy-of_Makes os new_conf (Makes-exit {A = Unit {0}} 4)) in
      Settles-call os new_conf _ λ rc.
        Settles-choose os new_conf _ (Settles-act os new_conf _ given_up) (
          Settles-act os new_conf _
            (Settles-rename os new_conf _ (λ r. r == minus_one) refl given_up tm))

  configure-Tidy : (s : LogSettings) → Tidy os new_conf (configure os s)
  unfolding configure
  configure-Tidy s = Tidy-bind os new_conf verify_etc-Makes λ _.
      Tidy-bind os new_conf (set_rotation-Makes _) λ _.
        Tidy-create os new_conf (Tidy-of_Makes os new_conf (Makes-exit 4)) λ config_fd.
          rebuild_config-Settles s config_fd _ (
            Tidy-of_Makes os new_conf
              (search (makes, stop_rsyslogd-Makes, start_rsyslogd-Makes) depth 8))

  restart-Tidy : (keep : Bytes) → Tidy os new_conf (restart os keep)
  unfolding restart
  restart-Tidy keep =
      Tidy-bind os new_conf (Makes-mono Setup-NoCreate (read_kv_from_file-Makes os _ _)) λ r.
        Tidy-choose os new_conf _ (Tidy-of_Makes os new_conf (Makes-exit 2))
          (Tidy-choose os new_conf _ (Tidy-of_Makes os new_conf (Makes-exit 2)) (configure-Tidy _))

  -- However the system answers, when a run of restartsyslogd ends and it created the new config
  -- file, it has since called unlink on that file, or renamed it without a failure.
  pub main-new_conf :
      (options : List SyslogOption)
      → is_pending os new_conf (history_of (main os options [])) ≡ false
  unfolding main is_pending
  main-new_conf options =
      (Tidy-bind os new_conf (Makes-call os _ tt) λ _.
          Tidy-bind os new_conf (Makes-mono Setup-NoCreate (require_setuid-Makes os))
            λ _. Tidy-bind os new_conf (read_options-Makes options) λ _. restart-Tidy _).tidy
        [] refl
