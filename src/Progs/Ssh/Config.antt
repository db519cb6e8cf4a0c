-- ===== src/Progs/Ssh/Config.antt =====
-- What restartssh does with the config file that it creates.
use ipcop_alpine.Prelude.{ℕ, ◌≡◌, refl, Bool, false, not, List, [], ◌∷◌, ◌==◌}
use ipcop_alpine.Os.{Os, M, history_of}
use ipcop_alpine.Os.Footprint.{Makes, makes, Makes-mono, Makes-pure, Makes-exit}
use ipcop_alpine.Os.Tidy.{
  is_pending, NoCreate, Tidy, Settles, Tidy-bind, Tidy-of_Makes, Tidy-choose, Tidy-create,
  Settles-act, Settles-call, Settles-choose, Settles-unlink, Settles-rename,
}
use ipcop_alpine.Kv.{Kv}
use ipcop_alpine.Setuid.Footprint.{Setup-NoCreate, require_setuid-Makes, read_kv_from_file-Makes}
use ipcop_alpine.Progs.Ssh.{
  SshOption, SshFlags, boot, verbose, help, unknown, read_options, new_config, rebuild_config,
  stop_sshd, start_sshd, restart, main,
}

read_options-Makes :
    (options : List SshOption) (f : SshFlags) → Makes NoCreate (read_options options f)
unfolding read_options
read_options-Makes [] f = Makes-pure f
read_options-Makes (boot ∷ options) f = read_options-Makes options _
read_options-Makes (verbose ∷ options) f = read_options-Makes options _
read_options-Makes (help ∷ options) f = Makes-exit 0
read_options-Makes (unknown ∷ options) f = Makes-exit 1

module _ (os : Os) where
  stop_sshd-Makes : (flag_boot : Bool) → Makes NoCreate (stop_sshd os flag_boot)
  unfolding stop_sshd
  stop_sshd-Makes flag_boot = search makes depth 24

  start_sshd-Makes : (n : ℕ) → Makes NoCreate (start_sshd os n)
  unfolding start_sshd
  start_sshd-Makes n = search makes depth 20

  rebuild_config-Settles :
      (kv : Kv) (config_fd : ℕ) (more : M (Unit {0}))
      → Tidy os new_config more
      → Settles os new_config (rebuild_config os kv config_fd more)
  unfolding rebuild_config
  rebuild_config-Settles kv config_fd more tm =
      let given_up =
        Settles-unlink os new_config (Tidy-of_Makes os new_config (Makes-exit {A = Unit {0}} 1)) in
      Settles-call os new_config _ λ rc.
        Settles-choose os new_config _ (Settles-act os new_config _ given_up) (
          Settles-act os new_config _
            (Settles-rename os new_config _ (λ r. not (r == 0)) refl given_up tm))

  restart-Tidy : (f : SshFlags) → Tidy os new_config (restart os f)
  unfolding restart
  restart-Tidy f =
      Tidy-bind os new_config (Makes-mono Setup-NoCreate (read_kv_from_file-Makes os _ _)) λ r.
        Tidy-choose os new_config _ (Tidy-of_Makes os new_config (Makes-exit 1)) (
          Tidy-create os new_config (Tidy-of_Makes os new_config (Makes-exit 1)) λ config_fd.
            rebuild_config-Settles _ config_fd _ (
              Tidy-of_Makes os new_config
                (search (makes, stop_sshd-Makes, start_sshd-Makes) depth 12)))

  -- However the system answers, when a run of restartssh ends and it created the new config file,
  -- it has since called unlink on that file, or renamed it without a failure.
  pub main-new_config :
      (options : List SshOption)
      → is_pending os new_config (history_of (main os options [])) ≡ false
  unfolding main is_pending
  main-new_config options =
      (Tidy-bind os new_config (Makes-mono Setup-NoCreate (require_setuid-Makes os))
          λ _. Tidy-bind os new_config (read_options-Makes options _) restart-Tidy).tidy
        [] refl
