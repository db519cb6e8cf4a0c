-- ===== src/Installer/Disk/Repositories.antt =====
-- The online repositories are configured exactly where the network could not be reached.
use ipcop_alpine.Prelude.{
  ℕ, ◌≡◌, refl, Bool, false, not, ◌||◌, [], ◌∷◌, ◌++◌, ◌==◌, Bool-cases, inl, inr, ap, ◌∙◌,
  if◌then◌else◌, arith,
}
use ipcop_alpine.Cstring.{Bytes, codes, strcmp_eq, snprintf, string_size}
use ipcop_alpine.Cstring.Laws.{strcmp_eq_refl}
use ipcop_alpine.Kv.{success, failure}
use ipcop_alpine.Os.{
  Os, Call, History, history_of, fprintf, fopen_write, system, done, exited, crashed, replaced, Out,
  choose, call, ◌>>=◌, pure, when, act,
}
use ipcop_alpine.Os.Returns.{after_value}
use ipcop_alpine.Installer.{Media, mysystem, run_all, wrapped}
use ipcop_alpine.Installer.Apk.{
  ping_command, online_main, apk_check_network, apk_configure_repos, online_community,
  bundled_repo_mount, apk_repos_file,
}
use ipcop_alpine.Installer.Disk.{set_up_repos, harddisk_root}

-- Whether the text has been written to some file.
unfoldable pub is_printed : Bytes → History → Bool
is_printed text [] = false
is_printed text (fprintf file t ∷ h) = let before = is_printed text h in strcmp_eq t text || before
is_printed text (_ ∷ h) = is_printed text h

abbrev pub ping_call : Call
ping_call = system (wrapped ping_command)

abbrev pub repos_file : Bytes
repos_file = snprintf string_size (harddisk_root ++ apk_repos_file)

check_network_lem :
    (os : Os) (h : History)
    → apk_check_network os h
      ≡ done (if os.status h ping_call == 0 then success else failure) (ping_call ∷ h)
unfolding apk_check_network run_all mysystem call ◌>>=◌ choose pure
check_network_lem os h = ground arith

-- The other lines of the file.
other_lines :
    (strcmp_eq (codes "# IPCop bundled packages\n") online_main ≡ false)
    × (strcmp_eq (bundled_repo_mount ++ codes "\n\n") online_main ≡ false)
    × (strcmp_eq (codes "# Alpine Linux official repositories\n") online_main ≡ false)
    × (strcmp_eq online_community online_main ≡ false)
unfolding codes strcmp_eq
other_lines = (refl, refl, refl, refl)

configure_online :
    (os : Os) (n : ℕ) (h : History)
    → is_printed online_main h ≡ false
    → os.status h (fopen_write repos_file) ≡ 0
    → is_printed online_main (history_of (apk_configure_repos os harddisk_root n h)) ≡ not (n == 0)
unfolding apk_configure_repos call ◌>>=◌ choose pure when act is_printed
configure_online os n h fresh opened =
    let (ipcop, bundled, alpine, community) = other_lines in
    let main = strcmp_eq_refl online_main in
    elim (Bool-cases (n == 0)) [
      | inl off ↦ rw (opened, off, ipcop, bundled, fresh) refl
      | inr on ↦ rw (opened, on, ipcop, bundled, alpine, community, main) refl
    ]

-- What follows the file does not change the history.
paired_history :
    (n : ℕ) (o : Out ℕ)
    → history_of (
        let r : Out (ℕ × ℕ) = elim o [
          | done a h' ↦ done (a, n) h'
          | exited k h' ↦ exited k h'
          | crashed h' ↦ crashed h'
          | replaced h' ↦ replaced h'
        ] in
        r)
      ≡ history_of o
paired_history n (done a h) = refl
paired_history n (exited k h) = refl
paired_history n (crashed h) = refl
paired_history n (replaced h) = refl

configured_lem :
    (os : Os) (h : History)
    → let n = if os.status h ping_call == 0 then success else failure in
      history_of (set_up_repos os Media.network h)
      ≡ history_of (apk_configure_repos os harddisk_root n (ping_call ∷ h))
unfolding set_up_repos ◌>>=◌ pure choose
configured_lem os h =
    let n = if os.status h ping_call == 0 then success else failure in
    ap history_of
      (after_value (apk_check_network os) _ h (ping_call ∷ h) n (check_network_lem os h))
    ∙ paired_history n (apk_configure_repos os harddisk_root n (ping_call ∷ h))

-- On an installation over the network, where the file of the repositories can be opened and the address
-- of the main repository has not been written before: it is written exactly where the ping of the
-- server has failed.
pub set_up_repos_online :
    (os : Os) (h : History)
    → is_printed online_main h ≡ false
    → os.status (ping_call ∷ h) (fopen_write repos_file) ≡ 0
    → is_printed online_main (history_of (set_up_repos os Media.network h))
      ≡ not (os.status h ping_call == 0)
unfolding is_printed
set_up_repos_online os h fresh opened =
    let n = if os.status h ping_call == 0 then success else failure in
    ap (is_printed online_main) (configured_lem os h)
    ∙ (configure_online os n (ping_call ∷ h) fresh opened ∙ ground arith)
