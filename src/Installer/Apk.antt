-- ===== src/Installer/Apk.antt =====
-- source/core/installer/helper_apk.c
use ipcop_alpine.Prelude.{
  ℕ, ◌+◌, ◌*◌, Bool, not, ◌||◌, List, [], ◌∷◌, ◌++◌, ◌==◌, leb, get_or, if◌then◌else◌,
}
use ipcop_alpine.Cstring.{
  Bytes, codes, concat, snprintf, string_size, string_size_large, fgets_lines, before, from, is_nil,
}
use ipcop_alpine.Valid.{not_white}
use ipcop_alpine.Kv.{success, failure}
use ipcop_alpine.Os.{
  Os, M, pure, ◌>>=◌, ◌>>◌, choose, when, call, act, contents, stat, fopen_read, fopen_write,
  fprintf, fclose,
}
use ipcop_alpine.Installer.{mysystem, run_all}

abbrev pub apk_cmd : Bytes
apk_cmd = codes "/sbin/apk"

abbrev pub bundled_repo_mount : Bytes
bundled_repo_mount = codes "/mnt/ipcop-repo"

abbrev pub bundled_repo_path : Bytes
bundled_repo_path = codes "/cdrom/alpine/packages"

abbrev pub apk_repos_file : Bytes
apk_repos_file = codes "/etc/apk/repositories"

abbrev pub online_main : Bytes
online_main = codes "https://dl-cdn.alpinelinux.org/alpine/v3.18/main\n"

abbrev pub online_community : Bytes
online_community = codes "https://dl-cdn.alpinelinux.org/alpine/v3.18/community\n"

abbrev pub ping_command : Bytes
ping_command = codes "ping -c 1 -W 2 dl-cdn.alpinelinux.org > /dev/null 2>&1"

-- `apk --root root_path ...`
unfoldable pub apk_command : Bytes → Bytes → Bytes
apk_command root_path rest =
    snprintf string_size (concat (apk_cmd ∷ codes " --root " ∷ root_path ∷ codes " " ∷ rest ∷ []))

unfoldable pub add_command : Bytes → Bytes → Bytes
add_command root_path package_name = snprintf string_size_large (
    concat
      (apk_cmd ∷ codes " --root " ∷ root_path ∷ codes " --no-interactive add " ∷ package_name ∷ []))

-- Comments and empty lines of a list.
unfoldable pub is_skipped : Bytes → Bool
is_skipped line = get_or line 0 0 == b'#' || (get_or line 0 0 == b'\n' || get_or line 0 0 == b'\r')

unfoldable pub is_space_byte : ℕ → Bool
is_space_byte c = not (not_white c)

-- `line[strcspn(line, "\r\n")] = 0`, and `sscanf(line, "%s", package)`, which leaves `package` as it is
-- where the line has no word.
unfoldable pub package_of : Bytes → Bytes → Bytes
unfolding is_space_byte
package_of line package_name =
    let word =
      before is_space_byte (from not_white (before (λ c. c == b'\r' || c == b'\n') line)) in
    if is_nil word then package_name else word

unfoldable pub count_packages : List Bytes → ℕ
unfolding is_skipped
count_packages [] = 0
count_packages (line ∷ lines) =
    let rest = count_packages lines in if is_skipped line then rest else rest + 1

module _ (os : Os) where
  unfoldable pub apk_init_db : Bytes → M ℕ
  unfolding apk_command
  apk_init_db root_path = run_all os (
      snprintf string_size (concat (codes "mkdir -p " ∷ root_path ∷ codes "/etc/apk" ∷ []))
      ∷ snprintf string_size (concat (codes "mkdir -p " ∷ root_path ∷ codes "/var/cache/apk" ∷ []))
      ∷ apk_command root_path (codes "--initdb add")
      ∷ [])

  unfoldable pub apk_mount_bundled_repo : M ℕ
  apk_mount_bundled_repo = do
    made ← run_all os (snprintf string_size (codes "mkdir -p " ++ bundled_repo_mount) ∷ [])
    choose (not (made == success)) (pure failure) do
      rc ← call os (stat bundled_repo_path)
      choose (not (rc == 0)) (pure failure) (
          run_all os (
            snprintf string_size (
              concat
                (codes "mount --bind " ∷ bundled_repo_path ∷ codes " " ∷ bundled_repo_mount ∷ []))
            ∷ []))

  -- `include_online` is an int.
  unfoldable pub apk_configure_repos : Bytes → ℕ → M ℕ
  apk_configure_repos root_path include_online = do
    let repos_file = snprintf string_size (root_path ++ apk_repos_file)
    opened ← call os (fopen_write repos_file)
    choose (not (opened == 0)) (pure failure) do
      act os (fprintf repos_file (codes "# IPCop bundled packages\n"))
      act os (fprintf repos_file (bundled_repo_mount ++ codes "\n\n"))
      when (not (include_online == 0)) do
        act os (fprintf repos_file (codes "# Alpine Linux official repositories\n"))
        act os (fprintf repos_file online_main)
        act os (fprintf repos_file online_community)
      act os (fclose repos_file)
      pure success

  unfoldable pub apk_update_indexes : Bytes → M ℕ
  unfolding apk_command
  apk_update_indexes root_path = run_all os (apk_command root_path (codes "update") ∷ [])

  unfoldable pub apk_install_package : Bytes → Bytes → M ℕ
  unfolding add_command
  apk_install_package root_path package_name = run_all os (add_command root_path package_name ∷ [])

  -- The second loop: `package` is what the buffer holds, empty at first where the source does not set it.
  unfoldable pub install_lines : Bytes → List Bytes → Bytes → ℕ → ℕ → M (ℕ × ℕ)
  unfolding is_skipped package_of
  install_lines root_path [] package_name installed failed = pure (installed, failed)
  install_lines root_path (line ∷ lines) package_name installed failed =
      let next_name = package_of line package_name in
      choose (is_skipped line) (install_lines root_path lines package_name installed failed) (
        choose (is_nil next_name) (install_lines root_path lines next_name installed failed) do
          rc ← apk_install_package root_path next_name
          choose (rc == success) (install_lines root_path lines next_name (installed + 1) failed)
              (install_lines root_path lines next_name installed (failed + 1)))

  -- `installed >= total_packages * 0.8`
  unfoldable pub apk_install_from_list : Bytes → Bytes → M ℕ
  unfolding count_packages
  apk_install_from_list root_path list_file = do
    opened ← call os (fopen_read list_file)
    choose (not (opened == 0)) (pure failure) do
      text ← contents os list_file
      act os (fclose list_file)
      let total = count_packages (fgets_lines string_size text)
      again ← call os (fopen_read list_file)
      choose (not (again == 0)) (pure failure) do
        text' ← contents os list_file
        counts ← install_lines root_path (fgets_lines string_size text') [] 0 0
        act os (fclose list_file)
        choose (leb (4 * total) (5 * counts.0)) (pure success) (pure failure)

  unfoldable pub apk_install_ipcop_packages : Bytes → M ℕ
  unfolding add_command
  apk_install_ipcop_packages root_path = run_all os (
      add_command root_path (codes "ipcop-core")
      ∷ add_command root_path (codes "ipcop-progs")
      ∷ add_command root_path (codes "ipcop-gui")
      ∷ add_command root_path (codes "ipcop-lang")
      ∷ [])

  unfoldable pub apk_check_network : M ℕ
  apk_check_network = run_all os (ping_command ∷ [])

  unfoldable pub apk_verify_installation : Bytes → M ℕ
  unfolding apk_command
  apk_verify_installation root_path = run_all os (apk_command root_path (codes "audit") ∷ [])

  unfoldable pub apk_cleanup : Bytes → M ℕ
  unfolding apk_command
  apk_cleanup root_path = do
    rc ← mysystem os (apk_command root_path (codes "cache clean"))
    pure success
