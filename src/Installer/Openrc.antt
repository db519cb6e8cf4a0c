-- ===== src/Installer/Openrc.antt =====
-- source/core/installer/helper_openrc.c. The paths and names are never NULL where these are called.
use ipcop_alpine.Prelude.{ℕ, [], ◌∷◌, ◌++◌}
use ipcop_alpine.Cstring.{Bytes, codes, concat, snprintf, string_size}
use ipcop_alpine.Kv.{success}
use ipcop_alpine.Os.{Os, M, pure, ◌>>=◌}
use ipcop_alpine.Installer.{mysystem, run_all}

module _ (os : Os) (root_path : Bytes) where
  unfoldable pub openrc_enable_service : Bytes → Bytes → M ℕ
  openrc_enable_service service runlevel = run_all os (
      snprintf string_size (
        concat (
          codes "chroot "
          ∷ root_path
          ∷ codes " rc-update add "
          ∷ service
          ∷ codes " "
          ∷ runlevel
          ∷ codes " 2>/dev/null"
          ∷ []))
      ∷ [])

  -- What fails is reported only.
  unfoldable pub openrc_configure_services : M ℕ
  openrc_configure_services = do
    r1 ← openrc_enable_service (codes "ipcop-init") (codes "boot")
    r2 ← openrc_enable_service (codes "ipcop-network") (codes "boot")
    r3 ← openrc_enable_service (codes "networking") (codes "boot")
    r4 ← openrc_enable_service (codes "ipcop-firewall") (codes "default")
    r5 ← openrc_enable_service (codes "lighttpd") (codes "default")
    r6 ← openrc_enable_service (codes "local") (codes "shutdown")
    pure success

  unfoldable pub openrc_cleanup_sysvinit : M ℕ
  openrc_cleanup_sysvinit = do
    let filepath = snprintf string_size (root_path ++ codes "/etc/inittab")
    kept ← mysystem os (
        snprintf string_size (
          concat (
            codes "[ -f "
            ∷ filepath
            ∷ codes " ] && cp "
            ∷ filepath
            ∷ codes " "
            ∷ filepath
            ∷ codes ".sysvinit"
            ∷ [])))
    made ← mysystem os (
        snprintf string_size (
          concat (
            codes "echo '# Minimal inittab for OpenRC' > "
            ∷ root_path
            ∷ codes "/etc/inittab"
            ∷ [])))
    added ← mysystem os (
        snprintf string_size (
          concat (
            codes "echo 'ca::ctrlaltdel:/sbin/reboot' >> "
            ∷ root_path
            ∷ codes "/etc/inittab"
            ∷ [])))
    pure success
