-- ===== src/Installer/Hostname.antt =====
-- source/core/installer/host_domain.c: `writehostsfiles`, with a host and a domain that are not NULL.
use ipcop_alpine.Prelude.{ℕ, Bool, not, [], ◌∷◌, ◌++◌, ◌==◌, if◌then◌else◌}
use ipcop_alpine.Cstring.{Bytes, codes, concat, snprintf, string_size}
use ipcop_alpine.Kv.{success, failure}
use ipcop_alpine.Os.{
  Os, M, pure, ◌>>=◌, ◌>>◌, choose, when, call, act, fopen_write, fprintf, fclose, getgrnam,
  chown_web, chmod_660, system, sethostname,
}
use ipcop_alpine.Installer.{mysystem}

abbrev pub hostname_conf : Bytes
hostname_conf = codes "/var/ipcop/main/hostname.conf"

abbrev pub etc_hostname : Bytes
etc_hostname = codes "/etc/hostname"

unfoldable pub full_name : Bytes → Bytes → Bytes
full_name hostname domainname = concat (hostname ∷ codes "." ∷ domainname ∷ [])

unfoldable pub hostname_command : Bytes → Bytes
hostname_command fullhostname = snprintf string_size (
    concat (
      codes "hostname -F /etc/hostname 2>/dev/null || hostname '"
      ∷ fullhostname
      ∷ codes "' 2>/dev/null"
      ∷ []))

-- `in_chroot` is `flag_is_state == setupchroot`.
unfoldable pub writehostsfiles : Os → Bool → Bytes → Bytes → M ℕ
unfolding full_name hostname_command
writehostsfiles os in_chroot hostname domainname = do
  let fullhostname = snprintf string_size (full_name hostname domainname)
  rebuilt ← mysystem os (
      if in_chroot then codes "/usr/bin/rebuildhosts" else codes "/usr/bin/rebuildhosts --nosighup")
  conf ← call os (fopen_write hostname_conf)
  choose (not (conf == 0)) (pure failure) do
    group ← call os (getgrnam (codes "lighttpd"))
    when (group == 0) (act os (chown_web hostname_conf))
    act os (chmod_660 hostname_conf)
    act os (
        fprintf hostname_conf
          (concat (codes "ServerName " ∷ full_name hostname domainname ∷ codes "\n" ∷ [])))
    act os (fclose hostname_conf)
    file ← call os (fopen_write etc_hostname)
    when (file == 0) do
      act os (fprintf etc_hostname (full_name hostname domainname ++ codes "\n"))
      act os (fclose etc_hostname)
    named ← call os (sethostname fullhostname)
    when (not (named == 0)) (act os (system (hostname_command fullhostname)))
    pure success
