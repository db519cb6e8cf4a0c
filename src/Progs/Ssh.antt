-- ===== src/Progs/Ssh.antt =====
-- source/core/progs/restartssh.c
pub mod SedCommand
pub mod Config
use ipcop_alpine.Prelude.{
  ℕ, zero, suc, Bool, true, false, not, ◌&&◌, ◌||◌, List, [], ◌∷◌, ◌++◌, ◌==◌, leb, ◌+◌, ◌-◌, take,
  length, if◌then◌else◌,
}
use ipcop_alpine.Cstring.{Bytes, codes, c_string, string_size_large, snprintf}
use ipcop_alpine.Number.{is_negative, atoi, print_decimal}
use ipcop_alpine.Kv.{Kv, success, test_kv}
use ipcop_alpine.Kv.File.{read_kv_from_file}
use ipcop_alpine.Setuid.{require_setuid}
use ipcop_alpine.Setuid.Strlcat.{strlcat}
use ipcop_alpine.Progs.Signal.{sigterm}
use ipcop_alpine.Os.{
  Os, M, pure, ◌>>=◌, ◌>>◌, choose, when, exit, call, act, contents, system, unpriv_system, access,
  unlink, rename, open_exclusive, open_read, read_file, fclose, close, kill, sleep, get_errno,
  minus_one,
}

pub data SshOption : Type 0 where
  boot verbose help unknown : SshOption

pub record SshFlags : Type 0 where
  pub flag_boot : Bool
  pub flag_verbose : ℕ

unfoldable pub read_options : List SshOption → SshFlags → M SshFlags
read_options [] f = pure f
read_options (boot ∷ options) f = read_options options (record f { flag_boot = true })
read_options (verbose ∷ options) f =
    read_options options (record f { flag_verbose = f.flag_verbose + 1 })
read_options (help ∷ options) f = exit 0
read_options (unknown ∷ options) f = exit 1

abbrev pub new_config : Bytes
new_config = codes "/etc/ssh/sshd_config.new"

abbrev pub sshd_config : Bytes
sshd_config = codes "/etc/ssh/sshd_config"

abbrev pub sshd_pid : Bytes
sshd_pid = codes "/var/run/sshd.pid"

-- Linux: ENOENT
abbrev enoent : ℕ
enoent = 2

abbrev pub zeros : ℕ → Bytes
zeros zero = []
zeros (suc n) = 0 ∷ zeros n

unfoldable pub is_set : Kv → Bytes → Bytes → Bool
is_set kv key value = test_kv kv key value == success

-- The piece of the sed script that each setting chooses.
unfoldable pub protocol_edit : Kv → Bytes
protocol_edit kv =
    if is_set kv (codes "ENABLE_SSH_PROTOCOL1") (codes "on")
    then codes "s/^Protocol .*$/Protocol 2,1/;"
    else codes "s/^Protocol .*$/Protocol 2/;"

unfoldable pub keys_edit : Kv → Bytes
keys_edit kv =
    if is_set kv (codes "ENABLE_SSH_KEYS") (codes "off")
    then codes
        "s/^RSAAuthentication .*$/RSAAuthentication no/;s/^PubkeyAuthentication .*$/PubkeyAuthentication no/;"
    else codes
        "s/^RSAAuthentication .*$/RSAAuthentication yes/;s/^PubkeyAuthentication .*$/PubkeyAuthentication yes/;"

unfoldable pub passwords_edit : Kv → Bytes
passwords_edit kv =
    if is_set kv (codes "ENABLE_SSH_PASSWORDS") (codes "off")
    then codes "s/^PasswordAuthentication .*$/PasswordAuthentication no/;"
    else codes "s/^PasswordAuthentication .*$/PasswordAuthentication yes/;"

unfoldable pub forwarding_edit : Kv → Bytes
forwarding_edit kv =
    if is_set kv (codes "ENABLE_SSH_PORTFW") (codes "on")
    then codes "s/^AllowTcpForwarding .*$/AllowTcpForwarding yes/"
    else codes "s/^AllowTcpForwarding .*$/AllowTcpForwarding no/"

unfoldable pub redirection : ℕ → Bytes
redirection config_fd =
    snprintf (string_size_large - 1) (codes "' /etc/ssh/sshd_config >&" ++ print_decimal config_fd)

-- The array `command` as it is initialised, and after one `strlcat`.
unfoldable pub command_array : Bytes
command_array = codes "/bin/sed -e '" ++ zeros (string_size_large - length (codes "/bin/sed -e '"))

unfoldable pub append : Bytes → Bytes → Bytes
append command src = (strlcat command src (string_size_large - 1)).1

unfoldable pub ssh_command : Kv → ℕ → Bytes
unfolding command_array append protocol_edit keys_edit passwords_edit forwarding_edit redirection
ssh_command kv config_fd =
    let command = append command_array (protocol_edit kv) in
    let command = append command (keys_edit kv) in
    let command = append command (passwords_edit kv) in
    let command = append command (forwarding_edit kv) in
    c_string (append command (redirection config_fd))

module _ (os : Os) where
  -- From the new config file on; `config_fd` is its descriptor.
  unfoldable pub rebuild_config : Kv → ℕ → M (Unit {0}) → M (Unit {0})
  rebuild_config kv config_fd more = do
    rc ← call os (unpriv_system (ssh_command kv config_fd) 99 99)
    choose (not (rc == 0)) (do act os (close config_fd); act os (unlink new_config); exit 1)
        do
          act os (close config_fd)
          renamed ← call os (rename new_config sshd_config)
          choose (not (renamed == 0)) (do act os (unlink new_config); exit 1) more

  unfoldable pub stop_sshd : Bool → M (Unit {0})
  stop_sshd flag_boot = do
    fd ← call os (open_read sshd_pid)
    choose (fd == minus_one)
        (do errno ← call os get_errno; when (not flag_boot && not (errno == enoent)) (exit 1))
        (do
          rc ← call os (read_file sshd_pid)
          text ← contents os sshd_pid
          let pid = atoi (if rc == minus_one then [] else take (string_size_large - 1) text)
          when (not ((rc == minus_one) && not flag_boot)) do
            when (not (is_negative pid || leb pid 1)) do
              sent ← call os (kill pid sigterm)
              when (not (sent == minus_one)) (act os (unlink sshd_pid))
          act os (fclose sshd_pid))

  unfoldable pub start_sshd : ℕ → M (Unit {0})
  start_sshd flag_verbose = do
    act os (system (codes "/usr/sbin/sshd"))
    act os (sleep 1)
    there ← call os (access sshd_pid)
    when (not (there == minus_one) && leb 2 flag_verbose)
        (act os (system (codes "echo -n \"SSHd running with PID \" && cat /var/run/sshd.pid")))

  unfoldable pub restart : SshFlags → M (Unit {0})
  restart f = do
    (rc, kv) ← read_kv_from_file os [] (codes "/var/ipcop/remote/settings")
    choose (not (rc == success)) (exit 1) do
      config_fd ← call os (open_exclusive new_config)
      choose (config_fd == minus_one) (exit 1) do
        let enabled = is_set kv (codes "ENABLE_SSH") (codes "on")
        rebuild_config kv config_fd
            do stop_sshd f.flag_boot; when enabled (start_sshd f.flag_verbose); exit 0

  unfoldable pub main : List SshOption → M (Unit {0})
  main options = do
    require_setuid os
    f ← read_options options (record { flag_boot = false; flag_verbose = 0 })
    restart f
