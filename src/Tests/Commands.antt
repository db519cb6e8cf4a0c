-- ===== src/Tests/Commands.antt =====
-- The programs that build commands from settings and lines, on small inputs.
use ipcop_alpine.Prelude.{
  ℕ, List, ◌≡◌, ◌↔◌, ◌⊎◌, refl, inl, true, false, [], ◌∷◌, ◌++◌, some, All, arith, length, ◌<◌,
}
use ipcop_alpine.Cstring.{
  Bytes, codes, concat, strcmp_eq, has_byte, all_in, before, after, from, string_size_large,
}
use ipcop_alpine.Kv.{Kv, find_kv_default}
use ipcop_alpine.Valid.{valid_ip, valid_short_mask, in_range, scan_ip}
use ipcop_alpine.Ethernet.{zapped}
use ipcop_alpine.Os.{Os, history_of}
use ipcop_alpine.Os.Exits.{Exits}
use ipcop_alpine.Os.Tidy.{is_pending}
use ipcop_alpine.Cstring.{strsep_fields, chop_newline}
use ipcop_alpine.Progs.Ssh
use ipcop_alpine.Progs.Ssh.{
  SshOption, new_config, ssh_command, protocol_edit, keys_edit, passwords_edit, forwarding_edit,
}
use ipcop_alpine.Progs.Ssh.Config.{main-new_config}
use ipcop_alpine.Progs.Ssh.SedCommand.{ssh_command_lem, redirected}
use ipcop_alpine.Progs.Syslog
use ipcop_alpine.Progs.Syslog.{SyslogOption}
use ipcop_alpine.Progs.Syslog.Command.{IsAllowed, main-IsAllowed}
use ipcop_alpine.Progs.Ipsec.{Tunnel, Scan, decode_line, scan_lines}
use ipcop_alpine.Progs.Ipsec.Tunnels.{
  IsTunnel, IsScanned, decode_line-IsTunnel, scan_lines-IsScanned,
}
use ipcop_alpine.Progs.Ipsec.Control
use ipcop_alpine.Progs.Ipsec.Control.{IpsecOption}
use ipcop_alpine.Progs.Ipsec.Endings.{ipsec-Exits}
use ipcop_alpine.Progs.Backup.{accepts}
use ipcop_alpine.Progs.Backup.Versions.{pack, AtLeast, accepts_iff}
use ipcop_alpine.Progs.Email.{
  EmailSettings, Parts, accepted, email_settings, setting, require, is_server, is_port, is_user,
  is_password, is_from, is_to, email_command, email_text, verbose_text,
}
use ipcop_alpine.Progs.Email.Command.{PartsFit, email_command_lem}
use ipcop_alpine.Services.Squid.{fault, network, bypass_line}
use ipcop_alpine.Services.Squid.Bypass.{
  IsNetLine, IsNetwork, network_field, bypass_line-IsNetwork, bypass_line-fault,
}
use ipcop_alpine.Os.Guard.{IsGuarded}
use ipcop_alpine.Setuid.Log.Lines.{IsLine}
use ipcop_alpine.Valid.Title.{is_paren}
use ipcop_alpine.Cstring.{is_newline}
use ipcop_alpine.Progs.Package.{PackageFlags, check_package}
use ipcop_alpine.Progs.Package.Signature.{signature_lock, check_package-IsGuarded}
use ipcop_alpine.Progs.Restore.{no_flags}
use ipcop_alpine.Progs.Restore.Steps.{open_archive}
use ipcop_alpine.Progs.Restore.Archive.{archive_lock, open_archive-IsGuarded}

abbrev plain : Os
plain = record {
  status = λ h c. 0;
  text = λ h file. codes "ENABLE_SSH_KEYS=off\nREMOTELOG_ADDR=log.lan\n";
}

abbrev ssh_settings : Kv
ssh_settings = record { key = codes "ENABLE_SSH_KEYS"; value = codes "off" } ∷ []

main-new_config_example :
    is_pending plain new_config (history_of (Ssh.main plain (SshOption.boot ∷ []) [])) ≡ false
main-new_config_example = main-new_config plain (SshOption.boot ∷ [])

ssh_command_lem_example :
    ssh_command ssh_settings 5
    ≡ concat (
        codes "/bin/sed -e '"
        ∷ protocol_edit ssh_settings
        ∷ keys_edit ssh_settings
        ∷ passwords_edit ssh_settings
        ∷ forwarding_edit ssh_settings
        ∷ redirected 5
        ∷ [])
ssh_command_lem_example = ssh_command_lem ssh_settings 5

main-IsAllowed_example :
    All (IsAllowed plain) (history_of (Syslog.main plain (SyslogOption.verbose ∷ []) []))
main-IsAllowed_example = main-IsAllowed plain (SyslogOption.verbose ∷ [])

abbrev tunnel_line : Bytes
tunnel_line = codes "7,on,office,,net,,,,,,,,10.1.0.0/16,,,,,,,,,,,,,,,RED,,\n"

abbrev office : Tunnel
office = record {
  key = codes "7";
  name = codes "office";
  type = codes "net";
  interface = codes "RED";
}

decode_run : decode_line tunnel_line ≡ some office
unfolding decode_line codes strsep_fields chop_newline strcmp_eq all_in
decode_run = refl

decode_line-IsTunnel_example :
    (decode_line tunnel_line ≡ some office)
    ↔ IsTunnel (strsep_fields [] (chop_newline tunnel_line)) office
decode_line-IsTunnel_example = decode_line-IsTunnel tunnel_line office

abbrev fresh : Scan
fresh = record { enable_red = 0; enable_blue = 0 }

scan_lines-IsScanned_example : IsScanned zapped (scan_lines zapped (tunnel_line ∷ []) fresh)
scan_lines-IsScanned_example =
    scan_lines-IsScanned zapped (tunnel_line ∷ []) fresh
      (record { red_state = inl refl; blue_state = inl refl })

ipsec-Exits_example :
    Exits (Control.main plain (IpsecOption.start (some (codes "7")) ∷ IpsecOption.verbose ∷ []))
ipsec-Exits_example =
    ipsec-Exits plain (IpsecOption.start (some (codes "7")) ∷ IpsecOption.verbose ∷ [])

accepts_iff_example : (accepts (pack 2 0 3) (pack 2 0 1) ≡ true) ↔ (
    AtLeast (2, 0, 3) (1, 9, 9)
    × (AtLeast (2, 0, 1) (2, 0, 3) ⊎ (◌≡◌ {A = ℕ} 2 2 × ◌≡◌ {A = ℕ} 0 0)))
accepts_iff_example =
    accepts_iff 2 0 3 2 0 1 (omega arith) (omega arith) (omega arith) (omega arith) (omega arith)
      (omega arith) (λ e. omega arith)

bypass_line-IsNetwork_example :
    (bypass_line tunnel_line ≡ network (codes "10.1.0.0") (codes "16"))
    ↔ IsNetwork tunnel_line (codes "10.1.0.0") (codes "16")
bypass_line-IsNetwork_example = bypass_line-IsNetwork tunnel_line (codes "10.1.0.0") (codes "16")

abbrev bare_line : Bytes
bare_line = codes "7,on,office,,net,,,,,,,,10.1.0.0,,,,,,,,,,,,,,,RED,,\n"

bypass_run : bypass_line tunnel_line ≡ network (codes "10.1.0.0") (codes "16")
unfolding bypass_line codes strsep_fields chop_newline all_in strcmp_eq valid_ip before in_range
    scan_ip from after valid_short_mask
bypass_run = refl

fault_run : bypass_line bare_line ≡ fault
unfolding bypass_line codes strsep_fields chop_newline all_in strcmp_eq valid_ip before in_range
    scan_ip from
fault_run = refl

bypass_line-fault_example : (bypass_line bare_line ≡ fault) ↔ (
    IsNetLine bare_line
    × (valid_ip (network_field bare_line) ≡ true)
    × (has_byte b'/' (network_field bare_line) ≡ false))
bypass_line-fault_example = bypass_line-fault bare_line

abbrev mail_kv : Kv
mail_kv =
    record { key = codes "EMAIL_SERVER"; value = codes "mail.lan" }
    ∷ record { key = codes "EMAIL_SERVER_PORT"; value = codes "25" }
    ∷ record { key = codes "EMAIL_USR"; value = codes "box" }
    ∷ record { key = codes "EMAIL_PW"; value = codes "key" }
    ∷ record { key = codes "EMAIL_FROM"; value = codes "a@b.lan" }
    ∷ record { key = codes "EMAIL_TO"; value = codes "c@b.lan" }
    ∷ []

abbrev mail : EmailSettings
mail = record {
  server = codes "mail.lan";
  opt_port = codes "25";
  opt_user = codes "box";
  opt_password = codes "key";
  from = codes "a@b.lan";
  to = codes "c@b.lan";
  tls = codes "auto";
}

mail_run : email_settings mail_kv ≡ accepted mail
unfolding email_settings setting require is_server is_port is_user is_password is_from is_to codes
    find_kv_default strcmp_eq has_byte all_in
mail_run = refl

abbrev parts : Parts
parts = record { subject = codes "-u \"hello\""; message = codes "-m \" \""; attachment = [] }

parts_fit : PartsFit parts
unfolding codes
parts_fit = record {
  subject_fits = omega arith;
  message_fits = omega arith;
  attachment_fits = omega arith;
}

email_command_lem_example :
    (email_command 1 mail parts ≡ email_text mail parts ++ verbose_text 1)
    × (length (email_command 1 mail parts) < string_size_large)
email_command_lem_example = email_command_lem mail_kv mail parts 1 mail_run parts_fit

abbrev update : PackageFlags
update = record {
  flag_install = true;
  flag_test = false;
  upgrade_filename = codes "/var/patches/update.tgz.gpg";
}

abbrev update_dir : Bytes
update_dir = codes "/var/patches/install_abc"

no_history : IsGuarded plain (signature_lock update_dir update.upgrade_filename) []
unfolding IsGuarded
no_history = tt

check_package-IsGuarded_example :
    IsGuarded plain
      (signature_lock update_dir update.upgrade_filename)
      (history_of (check_package plain update_dir update []))
check_package-IsGuarded_example = check_package-IsGuarded plain update_dir update [] no_history

abbrev archive_dir : Bytes
archive_dir = codes "/tmp/cfg_abc"

abbrev archive_file : Bytes
archive_file = codes "/var/www/ipcop/html/backup/fw.dat"

no_calls : IsGuarded plain (archive_lock archive_dir (codes "fw")) []
unfolding IsGuarded
no_calls = tt

open_archive-IsGuarded_example : IsGuarded plain (archive_lock archive_dir (codes "fw")) (
    history_of (
      open_archive plain archive_dir (codes "/tmp/date.abc") (codes "fw") no_flags archive_file []))
open_archive-IsGuarded_example =
    open_archive-IsGuarded plain archive_dir (codes "/tmp/date.abc") (codes "fw") no_flags
      archive_file [] no_calls

abbrev two_lines : List Bytes
two_lines = codes "done" ∷ codes "2 of 2" ∷ []

two_lines-IsLine : All IsLine two_lines
unfolding codes is_newline
two_lines-IsLine = (
  record { some_byte = refl; no_newline = (refl, (refl, (refl, (refl, tt)))) },
  (
    record { some_byte = refl; no_newline = (refl, (refl, (refl, (refl, (refl, (refl, tt)))))) },
    tt,
  ),
)

abbrev name : Bytes
name = codes "IPCop v2"

abbrev tty : Bytes
tty = codes "tty1)"

name_no_newline : All (λ c. is_newline c ≡ false) name
unfolding codes is_newline
name_no_newline = (refl, (refl, (refl, (refl, (refl, (refl, (refl, (refl, tt))))))))

tty_no_newline : All (λ c. is_newline c ≡ false) tty
unfolding codes is_newline
tty_no_newline = (refl, (refl, (refl, (refl, (refl, tt)))))

name_no_paren : All (λ c. is_paren c ≡ false) name
unfolding codes is_paren
name_no_paren = (refl, (refl, (refl, (refl, (refl, (refl, (refl, (refl, tt))))))))
